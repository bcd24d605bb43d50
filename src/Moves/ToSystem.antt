-- ===== src/Moves/ToSystem.antt =====
-- dmirror_migrate_to_system of hmm.c: the loop over the areas of a range.
use rshm_hmm.Base.{
  ℕ, zero, suc, ◌+◌, ◌-◌, ◌*◌, ◌%◌, ◌≤◌, ◌<◌, ◌≡◌, refl, inl, inr, Bool, Option, none, some, List,
  [], ◌∷◌, length, arith, ltb, ◌==◌, ltb→lt, ge→ltb, Bool-cases,
}
use rshm_hmm.Kernel.{XArray, word, page_size, shr_page, shl_page, add64, einval}
use rshm_hmm.Bounce.{Cmd}
use rshm_hmm.Faulting.{chunk_pages, next_chunk}
use rshm_hmm.Migrate.{Pfns, successful}
use rshm_hmm.Moves.{
  Round, Vma, Site, Ended, readable, next_addr, to_system_round, to_system_loop, migrate_to_system,
}

successful_le : (src : Pfns) (n i : ℕ) → successful src n i ≤ n
unfolding successful
successful_le src zero i = omega arith
successful_le src (suc n) i = ground (arith, successful_le src n (i + 1))

-- vma_lookup gives an area that ends behind the address, at the end of a page.
abbrev pub EndsBehind : Option Vma → ℕ → Type 0
EndsBehind none addr = Unit {0}
EndsBehind (some vma) addr = (addr < vma.vm_end) × (vma.vm_end % page_size ≡ 0)

-- The areas of the rounds, and no more pages isolated than the round has.
abbrev pub Areas : List Round → ℕ → ℕ → Type 0
Areas [] addr end = Unit {0}
Areas (r ∷ rs) addr end =
    EndsBehind r.vma addr
    × (r.npages ≤ shr_page (next_addr r.vma addr end) - shr_page addr)
    × Areas rs (next_addr r.vma addr end) end

pub next_addr_bounds :
    (vma : Option Vma) (addr end : ℕ)
    → addr < end
    → addr % page_size ≡ 0
    → end % page_size ≡ 0
    → end + chunk_pages * page_size ≤ word
    → EndsBehind vma addr
    → (addr < next_addr vma addr end)
      × (next_addr vma addr end ≤ end)
      × (next_addr vma addr end % page_size ≡ 0)
unfolding next_chunk
next_addr_bounds none addr end lt at to fits area = (omega arith, omega arith, omega arith)
next_addr_bounds (some vma) addr end lt at to fits area =
    (ground (arith, area), ground (arith, area), ground (arith, area))

-- Where a loop ends: it returned, and counted no more than the pages of its range.
pub record Counted (S : Type 0) (o : Option (Ended S)) (limit : ℕ) : Type 0 where
  pub ended : Ended S
  pub is : o ≡ some ended
  pub count : ended.cpages ≤ limit

module _ (xa : XArray) where
  open xa use {Xa}

  to_system_loop-Counted :
      (rs : List Round) (addr end c ret : ℕ) (s : Site Xa)
      → addr ≤ end
      → addr % page_size ≡ 0
      → end % page_size ≡ 0
      → end + chunk_pages * page_size ≤ word
      → Areas rs addr end
      → shr_page end - shr_page addr ≤ length rs
      → Counted
          (Site Xa)
          (to_system_loop xa rs addr end c ret s)
          (c + (shr_page end - shr_page addr))
  unfolding to_system_loop
  to_system_loop-Counted [] addr end c ret s le at to fits areas enough =
      simp (ge→ltb addr end (omega (arith, enough, at, to)), to_system_loop)
        (record {
          ended = record { state = s; cpages = c; ret = ret };
          is = refl;
          count = omega arith;
        })
  to_system_loop-Counted (r ∷ rs) addr end c ret s le at to fits (area, few, areas) enough =
      elim (Bool-cases (ltb addr end)) [
        | inr done ↦
            simp (done, to_system_loop)
              (record {
                ended = record { state = s; cpages = c; ret = ret };
                is = refl;
                count = omega arith;
              })
        | inl more ↦
            simp (more, to_system_loop)
              (elim (Bool-cases (readable r.vma)) [
                | inr bad ↦
                    simp (bad, to_system_loop)
                      (record {
                        ended = record { state = s; cpages = c; ret = einval };
                        is = refl;
                        count = omega arith;
                      })
                | inl good ↦
                    simp (good, to_system_loop)
                      (elim (Bool-cases (r.setup == 0)) [
                        | inr failed ↦
                            simp (failed, to_system_loop)
                              (record {
                                ended = record { state = s; cpages = c; ret = r.setup };
                                is = refl;
                                count = omega arith;
                              })
                        | inl begun ↦
                            simp (begun, to_system_loop)
                              (let (lo, hi, next_at) =
                                  next_addr_bounds r.vma addr end (ltb→lt addr end more) at to fits
                                    area in
                                let rest =
                                  to_system_loop-Counted rs (next_addr r.vma addr end) end
                                    (c + successful r.after r.npages 0) 0
                                    (to_system_round xa r addr (next_addr r.vma addr end) s) hi
                                    next_at to fits areas
                                    (omega (arith, enough, lo, hi, next_at, at)) in
                                record {
                                  ended = rest.ended;
                                  is = rest.is;
                                  count = omega (
                                    arith,
                                    rest.count,
                                    successful_le r.after r.npages 0,
                                    few,
                                    lo,
                                    hi,
                                    next_at,
                                    at,
                                  );
                                })
                      ])
              ])
      ]

  -- dmirror_migrate_to_system on a page-aligned range that does not reach the last 64 pages below
  -- 2^64, where an area that the kernel finds ends behind the address and at the end of a page, a round
  -- isolates no more pages than it has, and the count of the command is at most its pages, ends after at
  -- most as many rounds as the range has pages, with no more pages counted than that.
  pub migrate_to_system-ends :
      (rs : List Round) (alive : Bool) (junk : ℕ) (s : Site Xa) (cmd : Cmd)
      → cmd.addr % page_size ≡ 0
      → cmd.addr + cmd.npages * page_size + chunk_pages * page_size ≤ word
      → Areas rs cmd.addr (cmd.addr + cmd.npages * page_size)
      → cmd.npages ≤ length rs
      → cmd.cpages ≤ cmd.npages
      → (s' : Site Xa) × (cmd' : Cmd) × (ret : ℕ) × (migrate_to_system xa rs alive junk s cmd
          ≡ some (s', cmd', ret))
        × (cmd'.cpages ≤ cmd.npages)
        × (cmd' ≡ record cmd { cpages = cmd'.cpages })
  unfolding migrate_to_system
  migrate_to_system-ends rs alive junk s cmd at fits areas enough count =
      let end : ℕ = cmd.addr + cmd.npages * page_size in
      let same : add64 cmd.addr (shl_page cmd.npages) ≡ end = omega arith in
      let counted =
        to_system_loop-Counted rs cmd.addr end 0 junk s (omega arith) at (omega (arith, at)) fits
          areas (omega (arith, enough, at)) in
      rw (same, ge→ltb end cmd.addr (omega arith))
        (elim (Bool-cases alive) [
          | inr dead ↦ rw dead (s, cmd, einval, refl, count, refl)
          | inl lives ↦
              rw (lives, counted.is, migrate_to_system)
                (
                  counted.ended.state,
                  record cmd { cpages = counted.ended.cpages },
                  counted.ended.ret,
                  refl,
                  omega (arith, counted.count, at),
                  refl,
                )
        ])
