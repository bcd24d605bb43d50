-- ===== src/Moves/Rounds.antt =====
-- The loop of dmirror_migrate_to_device of hmm.c as a sequence of rounds.
use rshm_hmm.Base.{
  ℕ, ◌+◌, ◌-◌, ◌*◌, ◌%◌, ◌≤◌, ◌<◌, ◌≡◌, ◌≢◌, refl, inl, inr, true, false, Option, some, List, [],
  ◌∷◌, length, arith, ltb, ◌==◌, ==→eq, ltb→lt, ge→ltb, Bool-cases,
}
use rshm_hmm.Kernel.{XArray, word, page_size, shr_page, einval}
use rshm_hmm.Faulting.{chunk_pages}
use rshm_hmm.Moves.{Round, Site, readable, next_addr, to_device_round, to_device_loop}
use rshm_hmm.Moves.ToSystem.{Areas, next_addr_bounds}

module _ (xa : XArray) (own : ℕ) where
  open xa use {Xa}

  -- Rounds from `addr` to `end`, from one state to another, with the result: they reach the end; or one
  -- of them has no area that may be read, or cannot be set up, and is the last; or one is made, and the
  -- rest begin where it ends.
  pub data Rounds : List Round → ℕ → ℕ → Site Xa → Site Xa → ℕ → Type 0 where
    reached : {rs : List Round} {addr end : ℕ} {s : Site Xa} → end ≤ addr → Rounds rs addr end s s 0
    no_area :
        {r : Round} {rs : List Round} {addr end : ℕ} {s : Site Xa}
        → addr < end
        → readable r.vma ≡ false
        → Rounds (r ∷ rs) addr end s s einval
    no_setup :
        {r : Round} {rs : List Round} {addr end : ℕ} {s : Site Xa}
        → addr < end
        → readable r.vma ≡ true
        → r.setup ≢ 0
        → Rounds (r ∷ rs) addr end s s r.setup
    made :
        {r : Round} {rs : List Round} {addr end ret : ℕ} {s s' : Site Xa}
        → addr < end
        → readable r.vma ≡ true
        → r.setup ≡ 0
        → Rounds rs
            (next_addr r.vma addr end)
            end
            (to_device_round xa own r addr (next_addr r.vma addr end) s)
            s'
            ret
        → Rounds (r ∷ rs) addr end s s' ret

  -- A loop that has ended.
  abbrev Over : List Round → ℕ → ℕ → Site Xa → Option (Site Xa × ℕ) → Type 0
  Over rs addr end s o =
      (s' : Site Xa) × (ret : ℕ) × (o ≡ some (s', ret)) × Rounds rs addr end s s' ret

  pub to_device_loop-Over :
      (rs : List Round) (addr end : ℕ) (s : Site Xa)
      → addr ≤ end
      → addr % page_size ≡ 0
      → end % page_size ≡ 0
      → end + chunk_pages * page_size ≤ word
      → Areas rs addr end
      → shr_page end - shr_page addr ≤ length rs
      → Over rs addr end s (to_device_loop xa own rs addr end s)
  unfolding to_device_loop
  to_device_loop-Over [] addr end s le at to fits areas enough =
      simp (ge→ltb addr end (omega (arith, enough, at, to)), to_device_loop)
        (s, 0, refl, reached (omega (arith, enough, at, to)))
  to_device_loop-Over (r ∷ rs) addr end s le at to fits (area, _, areas) enough =
      elim (Bool-cases (ltb addr end)) [
        | inr done ↦ simp (done, to_device_loop) (s, 0, refl, reached (ground (arith, done)))
        | inl more ↦
            let lt = ltb→lt addr end more in
            let (lo, hi, next_at) = next_addr_bounds r.vma addr end lt at to fits area in
            let (s', ret, is, run) =
              to_device_loop-Over rs (next_addr r.vma addr end) end
                (to_device_round xa own r addr (next_addr r.vma addr end) s) hi next_at to fits
                areas (omega (arith, enough, lo, hi, next_at, at)) in
            simp (more, to_device_loop)
              (elim (Bool-cases (readable r.vma)) [
                | inr bad ↦ simp (bad, to_device_loop) (s, einval, refl, no_area lt bad)
                | inl good ↦
                    simp (good, to_device_loop)
                      (elim (Bool-cases (r.setup == 0)) [
                        | inr failed ↦
                            simp (failed, to_device_loop)
                              (s, r.setup, refl, no_setup lt good (ground (arith, failed)))
                        | inl begun ↦
                            simp (begun, to_device_loop)
                              (s', ret, is, made lt good (==→eq r.setup 0 begun) run)
                      ])
              ])
      ]
