-- ===== src/Snapshot/Progress.antt =====
-- dmirror_snapshot of hmm.c: how many pages it counts.
use rshm_hmm.Base.{
  ℕ, zero, suc, ◌+◌, ◌-◌, ◌*◌, ◌≤◌, ◌<◌, ◌≡◌, sym, inl, inr, Bool, true, Option, Option-cases, none,
  some, List, arith, ltb, ◌==◌, Bool-cases, subst,
}
use rshm_hmm.Kernel.{XArray, UserSpace, word, page_size, shr_page}
use rshm_hmm.Mirror.{Dmirror, Notice}
use rshm_hmm.Bounce.{Cmd}
use rshm_hmm.Faulting.{Attempt, next_chunk, chunk_pages}
use rshm_hmm.Faulting.Chunks.{next_chunk-shr_page}
use rshm_hmm.Snapshot.{PageKind, Taken, range_snapshot, snapshot_loop}

module _ (xa : XArray) (meets : ℕ → ℕ → Notice → Bool) (us : UserSpace) (kind : ℕ → PageKind)
    (insert seq : ℕ) where
  open xa use {Xa}
  open us use {User, copy_bytes}

  -- At most `n` pages are counted on top of `c`, and all of them with the result 0.
  abbrev pub Counts : ℕ → ℕ → Option (Taken Xa User) → Type 0
  Counts c n none = Unit {0}
  Counts c n (some t) = (t.cmd.cpages ≤ c + n) × (t.ret ≡ 0 → t.cmd.cpages ≡ c + n)

  Counts-later :
      (c n k m : ℕ) (o : Option (Taken Xa User)) → m + k ≡ n → Counts (c + k) m o → Counts c n o
  Counts-later c n k m none e h = tt
  Counts-later c n k m (some t) e (below, all) = (omega (arith, below), λ z. omega (arith, all z))

  -- One round, given what the rounds behind it lead to.
  snapshot_loop_step :
      (fuel addr end p e q uptr : ℕ) (attempts : List Attempt) (d : Dmirror Xa) (u : User)
      (cmd : Cmd)
      → ltb addr end ≡ true
      → shr_page (next_chunk addr end - addr) ≡ q - p
      → p < q
      → q ≤ e
      → ((as' : List Attempt) (d' : Dmirror Xa) (u' : User) (c : Cmd) (uptr' : ℕ)
          → Counts c.cpages (e - q) (
              snapshot_loop xa meets us kind insert seq fuel
                (next_chunk addr end)
                end
                uptr'
                as'
                d'
                u'
                c))
      → Counts cmd.cpages
          (e - p)
          (snapshot_loop xa meets us kind insert seq (suc fuel) addr end uptr attempts d u cmd)
  unfolding snapshot_loop
  snapshot_loop_step fuel addr end p e q uptr attempts d u cmd more count lt le later =
      let next : ℕ = next_chunk addr end in
      rw (more, snapshot_loop)
        (elim (Option-cases (range_snapshot xa meets kind insert seq addr next attempts d)) [
          | inl going ↦ rw (going, snapshot_loop) tt
          | inr (s, shot) ↦
              rw (shot, snapshot_loop)
                (elim (Bool-cases (s.ret == 0)) [
                  | inr failed ↦
                      rw (failed, snapshot_loop) (omega arith, λ z. absurd (ground arith))
                  | inl taken ↦
                      rw (taken, snapshot_loop)
                        (elim (Bool-cases (copy_bytes u uptr s.perm).1) [
                          | inl fault ↦
                              rw (fault, snapshot_loop) (omega arith, λ z. absurd (omega arith))
                          | inr copied ↦
                              let n : ℕ = shr_page (next - addr) in
                              let c : Cmd = record cmd { cpages = cmd.cpages + n } in
                              rw (copied, snapshot_loop)
                                (Counts-later cmd.cpages (e - p) n (e - q)
                                  (snapshot_loop xa meets us kind insert seq fuel next end
                                    (uptr + n) s.attempts s.mirror (copy_bytes u uptr s.perm).0 c)
                                  (omega (arith, count))
                                  (later s.attempts s.mirror (copy_bytes u uptr s.perm).0 c
                                    (uptr + n)))
                        ])
                ])
        ])

  -- The loop of dmirror_snapshot over the page frames from `p` to `e`, where the range ends a chunk
  -- below 2^64: if it ends, it has counted at most the pages of the range, and all of them if it
  -- returns 0, whatever callbacks came in.
  pub snapshot_loop-Counts :
      (fuel p e : ℕ) (uptr : ℕ) (attempts : List Attempt) (d : Dmirror Xa) (u : User) (cmd : Cmd)
      → p ≤ e
      → e * page_size + chunk_pages * page_size ≤ word
      → Counts cmd.cpages (e - p) (
          snapshot_loop xa meets us kind insert seq fuel
            (p * page_size)
            (e * page_size)
            uptr
            attempts
            d
            u
            cmd)
  unfolding snapshot_loop
  snapshot_loop-Counts zero p e uptr attempts d u cmd le fits = tt
  snapshot_loop-Counts (suc fuel) p e uptr attempts d u cmd le fits =
      elim (Bool-cases (ltb (p * page_size) (e * page_size))) [
        | inr done ↦ rw (done, snapshot_loop) (omega arith, λ z. ground arith)
        | inl more ↦
            let (q, at, lt, hi, chunk) = next_chunk-shr_page p e (ground arith) fits in
            snapshot_loop_step fuel (p * page_size) (e * page_size) p e q uptr attempts d u cmd more
              (omega (arith, at)) lt hi
              λ as' d' u' c uptr'.
                subst
                  (λ (t : ℕ). Counts c.cpages (e - q) (
                    snapshot_loop xa meets us kind insert seq fuel t (e * page_size) uptr' as' d' u'
                      c))
                  (sym at) (snapshot_loop-Counts fuel q e uptr' as' d' u' c hi fits)
      ]
