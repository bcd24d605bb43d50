-- ===== src/Transfer/Writing.antt =====
-- dmirror_write of hmm.c: what it counts, whatever others do in between.
use rshm_hmm.Base.{
  ℕ, zero, suc, ◌+◌, ◌*◌, ◌≤◌, ◌<◌, ◌≡◌, ◌∙◌, inl, inr, Bool, true, arith, ◌==◌, Bool-cases,
  Option-cases,
}
use rshm_hmm.Kernel.{Memory, XArray, word, page_size, shl_page, add64, enoent}
use rshm_hmm.Mirror.{lock, unlock}
use rshm_hmm.Bounce.{Cmd, Bounce, do_write}
use rshm_hmm.Bounce.Write.{do_write-Counted}
use rshm_hmm.Faulting.{State}
use rshm_hmm.Transfer.{write_loop, fault_range}
use rshm_hmm.Transfer.Progress.{Counts}

module _ (xa : XArray) where
  open xa use {Xa}

  -- A state in which the loop goes on: the pages that are counted stand before `start`.
  record At (p n start end : ℕ) (cmd : Cmd) (b : Bounce) : Type 0 where
    start_at : cmd.addr ≡ p * page_size
    same : b.addr ≡ cmd.addr
    start_eq : start ≡ (p + b.cpages) * page_size
    end_eq : end ≡ (p + n) * page_size
    le : b.cpages ≤ n

  -- A call of dmirror_do_write leads to such a state, and is done if it returns 0.
  write_pass :
      (p n start end : ℕ) (cmd : Cmd) (b : Bounce) (s : State Xa) (faults : ℕ)
      → (p + n) * page_size < word
      → At p n start end cmd b
      → let r = do_write xa (lock s.mirror) start end b s.memory in
        At p n (add64 cmd.addr (shl_page r.0.cpages)) end (record cmd { faults = faults }) r.0
        × (r.2 ≡ 0 → r.0.cpages ≡ n)
  write_pass p n start end cmd b s faults fits h =
      let c = do_write-Counted xa (lock s.mirror) start end b s.memory in
      let r : Bounce = (do_write xa (lock s.mirror) start end b s.memory).0 in
      let bound : r.cpages ≤ n = omega (arith, c.bound, h.start_eq, h.end_eq, h.le) in
      (
        record {
          start_at = h.start_at;
          same = c.addr ∙ h.same;
          start_eq = omega (arith, bound, h.start_at);
          end_eq = h.end_eq;
          le = bound;
        },
        λ z. omega (arith, c.all z, h.start_eq, h.end_eq, h.le),
      )

  write_loop_run :
      (fuel : ℕ) (alive : Bool) (cmd : Cmd) (p n start end : ℕ) (b : Bounce) (s : State Xa)
      → (p + n) * page_size < word
      → At p n start end cmd b
      → Counts xa n (write_loop xa fuel alive cmd start end b s)
  unfolding write_loop
  write_loop_run zero alive cmd p n start end b s fits h = tt
  write_loop_run (suc fuel) alive cmd p n start end b s fits h =
      let r : Bounce × Memory × ℕ = do_write xa (lock s.mirror) start end b s.memory in
      let (on, all) = write_pass p n start end cmd b s (cmd.faults + 1) fits h in
      let next : ℕ = add64 cmd.addr (shl_page r.0.cpages) in
      let unlocked : State Xa = record s { mirror = unlock s.mirror; memory = r.1 } in
      elim (Bool-cases (r.2 == enoent)) [
        | inr done ↦ rw (done, write_loop) (on.le, all)
        | inl missing ↦
            rw (missing, write_loop)
              (elim (Option-cases (fault_range xa alive next end true unlocked)) [
                | inl going ↦ rw (going, write_loop) tt
                | inr ((t, ret), e) ↦
                    rw (e, write_loop)
                      (elim (Bool-cases (ret == 0)) [
                        | inr failed ↦ rw (failed, write_loop) (on.le, λ z. absurd (ground arith))
                        | inl served ↦
                            rw (served, write_loop)
                              (write_loop_run fuel alive (record cmd { faults = cmd.faults + 1 }) p
                                n next end r.0 t fits on)
                      ])
              ])
      ]

  -- The loop of dmirror_write on a page-aligned command of `n` pages from page frame `p` on, of
  -- which some are counted: whatever others do in between and whatever pages there are, it never
  -- counts more than `n` pages, and it counts all of them if it returns 0.
  pub write_loop-Counts :
      (fuel : ℕ) (alive : Bool) (cmd : Cmd) (p n start end : ℕ) (b : Bounce) (s : State Xa)
      → cmd.addr ≡ p * page_size
      → b.addr ≡ cmd.addr
      → start ≡ (p + b.cpages) * page_size
      → end ≡ (p + n) * page_size
      → b.cpages ≤ n
      → (p + n) * page_size < word
      → Counts xa n (write_loop xa fuel alive cmd start end b s)
  write_loop-Counts fuel alive cmd p n start end b s at same start_eq end_eq le fits =
      write_loop_run fuel alive cmd p n start end b s fits
        (record { start_at = at; same = same; start_eq = start_eq; end_eq = end_eq; le = le })
