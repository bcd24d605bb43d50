-- ===== src/Transfer/Progress.antt =====
-- dmirror_read of hmm.c: what holds of it whatever others do in between, and where it never ends.
use rshm_hmm.Base.{
  ℕ, zero, suc, ◌+◌, ◌-◌, ◌*◌, ◌≤◌, ◌<◌, ◌≡◌, refl, ◌∙◌, inl, inr, Bool, false, arith, ◌==◌, ltb,
  none, some, Option, Bool-cases, Option-cases,
}
use rshm_hmm.Kernel.{XArray, word, page_size, shr_page, shl_page, add64, enoent}
use rshm_hmm.Mirror.{lock, unlock}
use rshm_hmm.Bounce.{Cmd, Bounce, do_read}
use rshm_hmm.Bounce.Read.{Copied, do_read-Copied}
use rshm_hmm.Faulting.{State}
use rshm_hmm.Faulting.Quiet.{fault_dead}
use rshm_hmm.Transfer.{Moved, read_loop, fault_range}

module _ (xa : XArray) where
  open xa use {Xa, load}

  -- A loop that is still going, or one that ended with at most the pages that were asked for, and
  -- with all of them if it reports success.
  abbrev pub Counts : ℕ → Option (Moved Xa) → Type 0
  Counts n none = Unit {0}
  Counts n (some m) = (m.bounce.cpages ≤ n) × (m.ret ≡ 0 → m.bounce.cpages ≡ n)

  -- One call of dmirror_do_read from behind the pages that are counted.
  pub record Pass (p n : ℕ) (cmd : Cmd) (b' : Bounce) (ret : ℕ) : Type 0 where
    pub addr : b'.addr ≡ cmd.addr
    pub counted : b'.cpages ≤ n
    pub all : ret ≡ 0 → b'.cpages ≡ n
    pub next : add64 cmd.addr (shl_page b'.cpages) ≡ (p + b'.cpages) * page_size

  pub pass :
      (p n start end : ℕ) (cmd : Cmd) (b : Bounce) (s : State Xa)
      → cmd.addr ≡ p * page_size
      → b.addr ≡ cmd.addr
      → start ≡ (p + b.cpages) * page_size
      → end ≡ (p + n) * page_size
      → b.cpages ≤ n
      → (p + n) * page_size < word
      → let (b', ret) = do_read xa (lock s.mirror) s.memory start end b in Pass p n cmd b' ret
  pass p n start end cmd b s at same start_eq end_eq le fits =
      let c =
        do_read-Copied xa s.mirror.pt s.memory (lock s.mirror) start end b.cpages b refl
          (omega arith) (omega arith) in
      record {
        addr = c.size.1 ∙ same;
        counted = omega (arith, c.count, c.k_le);
        all = λ z. elim c.stop [
          | inl (e, _) ↦ omega (arith, c.count)
          | inr (_, _, e) ↦ absurd (omega arith)
        ];
        next = omega (arith, c.count, c.k_le);
      }

  -- A page frame without a page stops it there or before.
  pass_hole :
      (p n start end : ℕ) (b : Bounce) (s : State Xa) (f : ℕ)
      → b.addr ≡ p * page_size
      → start ≡ (p + b.cpages) * page_size
      → end ≡ (p + n) * page_size
      → (p + n) * page_size < word
      → p + b.cpages ≤ f
      → f < p + n
      → (load s.mirror.pt f).page ≡ 0
      → let (b', ret) = do_read xa (lock s.mirror) s.memory start end b in
        (ret ≡ enoent) × (p + b'.cpages ≤ f)
  pass_hole p n start end b s f at start_eq end_eq fits lo hi hole =
      let c =
        do_read-Copied xa s.mirror.pt s.memory (lock s.mirror) start end b.cpages b refl
          (omega arith) (omega arith) in
      let short : c.k ≤ f - (p + b.cpages) = stops_before c in
      (
        elim c.stop [ inl (e, _) ↦ absurd (omega arith) | inr (_, _, e) ↦ e ],
        omega (arith, c.count),
      )
    where
      stops_before :
          {b' : Bounce} {ret : ℕ}
          (c : Copied xa s.mirror.pt s.memory
            (shr_page end - shr_page start)
            (shr_page start)
            b.cpages
            b
            b'
            ret)
          → c.k ≤ f - (p + b.cpages)
      stops_before c = elim (Bool-cases (ltb (f - (p + b.cpages)) c.k)) [
        | inl past ↦ absurd (c.present (f - (p + b.cpages)) f (ground arith) (omega arith) hole)
        | inr ok ↦ ground arith
      ]

  -- The loop of dmirror_read on a page-aligned command of `n` pages from page frame `p` on, of
  -- which some are counted: whatever others do in between, it never counts more than `n` pages, and
  -- it counts all of them if it returns 0.
  pub read_loop-Counts :
      (fuel : ℕ) (alive : Bool) (cmd : Cmd) (p n start end : ℕ) (b : Bounce) (s : State Xa)
      → cmd.addr ≡ p * page_size
      → b.addr ≡ cmd.addr
      → start ≡ (p + b.cpages) * page_size
      → end ≡ (p + n) * page_size
      → b.cpages ≤ n
      → (p + n) * page_size < word
      → Counts n (read_loop xa fuel alive cmd start end b s)
  unfolding read_loop
  read_loop-Counts zero alive cmd p n start end b s at same start_eq end_eq le fits = tt
  read_loop-Counts (suc fuel) alive cmd p n start end b s at same start_eq end_eq le fits =
      elim (Bool-cases (r.1 == enoent)) [
        | inr done ↦ rw (done, read_loop) (v.counted, v.all)
        | inl missing ↦
            rw (missing, read_loop)
              (elim (Option-cases faulted) [
                | inl going ↦ rw (going, read_loop) tt
                | inr ((t, ret), e) ↦
                    rw (e, read_loop)
                      (elim (Bool-cases (ret == 0)) [
                        | inr failed ↦
                            rw (failed, read_loop) (v.counted, λ z. absurd (ground arith))
                        | inl served ↦
                            rw (served, read_loop)
                              (read_loop-Counts fuel alive (record cmd { faults = cmd.faults + 1 })
                                p n (add64 cmd.addr (shl_page r.0.cpages)) end r.0 t at v.addr
                                v.next end_eq v.counted fits)
                      ])
              ])
      ]
    where
      r : Bounce × ℕ
      r = do_read xa (lock s.mirror) s.memory start end b

      v : Pass p n cmd r.0 r.1
      v = pass p n start end cmd b s at same start_eq end_eq le fits

      faulted : Option (State Xa × ℕ)
      faulted =
          fault_range xa alive (add64 cmd.addr (shl_page r.0.cpages)) end false
            (record s { mirror = unlock s.mirror })

  -- Where the process is gone and a page frame of the command has no page, the loop never ends:
  -- dmirror_fault reports success for a process that it cannot reach, and the page stays missing.
  pub read_loop_dead :
      (fuel : ℕ) (cmd : Cmd) (p n start end : ℕ) (b : Bounce) (s : State Xa) (f : ℕ)
      → cmd.addr ≡ p * page_size
      → b.addr ≡ cmd.addr
      → start ≡ (p + b.cpages) * page_size
      → end ≡ (p + n) * page_size
      → b.cpages ≤ n
      → (p + n) * page_size < word
      → p + b.cpages ≤ f
      → f < p + n
      → (load s.mirror.pt f).page ≡ 0
      → read_loop xa fuel false cmd start end b s ≡ none
  unfolding read_loop
  read_loop_dead zero cmd p n start end b s f at same start_eq end_eq le fits lo hi hole = refl
  read_loop_dead (suc fuel) cmd p n start end b s f at same start_eq end_eq le fits lo hi hole =
      let v = pass p n start end cmd b s at same start_eq end_eq le fits in
      let (missing, lo') =
        pass_hole p n start end b s f (omega arith) start_eq end_eq fits lo hi hole in
      let r : Bounce × ℕ = do_read xa (lock s.mirror) s.memory start end b in
      let s' : State Xa = record s { mirror = unlock s.mirror } in
      rw (missing, fault_dead xa _ (add64 cmd.addr (shl_page r.0.cpages)) end false s', read_loop)
        (read_loop_dead fuel (record cmd { faults = cmd.faults + 1 }) p n
          (add64 cmd.addr (shl_page r.0.cpages)) end r.0 s' f at v.addr v.next end_eq v.counted fits
          lo' hi hole)
