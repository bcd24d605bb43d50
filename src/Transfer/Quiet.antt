-- ===== src/Transfer/Quiet.antt =====
-- dmirror_read of hmm.c where nobody comes in between: it ends, with the contents of the pages.
use rshm_hmm.Base.{
  ℕ, suc, [], ◌+◌, ◌-◌, ◌*◌, ◌≤◌, ◌<◌, ◌≡◌, refl, sym, ap, subst, ◌∙◌, inl, inr, Bool, true, false,
  arith, ◌==◌, ltb, ge→ltb, some, Option, List, length, get_or, Bool-cases, if◌then◌else◌,
}
use rshm_hmm.Kernel.{
  Content, Entry, Memory, XArray, UserSpace, word, page_size, shr_page, shl_page, add64, enoent,
  efault,
}
use rshm_hmm.Mirror.{Dmirror, HmmPfn, lock, unlock}
use rshm_hmm.Bounce.{Cmd, Bounce, bounce_init, do_read}
use rshm_hmm.Bounce.Read.{do_read-Copied}
use rshm_hmm.Faulting.{State, fault, chunk_pages}
use rshm_hmm.Faulting.Quiet.{quiet, AllGood, HasRoom, Mapped, Serves, fault_quiet}
use rshm_hmm.Transfer.{Moved, Reply, read_loop, finish_read, read, fault_range}
use rshm_hmm.Transfer.Progress.{pass}

module _ (xa : XArray) where
  open xa use {Xa, load}

  -- The buffer's pages from `c` up to `n` are those of the page frames from `p` on.
  abbrev pub Holds : Xa → Memory → ℕ → ℕ → ℕ → Bounce → Type 0
  Holds x mem p c n b = (a : ℕ) → c ≤ a → a < n → get_or b.ptr a [] ≡ mem (load x (p + a)).page

  fault_served :
      (fuel start end : ℕ) (rs : List (ℕ → HmmPfn)) (p e : ℕ) (w : Bool) (d : Dmirror Xa)
      (mem : Memory)
      → start ≡ p * page_size
      → end ≡ e * page_size
      → HasRoom xa
      → AllGood rs
      → p ≤ e
      → e ≤ p + length rs
      → e < p + fuel
      → e * page_size + chunk_pages * page_size ≤ word
      → Serves xa p e d mem (
          fault xa fuel true start end w (record { mirror = d; memory = mem; attempts = quiet rs }))
  fault_served fuel start end rs p e w d mem es ee room good le enough more fits =
      rw (es, ee) (fault_quiet xa fuel rs p e w d mem room good le enough more fits)

  -- A pass over page frames that all have pages goes through.
  mapped_pass :
      (p n start end : ℕ) (b : Bounce) (s : State Xa)
      → b.addr ≡ p * page_size
      → start ≡ (p + b.cpages) * page_size
      → end ≡ (p + n) * page_size
      → b.cpages ≤ n
      → n ≤ length b.ptr
      → (p + n) * page_size < word
      → Mapped xa s.mirror.pt (p + b.cpages) (p + n)
      → let (b', ret) = do_read xa (lock s.mirror) s.memory start end b in
        (ret ≡ 0)
        × (b'.cpages ≡ n)
        × Holds s.mirror.pt s.memory p b.cpages n b'
        × ((a : ℕ) → a < b.cpages → get_or b'.ptr a [] ≡ get_or b.ptr a [])
  mapped_pass p n start end b s at start_eq end_eq le room fits mapped =
      let c =
        do_read-Copied xa s.mirror.pt s.memory (lock s.mirror) start end b.cpages b refl
          (omega arith) (omega arith) in
      elim c.stop [
        | inl (e, z) ↦ (
          z,
          omega (arith, c.count),
          (λ a lo hi.
              c.holds (a - b.cpages) (p + a) a (omega arith) (omega arith) (omega arith)
                (omega arith)),
          λ a h. c.frame a (omega arith),
        )
        | inr (lt, missing, z) ↦ absurd (
            (mapped (p + b.cpages + c.k) (omega arith) (omega arith)).0
              (missing (p + b.cpages + c.k) (omega arith)))
      ]

  abbrev start_state : Dmirror Xa → Memory → List (ℕ → HmmPfn) → State Xa
  start_state d mem rs = record { mirror = d; memory = mem; attempts = quiet rs }

  abbrev pub Complete : ℕ → ℕ → Memory → Cmd → Option (Moved Xa) → Type 0
  Complete p n mem cmd o =
      (m : Moved Xa) × (o ≡ some m)
      × (m.ret ≡ 0)
      × (m.bounce.cpages ≡ n)
      × (m.cmd.ptr ≡ cmd.ptr)
      × (m.cmd.faults ≤ cmd.faults + 1)
      × Holds m.state.mirror.pt mem p 0 n m.bounce

  read_loop_done :
      (fuel start end : ℕ) (cmd : Cmd) (b : Bounce) (s : State Xa)
      → (do_read xa (lock s.mirror) s.memory start end b).1 ≡ 0
      → read_loop xa (suc fuel) true cmd start end b s
        ≡ some (record {
          state = record s { mirror = unlock s.mirror };
          cmd = cmd;
          bounce = (do_read xa (lock s.mirror) s.memory start end b).0;
          ret = (do_read xa (lock s.mirror) s.memory start end b).1;
        })
  unfolding read_loop
  read_loop_done fuel start end cmd b s z =
      let e : ((do_read xa (lock s.mirror) s.memory start end b).1 == enoent) ≡ false = rw z in
      rw (e, read_loop)

  read_loop_again :
      (fuel start end : ℕ) (cmd : Cmd) (b : Bounce) (s t : State Xa)
      → (do_read xa (lock s.mirror) s.memory start end b).1 ≡ enoent
      → fault_range xa true
          (add64 cmd.addr (shl_page (do_read xa (lock s.mirror) s.memory start end b).0.cpages))
          end
          false
          (record s { mirror = unlock s.mirror })
        ≡ some (t, 0)
      → read_loop xa (suc fuel) true cmd start end b s
        ≡ read_loop xa fuel true
            (record cmd { faults = cmd.faults + 1 })
            (add64 cmd.addr (shl_page (do_read xa (lock s.mirror) s.memory start end b).0.cpages))
            end
            (do_read xa (lock s.mirror) s.memory start end b).0
            t
  unfolding read_loop
  read_loop_again fuel start end cmd b s t z e =
      let e' : ((do_read xa (lock s.mirror) s.memory start end b).1 == enoent) ≡ true = rw z in
      rw (e', e, read_loop)

  -- The pass behind the fault.
  second_pass :
      (fuel p n start end : ℕ) (cmd : Cmd) (b : Bounce) (s : State Xa)
      → b.addr ≡ p * page_size
      → start ≡ (p + b.cpages) * page_size
      → end ≡ (p + n) * page_size
      → b.cpages ≤ n
      → n ≤ length b.ptr
      → (p + n) * page_size < word
      → Mapped xa s.mirror.pt (p + b.cpages) (p + n)
      → ((a : ℕ) → a < b.cpages → get_or b.ptr a [] ≡ s.memory (load s.mirror.pt (p + a)).page)
      → (m : Moved Xa) × (read_loop xa (suc fuel) true cmd start end b s ≡ some m)
        × (m.ret ≡ 0)
        × (m.bounce.cpages ≡ n)
        × (m.cmd ≡ cmd)
        × Holds m.state.mirror.pt s.memory p 0 n m.bounce
  second_pass fuel p n start end cmd b s at start_eq end_eq le room fits mapped got =
      let (z, count, holds, kept) =
        mapped_pass p n start end b s at start_eq end_eq le room fits mapped in
      (
        _,
        read_loop_done fuel start end cmd b s z,
        z,
        count,
        refl,
        λ a lo hi. elim (Bool-cases (ltb a b.cpages)) [
          | inl before ↦ kept a (ground arith) ∙ got a (ground arith)
          | inr behind ↦ holds a (ground arith) hi
        ],
      )

  -- The loop of dmirror_read on a page-aligned command of `n` pages that ends a chunk below 2^64,
  -- with a buffer of that many pages, where the page table has room, every call of hmm_range_fault
  -- succeeds with pages that may be written, and nobody comes in between: it ends in two rounds,
  -- with 0, with all pages counted, with at most one fault, and with the buffer holding, page for
  -- page, the contents of the pages that the table then has.
  pub read_loop-Complete :
      (fuel p n start end : ℕ) (rs : List (ℕ → HmmPfn)) (d : Dmirror Xa) (mem : Memory) (cmd : Cmd)
      (b : Bounce)
      → HasRoom xa
      → AllGood rs
      → n ≤ length rs
      → cmd.addr ≡ p * page_size
      → b.addr ≡ cmd.addr
      → b.cpages ≡ 0
      → n ≤ length b.ptr
      → start ≡ cmd.addr
      → end ≡ (p + n) * page_size
      → (p + n) * page_size + chunk_pages * page_size ≤ word
      → Complete p n mem cmd
          (read_loop xa (suc (suc fuel)) true cmd start end b (start_state d mem rs))
  read_loop-Complete fuel p n start end rs d mem cmd b room good enough at same none_yet space
        start_eq end_eq fits =
      let s : State Xa = start_state d mem rs in
      let c =
        do_read-Copied xa d.pt mem (lock d) start end b.cpages b refl (omega arith) (omega arith) in
      let v =
        pass xa p n start end cmd b s at same (omega arith) end_eq (omega arith) (omega arith) in
      elim c.stop [
        | inl (e, z) ↦ (
          _,
          read_loop_done (suc fuel) start end cmd b s z,
          z,
          v.all z,
          refl,
          omega arith,
          λ a lo hi. c.holds a (p + a) a (omega arith) (omega arith) (omega arith) (omega arith),
        )
        | inr (lt, missing, z) ↦
            let b' : Bounce = (do_read xa (lock d) mem start end b).0 in
            let start' : ℕ = add64 cmd.addr (shl_page b'.cpages) in
            let (t, served, mapped, kept, idle) =
              fault_served (suc (shr_page end - shr_page start')) start' end rs (p + b'.cpages)
                (p + n) false (unlock d) mem v.next end_eq room good (omega (arith, v.counted))
                (omega arith) (omega (arith, v.next)) fits in
            let (m, runs, z', count, same_cmd, holds) =
              second_pass fuel p n start' end (record cmd { faults = cmd.faults + 1 }) b' t
                (v.addr ∙ at) v.next end_eq v.counted (omega (arith, c.size.0)) (omega arith) mapped
                (λ a h.
                  c.holds a (p + a) a (omega (arith, c.count)) (omega arith) (omega arith)
                    (omega arith)
                  ∙ ap (λ (e : Entry). mem e.page) (sym (kept (p + a) (omega arith)))
                  ∙ ap (λ (q : Memory). q (load t.mirror.pt (p + a)).page) (sym idle)) in
            (
              m,
              read_loop_again (suc fuel) start end cmd b s t z served ∙ runs,
              z',
              count,
              ap (λ (k : Cmd). k.ptr) same_cmd,
              omega (arith, ap (λ (k : Cmd). k.faults) same_cmd),
              subst (λ q. Holds m.state.mirror.pt q p 0 n m.bounce) idle holds,
            )
      ]

  module _ (us : UserSpace) (vmalloc : ℕ → Option (List Content)) where
    open us use {User, copy_pages}

    -- What the reply to a read of `n` pages says: all pages are counted, at most one fault, the
    -- process was handed a buffer with the contents of the pages, and the result is 0 unless it
    -- could not be handed over, which is -EFAULT.
    abbrev pub Answers : ℕ → ℕ → Memory → User → Cmd → Option (Reply Xa User) → Type 0
    Answers p n mem u cmd o =
        (r : Reply Xa User) × (o ≡ some r)
        × (b : Bounce) × (r.cmd.cpages ≡ n)
        × (r.cmd.faults ≤ cmd.faults + 1)
        × (r.user ≡ (copy_pages u cmd.ptr b.ptr).0)
        × (r.ret ≡ (if (copy_pages u cmd.ptr b.ptr).1 then efault else 0))
        × Holds r.state.mirror.pt mem p 0 n b

    finish_read_lem :
        (u : User) (m : Moved Xa)
        → m.ret ≡ 0
        → let r = finish_read xa us vmalloc u m in
          (r.cmd ≡ record m.cmd { cpages = m.bounce.cpages })
          × (r.user ≡ (copy_pages u m.cmd.ptr m.bounce.ptr).0)
          × (r.ret ≡ (if (copy_pages u m.cmd.ptr m.bounce.ptr).1 then efault else 0))
          × (r.state ≡ m.state)
    unfolding finish_read
    finish_read_lem u m z = let e : (m.ret == 0) ≡ true = rw z in rw e (refl, refl, refl, refl)

    -- dmirror_read on a page-aligned command that ends a chunk below 2^64, under the conditions of
    -- read_loop-Complete and where vmalloc gives the buffer: the reply is as Answers says.
    pub read-Answers :
        (fuel p n : ℕ) (rs : List (ℕ → HmmPfn)) (d : Dmirror Xa) (mem : Memory) (u : User)
        (cmd : Cmd) (pages : List Content)
        → HasRoom xa
        → AllGood rs
        → n ≤ length rs
        → cmd.addr ≡ p * page_size
        → cmd.npages ≡ n
        → vmalloc (shl_page cmd.npages) ≡ some pages
        → length pages ≡ n
        → (p + n) * page_size + chunk_pages * page_size ≤ word
        → Answers p n mem u cmd (
            read xa us vmalloc
              (suc (suc fuel))
              true
              u
              (record { mirror = d; memory = mem; attempts = quiet rs })
              cmd)
    unfolding read bounce_init
    read-Answers fuel p n rs d mem u cmd pages room good enough at npages given full fits =
        let end : ℕ = add64 cmd.addr (shl_page cmd.npages) in
        let b : Bounce = record {
          ptr = pages;
          size = shl_page cmd.npages;
          addr = cmd.addr;
          cpages = 0;
        } in
        let (m, runs, z, count, same_ptr, faults, holds) =
          read_loop-Complete fuel p n cmd.addr end rs d mem cmd b room good enough at refl refl
            (omega arith) refl (omega arith) fits in
        let f = finish_read_lem u m z in
        rw (ge→ltb end cmd.addr (omega arith), given, runs, read, bounce_init)
          (
            finish_read xa us vmalloc u m,
            refl,
            m.bounce,
            ap (λ (k : Cmd). k.cpages) f.0 ∙ count,
            omega (arith, ap (λ (k : Cmd). k.faults) f.0),
            f.1 ∙ ap (λ (q : ℕ). (copy_pages u q m.bounce.ptr).0) same_ptr,
            f.2
                ∙ ap {B = ℕ} (λ (q : ℕ). if (copy_pages u q m.bounce.ptr).1 then efault else 0)
                    same_ptr,
            subst (λ (q : State Xa). Holds q.mirror.pt mem p 0 n m.bounce) (sym f.3) holds,
          )
