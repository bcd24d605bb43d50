-- ===== src/Moves/ReadBack.antt =====
-- The end of dmirror_migrate_to_device and of dmirror_exclusive in hmm.c: the pages are read back
-- through the mirror and handed to the process.
use rshm_hmm.Base.{
  ℕ, ◌+◌, ◌*◌, ◌<◌, ◌≡◌, ◌≢◌, refl, ap, ◌∙◌, inl, inr, Option, none, some, List, [], length, get_or,
  Bool-cases, ◌==◌, arith, Option-cases, if◌then◌else◌,
}
use rshm_hmm.Kernel.{Content, Memory, XArray, UserSpace, word, page_size, enomem, enoent, efault}
use rshm_hmm.Mirror.{Dmirror, lock, unlock}
use rshm_hmm.Bounce.{Cmd, Bounce, bounce_init, do_read}
use rshm_hmm.Bounce.Read.{do_read-Copied}
use rshm_hmm.Faulting.{notify}
use rshm_hmm.Moves.{Late, read_back}

module _ (xa : XArray) (us : UserSpace) where
  open xa use {Xa, load}
  open us use {User, copy_pages}

  -- Byte content of the first k pages of the buffer: those behind page frames p, p + 1, ...
  abbrev pub HasPages : Xa → Memory → ℕ → ℕ → List Content → Type 0
  HasPages x mem p k ptr =
      (j : ℕ) → j < k → (get_or ptr j [] ≡ mem (load x (p + j)).page) × ((load x (p + j)).page ≢ 0)

  -- How n pages from page frame p on come back to the process: not at all for want of a buffer; up to
  -- the first page frame without a page, with -ENOENT and nothing handed over; or all of them, with
  -- -EFAULT where they could not be handed over.
  pub data Answer (given : Option (List Content)) (x : Xa) (mem : Memory) (u : User) (cmd : Cmd)
      (p n : ℕ) (u' : User) (cmd' : Cmd) (ret : ℕ) : Type 0 where
    no_buffer :
        given ≡ none → u' ≡ u → cmd' ≡ cmd → ret ≡ enomem → Answer given x mem u cmd p n u' cmd' ret
    missing :
        (pages : List Content)
        → given ≡ some pages
        → (k : ℕ) → k < n
        → (load x (p + k)).page ≡ 0
        → ((j : ℕ) → j < k → (load x (p + j)).page ≢ 0)
        → u' ≡ u
        → cmd' ≡ record cmd { cpages = k }
        → ret ≡ enoent
        → Answer given x mem u cmd p n u' cmd' ret
    handed :
        (pages : List Content)
        → given ≡ some pages
        → (ptr : List Content) → length ptr ≡ n
        → HasPages x mem p n ptr
        → u' ≡ (copy_pages u cmd.ptr ptr).0
        → cmd' ≡ record cmd { cpages = n }
        → ret ≡ (if (copy_pages u cmd.ptr ptr).1 then efault else 0)
        → Answer given x mem u cmd p n u' cmd' ret

  module _ {S : Type 0} (vmalloc : ℕ → Option (List Content)) (back : Dmirror Xa → Memory → S)
      (late : Late) (m0 : Dmirror Xa) (mem0 : Memory) (u : User) (cmd : Cmd) (p n end size : ℕ)
      (at : cmd.addr ≡ p * page_size) (end_at : end ≡ (p + n) * page_size)
      (below : end < word) where
    abbrev m : Dmirror Xa
    m = notify xa m0 late.notices

    abbrev mem : Memory
    mem = late.others mem0

    abbrev filled : List Content → Bounce × ℕ
    filled pages =
        do_read xa (lock m) mem cmd.addr end
          (record { ptr = pages; size = size; addr = cmd.addr; cpages = 0 })

    -- Only the answer of vmalloc counts.
    read_back_once :
        (o : Option (List Content))
        → vmalloc size ≡ o
        → read_back xa us vmalloc back late m0 mem0 u cmd end size
          ≡ read_back xa us (λ x. o) back late m0 mem0 u cmd end size
    unfolding read_back bounce_init
    read_back_once o is = ap (λ o. read_back xa us (λ x. o) back late m0 mem0 u cmd end size) is

    read_back_whole :
        (pages : List Content)
        → (filled pages).1 ≡ 0
        → let r = read_back xa us (λ x. some pages) back late m0 mem0 u cmd end size in
          let b = (filled pages).0 in
          let (u', failed) = copy_pages u cmd.ptr b.ptr in
          (r.user ≡ u')
          × (r.cmd ≡ record cmd { cpages = b.cpages })
          × (r.ret ≡ (if failed then efault else 0))
    unfolding read_back bounce_init
    read_back_whole pages z = simp (z, read_back) (refl, refl, refl)

    read_back_part :
        (pages : List Content)
        → (filled pages).1 ≡ enoent
        → let r = read_back xa us (λ x. some pages) back late m0 mem0 u cmd end size in
          let b = (filled pages).0 in
          (r.user ≡ u) × (r.cmd ≡ record cmd { cpages = b.cpages }) × (r.ret ≡ enoent)
    unfolding read_back bounce_init
    read_back_part pages z = simp (z, read_back) (refl, refl, refl)

    without_buffer :
        let r = read_back xa us (λ x. none) back late m0 mem0 u cmd end size in
        Answer none m.pt mem u cmd p n r.user r.cmd r.ret
    unfolding read_back bounce_init
    without_buffer = no_buffer refl refl refl refl

    counted : {k i : ℕ} → i ≡ 0 + k → i ≡ k
    counted e = omega (arith, e)

    with_buffer :
        (pages : List Content)
        → length pages ≡ n
        → let r = read_back xa us (λ x. some pages) back late m0 mem0 u cmd end size in
          Answer (some pages) m.pt mem u cmd p n r.user r.cmd r.ret
    with_buffer pages len =
        let c =
          do_read-Copied xa m.pt mem (lock m) cmd.addr end 0
            (record { ptr = pages; size = size; addr = cmd.addr; cpages = 0 }) refl (omega arith)
            (omega arith) in
        elim c.stop [
          | inl (all, z) ↦
              (let (users, cmds, rets) = read_back_whole pages z in
                let count : (filled pages).0.cpages ≡ n = omega (arith, c.count) in
                handed pages refl (filled pages).0.ptr (c.size.0 ∙ len)
                  (λ j lt. (
                    c.holds j (p + j) j (omega arith) (omega arith) (omega arith) (omega arith),
                    c.present j (p + j) (omega arith) (omega arith),
                  ))
                  users (cmds ∙ ap (λ k. record cmd { cpages = k }) count) rets)
          | inr (short, hole, z) ↦
              (let (users, cmds, rets) = read_back_part pages z in
                missing pages refl c.k (omega arith) (hole (p + c.k) (omega arith))
                  (λ j lt. c.present j (p + j) (omega arith) (omega arith)) users
                  (cmds ∙ ap (λ k. record cmd { cpages = k }) (counted c.count)) rets)
        ]

    read_back_state_of :
        (o : Option (List Content)) (P : S → Type 0)
        → P (back m mem)
        → P (back (unlock (lock m)) mem)
        → P (read_back xa us (λ x. o) back late m0 mem0 u cmd end size).state
    unfolding read_back bounce_init
    read_back_state_of none P same locked = same
    read_back_state_of (some pages) P same locked = elim (Bool-cases ((filled pages).1 == 0)) [
      | inl z ↦ simp (z, read_back) locked
      | inr z ↦ simp (z, read_back) locked
    ]

    -- The state is as it was, but for the mutex that was taken and given back.
    pub read_back_state :
        (P : S → Type 0)
        → P (back m mem)
        → P (back (unlock (lock m)) mem)
        → P (read_back xa us vmalloc back late m0 mem0 u cmd end size).state
    read_back_state P same locked =
        rw (read_back_once (vmalloc size) refl) (read_back_state_of (vmalloc size) P same locked)

    pub read_back-Answer :
        ((pages : List Content) → vmalloc size ≡ some pages → length pages ≡ n)
        → let r = read_back xa us vmalloc back late m0 mem0 u cmd end size in
          Answer (vmalloc size) m.pt mem u cmd p n r.user r.cmd r.ret
    read_back-Answer full = elim (Option-cases (vmalloc size)) [
      | inl failed ↦ rw (read_back_once none failed, failed) without_buffer
      | inr (pages, is) ↦
          rw (read_back_once (some pages) is, is) (with_buffer pages (full pages is))
    ]
