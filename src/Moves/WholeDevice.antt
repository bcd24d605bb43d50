-- ===== src/Moves/WholeDevice.antt =====
-- dmirror_migrate_to_device of hmm.c as a whole: the loop over the areas, then the reading back.
use rshm_hmm.Base.{
  ℕ, ◌+◌, ◌*◌, ◌≤◌, ◌≡◌, ◌≢◌, refl, ap, subst, ◌∙◌, if◌then◌else◌, inl, inr, Bool, true, false,
  Option, some, List, length, arith, ltb, ◌==◌, ==→eq, ge→ltb, Bool-cases,
}
use rshm_hmm.Kernel.{Content, XArray, UserSpace, word, page_size, shl_page, add64, einval}
use rshm_hmm.Bounce.{Cmd}
use rshm_hmm.Faulting.{chunk_pages, notify}
use rshm_hmm.Moves.{
  Round, Late, with_mirror, Site, Reply, to_device_loop, read_back, migrate_to_device,
}
use rshm_hmm.Moves.ReadBack.{Answer, read_back_state, read_back-Answer}
use rshm_hmm.Moves.Rounds.{Rounds, to_device_loop-Over}
use rshm_hmm.Moves.ToSystem.{Areas}

module _ (xa : XArray) where
  open xa use {Xa}

  module _ (us : UserSpace) (vmalloc : ℕ → Option (List Content)) where
    open us use {User}

    -- How the command ends: refused, as the process is gone; with the error of a round, and nothing
    -- handed over; or behind all the rounds, with the answer of the reading back.
    pub data Outcome (own : ℕ) (rs : List Round) (late : Late) (alive : Bool) (s : Site Xa)
        (u : User) (cmd : Cmd) (p : ℕ) (o : Option (Reply (Site Xa) User)) : Type 0 where
      refused :
          alive ≡ false
          → o ≡ some (record { state = s; user = u; cmd = cmd; ret = einval })
          → Outcome own rs late alive s u cmd p o
      broke_off :
          (s' : Site Xa) (ret : ℕ)
          → Rounds xa own rs cmd.addr (cmd.addr + cmd.npages * page_size) s s' ret
          → ret ≢ 0
          → o ≡ some (record { state = s'; user = u; cmd = cmd; ret = ret })
          → Outcome own rs late alive s u cmd p o
      came_back :
          (s' : Site Xa) (r : Reply (Site Xa) User)
          → Rounds xa own rs cmd.addr (cmd.addr + cmd.npages * page_size) s s' 0
          → o ≡ some r
          → (r.state.mirror.pt ≡ (notify xa s'.mirror late.notices).pt)
            × (r.state.world ≡ record s'.world { memory = late.others s'.world.memory })
          → Answer xa us
              (vmalloc (cmd.npages * page_size))
              r.state.mirror.pt
              r.state.world.memory
              u
              cmd
              p
              cmd.npages
              r.user
              r.cmd
              r.ret
          → Outcome own rs late alive s u cmd p o

    migrate_to_device_dead :
        (own : ℕ) (rs : List Round) (late : Late) (alive : Bool) (s : Site Xa) (u : User)
        (cmd : Cmd)
        → alive ≡ false
        → migrate_to_device xa us vmalloc own rs late alive s u cmd
          ≡ some (record { state = s; user = u; cmd = cmd; ret = einval })
    unfolding migrate_to_device
    migrate_to_device_dead own rs late alive s u cmd dead =
        elim (Bool-cases (ltb (add64 cmd.addr (shl_page cmd.npages)) cmd.addr)) [
          | inl wraps ↦ rw wraps refl
          | inr ok ↦ rw (ok, dead) refl
        ]

    -- What follows behind a loop.
    abbrev after : Late → Site Xa → ℕ → User → Cmd → ℕ → ℕ → Reply (Site Xa) User
    after late s ret u cmd end size =
        if ret == 0
        then read_back xa us vmalloc (with_mirror s) late s.mirror s.world.memory u cmd end size
        else record { state = s; user = u; cmd = cmd; ret = ret }

    migrate_to_device_after :
        (own : ℕ) (rs : List Round) (late : Late) (alive : Bool) (s : Site Xa) (u : User)
        (cmd : Cmd) (s' : Site Xa) (ret : ℕ)
        → alive ≡ true
        → ltb (add64 cmd.addr (shl_page cmd.npages)) cmd.addr ≡ false
        → to_device_loop xa own rs cmd.addr (add64 cmd.addr (shl_page cmd.npages)) s
          ≡ some (s', ret)
        → migrate_to_device xa us vmalloc own rs late alive s u cmd
          ≡ some
              (after late s' ret u cmd (add64 cmd.addr (shl_page cmd.npages)) (shl_page cmd.npages))
    unfolding migrate_to_device
    migrate_to_device_after own rs late alive s u cmd s' ret lives ok is =
        rw (ok, lives, is, migrate_to_device)
          (elim (Bool-cases (ret == 0)) [
            | inl z ↦ simp (z, migrate_to_device) refl
            | inr z ↦ simp (z, migrate_to_device) refl
          ])

    abbrev Settled : Site Xa → Late → Site Xa → Type 0
    Settled s late t =
        (t.mirror.pt ≡ (notify xa s.mirror late.notices).pt)
        × (t.world ≡ record s.world { memory = late.others s.world.memory })

    abbrev Tells : Cmd → ℕ → User → Reply (Site Xa) User → Site Xa → Type 0
    Tells cmd p u r t =
        Answer xa us (vmalloc (cmd.npages * page_size)) t.mirror.pt t.world.memory u cmd p
          cmd.npages r.user r.cmd r.ret

    behind_loop :
        {o : Option (Reply (Site Xa) User)}
        → (own : ℕ) (rs : List Round) (late : Late) (alive : Bool) (s : Site Xa) (u : User)
          (cmd : Cmd) (p : ℕ) (s' : Site Xa) (ret : ℕ)
        → cmd.addr ≡ p * page_size
        → cmd.addr + cmd.npages * page_size + chunk_pages * page_size ≤ word
        → ((pages : List Content)
            → vmalloc (cmd.npages * page_size) ≡ some pages
            → length pages ≡ cmd.npages)
        → Rounds xa own rs cmd.addr (cmd.addr + cmd.npages * page_size) s s' ret
        → o
          ≡ some
              (after late s' ret u cmd (cmd.addr + cmd.npages * page_size) (cmd.npages * page_size))
        → Outcome own rs late alive s u cmd p o
    behind_loop own rs late alive s u cmd p s' ret at fits full run ends =
        elim (Bool-cases (ret == 0)) [
          | inr error ↦ broke_off s' ret run (ground (arith, error)) (ends ∙ simp error refl)
          | inl went ↦
              came_back s'
                (read_back xa us vmalloc (with_mirror s') late s'.mirror s'.world.memory u cmd
                  (cmd.addr + cmd.npages * page_size) (cmd.npages * page_size))
                (subst (Rounds xa own rs cmd.addr (cmd.addr + cmd.npages * page_size) s s')
                  (==→eq ret 0 went) run)
                (ends ∙ simp went refl)
                (read_back_state xa us vmalloc (with_mirror s') late s'.mirror s'.world.memory u cmd
                  p cmd.npages (cmd.addr + cmd.npages * page_size) (cmd.npages * page_size) at
                  (omega arith) (omega arith) (Settled s' late) (refl, refl) (refl, refl))
                (read_back_state xa us vmalloc (with_mirror s') late s'.mirror s'.world.memory u cmd
                  p cmd.npages (cmd.addr + cmd.npages * page_size) (cmd.npages * page_size) at
                  (omega arith) (omega arith) (Tells cmd p u reply) answer answer)
        ]
      where
        reply : Reply (Site Xa) User
        reply =
            read_back xa us vmalloc (with_mirror s') late s'.mirror s'.world.memory u cmd
              (cmd.addr + cmd.npages * page_size) (cmd.npages * page_size)

        answer :
            Answer xa us
              (vmalloc (cmd.npages * page_size))
              (notify xa s'.mirror late.notices).pt
              (late.others s'.world.memory)
              u
              cmd
              p
              cmd.npages
              reply.user
              reply.cmd
              reply.ret
        answer =
            read_back-Answer xa us vmalloc (with_mirror s') late s'.mirror s'.world.memory u cmd p
              cmd.npages (cmd.addr + cmd.npages * page_size) (cmd.npages * page_size) at
              (omega arith) (omega arith) full

    -- dmirror_migrate_to_device on a page-aligned range that does not reach the last 64 pages below
    -- 2^64, where an area that the kernel finds ends behind the address and at the end of a page, no
    -- round isolates more pages than it has, and vmalloc gives all pages or none: it ends after at most
    -- as many rounds as the range has pages. It is refused where the process is gone. Where a
    -- round finds no area that may be read, or its set-up fails, it goes no further and returns -EINVAL or
    -- the error, with the command as it was and nothing handed over. Else the rounds go through the whole
    -- range, and the pages come back through the table and memory as the rounds and the callbacks behind them left them,
    -- and as they stay: not at all, with -ENOMEM, if vmalloc gives no buffer; if it gives one and a page
    -- frame of the range has no page, with -ENOENT, the number of those
    -- before the first in the count, and nothing handed over; else all in order, with -EFAULT if they
    -- could not be handed over, and 0 if they could.
    pub migrate_to_device-Outcome :
        (own : ℕ) (rs : List Round) (late : Late) (alive : Bool) (s : Site Xa) (u : User)
        (cmd : Cmd) (p : ℕ)
        → cmd.addr ≡ p * page_size
        → cmd.addr + cmd.npages * page_size + chunk_pages * page_size ≤ word
        → Areas rs cmd.addr (cmd.addr + cmd.npages * page_size)
        → cmd.npages ≤ length rs
        → ((pages : List Content)
            → vmalloc (cmd.npages * page_size) ≡ some pages
            → length pages ≡ cmd.npages)
        → Outcome own rs late alive s u cmd p
            (migrate_to_device xa us vmalloc own rs late alive s u cmd)
    migrate_to_device-Outcome own rs late alive s u cmd p at fits areas enough full =
        let end : ℕ = cmd.addr + cmd.npages * page_size in
        let same : add64 cmd.addr (shl_page cmd.npages) ≡ end = omega arith in
        let size : shl_page cmd.npages ≡ cmd.npages * page_size = omega arith in
        let (s', ret, is, run) =
          to_device_loop-Over xa own rs cmd.addr end s (omega arith) (omega (arith, at))
            (omega (arith, at)) fits areas (omega (arith, enough, at)) in
        elim (Bool-cases alive) [
          | inr dead ↦ refused dead (migrate_to_device_dead own rs late alive s u cmd dead)
          | inl lives ↦ behind_loop own rs late alive s u cmd p s' ret at fits full run (
              migrate_to_device_after own rs late alive s u cmd s' ret lives
                (rw same (ge→ltb end cmd.addr (omega arith)))
                (ap (λ e. to_device_loop xa own rs cmd.addr e s) same ∙ is)
              ∙ ap (λ e. some (after late s' ret u cmd e (shl_page cmd.npages))) same
              ∙ ap (λ z. some (after late s' ret u cmd end z)) size)
        ]
