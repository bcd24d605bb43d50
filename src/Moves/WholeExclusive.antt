-- ===== src/Moves/WholeExclusive.antt =====
-- dmirror_exclusive of hmm.c as a whole: the loop, then the reading back.
use rshm_hmm.Base.{
  ℕ, ◌+◌, ◌*◌, ◌≤◌, ◌<◌, ◌≡◌, if◌then◌else◌, ◌⊎◌, Bool, false, Option, some, List, ◌==◌,
}
use rshm_hmm.Kernel.{Content, Memory, XArray, UserSpace, page_size, einval, ebusy}
use rshm_hmm.Mirror.{Dmirror}
use rshm_hmm.Mirror.Atomic.{Marked}
use rshm_hmm.Bounce.{Cmd}
use rshm_hmm.Faulting.{notify}
use rshm_hmm.Moves.{Claim, Late, Reply, read_back}
use rshm_hmm.Moves.Exclusive.{Has, Blocked}
use rshm_hmm.Moves.ReadBack.{Answer}

module _ (xa : XArray) (us : UserSpace) (vmalloc : ℕ → Option (List Content)) where
  open xa use {Xa, load}
  open us use {User}

  abbrev Whole : Type 0
  Whole = Reply (Dmirror Xa × Memory) User

  -- How the command ends: refused, as the process is gone; with -EBUSY in a round that is given up, and
  -- nothing handed over; or behind a loop that has marked every page of the range for exclusive access,
  -- with the answer of the reading back.
  pub data Taken (cs : List Claim) (late : Late) (alive : Bool) (m : Dmirror Xa) (mem : Memory)
      (u : User) (cmd : Cmd) (p : ℕ) (o : Option Whole) : Type 0 where
    gone :
        alive ≡ false
        → o ≡ some (record { state = (m, mem); user = u; cmd = cmd; ret = einval })
        → Taken cs late alive m mem u cmd p o
    in_use :
        (s' : Dmirror Xa × Memory) (c : Claim) (n : ℕ)
        → Has c cs
        → 0 < n
        → n ≤ cmd.npages
        → Blocked xa us vmalloc c n
        → o ≡ some (record { state = s'; user = u; cmd = cmd; ret = ebusy })
        → Taken cs late alive m mem u cmd p o
    taken :
        (m' : Dmirror Xa) (r : Whole)
        → o ≡ some r
        → ((q : ℕ) → p ≤ q → q < p + cmd.npages → Marked xa m'.pt q)
        → ((q : ℕ) → (q < p) ⊎ (p + cmd.npages ≤ q) → load m'.pt q ≡ load m.pt q)
        → r.state.0.pt ≡ (notify xa m' late.notices).pt
        → Answer xa us
            (vmalloc (cmd.npages * page_size))
            r.state.0.pt
            r.state.1
            u
            cmd
            p
            cmd.npages
            r.user
            r.cmd
            r.ret
        → Taken cs late alive m mem u cmd p o

  -- What follows behind a loop.
  abbrev after : Late → Dmirror Xa → Memory → ℕ → User → Cmd → ℕ → ℕ → Whole
  after late m mem ret u cmd end size =
      if ret == 0
      then read_back xa us vmalloc (λ d mem. (d, mem)) late m mem u cmd end size
      else record { state = (m, mem); user = u; cmd = cmd; ret = ret }
