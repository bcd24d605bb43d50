-- ===== src/Transfer.antt =====
-- dmirror_read and dmirror_write of hmm.c. The `while (1)` loops take fuel; `none` is a loop that is
-- still going.
pub mod Progress
pub mod Quiet
pub mod Writing
mod Examples
use rshm_hmm.Base.{
  ℕ, zero, suc, ◌+◌, ◌-◌, Bool, true, false, Option, none, some, List, ltb, ◌==◌, if◌then◌else◌,
}
use rshm_hmm.Kernel.{Content, XArray, UserSpace, add64, shl_page, shr_page, enoent, efault, einval}
use rshm_hmm.Mirror.{lock, unlock}
use rshm_hmm.Bounce.{Cmd, Bounce, ok, err, bounce_init, do_read, do_write}
use rshm_hmm.Faulting.{State, fault}

-- What is left when one of the loops ends.
pub record Moved (Xa : Type 0) : Type 0 where
  pub state : State Xa
  pub cmd : Cmd
  pub bounce : Bounce
  pub ret : ℕ

-- What a command leaves: the state, the process, the command's structure and the result.
pub record Reply (Xa User : Type 0) : Type 0 where
  pub state : State Xa
  pub user : User
  pub cmd : Cmd
  pub ret : ℕ

module _ (xa : XArray) where
  open xa use {Xa}

  -- dmirror_fault has a round for each page of its range, and one more to see the end.
  abbrev pub fault_range : Bool → ℕ → ℕ → Bool → State Xa → Option (State Xa × ℕ)
  fault_range alive start end write s =
      fault xa (suc (shr_page end - shr_page start)) alive start end write s

  pub read_loop : ℕ → Bool → Cmd → ℕ → ℕ → Bounce → State Xa → Option (Moved Xa)
  read_loop zero alive cmd start end b s = none
  read_loop (suc fuel) alive cmd start end b s =
      let (b', ret) = do_read xa (lock s.mirror) s.memory start end b in
      let s' : State Xa = record s { mirror = unlock s.mirror } in
      let start' = add64 cmd.addr (shl_page b'.cpages) in
      elim (ret == enoent) [
        | false ↦ some (record { state = s'; cmd = cmd; bounce = b'; ret = ret })
        | true ↦ elim (fault_range alive start' end false s') [
          | none ↦ none
          | some (t, r) ↦ elim (r == 0) [
            | true ↦ read_loop fuel alive (record cmd { faults = cmd.faults + 1 }) start' end b' t
            | false ↦ some (record { state = t; cmd = cmd; bounce = b'; ret = r })
          ]
        ]
      ]

  pub write_loop : ℕ → Bool → Cmd → ℕ → ℕ → Bounce → State Xa → Option (Moved Xa)
  write_loop zero alive cmd start end b s = none
  write_loop (suc fuel) alive cmd start end b s =
      let (b', mem, ret) = do_write xa (lock s.mirror) start end b s.memory in
      let s' : State Xa = record s { mirror = unlock s.mirror; memory = mem } in
      let start' = add64 cmd.addr (shl_page b'.cpages) in
      elim (ret == enoent) [
        | false ↦ some (record { state = s'; cmd = cmd; bounce = b'; ret = ret })
        | true ↦ elim (fault_range alive start' end true s') [
          | none ↦ none
          | some (t, r) ↦ elim (r == 0) [
            | true ↦ write_loop fuel alive (record cmd { faults = cmd.faults + 1 }) start' end b' t
            | false ↦ some (record { state = t; cmd = cmd; bounce = b'; ret = r })
          ]
        ]
      ]

  module _ (us : UserSpace) (vmalloc : ℕ → Option (List Content)) where
    open us use {User, copy_pages, copy_in}

    abbrev give_up : State Xa → User → Cmd → ℕ → Option (Reply Xa User)
    give_up s u cmd ret = some (record { state = s; user = u; cmd = cmd; ret = ret })

    -- Return the data for verification, and the count.
    pub finish_read : User → Moved Xa → Reply Xa User
    finish_read u m =
        let cmd : Cmd = record m.cmd { cpages = m.bounce.cpages } in
        let (u', failed) = copy_pages u m.cmd.ptr m.bounce.ptr in
        if m.ret == 0
        then record { state = m.state; user = u'; cmd = cmd; ret = (if failed then efault else 0) }
        else record { state = m.state; user = u; cmd = cmd; ret = m.ret }

    pub read : ℕ → Bool → User → State Xa → Cmd → Option (Reply Xa User)
    unfolding read_loop finish_read
    read fuel alive u s cmd =
        let size = shl_page cmd.npages in
        let end = add64 cmd.addr size in
        if ltb end cmd.addr
        then give_up s u cmd einval
        else elim (bounce_init vmalloc cmd.addr size) [
          | err e ↦ give_up s u cmd e
          | ok b ↦ elim (read_loop fuel alive cmd cmd.addr end b s) [
            | none ↦ none
            | some m ↦ some (finish_read u m)
          ]
        ]

    pub finish_write : User → Moved Xa → Reply Xa User
    finish_write u m = record {
      state = m.state;
      user = u;
      cmd = record m.cmd { cpages = m.bounce.cpages };
      ret = m.ret;
    }

    pub write : ℕ → Bool → User → State Xa → Cmd → Option (Reply Xa User)
    unfolding write_loop finish_write
    write fuel alive u s cmd =
        let size = shl_page cmd.npages in
        let end = add64 cmd.addr size in
        if ltb end cmd.addr
        then give_up s u cmd einval
        else elim (bounce_init vmalloc cmd.addr size) [
          | err e ↦ give_up s u cmd e
          | ok b ↦ elim (copy_in u cmd.ptr size) [
            | none ↦ give_up s u (record cmd { cpages = b.cpages }) efault
            | some pages ↦
                elim (write_loop fuel alive cmd cmd.addr end (record b { ptr = pages }) s) [
                  | none ↦ none
                  | some m ↦ some (finish_write u m)
                ]
          ]
        ]
