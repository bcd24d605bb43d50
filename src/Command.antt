-- ===== src/Command.antt =====
-- dmirror_fops_unlocked_ioctl of hmm.c: which commands it takes, and what it calls for each. `none` is
-- a handler that is still going.
pub mod Admitted
pub mod Handled
mod Examples
use rshm_hmm.Base.{
  ℕ, ◌+◌, ◌%◌, Bool, true, false, not, Option, none, some, List, leb, ◌==◌, if◌then◌else◌,
}
use rshm_hmm.Kernel.{Content, Memory, UserSpace, XArray, page_size, add64, shl_page, efault, einval}
use rshm_hmm.Mirror.{Dmirror, Notice, check_atomic}
use rshm_hmm.Bounce.{Cmd, Result, ok, err}
use rshm_hmm.Faulting.{Attempt, State}
use rshm_hmm.Transfer.{read, write}
use rshm_hmm.Snapshot.{PageKind, snapshot}
use rshm_hmm.Devmem.{Device}
use rshm_hmm.Migrate.{World}
use rshm_hmm.Moves.{
  Round, Claim, Late, Eviction, Site, migrate_to_system, migrate_to_device, exclusive,
}
use rshm_hmm.Driver.{remove_chunks}
use rshm_hmm.Transfer
use rshm_hmm.Moves
use rshm_hmm.Snapshot

-- What copy_from_user gives, checked, with the counts set to 0.
pub validate : Option Cmd → Result Cmd
validate none = err efault
validate (some cmd) =
    if not (cmd.addr % page_size == 0)
    then err einval
    else if leb (add64 cmd.addr (shl_page cmd.npages)) cmd.addr
    then err einval
    else ok (record cmd { cpages = 0; faults = 0 })

-- The commands HMM_DMIRROR_..., and any other number.
pub data Request : Type 0 where
  do_read : Request
  do_write : Request
  migrate_to_dev : Request
  migrate_to_sys : Request
  do_exclusive : Request
  check_exclusive : Request
  take_snapshot : Request
  release : Request
  unknown : Request

-- What the kernel and other threads do while a command runs, and fuel for its loops. `own` is the
-- mirror's number, and `junk` what an uninitialised variable has.
pub record Environment : Type 0 where
  pub fuel : ℕ
  pub alive : Bool
  pub own : ℕ
  pub junk : ℕ
  pub attempts : List Attempt
  pub rounds : List Round
  pub claims : List Claim
  pub late : Late
  pub meets : ℕ → ℕ → Notice → Bool
  pub evictions : ℕ → Eviction
  pub kind : ℕ → PageKind
  pub insert : ℕ
  pub seq : ℕ

-- The mirror of an open file, the device, the memory, and the process.
pub record Machine (Xa User : Type 0) : Type 0 where
  pub mirror : Dmirror Xa
  pub device : Device
  pub memory : Memory
  pub user : User

pub record Done (Xa User : Type 0) : Type 0 where
  pub machine : Machine Xa User
  pub cmd : Cmd
  pub ret : ℕ

module _ (xa : XArray) (us : UserSpace) (vmalloc : ℕ → Option (List Content)) where
  open xa use {Xa}
  open us use {User}

  abbrev pub M : Type 0
  M = Machine Xa User

  abbrev pub world_of : M → World
  world_of m = record { device = m.device; memory = m.memory }

  abbrev pub site_of : M → Site Xa
  site_of m = record { mirror = m.mirror; world = world_of m }

  abbrev pub state_of : M → Environment → State Xa
  state_of m e = record { mirror = m.mirror; memory = m.memory; attempts = e.attempts }

  abbrev pub after_transfer : M → Option (Transfer.Reply Xa User) → Option (Done Xa User)
  after_transfer m none = none
  after_transfer m (some r) = some (record {
    machine = record m { mirror = r.state.mirror; memory = r.state.memory; user = r.user };
    cmd = r.cmd;
    ret = r.ret;
  })

  abbrev pub after_site : M → Option (Moves.Reply (Site Xa) User) → Option (Done Xa User)
  after_site m none = none
  after_site m (some r) = some (record {
    machine = record {
      mirror = r.state.mirror;
      device = r.state.world.device;
      memory = r.state.world.memory;
      user = r.user;
    };
    cmd = r.cmd;
    ret = r.ret;
  })

  abbrev pub after_system : M → Option (Site Xa × Cmd × ℕ) → Option (Done Xa User)
  after_system m none = none
  after_system m (some (s, cmd, ret)) = some (record {
    machine = record m { mirror = s.mirror; device = s.world.device; memory = s.world.memory };
    cmd = cmd;
    ret = ret;
  })

  abbrev pub after_exclusive :
      M → Option (Moves.Reply (Dmirror Xa × Memory) User) → Option (Done Xa User)
  after_exclusive m none = none
  after_exclusive m (some r) = some (record {
    machine = record m { mirror = r.state.0; memory = r.state.1; user = r.user };
    cmd = r.cmd;
    ret = r.ret;
  })

  abbrev pub after_snapshot : M → Option (Snapshot.Taken Xa User) → Option (Done Xa User)
  after_snapshot m none = none
  after_snapshot m (some t) =
      some (record {
        machine = record m { mirror = t.mirror; user = t.user };
        cmd = t.cmd;
        ret = t.ret;
      })

  abbrev pub after_release : M → Cmd → Option World → Option (Done Xa User)
  after_release m cmd none = none
  after_release m cmd (some w) =
      some
        (record { machine = record m { device = w.device; memory = w.memory }; cmd = cmd; ret = 0 })

  -- The switch, for a command that passed the checks.
  pub handle : Environment → Request → M → Cmd → Option (Done Xa User)
  handle e do_read m cmd =
      after_transfer m (read xa us vmalloc e.fuel e.alive m.user (state_of m e) cmd)
  handle e do_write m cmd =
      after_transfer m (write xa us vmalloc e.fuel e.alive m.user (state_of m e) cmd)
  handle e migrate_to_dev m cmd =
      after_site m
        (migrate_to_device xa us vmalloc e.own e.rounds e.late e.alive (site_of m) m.user cmd)
  handle e migrate_to_sys m cmd =
      after_system m (migrate_to_system xa e.rounds e.alive e.junk (site_of m) cmd)
  handle e do_exclusive m cmd =
      after_exclusive m
        (exclusive xa us vmalloc e.claims e.late e.alive m.mirror m.memory m.user cmd)
  handle e check_exclusive m cmd = some (record {
    machine = m;
    cmd = cmd;
    ret = check_atomic xa m.mirror cmd.addr (add64 cmd.addr (shl_page cmd.npages));
  })
  handle e take_snapshot m cmd =
      after_snapshot m
        (snapshot xa e.meets us e.kind e.insert e.seq e.fuel e.alive e.attempts m.mirror m.user cmd)
  handle e release m cmd = after_release m cmd (remove_chunks e.fuel e.evictions (world_of m))
  handle e unknown m cmd = some (record { machine = m; cmd = cmd; ret = einval })

  -- `from` is what copy_from_user gives, and `to` copies the structure back, with the answer whether a
  -- part was not copied.
  pub ioctl :
      (User → Cmd → User × Bool)
      → Environment
      → Request
      → Option M
      → Option Cmd
      → Option (Option M × ℕ)
  unfolding validate handle
  ioctl to e r none from = some (none, einval)
  ioctl to e r (some m) from = elim (validate from) [
    | err n ↦ some (some m, n)
    | ok cmd ↦ elim (handle e r m cmd) [
      | none ↦ none
      | some d ↦
          let (u, failed) = to d.machine.user d.cmd in
          elim (d.ret == 0) [
            | false ↦ some (some d.machine, d.ret)
            | true ↦ some (some (record d.machine { user = u }), (if failed then efault else 0))
          ]
    ]
  ]
