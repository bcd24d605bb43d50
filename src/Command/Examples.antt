-- ===== src/Command/Examples.antt =====
-- The commands of hmm.c on concrete ones.
use rshm_hmm.Base.{
  ℕ, ◌+◌, ◌≡◌, ◌≤◌, ◌<◌, ◌⊎◌, refl, arith, some, none, [], ◌∷◌, false, true, ◌==◌, if◌then◌else◌,
}
use rshm_hmm.Kernel.{Entry, entry, null_entry, UserSpace, eperm, efault}
use rshm_hmm.Kernel.Map.{bounded_map}
use rshm_hmm.Mirror.{tag_atomic}
use rshm_hmm.Mirror.Atomic.{Marked}
use rshm_hmm.Bounce.{Cmd, ok}
use rshm_hmm.Migrate.Fixtures.{world, half_used-Sim, held, all_system, moving}
use rshm_hmm.Driver.Release.{Emptied}
use rshm_hmm.Command.{validate, Environment, Machine, ioctl, release, check_exclusive}
use rshm_hmm.Command.Admitted.{Range, Checked, validate-Checked}
use rshm_hmm.Command.Handled.{ioctl_release, ioctl_check_exclusive}

abbrev huge : Cmd
huge = record { addr = 65536; ptr = 4096; npages = 4503599627370498; cpages = 3; faults = 1 }

-- 2^52 + 2 pages pass for 2.
huge_taken : validate (some huge) ≡ ok (record huge { cpages = 0; faults = 0 })
unfolding validate
huge_taken = refl

validate-Checked_example : Checked huge (validate (some huge))
validate-Checked_example = validate-Checked huge (omega arith)

-- A process that takes everything.
abbrev process : UserSpace
process = record {
  User = ℕ;
  copy_pages = λ u p c. (u, false);
  copy_bytes = λ u p c. (u, false);
  copy_in = λ u p n. none;
}

abbrev environment : Environment
environment = record {
  fuel = 9;
  alive = true;
  own = 5;
  junk = 0;
  attempts = [];
  rounds = [];
  claims = [];
  late = record { notices = []; others = λ mem. mem };
  meets = λ start end n. true;
  evictions = λ i. record { kind = all_system; src = moving; pages = λ i. 99; freed = [] };
  kind = all_system;
  insert = 0;
  seq = 0;
}

abbrev machine : Machine (ℕ → Entry) ℕ
machine = record {
  mirror = record {
    mdevice = 5;
    pt = λ i. if i == 17 then entry 3 tag_atomic else null_entry;
    seq = 0;
    locked = false;
  };
  device = world.device;
  memory = world.memory;
  user = 44;
}

abbrev two_pages : Cmd
two_pages = record { addr = 65536; ptr = 4096; npages = 2; cpages = 0; faults = 0 }

two_pages_taken : validate (some two_pages) ≡ ok two_pages
unfolding validate
two_pages_taken = refl

ioctl_release_example :
    (m' : Machine (ℕ → Entry) ℕ) × (ioctl
        (bounded_map 99)
        process
        (λ n. none)
        (λ u c. (u + 1, true))
        environment
        release
        (some machine)
        (some two_pages)
      ≡ some (some m', efault))
    × Emptied m'.device
    × (m'.mirror ≡ machine.mirror)
ioctl_release_example =
    ioctl_release (bounded_map 99) process (λ n. none) (λ u c. (u + 1, true)) environment machine
      two_pages two_pages held (17 ∷ []) two_pages_taken half_used-Sim (tt, tt) (omega arith)

two_pages-Range : Range two_pages
two_pages-Range = record { aligned = refl; end = refl; below = omega arith; pages = refl }

ioctl_check_exclusive_example :
    ((ioctl
          (bounded_map 99)
          process
          (λ n. none)
          (λ u c. (u + 1, true))
          environment
          check_exclusive
          (some machine)
          (some two_pages)
        ≡ some (some machine, eperm))
      × ((p : ℕ) × (16 ≤ p) × (p < 18) × Marked (bounded_map 99) machine.mirror.pt p))
    ⊎ ((ioctl
            (bounded_map 99)
            process
            (λ n. none)
            (λ u c. (u + 1, true))
            environment
            check_exclusive
            (some machine)
            (some two_pages)
          ≡ some (some (record machine { user = 45 }), efault))
        × ((p : ℕ) → 16 ≤ p → p < 18 → ¬ Marked (bounded_map 99) machine.mirror.pt p))
ioctl_check_exclusive_example =
    ioctl_check_exclusive (bounded_map 99) process (λ n. none) (λ u c. (u + 1, true)) environment
      machine two_pages two_pages two_pages_taken two_pages-Range
