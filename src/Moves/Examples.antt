-- ===== src/Moves/Examples.antt =====
-- The commands of hmm.c that migrate, on concrete states.
use rshm_hmm.Base.{
  ℕ, ◌+◌, ◌≡◌, ◌≤◌, ◌<◌, ◌⊎◌, refl, arith, some, none, false, [], ◌∷◌, true, Option, List, length,
  ap, sym,
}
use rshm_hmm.Kernel.{Content, UserSpace, Entry, null_entry}
use rshm_hmm.Kernel.Map.{bounded_map}
use rshm_hmm.Mirror.{mapped}
use rshm_hmm.Bounce.{Cmd}
use rshm_hmm.Faulting.{next_chunk, notify}
use rshm_hmm.Migrate.Fixtures.{
  held, half_used-Good, used, alloc_90, moving, all_system, world, moving-UsesSources, lawful,
}
use rshm_hmm.Moves.{
  Late, Claim, Round, Site, Vma, to_device_round, migrate_to_system, migrate_to_device,
}
use rshm_hmm.Moves.ToDevice.{NewEntry, to_device_round-NewEntry}
use rshm_hmm.Moves.ToSystem.{migrate_to_system-ends}
use rshm_hmm.Moves.WholeDevice.{Outcome, migrate_to_device-Outcome}

abbrev area : Vma
area = record { vm_read = true; vm_write = true; vm_end = 12288 }

abbrev round : Round
round = record {
  vma = some area;
  setup = 0;
  notices = [];
  others = λ mem. mem;
  kind = all_system;
  src = moving;
  allocs = λ i. alloc_90;
  pages = λ i. 0;
  after = moving;
  npages = 1;
  freed = [];
}

abbrev site : Site (ℕ → Entry)
site = record {
  mirror = record { mdevice = 5; pt = λ i. null_entry; seq = 0; locked = false };
  world = world;
}

to_device_round-NewEntry_example :
    let t = to_device_round (bounded_map 9) 5 round 8192 12288 site in
    ((j : ℕ)
      → j < 1
      → NewEntry true (moving j) world.memory t.world.memory null_entry (t.mirror.pt (2 + j)))
    × ((q : ℕ) → (q < 2) ⊎ (3 ≤ q) → t.mirror.pt q ≡ null_entry)
unfolding notify
to_device_round-NewEntry_example =
    to_device_round-NewEntry (bounded_map 9) 5 round 8192 12288 site held used moving-UsesSources
      half_used-Good (lawful 5 true)

abbrev cmd : Cmd
cmd = record { addr = 8192; ptr = 0; npages = 1; cpages = 0; faults = 0 }

migrate_to_system-ends_example :
    (s' : Site (ℕ → Entry)) × (cmd' : Cmd) × (ret : ℕ) × (migrate_to_system
        (bounded_map 9)
        (round ∷ [])
        true
        77
        site
        cmd
      ≡ some (s', cmd', ret))
    × (cmd'.cpages ≤ 1)
    × (cmd' ≡ record cmd { cpages = cmd'.cpages })
unfolding next_chunk
migrate_to_system-ends_example =
    migrate_to_system-ends (bounded_map 9) (round ∷ []) true 77 site cmd refl (omega arith)
      ((omega arith, refl), omega arith, tt) (omega arith) (omega arith)

abbrev process : UserSpace
process = record {
  User = ℕ;
  copy_pages = λ u p c. (u, false);
  copy_bytes = λ u p c. (u, false);
  copy_in = λ u p n. none;
}

-- One page of the range is invalidated before the mutex is taken.
abbrev late : Late
late = record {
  notices =
      record {
        start = 69632;
        end = 69632;
        is_migrate = false;
        owner = 0;
        blockable = true;
        cur_seq = 4;
      }
      ∷ [];
  others = λ mem. mem;
}

-- A buffer of one page.
abbrev one_page : ℕ → Option (List Content)
one_page size = some ([] ∷ [])

length-one_page : (pages : List Content) → one_page 4096 ≡ some pages → length pages ≡ 1
length-one_page pages is = ap (λ o. elim o [ none ↦ 1 | some l ↦ length l ]) (sym is)

migrate_to_device-Outcome_example :
    Outcome
      (bounded_map 9)
      process
      one_page
      5
      (round ∷ [])
      late
      true
      site
      3
      cmd
      2
      (migrate_to_device (bounded_map 9) process one_page 5 (round ∷ []) late true site 3 cmd)
unfolding next_chunk
migrate_to_device-Outcome_example =
    migrate_to_device-Outcome (bounded_map 9) process one_page 5 (round ∷ []) late true site 3 cmd 2
      refl (omega arith) ((omega arith, refl), omega arith, tt) (omega arith) length-one_page

-- Two pages of a range at page frame 16.
abbrev claim : Claim
claim = record { notices = []; others = λ mem. mem; ret = mapped 2; pages = λ i. i + 5 }

-- A buffer of two pages.
abbrev two_pages : ℕ → Option (List Content)
two_pages size = some ([] ∷ [] ∷ [])

abbrev exclusive_cmd : Cmd
exclusive_cmd = record { addr = 65536; ptr = 0; npages = 2; cpages = 0; faults = 0 }
