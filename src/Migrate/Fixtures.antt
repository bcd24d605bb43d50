-- ===== src/Migrate/Fixtures.antt =====
-- A small device of hmm.c with one page free and one in use, and what the kernel gives it: data of the
-- examples.
use rshm_hmm.Base.{ℕ, refl, arith, Bool, [], ◌∷◌, none, true, false, ◌==◌, if◌then◌else◌}
use rshm_hmm.Snapshot.{PageKind, system}
use rshm_hmm.Devmem.{is_private_zone, Chunk, Device, devmem_alloc_page}
use rshm_hmm.Devmem.Refines.{Sim}
use rshm_hmm.Migrate.{Pfns, no_pfns, Alloc, World}
use rshm_hmm.Migrate.Loop.{UsesSources, AllLawful}
use rshm_hmm.Migrate.Round.{IsLawful, Good, system_of}

abbrev small : Chunk
small = record { start = 65536; end = 73727; remove = false }

-- One chunk of two pages: 16 is in use, and 17 is free.
abbrev pub half_used : Device
half_used = record {
  zone_device_type = 1;
  capacity = 16;
  count = 1;
  chunks = small ∷ [];
  calloc = 1;
  cfree = 0;
  free_pages = 17;
  zdd = λ p. if p == 17 then 0 else 70;
  devmem_locked = false;
  regions = 1;
  structs = 1;
  backing = 1;
}

abbrev pub held : ℕ → Bool
held q = q == 16

pub half_used-Sim : Sim (system_of half_used held) (17 ∷ [])
half_used-Sim = record {
  inv = record {
    chain = (refl, omega arith, refl);
    distinct = (tt, tt);
    books = record { counted = refl; array = (refl, omega arith); holds = (refl, refl) };
    unlocked = refl;
  };
  frame = record {
    apart = λ q h. ground (arith, h);
    free_inside = λ q h. ground (arith, h);
    held_inside = λ q h. ground (arith, h);
    kept = (refl, tt);
    null_out = refl;
  };
}

pub half_used-Good : Good half_used held
unfolding is_private_zone
half_used-Good = record { free = 17 ∷ []; sim = half_used-Sim; private = refl }

-- The system page 90 is free, and 80 is in use.
abbrev pub used : ℕ → Bool
used q = q == 80

abbrev pub alloc_90 : Alloc
alloc_90 = record {
  rpage = 90;
  chunk = record { kzalloc = true; region = none; krealloc = true; memremap = 0 };
}

-- Page 80 is to move, and the rest is not.
abbrev pub moving : Pfns
moving i = record { valid = true; migrate = i == 0; write = true; page = if i == 0 then 80 else 0 }

abbrev pub all_system : ℕ → PageKind
all_system p = system

abbrev pub world : World
world = record { device = half_used; memory = λ p. if p == 80 then 7 ∷ 8 ∷ [] else [] }

pub alloc_90-IsLawful : IsLawful alloc_90 half_used used
unfolding devmem_alloc_page is_private_zone
alloc_90-IsLawful = record { new = λ start e. cc; unused = λ ne. refl; outside = refl }

pub moving-UsesSources : UsesSources moving used
moving-UsesSources j nz = ground (arith, nz)

pub lawful :
    (own : ℕ) (vm_write : Bool)
    → AllLawful all_system own vm_write (λ i. alloc_90) moving 1 0 no_pfns world used
lawful own vm_write = (alloc_90-IsLawful, tt)
