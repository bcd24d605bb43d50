-- ===== src/Devmem/Examples.antt =====
-- The device memory of hmm.c on concrete devices.
use rshm_hmm.Base.{
  ◌+◌, ◌≡◌, refl, List, ℕ, none, [], ◌∷◌, some, arith, true, false, ◌==◌, if◌then◌else◌,
}
use rshm_hmm.Devmem.{Chunk, Device, ChunkAnswers, allocate_chunk, devmem_alloc_page}
use rshm_hmm.Devmem.Invariant.{Inv, IsFreeRegion, Allocates, allocate_chunk-Inv}
use rshm_hmm.Devmem.Pages.{Page, devmem_alloc_page-Page}
use rshm_hmm.Devmem.Pool.{PoolRun, pool_of}
use rshm_hmm.Devmem.Refines.{
  System, IsNewRegion, after_alloc, Steps, none_yet, step, ask, Sim, Steps-PoolRun,
  devmem_alloc_page_not_held,
}

abbrev fresh : Device
fresh = record {
  zone_device_type = 1;
  capacity = 0;
  count = 0;
  chunks = [];
  calloc = 0;
  cfree = 0;
  free_pages = 0;
  zdd = λ p. 0;
  devmem_locked = false;
  regions = 0;
  structs = 0;
  backing = 0;
}

fresh-Inv : Inv fresh []
fresh-Inv = record {
  chain = refl;
  distinct = tt;
  books = record { counted = refl; array = (refl, omega arith); holds = (refl, refl) };
  unlocked = refl;
}

-- The kernel gives everything, the region at 4 GiB.
abbrev answers : ChunkAnswers
answers = record { kzalloc = true; region = some 4294967296; krealloc = true; memremap = 0 }

region : IsFreeRegion answers []
region start e = (ground (arith, e), tt)

allocate_chunk-Inv_example : Allocates answers true [] (allocate_chunk fresh answers true)
allocate_chunk-Inv_example = allocate_chunk-Inv fresh [] answers true fresh-Inv region

devmem_alloc_page-Page_example :
    let (d', page) = devmem_alloc_page fresh answers 9 in Page fresh [] answers 9 d' page
devmem_alloc_page-Page_example = devmem_alloc_page-Page fresh [] answers 9 fresh-Inv region

abbrev small : Chunk
small = record { start = 65536; end = 73727; remove = false }

abbrev other_chunk : Chunk
other_chunk = record { start = 131072; end = 139263; remove = false }

-- Two chunks of two pages; the pages 17 and 32 are free, and 16 and 33 are in use.
abbrev used : Device
used = record {
  zone_device_type = 1;
  capacity = 16;
  count = 2;
  chunks = small ∷ other_chunk ∷ [];
  calloc = 2;
  cfree = 0;
  free_pages = 32;
  zdd = λ p. if p == 32 then 17 else if p == 17 then 0 else 70 + p;
  devmem_locked = false;
  regions = 2;
  structs = 2;
  backing = 2;
}

used-Inv : Inv used (32 ∷ 17 ∷ [])
used-Inv = record {
  chain = (refl, omega arith, (refl, omega arith, refl));
  distinct = ((omega arith, tt), (tt, tt));
  books = record { counted = refl; array = (refl, omega arith); holds = (refl, refl) };
  unlocked = refl;
}

abbrev nobody : System
nobody = record { device = fresh; held = λ q. false }

nobody-Sim : Sim nobody []
nobody-Sim = record {
  inv = fresh-Inv;
  frame = record {
    apart = λ q h. cc;
    free_inside = λ q h. cc;
    held_inside = λ q h. cc;
    kept = tt;
    null_out = refl;
  };
}

-- The kernel has no region left.
abbrev no_region : ChunkAnswers
no_region = record { kzalloc = true; region = none; krealloc = true; memremap = 0 }

new_region : IsNewRegion answers []
new_region start e = (ground (arith, e), tt)

asked : Steps nobody (after_alloc nobody (devmem_alloc_page fresh answers 9))
asked = step none_yet (ask answers 9 new_region)

Steps-PoolRun_example :
    (qs : List ℕ) × Sim (after_alloc nobody (devmem_alloc_page fresh answers 9)) qs
    × PoolRun
        (pool_of [] (λ q. false))
        (pool_of qs (after_alloc nobody (devmem_alloc_page fresh answers 9)).held)
Steps-PoolRun_example =
    Steps-PoolRun nobody (after_alloc nobody (devmem_alloc_page fresh answers 9)) [] nobody-Sim
      asked

devmem_alloc_page_not_held_example :
    let t = after_alloc nobody (devmem_alloc_page fresh answers 9) in
    t.held (devmem_alloc_page t.device no_region 7).1 ≡ false
devmem_alloc_page_not_held_example =
    devmem_alloc_page_not_held nobody (after_alloc nobody (devmem_alloc_page fresh answers 9)) []
      no_region 7 nobody-Sim asked (λ start e. cc)
