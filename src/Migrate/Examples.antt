-- ===== src/Migrate/Examples.antt =====
-- The migration of pages in hmm.c on a small device.
use rshm_hmm.Base.{ℕ, ◌≡◌, ◌≢◌, refl, sym, ap, arith, [], ◌∷◌, true, false, ◌==◌, if◌then◌else◌}
use rshm_hmm.Kernel.{Entry, null_entry}
use rshm_hmm.Kernel.Map.{roomy_map, bounded_map}
use rshm_hmm.Mirror.{Dmirror}
use rshm_hmm.Snapshot.{PageKind, system, device_private}
use rshm_hmm.Devmem.{is_private_zone, devmem_alloc_page}
use rshm_hmm.Migrate.{
  source_page, MigratePfn, Pfns, no_pfns, migrate_pfn, World, alloc_one, copy_to_device,
  alloc_and_copy_loop, alloc_and_copy, finalize_and_map, devmem_fault_alloc_and_copy,
}
use rshm_hmm.Migrate.Back.{there_and_back}
use rshm_hmm.Migrate.Finalize.{Finalized, finalize_and_map-Finalized}
use rshm_hmm.Migrate.Loop.{Looped, alloc_and_copy-Looped}
use rshm_hmm.Migrate.Return.{AreNew}
use rshm_hmm.Migrate.Sources.{
  AreFresh, backing, itself, CameBack, devmem_fault_alloc_and_copy-CameBack,
}
use rshm_hmm.Migrate.Fixtures.{
  half_used, held, half_used-Good, used, alloc_90, moving, all_system, world, moving-UsesSources,
  lawful,
}

alloc_and_copy-Looped_example :
    let (v, dst) =
      alloc_and_copy all_system 5 true (λ i. alloc_90) moving 8192 12288 no_pfns world in
    Looped all_system 5 true (λ i. alloc_90) moving 1 0 no_pfns world held used v dst
alloc_and_copy-Looped_example =
    alloc_and_copy-Looped all_system 5 true (λ i. alloc_90) moving 8192 12288 no_pfns world held
      used moving-UsesSources half_used-Good (lawful 5 true)

abbrev mirror : Dmirror (ℕ → Entry)
mirror = record { mdevice = 5; pt = λ i. null_entry; seq = 0; locked = false }

abbrev to_17 : Pfns
to_17 i = migrate_pfn 17 true

finalize_and_map-Finalized_example :
    let (m, ret) = finalize_and_map (bounded_map 9) (λ p. 90) moving to_17 8192 12288 mirror in
    Finalized (bounded_map 9) (λ p. 90) moving to_17 1 2 0 mirror.pt m.pt ret
finalize_and_map-Finalized_example =
    finalize_and_map-Finalized (bounded_map 9) (λ p. 90) moving to_17 8192 12288 mirror

abbrev private_16 : ℕ → PageKind
private_16 p = if p == 16 then device_private 5 else system

-- Page 16 of the device is to move.
abbrev from_16 : Pfns
from_16 i = record {
  valid = true;
  migrate = i == 0;
  write = false;
  page = if i == 0 then 16 else 0;
}

abbrev page_95 : ℕ → ℕ
page_95 i = if i == 0 then 95 else 0

from_16-AreFresh : AreFresh private_16 half_used page_95 from_16
from_16-AreFresh = record {
  distinct = λ i j ne nz. ground (arith, ne, nz);
  fresh = λ i j spage nz behind. elim behind [
    | backing dev moves real private at ↦ ground (arith, nz, moves, real, at)
    | itself dev moves real coherent at ↦ ground (arith, nz, moves, real, at)
  ];
}

devmem_fault_alloc_and_copy-CameBack_example :
    let (m, mem, dst) =
      devmem_fault_alloc_and_copy roomy_map private_16 half_used page_95 from_16 8192 12288 no_pfns
        mirror world.memory in
    CameBack private_16 half_used page_95 from_16 roomy_map 1 2 mirror.pt world.memory no_pfns m.pt
      mem dst
devmem_fault_alloc_and_copy-CameBack_example =
    devmem_fault_alloc_and_copy-CameBack private_16 half_used page_95 from_16 roomy_map 8192 12288
      no_pfns mirror world.memory from_16-AreFresh

abbrev after : World
after = (alloc_and_copy all_system 5 true (λ i. alloc_90) moving 8192 12288 no_pfns world).0

abbrev private_17 : ℕ → PageKind
private_17 p = if p == 17 then device_private 5 else system

abbrev from_17 : Pfns
from_17 i = record { valid = true; migrate = i == 0; write = true; page = if i == 0 then 17 else 0 }

taken_17 :
    (alloc_and_copy all_system 5 true (λ i. alloc_90) moving 8192 12288 no_pfns world).1 0
    ≡ migrate_pfn 17 true
unfolding alloc_and_copy alloc_and_copy_loop alloc_one copy_to_device devmem_alloc_page
    is_private_zone
taken_17 = refl

from_17-AreNew : AreNew roomy_map private_17 after.device page_95 from_17
unfolding source_page alloc_and_copy alloc_and_copy_loop alloc_one copy_to_device devmem_alloc_page
    is_private_zone
from_17-AreNew = record {
  distinct = λ i j ne nz. ground (arith, ne, nz);
  fresh = λ i j nz. ground (arith, nz);
}

some_page :
    ((alloc_and_copy all_system 5 true (λ i. alloc_90) moving 8192 12288 no_pfns world).1 0).page
    ≢ 0
some_page e = ground (arith, e, ap (λ (t : MigratePfn). t.page) taken_17)

there_and_back_example :
    let (m, mem, _) =
      devmem_fault_alloc_and_copy roomy_map private_17 after.device page_95 from_17 8192 12288
        no_pfns mirror after.memory in
    (mem 95 ≡ 7 ∷ 8 ∷ []) × (m.pt 2 ≡ null_entry)
there_and_back_example =
    there_and_back roomy_map all_system 5 true (λ i. alloc_90) moving 8192 12288 world held used 0 5
      private_17 page_95 from_17 8192 mirror moving-UsesSources half_used-Good (lawful 5 true)
      (omega arith) some_page (sym (ap (λ (t : MigratePfn). t.page) taken_17)) refl
      (ap (λ (e : MigratePfn). private_17 e.page) taken_17) from_17-AreNew
      (λ e. absurd (omega arith))
