-- ===== src/Moves/ToDevice.antt =====
-- A round of dmirror_migrate_to_device of hmm.c as a whole.
use rshm_hmm.Base.{
  ℕ, ◌+◌, ◌-◌, ◌≤◌, ◌<◌, ◌≡◌, refl, sym, subst, ◌∙◌, ◌⊎◌, inl, inr, Bool, true, not, ◌&&◌, ◌||◌,
  arith, ◌==◌, ltb, ltb→lt, Bool-cases, if◌then◌else◌,
}
use rshm_hmm.Kernel.{Entry, Memory, XArray, shr_page}
use rshm_hmm.Mirror.{tag_write}
use rshm_hmm.Faulting.{notify}
use rshm_hmm.Migrate.{
  no_pfns, MigratePfn, Pfns, World, blank, rounds, alloc_and_copy, finalize_and_map,
}
use rshm_hmm.Migrate.Finalize.{
  maps, device_entry, Finalized, finished, stopped, finalize_and_map-Finalized,
}
use rshm_hmm.Migrate.Loop.{UsesSources, AllLawful, Looped, alloc_and_copy-Looped}
use rshm_hmm.Migrate.Round.{Good, Entered, left, entered}
use rshm_hmm.Moves.{Round, Site, writable, to_device_round}

-- An entry of the page table after a round: as before, or the backing page of a device page, with what
-- the source page had (nothing but zeros where there is none), tagged if that was writable.
pub data NewEntry (vm_write : Bool) (src : MigratePfn) (mem mem' : Memory) (old new : Entry)
    : Type 0 where
  kept : new ≡ old → NewEntry vm_write src mem mem' old new
  migrated :
      src.migrate ≡ true
      → mem' new.page ≡ (if src.page == 0 then blank else mem src.page)
      → new.tag ≡ (if src.write || src.page == 0 && vm_write then tag_write else 0)
      → NewEntry vm_write src mem mem' old new

abbrev pub with_memory : World → Memory → World
with_memory w mem = record w { memory = mem }

module _ (xa : XArray) where
  open xa use {Xa, load}

  Entered-NewEntry :
      {vm_write : Bool} {src e : MigratePfn} {mem : Memory} {w : World} {held used : ℕ → Bool}
      → (old : Entry) → Entered vm_write src (no_pfns 0) mem w held used e
      → not (e.page == 0) ≡ true
      → NewEntry vm_write src mem w.memory old (device_entry w.device.zdd e)
  Entered-NewEntry old (left x) some_page = absurd (ground (arith, x, some_page))
  Entered-NewEntry old (entered m nz wr content _ _ _) some_page = migrated m content (rw wr refl)

  module _ (own : ℕ) (r : Round) (addr next : ℕ) (s : Site Xa) where
    abbrev w0 : World
    w0 = with_memory s.world (r.others s.world.memory)

    abbrev copied : World × Pfns
    copied = alloc_and_copy r.kind own (writable r.vma) r.allocs r.src addr next no_pfns w0

    -- A round of dmirror_migrate_to_device, where the kernel's answers are lawful and the source pages
    -- in use: every entry of its range is as the callbacks in migrate_vma_setup left it, or leads to a
    -- copy of its source page; whether all stores succeed or one fails. The other entries stay.
    pub to_device_round-NewEntry :
        (held used : ℕ → Bool)
        → UsesSources r.src used
        → Good s.world.device held
        → AllLawful r.kind own
            (writable r.vma)
            r.allocs
            r.src
            (rounds addr next)
            0
            no_pfns
            (with_memory s.world (r.others s.world.memory))
            used
        → let t = to_device_round xa own r addr next s in
          let before = (notify xa s.mirror r.notices).pt in
          ((j : ℕ)
            → j < shr_page next - shr_page addr
            → NewEntry
                (writable r.vma)
                (r.src j)
                (r.others s.world.memory)
                t.world.memory
                (load before (shr_page addr + j))
                (load t.mirror.pt (shr_page addr + j)))
          × ((q : ℕ)
              → (q < shr_page addr) ⊎ (shr_page next ≤ q)
              → load t.mirror.pt q ≡ load before q)
    unfolding to_device_round
    to_device_round-NewEntry held used uses good laws = (
      λ j lt. elim ended [
        | finished _ m ↦ at_done j lt (m.done j lt)
        | stopped k _ _ _ _ m ↦ elim (Bool-cases (ltb j k)) [
          | inl done ↦ at_done j lt (m.done j (ltb→lt j k done))
          | inr not_yet ↦ kept (m.elsewhere (shr_page addr + j) (inr (ground (arith, not_yet))))
        ]
      ],
      λ q out. elim ended [
        | finished _ m ↦ m.elsewhere q (omega (arith, out))
        | stopped k _ lt _ _ m ↦ m.elsewhere q (omega (arith, out, lt))
      ],
    )
      where
        looped :
            Looped r.kind own
              (writable r.vma)
              r.allocs
              r.src
              (rounds addr next)
              0
              no_pfns
              w0
              held
              used
              copied.0
              copied.1
        looped =
            alloc_and_copy-Looped r.kind own (writable r.vma) r.allocs r.src addr next no_pfns w0
              held used uses good laws

        ended :
            let (m', ret) =
              finalize_and_map xa copied.0.device.zdd r.after copied.1 addr next
                (notify xa s.mirror r.notices) in
            Finalized xa copied.0.device.zdd r.after copied.1
              (shr_page next - shr_page addr)
              (shr_page addr)
              0
              (notify xa s.mirror r.notices).pt
              m'.pt
              ret
        ended =
            finalize_and_map-Finalized xa copied.0.device.zdd r.after copied.1 addr next
              (notify xa s.mirror r.notices)

        at_done :
            (j : ℕ) {e : Entry}
            → j < shr_page next - shr_page addr
            → e ≡ (
                if maps r.after copied.1 (0 + j)
                then device_entry copied.0.device.zdd (copied.1 (0 + j))
                else load (notify xa s.mirror r.notices).pt (shr_page addr + j))
            → NewEntry
                (writable r.vma)
                (r.src j)
                (r.others s.world.memory)
                copied.0.memory
                (load (notify xa s.mirror r.notices).pt (shr_page addr + j))
                e
        at_done j lt e' =
            let z : 0 + j ≡ j = omega arith in
            let e = rw z at e' in
            elim (Bool-cases (maps r.after copied.1 j)) [
              | inr misses ↦ kept (e ∙ rw misses refl)
              | inl hits ↦
                  subst
                    (NewEntry (writable r.vma) (r.src j) (r.others s.world.memory) copied.0.memory
                      (load (notify xa s.mirror r.notices).pt (shr_page addr + j)))
                    (sym (e ∙ rw hits refl))
                    (Entered-NewEntry (load (notify xa s.mirror r.notices).pt (shr_page addr + j))
                      (looped.each j (omega arith) (omega (arith, lt))) (ground (arith, hits)))
            ]
