-- ===== src/Driver/Release.antt =====
-- dmirror_device_remove_chunks of hmm.c gives back what the device holds.
use rshm_hmm.Base.{
  ℕ, suc, ◌-◌, ◌<◌, ◌≡◌, refl, sym, ap, subst, ◌∙◌, inl, inr, Bool, true, false, some, List, [],
  ◌∷◌, ◌++◌, length, arith, ◌==◌, ==→eq, Bool-cases,
}
use rshm_hmm.Devmem.{Device, Chunk, has_page, is_removed, devmem_free}
use rshm_hmm.Devmem.FreeList.{Chain}
use rshm_hmm.Devmem.Chunks.{in_chunks}
use rshm_hmm.Devmem.Pool.{has}
use rshm_hmm.Devmem.Refines.{Sim}
use rshm_hmm.Devmem.Remove.{
  behind, length-behind, remove_free_pages-behind, devmem_free_removed, AllRemoving,
  is_removed-append, AllRemoving-append, remove_free_pages_frame,
}
use rshm_hmm.Migrate.{World}
use rshm_hmm.Moves.{Eviction, free_all, evict_chunk}
use rshm_hmm.Driver.{removing, drop_chunk, with_device, remove_rounds, no_chunks, remove_chunks}

abbrev pub AllOf : Chunk → List ℕ → Type 0
AllOf c [] = Unit {0}
AllOf c (p ∷ ps) = (has_page c p ≡ true) × AllOf c ps

-- The pages that an eviction frees are of the chunk that is evicted.
abbrev pub FreesOwn : (ℕ → Eviction) → ℕ → List Chunk → Type 0
FreesOwn es i [] = Unit {0}
FreesOwn es i (c ∷ cs) = AllOf c (es i).freed × FreesOwn es (suc i) cs

length_0 : (cs : List Chunk) → length cs ≡ 0 → cs ≡ []
length_0 [] e = refl
length_0 (c ∷ cs) e = absurd (omega (arith, e))

free_all_removed :
    (before : List Chunk) (c : Chunk) (after : List Chunk) (ps : List ℕ) (d : Device)
    → AllRemoving before
    → c.remove ≡ true
    → AllOf c ps
    → d.chunks ≡ before ++ c ∷ after
    → free_all ps d ≡ record d { backing = (free_all ps d).backing }
unfolding free_all
free_all_removed before c after [] d all r own e = refl
free_all_removed before c after (p ∷ ps) d all r (h, own) e =
    let going : is_removed d.chunks p ≡ true =
      subst (λ t. is_removed t p ≡ true) (sym e) (is_removed-append before c after p all r h) in
    let same = devmem_free_removed d p going in
    free_all_removed before c after ps (devmem_free d p) all r own
      (ap (λ (t : Device). t.chunks) same ∙ e)
    ∙ ap (λ (t : Device). record t { backing = (free_all ps (devmem_free d p)).backing }) same

-- An eviction changes the device only in the count of the pages behind device pages.
evicted :
    (before : List Chunk) (c : Chunk) (after : List Chunk) (e : Eviction) (w : World)
    → AllRemoving before
    → c.remove ≡ true
    → AllOf c e.freed
    → w.device.chunks ≡ before ++ c ∷ after
    → (evict_chunk e c w).device ≡ record w.device { backing = (evict_chunk e c w).device.backing }
unfolding evict_chunk
evicted before c after e w all r own eq =
    free_all_removed before c after e.freed w.device all r own eq

-- How the rounds end: with a region and a structure fewer for each chunk.
pub record Released (w v : World) (n : ℕ) : Type 0 where
  pub regions : v.device.regions ≡ w.device.regions - n
  pub structs : v.device.structs ≡ w.device.structs - n
  pub locked : v.device.devmem_locked ≡ w.device.devmem_locked

remove_rounds-Released :
    (fuel : ℕ) (es : ℕ → Eviction) (i : ℕ) (before cs : List Chunk) (w : World) (ps : List ℕ)
    → AllRemoving before
    → FreesOwn es i cs
    → Chain w.device.zdd w.device.free_pages ps
    → length ps < fuel
    → (v : World) × (remove_rounds fuel es i before cs w ≡ some v) × Released w v (length cs)
unfolding remove_rounds
remove_rounds-Released fuel es i before [] w ps all own chain lt =
    (w, refl, record { regions = omega arith; structs = omega arith; locked = refl })
remove_rounds-Released fuel es i before (c ∷ cs) w ps all (own, rest) chain lt =
    let marked : Device = record w.device { chunks = before ++ removing c ∷ cs } in
    let (d, e, left, _) = remove_free_pages-behind fuel marked (removing c) ps lt chain in
    let same = remove_free_pages_frame fuel marked d (removing c) e in
    let gone : World = evict_chunk (es i) (removing c) (with_device w d) in
    let kept : gone.device ≡ record d { backing = gone.device.backing } =
      evicted before (removing c) cs (es i) (with_device w d) all refl own
        (ap (λ (t : Device). t.chunks) same) in
    let next : Chain gone.device.zdd gone.device.free_pages (behind (removing c) ps ps) =
      subst (λ (t : Device). Chain t.zdd t.free_pages (behind (removing c) ps ps)) (sym kept)
        left in
    let (v, is, r) =
      remove_rounds-Released fuel es (suc i) (before ++ removing c ∷ []) cs (drop_chunk gone)
        (behind (removing c) ps ps) (AllRemoving-append before (removing c) all refl) rest next
        (omega
          (arith, lt, length-behind (removing c) ps ps (length ps) (omega arith) (omega arith))) in
    (
      v,
      rw (e, remove_rounds) is,
      record {
        regions = omega (
          arith,
          r.regions,
          ap (λ (t : Device). t.regions) kept,
          ap (λ (t : Device). t.regions) same,
        );
        structs = omega (
          arith,
          r.structs,
          ap (λ (t : Device). t.structs) kept,
          ap (λ (t : Device). t.structs) same,
        );
        locked =
            r.locked
            ∙ ap (λ (t : Device). t.devmem_locked) kept
            ∙ ap (λ (t : Device). t.devmem_locked) same;
      },
    )

-- What dmirror_device_remove_chunks leaves: no chunk, no free page, and nothing held of the kernel.
pub record Emptied (d : Device) : Type 0 where
  pub chunks : d.chunks ≡ []
  pub free_pages : d.free_pages ≡ 0
  pub count : d.count ≡ 0
  pub capacity : d.capacity ≡ 0
  pub regions : d.regions ≡ 0
  pub structs : d.structs ≡ 0
  pub unlocked : d.devmem_locked ≡ false

no_chunks_left :
    (d : Device) (held : ℕ → Bool) (ps : List ℕ)
    → Sim (record { device = d; held = held }) ps
    → (d.capacity == 0) ≡ true
    → (d.chunks ≡ []) × (d.free_pages ≡ 0)
no_chunks_left d held ps sim no_array = (empty, nothing_free ps refl)
  where
    empty : d.chunks ≡ []
    empty = length_0 d.chunks (ground (arith, no_array, sim.inv.books.array))

    nothing_free : (qs : List ℕ) → qs ≡ ps → d.free_pages ≡ 0
    nothing_free [] e = subst (Chain d.zdd d.free_pages) (sym e) sim.inv.chain
    nothing_free (q ∷ qs) e =
        let inside : in_chunks d.chunks q ≡ true =
          sim.frame.free_inside q (subst (λ t. has t q ≡ true) e (ground arith)) in
        cc (subst (λ t. in_chunks t q ≡ true) empty inside)

-- dmirror_device_remove_chunks of a well-formed device with the free list `ps`, on fuel for it and one
-- more, where each eviction frees pages of its own chunk only, ends, and leaves the device empty: every
-- region and structure that it held is given back.
pub remove_chunks-Emptied :
    (fuel : ℕ) (es : ℕ → Eviction) (w : World) (held : ℕ → Bool) (ps : List ℕ)
    → Sim (record { device = w.device; held = held }) ps
    → FreesOwn es 0 w.device.chunks
    → length ps < fuel
    → (v : World) × (remove_chunks fuel es w ≡ some v) × Emptied v.device
unfolding remove_chunks
remove_chunks-Emptied fuel es w held ps sim own lt = elim (Bool-cases (w.device.capacity == 0)) [
  | inl no_array ↦
      let (empty, none_free) = no_chunks_left w.device held ps sim no_array in
      let no_length : length w.device.chunks ≡ 0 = ap length empty in
      rw (no_array, remove_chunks)
        (
          with_device w (record w.device { devmem_locked = false }),
          refl,
          record {
            chunks = empty;
            free_pages = none_free;
            count = omega (arith, sim.inv.books.array, no_length);
            capacity = ==→eq w.device.capacity 0 no_array;
            regions = omega (arith, sim.inv.books.holds, no_length);
            structs = omega (arith, sim.inv.books.holds, no_length);
            unlocked = refl;
          },
        )
  | inr array ↦
      let locked : World = with_device w (record w.device { devmem_locked = true }) in
      let (v, e, r) =
        remove_rounds-Released fuel es 0 [] w.device.chunks locked ps tt own sim.inv.chain lt in
      rw (array, e, remove_chunks)
        (
          with_device v (no_chunks v.device),
          refl,
          record {
            chunks = refl;
            free_pages = refl;
            count = refl;
            capacity = refl;
            regions = omega (arith, r.regions, sim.inv.books.holds);
            structs = omega (arith, r.structs, sim.inv.books.holds);
            unlocked = refl;
          },
        )
]
