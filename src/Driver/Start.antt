-- ===== src/Driver/Start.antt =====
-- rshm_init of hmm.c on every branch.
use rshm_hmm.Base.{
  ℕ, suc, ◌≤◌, ◌<◌, ◌≡◌, ◌≢◌, refl, sym, ap, subst, ◌∙◌, inl, inr, true, false, ◌&&◌, some, List,
  [], ◌∷◌, length, arith, ◌==◌, ==→eq, ne→==, Bool-cases,
}
use rshm_hmm.Kernel.{Memory, shr_page}
use rshm_hmm.Devmem.{Device, ChunkAnswers, allocate_chunk, new_chunk, pages_of}
use rshm_hmm.Devmem.Chunks.{Grown, same, longer, allocate_chunk-Grown}
use rshm_hmm.Devmem.FreeList.{Chain, length-onto}
use rshm_hmm.Devmem.Invariant.{Inv, Allocated, failed, added, Allocates, allocate_chunk-Inv}
use rshm_hmm.Devmem.Refines.{System, Sim, IsNewRegion, Step-Simulated, map_one}
use rshm_hmm.Moves.{Eviction}
use rshm_hmm.Driver.{
  Slot, InitAnswers, Module, blank_slot, unset_slot, device_init, device_remove, rshm_init,
}
use rshm_hmm.Driver.Release.{FreesOwn, Emptied, remove_chunks-Emptied}

-- The device with nobody holding a page of it.
abbrev pub idle : Device → System
idle d = record { device = d; held = λ q. false }

-- The kernel's answers to a first chunk, and to its removal.
pub record IsFit (k : InitAnswers) (es : ℕ → Eviction) (fuel : ℕ) : Type 0 where
  pub new : IsNewRegion k.chunk []
  pub own : (start : ℕ) → k.chunk.region ≡ some start → FreesOwn es 0 (new_chunk start ∷ [])
  pub walk : 65536 < fuel

-- A device with its cdev, well-formed, and with no page held.
pub record Running (s : Slot) : Type 0 where
  pub cdev : s.cdev ≡ true
  pub free : List ℕ
  pub sim : Sim (idle s.device) free

-- How dmirror_device_init ends on a blank device.
data Initialised (k : InitAnswers) (es : ℕ → Eviction) (fuel : ℕ) (s : Slot) (ret : ℕ)
    : Type 0 where
  up :
      ret ≡ 0
      → s.cdev ≡ true
      → (ps : List ℕ) → Sim (idle s.device) ps
      → length ps < fuel
      → FreesOwn es 0 s.device.chunks
      → Initialised k es fuel s ret
  down : ret ≢ 0 → s.cdev ≡ (k.set_name == 0 && k.add == 0) → Initialised k es fuel s ret

-- Two walks from the same page have the same length.
Chain-length :
    (zdd : ℕ → ℕ) (head : ℕ) (ps qs : List ℕ)
    → Chain zdd head ps
    → Chain zdd head qs
    → length ps ≡ length qs
Chain-length zdd head [] [] a b = refl
Chain-length zdd head [] (q ∷ qs) a (at, ne, b) = absurd (ne (sym at ∙ a))
Chain-length zdd head (p ∷ ps) [] (at, ne, a) b = absurd (ne (sym at ∙ b))
Chain-length zdd head (p ∷ ps) (q ∷ qs) (at, ne, a) (at', ne', b) =
    ap suc (Chain-length zdd (zdd p) ps qs a (subst (λ t. Chain zdd (zdd t) qs) (sym at' ∙ at) b))

blank-Sim : Sim (idle blank_slot.device) []
blank-Sim = record {
  inv = record {
    chain = refl;
    distinct = tt;
    books = record { counted = refl; array = (refl, omega arith); holds = (refl, refl) };
    unlocked = refl;
  };
  frame = record {
    apart = λ q h. cc;
    free_inside = λ q h. cc;
    held_inside = λ q h. cc;
    kept = tt;
    null_out = refl;
  };
}

walk_short :
    (d' : Device) (k : ChunkAnswers) (fuel ret page : ℕ) (qs : List ℕ)
    → 65536 < fuel
    → Allocates k false [] (d', ret, page)
    → Inv d' qs
    → length qs < fuel
walk_short d' k fuel ret page qs lt (rs, i, a) j =
    let one = Chain-length d'.zdd d'.free_pages qs rs j.chain i.chain in
    omega (arith, one, lt, Allocated-length a)
  where
    Allocated-length : {rs : List ℕ} → Allocated k false [] ret page rs → length rs ≤ 65536
    Allocated-length (failed ne) = omega arith
    Allocated-length (added start region z e last) =
        let n = length-onto (pages_of (new_chunk start)) (shr_page start) [] in
        omega (arith, n, ap length e)

chunk-Initialised :
    (k : InitAnswers) (es : ℕ → Eviction) (fuel : ℕ) (d' : Device) (ret page : ℕ) (ps : List ℕ)
    → k.set_name ≡ 0
    → k.add ≡ 0
    → IsFit k es fuel
    → Grown [] k.chunk ret d'.chunks
    → length ps < fuel
    → Sim (idle d') ps
    → Initialised k es fuel (record { device = d'; cdev = true }) ret
chunk-Initialised k es fuel d' ret page ps named added_it fit (same ne cs) lt sim =
    down ne (rw (named, added_it) refl)
chunk-Initialised k es fuel d' ret page ps named added_it fit (longer start region z cs) lt sim =
    up z refl ps sim lt (subst (FreesOwn es 0) (sym cs) (fit.own start region))

device_init-Initialised :
    (k : InitAnswers) (es : ℕ → Eviction) (fuel : ℕ)
    → IsFit k es fuel
    → let (s, ret) = device_init blank_slot k in Initialised k es fuel s ret
unfolding device_init
device_init-Initialised k es fuel fit = elim (Bool-cases (k.set_name == 0)) [
  | inr unnamed ↦ rw (unnamed, device_init) (down (ground (arith, unnamed)) (rw unnamed refl))
  | inl named ↦
      rw (named, device_init)
        (elim (Bool-cases (k.add == 0)) [
          | inr refused ↦
              rw (refused, device_init) (down (ground (arith, refused)) (rw (named, refused) refl))
          | inl added_it ↦
              rw (added_it, device_init)
                (let d' = (allocate_chunk blank_slot.device k.chunk false).0 in
                  let (ps, sim, _) =
                    Step-Simulated (idle blank_slot.device) (idle d') [] blank-Sim
                      (map_one k.chunk fit.new) in
                  chunk-Initialised k es fuel d' _
                    (allocate_chunk blank_slot.device k.chunk false).2 ps (==→eq k.set_name 0 named)
                    (==→eq k.add 0 added_it) fit
                    (allocate_chunk-Grown blank_slot.device k.chunk false)
                    (walk_short d' k.chunk fuel _ _ ps fit.walk
                      (allocate_chunk-Inv blank_slot.device [] k.chunk false blank-Sim.inv
                        (λ at e. ((fit.new at e).0, tt)))
                      sim.inv)
                    sim)
        ])
]

-- How rshm_init ends: with the devices running; or with an error, and no region of device numbers.
pub data Started (k l : InitAnswers) (m : Module) (ret : ℕ) : Type 0 where
  running : ret ≡ 0 → m.chrdev ≡ true → Running m.first → Running m.second → Started k l m ret
  no_region :
      ret ≢ 0 → m.chrdev ≡ false → m.first ≡ unset_slot → m.second ≡ unset_slot → Started k l m ret
  first_fails :
      ret ≢ 0
      → m.chrdev ≡ false
      → m.first.cdev ≡ (k.set_name == 0 && k.add == 0)
      → m.second ≡ blank_slot
      → Started k l m ret
  second_fails :
      ret ≢ 0
      → m.chrdev ≡ false
      → Emptied m.first.device
      → m.first.cdev ≡ false
      → m.second.cdev ≡ (l.set_name == 0 && l.add == 0)
      → Started k l m ret

device_remove-Emptied :
    (fuel : ℕ) (es : ℕ → Eviction) (s : Slot) (mem : Memory) (ps : List ℕ)
    → Sim (idle s.device) ps
    → FreesOwn es 0 s.device.chunks
    → length ps < fuel
    → (t : Slot) × (mem' : Memory) × (device_remove fuel es s mem ≡ some (t, mem'))
      × Emptied t.device
      × (t.cdev ≡ false)
unfolding device_remove
device_remove-Emptied fuel es s mem ps sim own lt =
    let (v, e, gone) =
      remove_chunks-Emptied fuel es (record { device = s.device; memory = mem }) (λ q. false) ps sim
        own lt in
    (record { device = v.device; cdev = false }, v.memory, rw (e, device_remove) refl, gone, refl)

-- rshm_init, where the kernel gives new regions, with fuel for the pages of a chunk, ends on every
-- branch: with 0, the region of device numbers and both devices running, well-formed and with nothing
-- held; or with an error and no region, where a first device that was running is emptied and its cdev
-- deleted, but the device that fails keeps its cdev if only its chunk could not be had.
pub rshm_init-Started :
    (fuel : ℕ) (es : ℕ → Eviction) (region : ℕ) (k l : InitAnswers) (mem : Memory)
    → IsFit k es fuel
    → IsFit l es fuel
    → (m : Module) × (ret : ℕ) × (rshm_init fuel es region k l mem ≡ some (m, ret))
      × Started k l m ret
unfolding rshm_init
rshm_init-Started fuel es region k l mem fit fit' = elim (Bool-cases (region == 0)) [
  | inr refused ↦
      rw (refused, rshm_init) (_, _, refl, no_region (ground (arith, refused)) refl refl refl)
  | inl granted ↦
      rw (granted, rshm_init)
        (elim (device_init-Initialised k es fuel fit) [
          | down ne cdev ↦
              rw (ne→== (device_init blank_slot k).1 0 ne, rshm_init)
                (_, _, refl, first_fails ne refl cdev refl)
          | up z cdev ps sim lt own ↦
              rw (z, rshm_init)
                (elim (device_init-Initialised l es fuel fit') [
                  | up z' cdev' ps' sim' lt' own' ↦
                      rw (z', rshm_init)
                        (
                          _,
                          _,
                          refl,
                          running refl refl (record { cdev = cdev; free = ps; sim = sim })
                              (record { cdev = cdev'; free = ps'; sim = sim' }),
                        )
                  | down ne cdev' ↦
                      let (t, mem', e, gone, off) =
                        device_remove-Emptied fuel es (device_init blank_slot k).0 mem ps sim own
                          lt in
                      rw (ne→== (device_init blank_slot l).1 0 ne, e, rshm_init)
                        (_, _, refl, second_fails ne refl gone off cdev')
                ])
        ])
]
