-- ===== src/Devmem/Refines.antt =====
-- The device memory of hmm.c and its users: how dmirror_devmem_alloc_page, dmirror_devmem_free and
-- dmirror_allocate_chunk follow one another, and the pool that they implement.
use rshm_hmm.Base.{
  ℕ, ◌<◌, ◌≡◌, sym, subst, inl, inr, Bool, true, false, List, [], ◌∷◌, ◌++◌, some, arith, ◌==◌,
  ne→==, Bool-cases, if◌then◌else◌,
}
use rshm_hmm.Kernel.{shr_page}
use rshm_hmm.Devmem.{
  Device, Chunk, ChunkAnswers, new_chunk, pages_of, allocate_chunk, devmem_alloc_page, devmem_free,
}
use rshm_hmm.Devmem.Chunks.{Apart, Grown, same, longer, allocate_chunk-Grown}
use rshm_hmm.Devmem.FreeList.{onto}
use rshm_hmm.Devmem.Invariant.{Inv, IsFreeRegion, failed, added, Allocates, allocate_chunk-Inv}
use rshm_hmm.Devmem.Pages.{
  Page, null, taken, listed, opened, devmem_alloc_page-Page, devmem_free-Inv,
}
use rshm_hmm.Devmem.Pool.{
  Pool, PoolRun, start, and_then, has, hold, pool_of, has-Off, give_first, back_first,
}
use rshm_hmm.Devmem.Frames.{
  Frame, not_removed, Apart-Outside, join_new, Frame-more, Frame-give, Frame-back,
}

-- A device and the pages that its users hold.
pub record System : Type 0 where
  pub device : Device
  pub held : ℕ → Bool

-- A region that the kernel gives has no page of the chunks in it, and does not begin with page frame 0.
abbrev pub IsNewRegion : ChunkAnswers → List Chunk → Type 0
IsNewRegion k cs =
    (start : ℕ)
    → k.region ≡ some start
    → (0 < shr_page start) × Apart (shr_page start) (pages_of (new_chunk start)) cs

abbrev pub after_alloc : System → Device × ℕ → System
after_alloc s (d', page) = record {
  device = d';
  held = if page == 0 then s.held else hold s.held page true;
}

abbrev pub after_free : System → ℕ → System
after_free s page = record { device = devmem_free s.device page; held = hold s.held page false }

-- A user asks for a page, or gives back one that it holds; or the driver maps a chunk for nobody.
pub data Step (s : System) : System → Type 0 where
  ask :
      (k : ChunkAnswers) (rpage : ℕ)
      → IsNewRegion k s.device.chunks
      → Step s (after_alloc s (devmem_alloc_page s.device k rpage))
  give_back : (page : ℕ) → s.held page ≡ true → Step s (after_free s page)
  map_one :
      (k : ChunkAnswers)
      → IsNewRegion k s.device.chunks
      → Step s (record s { device = (allocate_chunk s.device k false).0 })

pub data Steps (s : System) : System → Type 0 where
  none_yet : Steps s s
  step : {t u : System} → Steps s t → Step t u → Steps s u

pub record Sim (s : System) (ps : List ℕ) : Type 0 where
  pub inv : Inv s.device ps
  pub frame : Frame s.device.chunks s.held ps

pub IsNewRegion-IsFreeRegion :
    (k : ChunkAnswers) (s : System) (ps : List ℕ)
    → Sim s ps
    → IsNewRegion k s.device.chunks
    → IsFreeRegion k ps
IsNewRegion-IsFreeRegion k s ps sim new at e = (
  (new at e).0,
  Apart-Outside (shr_page at) (pages_of (new_chunk at)) s.device.chunks ps (new at e).1
      sim.frame.free_inside,
)

held_not_free :
    (s : System) (ps : List ℕ) (page : ℕ) → Sim s ps → s.held page ≡ true → has ps page ≡ false
held_not_free s ps page sim h = elim (Bool-cases (has ps page)) [
  | inr miss ↦ miss
  | inl hit ↦ cc (h, sim.frame.apart page hit)
]

chunks-devmem_free : (d : Device) (page : ℕ) → (devmem_free d page).chunks ≡ d.chunks
unfolding devmem_free
chunks-devmem_free d page = ground arith

-- What a step of the driver is in the pool: steps of it, from one simulated state to another.
abbrev pub Simulated : System → List ℕ → System → Type 0
Simulated s ps t =
    (qs : List ℕ) × Sim t qs
    × ((o : Pool) → PoolRun o (pool_of ps s.held) → PoolRun o (pool_of qs t.held))

pub give_back-Simulated :
    (s : System) (ps : List ℕ) (page : ℕ)
    → Sim s ps
    → s.held page ≡ true
    → Simulated s ps (after_free s page)
give_back-Simulated s ps page sim h =
    let miss = held_not_free s ps page sim h in
    let i : Inv (devmem_free s.device page) (page ∷ ps) =
      subst (λ (t : Bool). Inv (devmem_free s.device page) (if t then ps else page ∷ ps))
        (not_removed s.device.chunks page sim.frame.kept)
        (devmem_free-Inv s.device page ps
          (λ e. cc (sim.frame.null_out, subst (λ t. s.held t ≡ true) e h)) (has-Off page ps miss)
          sim.inv) in
    (
      page ∷ ps,
      record {
        inv = i;
        frame =
            subst (λ t. Frame t (hold s.held page false) (page ∷ ps))
              (sym (chunks-devmem_free s.device page))
              (Frame-back s.device.chunks s.held page ps h sim.frame);
      },
      λ o r. and_then r (back_first page ps s.held h miss),
    )

-- dmirror_devmem_alloc_page.
ask-Simulated :
    (s : System) (ps : List ℕ) (k : ChunkAnswers) (rpage : ℕ) (d' : Device) (page : ℕ)
    → Sim s ps
    → IsNewRegion k s.device.chunks
    → Page s.device ps k rpage d' page
    → Simulated s ps (after_alloc s (d', page))
ask-Simulated s ps k rpage d' page sim new (null _ z i cs _) = (
  ps,
  record { inv = i; frame = rw z (subst (λ t. Frame t s.held ps) (sym cs) sim.frame) },
  λ o r. rw z r,
)
ask-Simulated s ps k rpage d' page sim new (taken qs nz i off (listed e cs) _ _ _) = (
  qs,
  record {
    inv = i;
    frame = rw (ne→== page 0 nz) (
        subst (λ t. Frame t (hold s.held page true) qs) (sym cs)
          (Frame-give s.device.chunks s.held page qs nz off
            (subst (Frame s.device.chunks s.held) e sim.frame)));
  },
  λ o r.
      rw (ne→== page 0 nz)
        (and_then (subst (λ t. PoolRun o (pool_of t s.held)) e r) (give_first page qs s.held off)),
)
ask-Simulated s ps k rpage d' page sim new (taken qs nz i off (opened at region e cs) _ _ _) =
    let apart = (new at region).1 in
    (
      qs,
      record {
        inv = i;
        frame = rw (ne→== page 0 nz) (
            subst (λ t. Frame t (hold s.held page true) qs) (sym cs)
              (Frame-give (s.device.chunks ++ new_chunk at ∷ []) s.held page qs nz off (
                subst (Frame (s.device.chunks ++ new_chunk at ∷ []) s.held) e
                  (Frame-more s.device.chunks s.held ps sim.frame at apart))));
      },
      λ o r. rw (ne→== page 0 nz) (
          and_then
            (subst (λ t. PoolRun o (pool_of t s.held)) e
              (and_then r (join_new s.device.chunks s.held ps sim.frame at apart)))
            (give_first page qs s.held off)),
    )

-- dmirror_allocate_chunk without a page for the caller.
map_one-Simulated :
    (s : System) (ps : List ℕ) (k : ChunkAnswers) (d' : Device) (ret page : ℕ)
    → Sim s ps
    → IsNewRegion k s.device.chunks
    → Grown s.device.chunks k ret d'.chunks
    → Allocates k false ps (d', ret, page)
    → Simulated s ps (record s { device = d' })
map_one-Simulated s ps k d' ret page sim new (same _ cs) (_, i, failed ne) =
    (ps, record { inv = i; frame = subst (λ t. Frame t s.held ps) (sym cs) sim.frame }, λ o r. r)
map_one-Simulated s ps k d' ret page sim new (longer _ _ z _) (_, i, failed ne) = absurd (ne z)
map_one-Simulated s ps k d' ret page sim new (same ne _) (qs, i, added at region z e last) =
    absurd (ne z)
map_one-Simulated s ps k d' ret page sim new (longer at region _ cs)
      (qs, i, added at' region' z e last) =
    let one : at' ≡ at = cc (region, region') in
    let e' : qs ≡ onto (pages_of (new_chunk at)) (shr_page at) ps =
      subst (λ t. qs ≡ onto (pages_of (new_chunk t)) (shr_page t) ps) one e in
    let apart = (new at region).1 in
    (
      onto (pages_of (new_chunk at)) (shr_page at) ps,
      record {
        inv = subst (Inv d') e' i;
        frame =
            subst (λ t. Frame t s.held (onto (pages_of (new_chunk at)) (shr_page at) ps)) (sym cs)
              (Frame-more s.device.chunks s.held ps sim.frame at apart);
      },
      λ o r. and_then r (join_new s.device.chunks s.held ps sim.frame at apart),
    )

-- Each step of the driver, from a state that the pool simulates, is a run of the pool.
pub Step-Simulated : (s t : System) (ps : List ℕ) → Sim s ps → Step s t → Simulated s ps t
Step-Simulated s t ps sim (ask k rpage new) =
    ask-Simulated s ps k rpage _ _ sim new
      (devmem_alloc_page-Page s.device ps k rpage sim.inv (IsNewRegion-IsFreeRegion k s ps sim new))
Step-Simulated s t ps sim (give_back page h) = give_back-Simulated s ps page sim h
Step-Simulated s t ps sim (map_one k new) =
    map_one-Simulated s ps k _ _ _ sim new (allocate_chunk-Grown s.device k false)
      (allocate_chunk-Inv s.device ps k false sim.inv (IsNewRegion-IsFreeRegion k s ps sim new))

-- Refinement: whatever the driver and its users do from a state with the free list `ps`, where every
-- region that the kernel gives is new, the result has a free list that keeps the invariant, and its
-- pool is reached from the first one by steps of the pool, in which a page is given only when it is
-- free, comes back only when it is in use, and joins only when it is foreign.
pub Steps-PoolRun :
    (s t : System) (ps : List ℕ)
    → Sim s ps
    → Steps s t
    → (qs : List ℕ) × Sim t qs × PoolRun (pool_of ps s.held) (pool_of qs t.held)
Steps-PoolRun s t ps sim none_yet = (ps, sim, start)
Steps-PoolRun s t ps sim (step before last) =
    let (qs, mid, r) = Steps-PoolRun s _ ps sim before in
    let (rs, end, go) = Step-Simulated _ t qs mid last in (rs, end, go (pool_of ps s.held) r)

pub Page-not_held :
    (s : System) (ps : List ℕ) (k : ChunkAnswers) (rpage : ℕ) (d' : Device) (page : ℕ)
    → Sim s ps
    → IsNewRegion k s.device.chunks
    → Page s.device ps k rpage d' page
    → s.held page ≡ false
Page-not_held s ps k rpage d' page sim new (null _ z i _ _) = rw z sim.frame.null_out
Page-not_held s ps k rpage d' page sim new (taken qs nz i off (listed e cs) _ _ _) =
    sim.frame.apart page (subst (λ t. has t page ≡ true) (sym e) (ground arith))
Page-not_held s ps k rpage d' page sim new (taken qs nz i off (opened at region e cs) _ _ _) =
    (Frame-more s.device.chunks s.held ps sim.frame at (new at region).1).apart page
      (subst (λ t. has t page ≡ true) (sym e) (ground arith))

-- However the driver got to a state, the page that dmirror_devmem_alloc_page gives next is held by
-- nobody: no page has two users.
pub devmem_alloc_page_not_held :
    (s t : System) (ps : List ℕ) (k : ChunkAnswers) (rpage : ℕ)
    → Sim s ps
    → Steps s t
    → IsNewRegion k t.device.chunks
    → t.held (devmem_alloc_page t.device k rpage).1 ≡ false
devmem_alloc_page_not_held s t ps k rpage sim steps new =
    let (qs, mid, _) = Steps-PoolRun s t ps sim steps in
    Page-not_held t qs k rpage _ _ mid new
      (devmem_alloc_page-Page t.device qs k rpage mid.inv (IsNewRegion-IsFreeRegion k t qs mid new))
