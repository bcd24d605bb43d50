-- ===== src/Devmem/Invariant.antt =====
-- The invariant of the device memory of hmm.c, and that its operations keep it.
use rshm_hmm.Base.{
  ℕ, zero, suc, ◌+◌, ◌-◌, ◌≤◌, ◌<◌, ◌≡◌, refl, sym, ap, subst, ◌∙◌, ◌≢◌, inl, inr, Bool, true,
  false, some, List, [], ◌∷◌, ◌++◌, length, length-append, arith, ◌==◌, Bool-cases, Option-cases,
  if◌then◌else◌,
}
use rshm_hmm.Kernel.{shr_page}
use rshm_hmm.Devmem.{
  Device, Chunk, ChunkAnswers, push_all, pages_of, pop_free, add_chunk, map_chunk, allocate_chunk,
  new_chunk, err_release, devmem_chunks_reserve, push_free,
}
use rshm_hmm.Devmem.FreeList.{
  Chain, Off, Distinct, Outside, onto, onto-suc, push_all-Chain, length-onto,
}

abbrev pub total : List Chunk → ℕ
total [] = 0
total (c ∷ cs) = pages_of c + total cs

-- The books of a device: the chunk array, what is held for the chunks, and the two counters.
pub record Books (d : Device) (free held : ℕ) : Type 0 where
  pub counted : free + d.calloc ≡ total d.chunks + d.cfree
  pub array : (d.count ≡ length d.chunks) × (d.count ≤ d.capacity)
  pub holds : (d.regions ≡ held) × (d.structs ≡ held)

-- The pages `ps` are free: the list leads through them, each once, and every page of a chunk is free
-- or was given out more often than it came back. Nothing is held but for the chunks in the array.
pub record Inv (d : Device) (ps : List ℕ) : Type 0 where
  pub chain : Chain d.zdd d.free_pages ps
  pub distinct : Distinct ps
  pub books : Books d (length ps) (length d.chunks)
  pub unlocked : d.devmem_locked ≡ false

pub push_all_keeps :
    (n pfn : ℕ) (d : Device)
    → push_all n pfn d
      ≡ record d { free_pages = (push_all n pfn d).free_pages; zdd = (push_all n pfn d).zdd }
unfolding push_all
push_all_keeps zero pfn d = refl
push_all_keeps (suc n) pfn d = push_all_keeps n (pfn + 1) (push_free d pfn)

total-snoc : (cs : List Chunk) (c : Chunk) → total (cs ++ c ∷ []) ≡ total cs + pages_of c
total-snoc [] c = omega arith
total-snoc (x ∷ cs) c = omega (arith, total-snoc cs c)

-- What stands free behind a chunk of `n` page frames from `pfn` on.
abbrev pub free_after : ℕ → ℕ → Bool → List ℕ → List ℕ
free_after n pfn wants ps = if wants then onto (n - 1) pfn ps else onto n pfn ps

-- Taking the first page of the list.
pub pop-Inv : (d : Device) (p : ℕ) (ps : List ℕ) → Inv d (p ∷ ps) → Inv (pop_free d) ps
pop-Inv d p ps v = record {
  chain = rw v.chain.0 v.chain.2;
  distinct = v.distinct.1;
  books = record {
    counted = omega (arith, v.books.counted);
    array = v.books.array;
    holds = v.books.holds;
  };
  unlocked = v.unlocked;
}

module _ (d : Device) (c : Chunk) (ps : List ℕ) (pos : 0 < shr_page c.start)
    (some_page : 0 < pages_of c) (outside : Outside (shr_page c.start) (pages_of c) ps)
    (distinct : Distinct ps) (chain : Chain d.zdd d.free_pages ps)
    (books : Books d (length ps) (suc (length d.chunks))) (room : d.count < d.capacity) where
  abbrev filled : Device
  filled =
      push_all (pages_of c) (shr_page c.start)
        (record d { chunks = d.chunks ++ c ∷ []; count = d.count + 1; devmem_locked = false })

  filled-Inv : Inv filled (onto (pages_of c) (shr_page c.start) ps)
  filled-Inv = record {
    chain = pushed.0;
    distinct = pushed.1;
    books = record {
      counted = omega (
        arith,
        books.counted,
        length-onto (pages_of c) (shr_page c.start) ps,
        ap (λ (e : Device). e.calloc) kept,
        ap (λ (e : Device). e.cfree) kept,
        ap (λ (e : Device). total e.chunks) kept,
        total-snoc d.chunks c,
      );
      array = (
        omega (
          arith,
          books.array,
          ap (λ (e : Device). e.count) kept,
          ap (λ (e : Device). length e.chunks) kept,
          length-append d.chunks (c ∷ []),
        ),
        omega
            (arith, room, ap (λ (e : Device). e.count) kept, ap (λ (e : Device). e.capacity) kept),
      );
      holds = (
        omega (
          arith,
          books.holds,
          ap (λ (e : Device). e.regions) kept,
          ap (λ (e : Device). length e.chunks) kept,
          length-append d.chunks (c ∷ []),
        ),
        omega (
          arith,
          books.holds,
          ap (λ (e : Device). e.structs) kept,
          ap (λ (e : Device). length e.chunks) kept,
          length-append d.chunks (c ∷ []),
        ),
      );
    };
    unlocked = ap (λ (e : Device). e.devmem_locked) kept;
  }
    where
      pushed :
          Chain filled.zdd filled.free_pages (onto (pages_of c) (shr_page c.start) ps)
          × Distinct (onto (pages_of c) (shr_page c.start) ps)
      pushed = push_all-Chain (pages_of c) (shr_page c.start) _ ps pos outside distinct chain

      kept : filled ≡ record d {
        chunks = d.chunks ++ c ∷ [];
        count = d.count + 1;
        devmem_locked = false;
        free_pages = filled.free_pages;
        zdd = filled.zdd;
      }
      kept = push_all_keeps (pages_of c) (shr_page c.start) _

  add_chunk-Inv :
      (wants : Bool)
      → let (d', page) = add_chunk d c wants in
        Inv d' (free_after (pages_of c) (shr_page c.start) wants ps)
        × (wants ≡ true
            → (page ≡ shr_page c.start + pages_of c - 1)
              × Off page (free_after (pages_of c) (shr_page c.start) wants ps))
  unfolding add_chunk
  add_chunk-Inv false = (filled-Inv, λ e. cc)
  add_chunk-Inv true = (
    pop-Inv filled _ _ in_front,
    λ _. (
      in_front.chain.0 ∙ omega arith,
      subst (λ t. Off t (onto (pages_of c - 1) (shr_page c.start) ps)) (sym in_front.chain.0)
          in_front.distinct.0,
    ),
  )
    where
      first :
          onto (pages_of c) (shr_page c.start) ps
          ≡ (shr_page c.start + (pages_of c - 1)) ∷ onto (pages_of c - 1) (shr_page c.start) ps
      first =
          let e : pages_of c ≡ suc (pages_of c - 1) = omega arith in
          ap (λ (t : ℕ). onto t (shr_page c.start) ps) e
          ∙ onto-suc (pages_of c - 1) (shr_page c.start) ps

      in_front :
          Inv filled
            ((shr_page c.start + (pages_of c - 1)) ∷ onto (pages_of c - 1) (shr_page c.start) ps)
      in_front = subst (Inv filled) first filled-Inv

-- How dmirror_allocate_chunk ends: with an error, and the free pages as they were; or with 0, the
-- pages of the new chunk in front of them, and the last of these handed out if one was wanted.
pub data Allocated (k : ChunkAnswers) (wants : Bool) (ps : List ℕ) (ret page : ℕ)
    : List ℕ → Type 0 where
  failed : ret ≢ 0 → Allocated k wants ps ret page ps
  added :
      (start : ℕ) {qs : List ℕ}
      → k.region ≡ some start
      → ret ≡ 0
      → qs ≡ free_after (pages_of (new_chunk start)) (shr_page start) wants ps
      → (wants ≡ true → (page ≡ shr_page start + pages_of (new_chunk start) - 1) × Off page qs)
      → Allocated k wants ps ret page qs

abbrev pub Allocates : ChunkAnswers → Bool → List ℕ → Device × ℕ × ℕ → Type 0
Allocates k wants ps (d', ret, page) = (qs : List ℕ) × Inv d' qs × Allocated k wants ps ret page qs

abbrev pub IsFreeRegion : ChunkAnswers → List ℕ → Type 0
IsFreeRegion k ps =
    (start : ℕ)
    → k.region ≡ some start
    → (0 < shr_page start) × Outside (shr_page start) (pages_of (new_chunk start)) ps

abbrev pub with_chunk : Device → ℕ → Device
with_chunk d cap = record d {
  devmem_locked = true;
  capacity = cap;
  regions = d.regions + 1;
  structs = d.structs + 1;
}

release-Inv :
    (d : Device) (ps : List ℕ) (cap : ℕ)
    → Inv d ps
    → d.capacity ≤ cap
    → Inv (err_release (with_chunk d cap)) ps
release-Inv d ps cap v le = record {
  chain = v.chain;
  distinct = v.distinct;
  books = record {
    counted = v.books.counted;
    array = (v.books.array.0, omega (arith, v.books.array));
    holds = (omega (arith, v.books.holds), omega (arith, v.books.holds));
  };
  unlocked = refl;
}

added-Inv :
    (d : Device) (ps : List ℕ) (k : ChunkAnswers) (wants : Bool) (start cap : ℕ)
    → Inv d ps
    → k.region ≡ some start
    → 0 < shr_page start
    → Outside (shr_page start) (pages_of (new_chunk start)) ps
    → d.count < cap
    → let (d', page) = add_chunk (with_chunk d cap) (new_chunk start) wants in
      Allocates k wants ps (d', 0, page)
added-Inv d ps k wants start cap v region pos outside room =
    let a =
      add_chunk-Inv (with_chunk d cap) (new_chunk start) ps pos (omega arith) outside v.distinct
        v.chain
        (record {
          counted = v.books.counted;
          array = (v.books.array.0, omega (arith, room));
          holds = (omega (arith, v.books.holds), omega (arith, v.books.holds));
        })
        room wants in
    (
      free_after (pages_of (new_chunk start)) (shr_page start) wants ps,
      a.0,
      added start region refl refl a.1,
    )

map_chunk-Inv :
    (d : Device) (ps : List ℕ) (k : ChunkAnswers) (wants : Bool) (start : ℕ)
    → Inv d ps
    → k.region ≡ some start
    → 0 < shr_page start
    → Outside (shr_page start) (pages_of (new_chunk start)) ps
    → Allocates k wants ps (map_chunk d start k wants)
unfolding map_chunk
map_chunk-Inv d ps k wants start v region pos outside = elim (Bool-cases (d.count == d.capacity)) [
  | inl full ↦ simp full (elim (Bool-cases k.krealloc) [
    | inr none_left ↦
        simp none_left
          (ps, release-Inv d ps d.capacity v (omega arith), failed (λ e. absurd (omega arith)))
    | inl grown ↦ simp grown (elim (Bool-cases (k.memremap == 0)) [
      | inr error ↦ simp error (
        ps,
        release-Inv d ps (d.capacity + devmem_chunks_reserve) v (omega arith),
        failed (ground arith),
      )
      | inl mapped ↦ simp mapped (
          added-Inv d ps k wants start (d.capacity + devmem_chunks_reserve) v region pos outside
            (omega (arith, v.books.array)))
    ])
  ])
  | inr space ↦ simp space (elim (Bool-cases (k.memremap == 0)) [
    | inr error ↦
        simp error (ps, release-Inv d ps d.capacity v (omega arith), failed (ground arith))
    | inl mapped ↦ simp mapped (
        added-Inv d ps k wants start d.capacity v region pos outside
          (ground (arith, v.books.array)))
  ])
]

-- dmirror_allocate_chunk, where the region that it gets lies outside the pages of the free list and
-- does not begin with page frame 0, keeps the invariant on every branch and ends as Allocated says.
pub allocate_chunk-Inv :
    (d : Device) (ps : List ℕ) (k : ChunkAnswers) (wants : Bool)
    → Inv d ps
    → IsFreeRegion k ps
    → Allocates k wants ps (allocate_chunk d k wants)
unfolding allocate_chunk
allocate_chunk-Inv d ps k wants v free = elim (Bool-cases k.kzalloc) [
  | inr none_left ↦ simp (none_left, allocate_chunk) (ps, v, failed (λ e. absurd (omega arith)))
  | inl got ↦
      simp (got, allocate_chunk)
        (elim (Option-cases k.region) [
          | inl e ↦ simp (e, allocate_chunk) (ps, v, failed (λ e. absurd (omega arith)))
          | inr (start, e) ↦
              simp (e, allocate_chunk)
                (map_chunk-Inv d ps k wants start v e (free start e).0 (free start e).1)
        ])
]

-- The pages behind device pages are not its business.
backing-add_chunk :
    (d : Device) (c : Chunk) (wants : Bool) → (add_chunk d c wants).0.backing ≡ d.backing
unfolding add_chunk
backing-add_chunk d c true =
    ap (λ (e : Device). e.backing) (push_all_keeps (pages_of c) (shr_page c.start) _)
backing-add_chunk d c false =
    ap (λ (e : Device). e.backing) (push_all_keeps (pages_of c) (shr_page c.start) _)

pub backing-allocate_chunk :
    (d : Device) (k : ChunkAnswers) (wants : Bool)
    → (allocate_chunk d k wants).0.backing ≡ d.backing
unfolding allocate_chunk map_chunk
backing-allocate_chunk d k wants = elim (Option-cases k.region) [
  | inl e ↦ ground arith
  | inr (start, e) ↦ ground (
    arith,
    backing-add_chunk (with_chunk d (d.capacity + devmem_chunks_reserve)) (new_chunk start) wants,
    backing-add_chunk (with_chunk d d.capacity) (new_chunk start) wants,
  )
]
