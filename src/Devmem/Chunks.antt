-- ===== src/Devmem/Chunks.antt =====
-- The chunk array of a device in hmm.c: what dmirror_allocate_chunk does to it, and which pages its
-- chunks have.
use rshm_hmm.Base.{
  ℕ, ◌+◌, ◌≤◌, ◌<◌, ◌≡◌, refl, ap, ◌≢◌, ◌⊎◌, inl, inr, Bool, true, false, ◌||◌, some, List, [], ◌∷◌,
  ◌++◌, arith, ◌==◌, Bool-cases, Option-cases,
}
use rshm_hmm.Kernel.{shr_page}
use rshm_hmm.Devmem.{
  Device, Chunk, ChunkAnswers, pages_of, has_page, add_chunk, map_chunk, allocate_chunk, new_chunk,
  devmem_chunks_reserve,
}
use rshm_hmm.Devmem.Invariant.{push_all_keeps, with_chunk}

-- How the array ends: as it was, with an error; or with the chunk of the region behind it, with 0.
pub data Grown (cs : List Chunk) (k : ChunkAnswers) (ret : ℕ) (cs' : List Chunk) : Type 0 where
  same : ret ≢ 0 → cs' ≡ cs → Grown cs k ret cs'
  longer :
      (start : ℕ)
      → k.region ≡ some start
      → ret ≡ 0
      → cs' ≡ cs ++ new_chunk start ∷ []
      → Grown cs k ret cs'

chunks-add_chunk :
    (d : Device) (c : Chunk) (wants : Bool) → (add_chunk d c wants).0.chunks ≡ d.chunks ++ c ∷ []
unfolding add_chunk
chunks-add_chunk d c true =
    ap (λ (e : Device). e.chunks) (push_all_keeps (pages_of c) (shr_page c.start) _)
chunks-add_chunk d c false =
    ap (λ (e : Device). e.chunks) (push_all_keeps (pages_of c) (shr_page c.start) _)

map_chunk-Grown :
    (d : Device) (start : ℕ) (k : ChunkAnswers) (wants : Bool)
    → k.region ≡ some start
    → let (d', ret, _) = map_chunk d start k wants in Grown d.chunks k ret d'.chunks
unfolding map_chunk
map_chunk-Grown d start k wants region = elim (Bool-cases (d.count == d.capacity)) [
  | inl full ↦ simp full (elim (Bool-cases k.krealloc) [
    | inr none_left ↦ simp none_left (same (λ e. absurd (omega arith)) refl)
    | inl grown ↦ simp grown (elim (Bool-cases (k.memremap == 0)) [
      | inr error ↦ simp error (same (ground arith) refl)
      | inl mapped ↦ simp mapped (
          longer start region refl (
            chunks-add_chunk (with_chunk d (d.capacity + devmem_chunks_reserve)) (new_chunk start)
              wants))
    ])
  ])
  | inr space ↦ simp space (elim (Bool-cases (k.memremap == 0)) [
    | inr error ↦ simp error (same (ground arith) refl)
    | inl mapped ↦ simp mapped (
        longer start region refl
          (chunks-add_chunk (with_chunk d d.capacity) (new_chunk start) wants))
  ])
]

pub allocate_chunk-Grown :
    (d : Device) (k : ChunkAnswers) (wants : Bool)
    → let (d', ret, _) = allocate_chunk d k wants in Grown d.chunks k ret d'.chunks
unfolding allocate_chunk
allocate_chunk-Grown d k wants = elim (Bool-cases k.kzalloc) [
  | inr none_left ↦ simp (none_left, allocate_chunk) (same (λ e. absurd (omega arith)) refl)
  | inl got ↦
      simp (got, allocate_chunk)
        (elim (Option-cases k.region) [
          | inl e ↦ simp (e, allocate_chunk) (same (λ e. absurd (omega arith)) refl)
          | inr (start, e) ↦ simp (e, allocate_chunk) (map_chunk-Grown d start k wants e)
        ])
]

-- A page of one of the chunks.
abbrev pub in_chunks : List Chunk → ℕ → Bool
in_chunks [] p = false
in_chunks (c ∷ cs) p = has_page c p || in_chunks cs p

abbrev pub Inside : List Chunk → List ℕ → Type 0
Inside cs [] = Unit {0}
Inside cs (p ∷ ps) = (in_chunks cs p ≡ true) × Inside cs ps

-- The `n` page frames from `first` on are of none of the chunks.
abbrev pub Apart : ℕ → ℕ → List Chunk → Type 0
Apart first n [] = Unit {0}
Apart first n (c ∷ cs) =
    ((shr_page c.start + pages_of c ≤ first) ⊎ (first + n ≤ shr_page c.start)) × Apart first n cs

pub in_chunks-append :
    (cs : List Chunk) (c : Chunk) (p : ℕ)
    → in_chunks (cs ++ c ∷ []) p ≡ (in_chunks cs p || has_page c p)
in_chunks-append [] c p = ground arith
in_chunks-append (b ∷ cs) c p = elim (Bool-cases (has_page b p)) [
  | inl hit ↦ rw hit refl
  | inr miss ↦ rw miss (in_chunks-append cs c p)
]

pub Apart-page :
    (first n : ℕ) (cs : List Chunk) (p : ℕ)
    → Apart first n cs
    → in_chunks cs p ≡ true
    → (p < first) ⊎ (first + n ≤ p)
Apart-page first n [] p a h = cc
Apart-page first n (c ∷ cs) p (a, rest) h = elim (Bool-cases (has_page c p)) [
  | inl hit ↦ ground (arith, hit, a)
  | inr miss ↦ Apart-page first n cs p rest (rw miss at h)
]
