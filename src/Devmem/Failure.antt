-- ===== src/Devmem/Failure.antt =====
-- Why dmirror_allocate_chunk and dmirror_devmem_alloc_page of hmm.c give nothing.
use rshm_hmm.Base.{
  ℕ, ◌≡◌, ◌≢◌, refl, inl, inr, true, false, not, ◌&&◌, none, arith, ◌==◌, Bool-cases, Option-cases,
}
use rshm_hmm.Devmem.{Device, ChunkAnswers, allocate_chunk, map_chunk, is_private_zone}

-- Why there is no new chunk.
pub data NoChunk (d : Device) (k : ChunkAnswers) : Type 0 where
  no_struct : k.kzalloc ≡ false → NoChunk d k
  no_region : k.region ≡ none → NoChunk d k
  no_array : d.count ≡ d.capacity → k.krealloc ≡ false → NoChunk d k
  no_mapping : k.memremap ≢ 0 → NoChunk d k

pub allocate_chunk-NoChunk :
    (d : Device) (k : ChunkAnswers) → (allocate_chunk d k true).1 ≢ 0 → NoChunk d k
unfolding allocate_chunk map_chunk
allocate_chunk-NoChunk d k failed = elim (Bool-cases k.kzalloc) [
  | inr no_memory ↦ no_struct no_memory
  | inl memory ↦ elim (Option-cases k.region) [
    | inl none_given ↦ no_region none_given
    | inr (start, given) ↦ elim (Bool-cases (k.memremap == 0)) [
      | inr unmapped ↦ no_mapping (ground (arith, unmapped))
      | inl mapped ↦ elim (Bool-cases (d.count == d.capacity && not k.krealloc)) [
        | inl full ↦ no_array (ground (arith, full)) (ground (arith, full))
        | inr room ↦ absurd (failed (simp (memory, given, mapped, room) refl))
      ]
    ]
  ]
]

pub NoChunk-backing :
    (d : Device) (k : ChunkAnswers) (n : ℕ) → NoChunk (record d { backing = n }) k → NoChunk d k
NoChunk-backing d k n (no_struct e) = no_struct e
NoChunk-backing d k n (no_region e) = no_region e
NoChunk-backing d k n (no_array e f) = no_array e f
NoChunk-backing d k n (no_mapping e) = no_mapping e

-- Why there is no page: a private device gets no system page for it, or the free list is empty and
-- there is no new chunk.
pub data WhyNull (d : Device) (k : ChunkAnswers) (rpage : ℕ) : Type 0 where
  no_backing : is_private_zone d ≡ true → rpage ≡ 0 → WhyNull d k rpage
  no_free : d.free_pages ≡ 0 → NoChunk d k → WhyNull d k rpage
