-- ===== src/Devmem/Backing.antt =====
-- What dmirror_devmem_alloc_page of hmm.c leaves alone: the zone_device_data of the pages that the
-- device had and does not hand out, and the type of the device.
use rshm_hmm.Base.{
  ℕ, zero, suc, ◌+◌, ◌≤◌, ◌<◌, ◌≡◌, ◌≢◌, refl, ap, ◌∙◌, ◌⊎◌, inl, inr, Bool, true, false, arith,
  ne→==, Option-cases,
}
use rshm_hmm.Kernel.{shr_page}
use rshm_hmm.Devmem.{
  Device, Chunk, ChunkAnswers, push_all, push_free, pages_of, add_chunk, map_chunk, allocate_chunk,
  new_chunk, devmem_alloc_page, is_private_zone, devmem_chunks_reserve,
}
use rshm_hmm.Devmem.Chunks.{in_chunks, Apart-page}
use rshm_hmm.Devmem.Invariant.{push_all_keeps, with_chunk}
use rshm_hmm.Devmem.Refines.{IsNewRegion}

zdd-push_all :
    (n pfn : ℕ) (d : Device) (q : ℕ)
    → (q < pfn) ⊎ (pfn + n ≤ q)
    → (push_all n pfn d).zdd q ≡ d.zdd q
unfolding push_all
zdd-push_all zero pfn d q out = refl
zdd-push_all (suc n) pfn d q out =
    zdd-push_all n (pfn + 1) (push_free d pfn) q (omega arith) ∙ rw (ne→== pfn q (omega arith)) refl

-- `q` is a page of the device.
module _ (q : ℕ) where
  add_chunk-zdd :
      (d : Device) (c : Chunk) (wants : Bool)
      → (q < shr_page c.start) ⊎ (shr_page c.start + pages_of c ≤ q)
      → (add_chunk d c wants).0.zdd q ≡ d.zdd q
  unfolding add_chunk
  add_chunk-zdd d c true out = zdd-push_all (pages_of c) (shr_page c.start) _ q out
  add_chunk-zdd d c false out = zdd-push_all (pages_of c) (shr_page c.start) _ q out

  map_chunk-zdd :
      (d : Device) (start : ℕ) (k : ChunkAnswers) (wants : Bool)
      → (q < shr_page start) ⊎ (shr_page start + pages_of (new_chunk start) ≤ q)
      → (map_chunk d start k wants).0.zdd q ≡ d.zdd q
  unfolding map_chunk
  map_chunk-zdd d start k wants out = ground (
    arith,
    add_chunk-zdd (with_chunk d (d.capacity + devmem_chunks_reserve)) (new_chunk start) wants out,
    add_chunk-zdd (with_chunk d d.capacity) (new_chunk start) wants out,
  )

  pub zdd-allocate_chunk :
      (d : Device) (k : ChunkAnswers) (wants : Bool)
      → IsNewRegion k d.chunks
      → in_chunks d.chunks q ≡ true
      → (allocate_chunk d k wants).0.zdd q ≡ d.zdd q
  unfolding allocate_chunk
  zdd-allocate_chunk d k wants new h = elim (Option-cases k.region) [
    | inl e ↦ ground (arith, e)
    | inr (start, e) ↦ ground (
      arith,
      e,
      map_chunk-zdd d start k wants
          (Apart-page (shr_page start) (pages_of (new_chunk start)) d.chunks q (new start e).1 h),
    )
  ]

  -- The page that is handed out gets its backing page; the others keep theirs.
  pub zdd-devmem_alloc_page :
      (d : Device) (k : ChunkAnswers) (rpage : ℕ)
      → IsNewRegion k d.chunks
      → in_chunks d.chunks q ≡ true
      → (devmem_alloc_page d k rpage).1 ≢ q
      → (devmem_alloc_page d k rpage).0.zdd q ≡ d.zdd q
  unfolding devmem_alloc_page
  zdd-devmem_alloc_page d k rpage new h ne = ground (
    arith,
    ne,
    zdd-allocate_chunk d k true new h,
    zdd-allocate_chunk (record d { backing = d.backing + 1 }) k true new h,
  )

zone-add_chunk :
    (d : Device) (c : Chunk) (wants : Bool)
    → (add_chunk d c wants).0.zone_device_type ≡ d.zone_device_type
unfolding add_chunk
zone-add_chunk d c true =
    ap (λ (e : Device). e.zone_device_type) (push_all_keeps (pages_of c) (shr_page c.start) _)
zone-add_chunk d c false =
    ap (λ (e : Device). e.zone_device_type) (push_all_keeps (pages_of c) (shr_page c.start) _)

zone-allocate_chunk :
    (d : Device) (k : ChunkAnswers) (wants : Bool)
    → (allocate_chunk d k wants).0.zone_device_type ≡ d.zone_device_type
unfolding allocate_chunk map_chunk
zone-allocate_chunk d k wants = elim (Option-cases k.region) [
  | inl e ↦ ground arith
  | inr (start, e) ↦ ground (
    arith,
    zone-add_chunk (with_chunk d (d.capacity + devmem_chunks_reserve)) (new_chunk start) wants,
    zone-add_chunk (with_chunk d d.capacity) (new_chunk start) wants,
  )
]

zone-devmem_alloc_page :
    (d : Device) (k : ChunkAnswers) (rpage : ℕ)
    → (devmem_alloc_page d k rpage).0.zone_device_type ≡ d.zone_device_type
unfolding devmem_alloc_page
zone-devmem_alloc_page d k rpage = ground (
  arith,
  zone-allocate_chunk d k true,
  zone-allocate_chunk (record d { backing = d.backing + 1 }) k true,
)

pub private-devmem_alloc_page :
    (d : Device) (k : ChunkAnswers) (rpage : ℕ)
    → is_private_zone (devmem_alloc_page d k rpage).0 ≡ is_private_zone d
unfolding is_private_zone
private-devmem_alloc_page d k rpage = rw (zone-devmem_alloc_page d k rpage) refl

-- Without a page behind it, a private device page is not handed out.
pub alloc_backed :
    (d : Device) (k : ChunkAnswers) (rpage : ℕ)
    → is_private_zone d ≡ true
    → (devmem_alloc_page d k rpage).1 ≢ 0
    → rpage ≢ 0
unfolding devmem_alloc_page
alloc_backed d k rpage private ne = ground (arith, private, ne)
