-- ===== src/Devmem/Pages.antt =====
-- dmirror_devmem_alloc_page and dmirror_devmem_free of hmm.c.
use rshm_hmm.Base.{
  ℕ, suc, ◌+◌, ◌-◌, ◌≡◌, refl, sym, subst, ◌∙◌, ◌≢◌, inl, inr, true, false, some, List, [], ◌∷◌,
  ◌++◌, ap, arith, ◌==◌, ne→==, ==→eq, ==_refl, Bool-cases, if◌then◌else◌,
}
use rshm_hmm.Devmem.{
  Device, ChunkAnswers, pop_free, allocate_chunk, devmem_alloc_page, devmem_free, is_removed,
  is_private_zone, set_zdd, push_free, new_chunk, pages_of,
}
use rshm_hmm.Kernel.{shr_page}
use rshm_hmm.Devmem.Chunks.{Grown, same, longer, allocate_chunk-Grown}
use rshm_hmm.Devmem.Failure.{
  NoChunk, allocate_chunk-NoChunk, NoChunk-backing, WhyNull, no_backing, no_free,
}
use rshm_hmm.Devmem.FreeList.{Chain, Off, onto, onto-suc, push_free-Chain, Chain-write}
use rshm_hmm.Devmem.Invariant.{
  Inv, free_after, pop-Inv, failed, added, Allocates, backing-allocate_chunk, IsFreeRegion,
  allocate_chunk-Inv,
}

pub set_zdd-Inv :
    (d : Device) (page v : ℕ) (ps : List ℕ) → Off page ps → Inv d ps → Inv (set_zdd d page v) ps
set_zdd-Inv d page v ps off i = record {
  chain = Chain-write d.zdd d.free_pages page v ps off i.chain;
  distinct = i.distinct;
  books = record { counted = i.books.counted; array = i.books.array; holds = i.books.holds };
  unlocked = i.unlocked;
}

backing-Inv : (d : Device) (n : ℕ) (ps : List ℕ) → Inv d ps → Inv (record d { backing = n }) ps
backing-Inv d n ps i = record {
  chain = i.chain;
  distinct = i.distinct;
  books = record { counted = i.books.counted; array = i.books.array; holds = i.books.holds };
  unlocked = i.unlocked;
}

-- A returned page goes to the front of the free list.
push-Inv :
    (d : Device) (page : ℕ) (ps : List ℕ)
    → page ≢ 0
    → Off page ps
    → Inv d ps
    → Inv (push_free (record d { cfree = d.cfree + 1 }) page) (page ∷ ps)
push-Inv d page ps ne off i = record {
  chain = push_free-Chain d page ps ne off i.chain;
  distinct = (off, i.distinct);
  books = record {
    counted = omega (arith, i.books.counted);
    array = i.books.array;
    holds = i.books.holds;
  };
  unlocked = i.unlocked;
}

-- dmirror_devmem_free of a page that is neither NULL nor free keeps the invariant. It is free then,
-- in front, unless its chunk is being removed; then the free list stays as it is.
pub devmem_free-Inv :
    (d : Device) (page : ℕ) (ps : List ℕ)
    → page ≢ 0
    → Off page ps
    → Inv d ps
    → Inv (devmem_free d page) (if is_removed d.chunks page then ps else page ∷ ps)
unfolding devmem_free
devmem_free-Inv d page ps ne off i = elim (Bool-cases (d.zdd page == page)) [
  | inl own ↦ rw own (elim (Bool-cases (is_removed d.chunks page)) [
    | inl going ↦ rw going i
    | inr kept ↦ rw kept (push-Inv d page ps ne off i)
  ])
  | inr backed ↦ rw backed (elim (Bool-cases (is_removed d.chunks page)) [
    | inl going ↦ rw going (backing-Inv d (d.backing - 1) ps i)
    | inr kept ↦ rw kept (
        push-Inv (record d { backing = d.backing - 1 }) page ps ne off
          (backing-Inv d (d.backing - 1) ps i))
  ])
]

-- Where a page comes from: it was the first of the free list, or it is the last of a new chunk.
pub data Source (d : Device) (ps : List ℕ) (k : ChunkAnswers) (d' : Device) (page : ℕ) (qs : List ℕ)
    : Type 0 where
  listed : ps ≡ page ∷ qs → d'.chunks ≡ d.chunks → Source d ps k d' page qs
  opened :
      (start : ℕ)
      → k.region ≡ some start
      → onto (pages_of (new_chunk start)) (shr_page start) ps ≡ page ∷ qs
      → d'.chunks ≡ d.chunks ++ new_chunk start ∷ []
      → Source d ps k d' page qs

-- What dmirror_devmem_alloc_page leaves: NULL, with nothing taken and no system page kept; or a page
-- that is free no longer and has its backing page, if the device is of the private type.
pub data Page (d : Device) (ps : List ℕ) (k : ChunkAnswers) (rpage : ℕ) (d' : Device) (page : ℕ)
    : Type 0 where
  null :
      WhyNull d k rpage
      → page ≡ 0
      → Inv d' ps
      → d'.chunks ≡ d.chunks
      → d'.backing ≡ d.backing
      → Page d ps k rpage d' page
  taken :
      (qs : List ℕ)
      → page ≢ 0
      → Inv d' qs
      → Off page qs
      → Source d ps k d' page qs
      → d'.zdd page ≡ (if is_private_zone d then rpage else 0)
      → d'.backing ≡ (if is_private_zone d then d.backing + 1 else d.backing)
      → (is_private_zone d ≡ true → rpage ≢ 0)
      → Page d ps k rpage d' page

Chain-empty :
    (zdd : ℕ → ℕ) (head : ℕ) (ps : List ℕ)
    → Chain zdd head ps
    → (head == 0) ≡ false
    → (q : ℕ) × (qs : List ℕ) × (ps ≡ q ∷ qs)
Chain-empty zdd head [] c h = cc (rw c at h)
Chain-empty zdd head (q ∷ qs) c h = (q, qs, refl)

-- The free list is not empty: its first page is taken.
take_first :
    (d : Device) (ps : List ℕ) (v n : ℕ)
    → Inv d ps
    → (d.free_pages == 0) ≡ false
    → (qs : List ℕ) × Inv (set_zdd (pop_free (record d { backing = n })) d.free_pages v) qs
      × Off d.free_pages qs
      × (ps ≡ d.free_pages ∷ qs)
take_first d ps v n i h =
    let (q, qs, e) = Chain-empty d.zdd d.free_pages ps i.chain h in
    let j : Inv d (q ∷ qs) = subst (Inv d) e i in
    let off : Off d.free_pages qs = subst (λ t. Off t qs) (sym j.chain.0) j.distinct.0 in
    (
      qs,
      set_zdd-Inv (pop_free (record d { backing = n })) d.free_pages v qs off
          (pop-Inv (record d { backing = n }) q qs (backing-Inv d n (q ∷ qs) j)),
      off,
      e ∙ ap (λ (t : ℕ). t ∷ qs) (sym j.chain.0),
    )

first_Page :
    (d : Device) (ps : List ℕ) (k : ChunkAnswers) (rpage v n : ℕ)
    → Inv d ps
    → (d.free_pages == 0) ≡ false
    → v ≡ (if is_private_zone d then rpage else 0)
    → n ≡ (if is_private_zone d then d.backing + 1 else d.backing)
    → (is_private_zone d ≡ true → rpage ≢ 0)
    → Page d ps k rpage (set_zdd (pop_free (record d { backing = n })) d.free_pages v) d.free_pages
first_Page d ps k rpage v n i some_free ve ne real =
    let (qs, j, off, e) = take_first d ps v n i some_free in
    taken qs (ground arith) j off (listed e refl) (rw (==_refl d.free_pages) ve) ne real

-- What a new chunk gives, or does not give.
data Chunked (e : Device) (ps : List ℕ) (k : ChunkAnswers) (v : ℕ) (d' : Device) (ret page : ℕ)
    : Type 0 where
  got :
      (qs : List ℕ)
      → ret ≡ 0
      → page ≢ 0
      → Inv (set_zdd d' page v) qs
      → Off page qs
      → Source e ps k d' page qs
      → d'.backing ≡ e.backing
      → Chunked e ps k v d' ret page
  nothing :
      ret ≢ 0
      → Inv d' ps
      → d'.chunks ≡ e.chunks
      → d'.backing ≡ e.backing
      → Chunked e ps k v d' ret page

-- The last page of a new chunk stands first.
last_first :
    (start page : ℕ) (ps qs : List ℕ)
    → qs ≡ free_after (pages_of (new_chunk start)) (shr_page start) true ps
    → page ≡ shr_page start + pages_of (new_chunk start) - 1
    → onto (pages_of (new_chunk start)) (shr_page start) ps ≡ page ∷ qs
last_first start page ps qs e at =
    let n : ℕ = pages_of (new_chunk start) - 1 in
    let more : pages_of (new_chunk start) ≡ suc n = omega arith in
    let here : shr_page start + n ≡ page = omega (arith, at) in
    ap (λ (t : ℕ). onto t (shr_page start) ps) more
    ∙ onto-suc n (shr_page start) ps
    ∙ ap (λ (t : ℕ). t ∷ onto n (shr_page start) ps) here
    ∙ ap (λ (t : List ℕ). page ∷ t) (sym e)

chunked :
    (e : Device) (ps : List ℕ) (k : ChunkAnswers) (v : ℕ) (d' : Device) (ret page : ℕ)
    → IsFreeRegion k ps
    → d'.backing ≡ e.backing
    → Grown e.chunks k ret d'.chunks
    → Allocates k true ps (d', ret, page)
    → Chunked e ps k v d' ret page
chunked e ps k v d' ret page free back (same _ cs) (_, i, failed ne) = nothing ne i cs back
chunked e ps k v d' ret page free back (longer _ _ z _) (_, i, failed ne) = absurd (ne z)
chunked e ps k v d' ret page free back (same ne _) (qs, i, added start region z at last) =
    absurd (ne z)
chunked e ps k v d' ret page free back (longer start region' z cs)
      (qs, i, added start' region _ at last) =
    let one : start' ≡ start = cc (region, region') in
    got qs z (omega (arith, (last refl).0, (free start' region).0))
      (set_zdd-Inv d' page v qs (last refl).1 i) (last refl).1
      (opened start region'
        (last_first start page ps qs
          (subst (λ t. qs ≡ free_after (pages_of (new_chunk t)) (shr_page t) true ps) one at)
          (subst (λ t. page ≡ shr_page t + pages_of (new_chunk t) - 1) one (last refl).0))
        cs)
      back

from_chunk :
    (e : Device) (ps : List ℕ) (k : ChunkAnswers) (v : ℕ)
    → IsFreeRegion k ps
    → Inv e ps
    → let (d', ret, page) = allocate_chunk e k true in Chunked e ps k v d' ret page
from_chunk e ps k v free i =
    chunked e ps k v _ _ _ free (backing-allocate_chunk e k true) (allocate_chunk-Grown e k true)
      (allocate_chunk-Inv e ps k true i free)

-- The last branches of dmirror_devmem_alloc_page.
abbrev finish : Device → ℕ → Device → ℕ → ℕ → Device × ℕ
finish d v d' ret page =
    if ret == 0
    then (set_zdd d' page v, page)
    else ((if is_private_zone d then record d' { backing = d'.backing - 1 } else d'), 0)

moved :
    (d : Device) (n : ℕ) (ps : List ℕ) (k : ChunkAnswers) (v : ℕ) (d' : Device) (page : ℕ)
    (qs : List ℕ)
    → Source (record d { backing = n }) ps k d' page qs
    → Source d ps k (set_zdd d' page v) page qs
moved d n ps k v d' page qs (listed e cs) = listed e cs
moved d n ps k v d' page qs (opened start region e cs) = opened start region e cs

finish-Page :
    (d : Device) (ps : List ℕ) (k : ChunkAnswers) (rpage v n : ℕ) (d' : Device) (ret page : ℕ)
    → v ≡ (if is_private_zone d then rpage else 0)
    → n ≡ (if is_private_zone d then d.backing + 1 else d.backing)
    → d.free_pages ≡ 0
    → (ret ≢ 0 → NoChunk d k)
    → (is_private_zone d ≡ true → rpage ≢ 0)
    → Chunked (record d { backing = n }) ps k v d' ret page
    → let (f, p) = finish d v d' ret page in Page d ps k rpage f p
finish-Page d ps k rpage v n d' ret page ve ne empty why real (got qs z pos j off src back) =
    rw z
      (taken qs pos j off (moved d n ps k v d' page qs src) (rw (==_refl page) ve) (back ∙ ne) real)
finish-Page d ps k rpage v n d' ret page ve ne empty why real (nothing nz j cs back) =
    rw (ne→== ret 0 nz) (elim (Bool-cases (is_private_zone d)) [
      | inl private ↦ rw private (
          null (no_free empty (why nz)) refl (backing-Inv d' (d'.backing - 1) ps j) cs
            (omega (arith, back, (rw private at ne))))
      | inr coherent ↦
          rw coherent (null (no_free empty (why nz)) refl j cs (back ∙ ne ∙ rw coherent))
    ])

-- dmirror_devmem_alloc_page of a well-formed device, where a region that it gets is as dmirror_allocate_chunk needs it,
-- keeps the invariant and leaves what Page says. It gives NULL, which takes nothing and keeps no system
-- page, only where a private device gets no system page, or the free list is empty and a new chunk fails
-- for want of its structure, region, place in the array or mapping. It gives a page, which was the first
-- of the free list or is the last of a new chunk, and is not free any more; on a private device it has
-- its backing page, which is not NULL.
pub devmem_alloc_page-Page :
    (d : Device) (ps : List ℕ) (k : ChunkAnswers) (rpage : ℕ)
    → Inv d ps
    → IsFreeRegion k ps
    → let (d', page) = devmem_alloc_page d k rpage in Page d ps k rpage d' page
unfolding devmem_alloc_page
devmem_alloc_page-Page d ps k rpage i free = elim (Bool-cases (is_private_zone d)) [
  | inl private ↦ simp private (elim (Bool-cases (rpage == 0)) [
    | inl no_page ↦
        simp no_page (null (no_backing private (==→eq rpage 0 no_page)) refl i refl refl)
    | inr page ↦ simp page (elim (Bool-cases (d.free_pages == 0)) [
      | inr some_free ↦ simp some_free (
          first_Page d ps k rpage rpage (d.backing + 1) i some_free (rw private) (rw private)
            (λ z. ground (arith, page)))
      | inl empty ↦ simp empty (
          simp private at (
            finish-Page d ps k rpage rpage (d.backing + 1) _ _ _ (rw private) (rw private)
              (==→eq d.free_pages 0 empty)
              (λ nz.
                NoChunk-backing d k (d.backing + 1)
                  (allocate_chunk-NoChunk (record d { backing = d.backing + 1 }) k nz))
              (λ z. ground (arith, page))
              (from_chunk (record d { backing = d.backing + 1 }) ps k rpage free
                (backing-Inv d (d.backing + 1) ps i))))
    ])
  ])
  | inr coherent ↦
      let real : is_private_zone d ≡ true → rpage ≢ 0 = λ z. absurd (cc (z, coherent)) in
      simp coherent (elim (Bool-cases (d.free_pages == 0)) [
        | inr some_free ↦
            simp some_free
              (first_Page d ps k rpage 0 d.backing i some_free (rw coherent) (rw coherent) real)
        | inl empty ↦ simp empty (
            simp coherent at (
              finish-Page d ps k rpage 0 d.backing _ _ _ (rw coherent) (rw coherent)
                (==→eq d.free_pages 0 empty) (allocate_chunk-NoChunk d k) real
                (from_chunk d ps k 0 free i)))
      ])
]
