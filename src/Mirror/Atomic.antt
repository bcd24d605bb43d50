-- ===== src/Mirror/Atomic.antt =====
-- dmirror_check_atomic and dmirror_atomic_map of hmm.c: the entries marked for exclusive access.
use rshm_hmm.Base.{
  ℕ, zero, suc, ◌+◌, ◌-◌, ◌≤◌, ◌<◌, ◌≡◌, refl, ◌∙◌, ◌≢◌, ◌⊎◌, inl, inr, true, false, arith, ◌==◌,
  ==→eq, ==_refl, ne→==, Bool-cases, if◌then◌else◌,
}
use rshm_hmm.Kernel.{entry, Stored-cases, stored, XArray, shr_page, eperm}
use rshm_hmm.Mirror.{
  Dmirror, Mapped, mapped, map_err, tag_atomic, check_atomic_loop, check_atomic, atomic_map_loop,
  atomic_map,
}

-- how many of `n` pointers from index `i` on are not NULL
pub count_pages : (ℕ → ℕ) → ℕ → ℕ → ℕ
count_pages pages zero i = 0
count_pages pages (suc n) i = (if pages i == 0 then 0 else 1) + count_pages pages n (i + 1)

pub count_pages-le : (pages : ℕ → ℕ) (n i : ℕ) → count_pages pages n i ≤ n
unfolding count_pages
count_pages-le pages zero i = omega arith
count_pages-le pages (suc n) i = ground (arith, count_pages-le pages n (i + 1))

-- If as many pointers are counted as there are, none of them is NULL.
pub count_pages_full :
    (pages : ℕ → ℕ) (n i j a : ℕ)
    → count_pages pages n i ≡ n
    → j < n
    → a ≡ i + j
    → (pages a == 0) ≡ false
unfolding count_pages
count_pages_full pages zero i j a h lt e = absurd (omega arith)
count_pages_full pages (suc n) i zero a h lt e =
    let e' : a ≡ i = omega arith in rw e' (ground (arith, count_pages-le pages n (i + 1)))
count_pages_full pages (suc n) i (suc j) a h lt e =
    count_pages_full pages n (i + 1) j a (ground (arith, count_pages-le pages n (i + 1)))
      (omega arith) (omega arith)

-- If fewer are counted, one of them is NULL.
pub count_pages_short :
    (pages : ℕ → ℕ) (n i : ℕ)
    → count_pages pages n i < n
    → (a : ℕ) × (i ≤ a) × (a < i + n) × (pages a ≡ 0)
unfolding count_pages
count_pages_short pages zero i few = absurd (omega (arith, few))
count_pages_short pages (suc n) i few = elim (Bool-cases (pages i == 0)) [
  | inl null ↦ (i, omega arith, omega arith, ==→eq (pages i) 0 null)
  | inr page ↦
      let (a, lo, hi, null) = count_pages_short pages n (i + 1) (ground (arith, few, page)) in
      (a, omega (arith, lo), omega (arith, hi), null)
]

module _ (xa : XArray) where
  open xa use {Xa, load, store, load-store, store_err_pos}

  abbrev pub Marked : Xa → ℕ → Type 0
  Marked x p = (load x p).tag ≡ tag_atomic

  apart-Marked :
      (x : Xa) (pfn p : ℕ) → ((load x pfn).tag == tag_atomic) ≡ false → Marked x p → pfn ≢ p
  apart-Marked x pfn p miss m e =
      let hit : (load x pfn).tag ≡ tag_atomic = rw e m in
      cc (miss, rw hit at (==_refl (load x pfn).tag))

  check_atomic_loop-cases :
      (n pfn : ℕ) (x : Xa)
      → ((check_atomic_loop xa n pfn x ≡ eperm)
          × ((p : ℕ) × (pfn ≤ p) × (p < pfn + n) × Marked x p))
        ⊎ ((check_atomic_loop xa n pfn x ≡ 0) × ((p : ℕ) → pfn ≤ p → p < pfn + n → ¬ Marked x p))
  unfolding check_atomic_loop
  check_atomic_loop-cases zero pfn x = inr (refl, λ p h k. absurd (omega arith))
  check_atomic_loop-cases (suc n) pfn x = elim (Bool-cases ((load x pfn).tag == tag_atomic)) [
    | inl hit ↦ inl (rw hit, (pfn, omega arith, omega arith, ==→eq (load x pfn).tag tag_atomic hit))
    | inr miss ↦ elim (check_atomic_loop-cases n (pfn + 1) x) [
      | inl (e, (p, lo, hi, m)) ↦ inl (rw miss e, (p, omega arith, omega arith, m))
      | inr (e, none_marked) ↦ inr (
        rw miss e,
        λ p lo hi m. none_marked p (omega (arith, apart-Marked x pfn p miss m)) (omega arith) m,
      )
    ]
  ]

  -- dmirror_check_atomic returns -EPERM exactly if some page frame of the range is marked for
  -- exclusive access, and 0 otherwise.
  pub check_atomic-cases :
      (d : Dmirror Xa) (start end : ℕ)
      → ((check_atomic xa d start end ≡ eperm)
          × ((p : ℕ) × (shr_page start ≤ p) × (p < shr_page end) × Marked d.pt p))
        ⊎ ((check_atomic xa d start end ≡ 0)
            × ((p : ℕ) → shr_page start ≤ p → p < shr_page end → ¬ Marked d.pt p))
  unfolding check_atomic
  check_atomic-cases d start end =
      elim (check_atomic_loop-cases (shr_page end - shr_page start) (shr_page start) d.pt) [
        | inl (e, (p, lo, hi, m)) ↦ inl (e, (p, lo, omega arith, m))
        | inr (e, clear) ↦ inr (e, λ p lo hi. clear p lo (omega arith))
      ]

  module _ (pages : ℕ → ℕ) where
    abbrev pub Exclusive : ℕ → ℕ → ℕ → Xa → Xa → Type 0
    Exclusive n pfn i x y =
        ((j p a : ℕ)
          → j < n
          → p ≡ pfn + j
          → a ≡ i + j
          → load y p ≡ (if pages a == 0 then load x p else entry (pages a) tag_atomic))
        × ((p : ℕ) → (p < pfn) ⊎ (pfn + n ≤ p) → load y p ≡ load x p)

    Exclusive-suc :
        (n pfn i : ℕ) (x y z : Xa)
        → ((p : ℕ) → p ≢ pfn → load y p ≡ load x p)
        → load y pfn ≡ (if pages i == 0 then load x pfn else entry (pages i) tag_atomic)
        → Exclusive n (pfn + 1) (i + 1) y z
        → Exclusive (suc n) pfn i x z
    Exclusive-suc n pfn i x y z same at (holds, frame) =
        (first, λ p h. frame p (omega arith) ∙ same p (omega arith))
      where
        first :
            (j p a : ℕ)
            → j < suc n
            → p ≡ pfn + j
            → a ≡ i + j
            → load z p ≡ (if pages a == 0 then load x p else entry (pages a) tag_atomic)
        first zero p a h u v =
            let u' : p ≡ pfn = omega arith in
            let v' : a ≡ i = omega arith in rw (u', v') (frame pfn (omega arith) ∙ at)
        first (suc j) p a h u v =
            rw (← same p (omega arith)) (holds j p a (omega arith) (omega arith) (omega arith))

    -- What a result of the loop says of the arrays before and after it.
    abbrev pub MapOutcome : ℕ → ℕ → ℕ → ℕ → Xa → Xa × Mapped → Type 0
    MapOutcome n pfn i count x (y, mapped c) =
        (c ≡ count + count_pages pages n i) × Exclusive n pfn i x y
    MapOutcome n pfn i count x (y, map_err err) =
        (0 < err) × ((p : ℕ) → (p < pfn) ⊎ (pfn + n ≤ p) → load y p ≡ load x p)

    MapOutcome-skip :
        (n pfn i count : ℕ) (x : Xa) (r : Xa × Mapped)
        → (pages i == 0) ≡ true
        → MapOutcome n (pfn + 1) (i + 1) count x r
        → MapOutcome (suc n) pfn i count x r
    unfolding count_pages
    MapOutcome-skip n pfn i count x (y, mapped c) null (e, ex) =
        (rw null (omega arith), Exclusive-suc n pfn i x x y (λ p h. refl) (rw null) ex)
    MapOutcome-skip n pfn i count x (y, map_err err) null (e, frame) =
        (e, λ p h. frame p (omega arith))

    MapOutcome-store :
        (n pfn i count : ℕ) (x y : Xa) (r : Xa × Mapped)
        → (pages i == 0) ≡ false
        → store x pfn (entry (pages i) tag_atomic) ≡ stored y
        → MapOutcome n (pfn + 1) (i + 1) (count + 1) y r
        → MapOutcome (suc n) pfn i count x r
    unfolding count_pages
    MapOutcome-store n pfn i count x y (z, mapped c) page kept (e, ex) = (
      rw page (omega arith),
      Exclusive-suc n pfn i x y z (λ p h. off p h)
          (rw page (load-store x y pfn pfn _ kept ∙ rw (==_refl pfn))) ex,
    )
      where
        off : (p : ℕ) → p ≢ pfn → load y p ≡ load x p
        off p h =
            load-store x y pfn p (entry (pages i) tag_atomic) kept ∙ rw (ne→== pfn p (omega arith))
    MapOutcome-store n pfn i count x y (z, map_err err) page kept (e, frame) = (
      e,
      λ p h.
          frame p (omega arith)
          ∙ load-store x y pfn p (entry (pages i) tag_atomic) kept
          ∙ rw (ne→== pfn p (omega arith)),
    )

    atomic_map_loop-MapOutcome :
        (n pfn i count : ℕ) (x : Xa)
        → MapOutcome n pfn i count x (atomic_map_loop xa pages n pfn i count x)
    unfolding atomic_map_loop count_pages
    atomic_map_loop-MapOutcome zero pfn i count x =
        (omega arith, ((λ j p a h. absurd (omega arith)), λ p h. refl))
    atomic_map_loop-MapOutcome (suc n) pfn i count x = elim (Bool-cases (pages i == 0)) [
      | inl null ↦
          rw (null, atomic_map_loop)
            (MapOutcome-skip n pfn i count x (atomic_map_loop xa pages n (pfn + 1) (i + 1) count x)
              null (atomic_map_loop-MapOutcome n (pfn + 1) (i + 1) count x))
      | inr page ↦
          rw (page, atomic_map_loop)
            (elim (Stored-cases (store x pfn (entry (pages i) tag_atomic))) [
              | inl (y, kept) ↦
                  rw (kept, atomic_map_loop)
                    (MapOutcome-store n pfn i count x y
                      (atomic_map_loop xa pages n (pfn + 1) (i + 1) (count + 1) y) page kept
                      (atomic_map_loop-MapOutcome n (pfn + 1) (i + 1) (count + 1) y))
              | inr (err, failed) ↦
                  rw (failed, atomic_map_loop) (store_err_pos x pfn err _ failed, λ p h. refl)
            ])
    ]

    -- If dmirror_atomic_map returns a count, it is that of the pages that are not NULL, each of
    -- these is marked for exclusive access at its page frame, and the other entries are as before.
    -- If it returns an error, that is a proper error number, and the entries outside the range are
    -- as before. Either way the mutex is free.
    pub atomic_map-MapOutcome :
        (d : Dmirror Xa) (start end : ℕ)
        → let (d', r) = atomic_map xa d start end pages in
          MapOutcome (shr_page end - shr_page start) (shr_page start) 0 0 d.pt (d'.pt, r)
          × (d'.locked ≡ false)
    unfolding atomic_map
    atomic_map-MapOutcome d start end =
        (atomic_map_loop-MapOutcome (shr_page end - shr_page start) (shr_page start) 0 0 d.pt, refl)
