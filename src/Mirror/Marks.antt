-- ===== src/Mirror/Marks.antt =====
-- What the result of dmirror_atomic_map of hmm.c tells its caller.
use rshm_hmm.Base.{
  ℕ, zero, suc, ◌+◌, ◌-◌, ◌≤◌, ◌<◌, ◌≡◌, refl, sym, ap, subst, ==→eq, ◌∙◌, ◌⊎◌, inl, inr, false,
  arith, ◌==◌, Bool-cases,
}
use rshm_hmm.Kernel.{Entry, entry, Stored-cases, xa_err, XArray, shr_page}
use rshm_hmm.Mirror.{Dmirror, Mapped, mapped, map_err, tag_atomic, atomic_map_loop, atomic_map}
use rshm_hmm.Mirror.Atomic.{
  Marked, MapOutcome, count_pages, count_pages-le, count_pages_full, count_pages_short,
  atomic_map-MapOutcome,
}

module _ (xa : XArray) where
  open xa use {Xa, load, store}

  -- Errors of stores are at most `limit`.
  abbrev pub ErrsUpTo : ℕ → Type 0
  ErrsUpTo limit = (x : Xa) (i n : ℕ) (e : Entry) → store x i e ≡ xa_err n → n ≤ limit

  -- Some store ends in this error.
  abbrev pub Fails : ℕ → Type 0
  Fails err = (x : Xa) × (i : ℕ) × (e : Entry) × (store x i e ≡ xa_err err)

  abbrev pub ErrUpTo : ℕ → Mapped → Type 0
  ErrUpTo limit (mapped n) = Unit {0}
  ErrUpTo limit (map_err n) = (n ≤ limit) × Fails n

  atomic_map_loop-ErrUpTo :
      (limit : ℕ) (pages : ℕ → ℕ) (n pfn i count : ℕ) (x : Xa)
      → ErrsUpTo limit
      → ErrUpTo limit (atomic_map_loop xa pages n pfn i count x).1
  unfolding atomic_map_loop
  atomic_map_loop-ErrUpTo limit pages zero pfn i count x small = tt
  atomic_map_loop-ErrUpTo limit pages (suc n) pfn i count x small =
      elim (Bool-cases (pages i == 0)) [
        | inl null ↦
            rw (null, atomic_map_loop)
              (atomic_map_loop-ErrUpTo limit pages n (pfn + 1) (i + 1) count x small)
        | inr page ↦
            rw (page, atomic_map_loop)
              (elim (Stored-cases (store x pfn (entry (pages i) tag_atomic))) [
                | inl (y, kept) ↦
                    rw (kept, atomic_map_loop)
                      (atomic_map_loop-ErrUpTo limit pages n (pfn + 1) (i + 1) (count + 1) y small)
                | inr (err, failed) ↦
                    rw (failed, atomic_map_loop) (small x pfn err _ failed, (x, pfn, _, failed))
              ])
      ]

  -- What the caller may conclude for `n` page frames from `first` on: all of them are marked and the
  -- others as before; or fewer are counted, as some page is NULL; or it is an error of a store, up to
  -- the limit.
  pub data Told (pages : ℕ → ℕ) (n first limit : ℕ) (x y : Xa) : Mapped → Type 0 where
    all :
        ((p : ℕ) → first ≤ p → p < first + n → Marked xa y p)
        → ((p : ℕ) → (p < first) ⊎ (first + n ≤ p) → load y p ≡ load x p)
        → Told pages n first limit x y (mapped n)
    fewer :
        (c : ℕ)
        → c < n
        → (i : ℕ) × (i < n) × (pages i ≡ 0)
        → Told pages n first limit x y (mapped c)
    error :
        (err : ℕ) → 0 < err → err ≤ limit → Fails err → Told pages n first limit x y (map_err err)

  told :
      (pages : ℕ → ℕ) (n first limit : ℕ) (x y : Xa) (r : Mapped)
      → MapOutcome xa pages n first 0 0 x (y, r)
      → ErrUpTo limit r
      → Told pages n first limit x y r
  told pages n first limit x y (map_err err) (pos, frame) (small, why) = error err pos small why
  told pages n first limit x y (mapped c) (count, (holds, frame)) small =
      elim (Bool-cases (c == n)) [
        | inr short ↦
            let few : count_pages pages n 0 < n =
              ground (arith, short, count, count_pages-le pages n 0) in
            let (j, _, lt, null) = count_pages_short pages n 0 few in
            fewer c (omega (arith, few, count)) (j, omega (arith, lt), null)
        | inl full ↦
            let same : n ≡ c = sym (==→eq c n full) in
            let counted : count_pages pages n 0 ≡ n = omega (arith, count, same) in
            subst (λ t. Told pages n first limit x y (mapped t)) same
              (all
                (λ p lo hi.
                  let e : p ≡ first + (p - first) = omega (arith, lo) in
                  let at : p - first ≡ 0 + (p - first) = omega arith in
                  let here : (pages (p - first) == 0) ≡ false =
                    count_pages_full pages n 0 (p - first) (p - first) counted
                      (omega (arith, lo, hi)) at in
                  let there : load y p ≡ entry (pages (p - first)) tag_atomic =
                    holds (p - first) p (p - first) (omega (arith, lo, hi)) e at ∙ rw here refl in
                  ap (λ (t : Entry). t.tag) there)
                frame)
      ]

  pub atomic_map-Told :
      (limit : ℕ) (pages : ℕ → ℕ) (d : Dmirror Xa) (start end : ℕ)
      → ErrsUpTo limit
      → let (d', r) = atomic_map xa d start end pages in
        Told pages (shr_page end - shr_page start) (shr_page start) limit d.pt d'.pt r
  unfolding atomic_map
  atomic_map-Told limit pages d start end small =
      told pages (shr_page end - shr_page start) (shr_page start) limit d.pt _ _
        (atomic_map-MapOutcome xa pages d start end).0
        (atomic_map_loop-ErrUpTo limit pages (shr_page end - shr_page start) (shr_page start) 0 0
          d.pt small)
