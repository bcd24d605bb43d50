-- ===== src/Moves/Exclusive.antt =====
-- dmirror_exclusive of hmm.c: its loop over a range that no callback disturbs.
use rshm_hmm.Base.{
  ℕ, ◌+◌, ◌-◌, ◌*◌, ◌≤◌, ◌<◌, ◌≡◌, refl, ap, subst, ◌∙◌, ◌⊎◌, inl, inr, true, false, min, Option,
  some, List, [], ◌∷◌, length, arith, ltb, ge→ltb, lt→ltb, Bool-cases, if◌then◌else◌,
}
use rshm_hmm.Kernel.{
  Content, Entry, UserSpace, Memory, XArray, word, page_size, shr_page, shl_page, add64, ebusy,
}
use rshm_hmm.Mirror.{Dmirror, Mapped, atomic_map}
use rshm_hmm.Mirror.Atomic.{Marked}
use rshm_hmm.Mirror.Marks.{ErrsUpTo, Fails, Told, all, fewer, error, atomic_map-Told}
use rshm_hmm.Faulting.{notify}
use rshm_hmm.Moves.{Claim, claim_end, is_all, as_long, exclusive_loop}

-- No callback runs in any of the rounds.
abbrev pub Undisturbed : List Claim → Type 0
Undisturbed [] = Unit {0}
Undisturbed (c ∷ cs) = (c.notices ≡ []) × Undisturbed cs

-- The claim stands in the list.
pub data Has (c : Claim) : List Claim → Type 0 where
  first : {cs : List Claim} → Has c (c ∷ cs)
  later : {b : Claim} {cs : List Claim} → Has c cs → Has c (b ∷ cs)

claim_end_page :
    (p e : ℕ)
    → p < e
    → e * page_size + 64 * page_size ≤ word
    → (q : ℕ) × (claim_end (p * page_size) (e * page_size) ≡ q * page_size) × (p < q) × (q ≤ e)
unfolding claim_end
claim_end_page p e lt fits =
    (min (p + 64) e, ground (arith, lt, fits), omega (arith, lt), omega arith)

-- The number that the code tests: fewer pages or an error leave it below the next address.
behind_fewer :
    (p q c : ℕ)
    → c < q - p
    → q * page_size < word
    → ltb (add64 (p * page_size) (shl_page c)) (q * page_size) ≡ true
behind_fewer p q c lt fits = lt→ltb _ _ (omega (arith, lt, fits))

behind_error :
    (p q err : ℕ)
    → 0 < err
    → err ≤ p
    → p < q
    → q * page_size < word
    → ltb (add64 (p * page_size) (shl_page (word - err))) (q * page_size) ≡ true
behind_error p q err pos le lt fits = lt→ltb _ _ (omega (arith, pos, le, lt, fits))

behind_all :
    (p q : ℕ)
    → p < q
    → q * page_size < word
    → ltb (add64 (p * page_size) (shl_page (q - p))) (q * page_size) ≡ false
behind_all p q lt fits = ge→ltb _ _ (omega (arith, lt, fits))

module _ (xa : XArray) (us : UserSpace) (vmalloc : ℕ → Option (List Content)) where
  open xa use {Xa, load}

  -- Why a round over `n` pages is given up: make_device_exclusive_range does not give all of them, or
  -- gives NULL for one, or a store fails.
  abbrev pub Blocked : Claim → ℕ → Type 0
  Blocked c n =
      (is_all c.ret n ≡ false) ⊎ ((i : ℕ) × (i < n) × (c.pages i ≡ 0)) ⊎ ((err : ℕ) × Fails xa err)

  -- How the loop ends from page frame `p` to `e`: with 0, and every page of the range marked for
  -- exclusive access; or with -EBUSY in a round that is given up.
  pub data Claimed (cs : List Claim) (p e : ℕ) (m m' : Dmirror Xa) (ret : ℕ) : Type 0 where
    claimed :
        ret ≡ 0
        → ((q : ℕ) → p ≤ q → q < e → Marked xa m'.pt q)
        → ((q : ℕ) → (q < p) ⊎ (e ≤ q) → load m'.pt q ≡ load m.pt q)
        → Claimed cs p e m m' ret
    busy :
        (c : Claim) (n : ℕ)
        → Has c cs
        → 0 < n
        → n ≤ e - p
        → Blocked c n
        → ret ≡ ebusy
        → Claimed cs p e m m' ret

  abbrev pub Claims : List Claim → ℕ → ℕ → Dmirror Xa → Option (Dmirror Xa × Memory × ℕ) → Type 0
  Claims cs p e m o =
      (m' : Dmirror Xa) × (mem : Memory) × (ret : ℕ) × (o ≡ some (m', mem, ret))
      × Claimed cs p e m m' ret

  -- Behind a round that has marked its pages.
  Claims-cons :
      (c : Claim) (cs : List Claim) (p q e : ℕ) (m u : Dmirror Xa)
      (o : Option (Dmirror Xa × Memory × ℕ))
      → p < q
      → q ≤ e
      → ((i : ℕ) → p ≤ i → i < p + (q - p) → Marked xa u.pt i)
      → ((i : ℕ) → (i < p) ⊎ (p + (q - p) ≤ i) → load u.pt i ≡ load m.pt i)
      → Claims cs q e u o
      → Claims (c ∷ cs) p e m o
  Claims-cons c cs p q e m u o lt le marks frame
        (m', mem, ret, is, busy b n at some_page few why z) =
      (m', mem, ret, is, busy b n (later at) some_page (omega (arith, few, lt)) why z)
  Claims-cons c cs p q e m u o lt le marks frame (m', mem, ret, is, claimed z behind kept) = (
    m',
    mem,
    ret,
    is,
    claimed z
        (λ i lo hi. elim (Bool-cases (ltb i q)) [
          | inl here ↦
              ap (λ (t : Entry). t.tag) (kept i (inl (ground (arith, here))))
              ∙ marks i lo (ground (arith, here, lt))
          | inr there ↦ behind i (ground (arith, there)) hi
        ])
        (λ i out. kept i (omega (arith, out, lt, le)) ∙ frame i (omega (arith, out, lt, le))),
  )

  -- The test behind dmirror_atomic_map, with what its result tells.
  tested :
      (c : Claim) (cs : List Claim) (p q e limit : ℕ) (m u : Dmirror Xa) (mem : Memory) (r : Mapped)
      (rest : Option (Dmirror Xa × Memory × ℕ))
      → p < q
      → q ≤ e
      → q * page_size < word
      → limit ≤ p
      → Told xa c.pages (q - p) p limit m.pt u.pt r
      → Claims cs q e u rest
      → Claims (c ∷ cs) p e m (
          if ltb (add64 (p * page_size) (shl_page (as_long r))) (q * page_size)
          then some (u, mem, ebusy)
          else rest)
  tested c cs p q e limit m u mem r rest lt le fits small (fewer n few null) after =
      rw (behind_fewer p q n few fits) (
        u,
        mem,
        ebusy,
        refl,
        busy c (q - p) first (omega (arith, lt)) (omega (arith, le)) (inr (inl null)) refl,
      )
  tested c cs p q e limit m u mem r rest lt le fits small (error err pos up_to fails) after =
      rw (behind_error p q err pos (omega (arith, up_to, small)) lt fits) (
        u,
        mem,
        ebusy,
        refl,
        busy c (q - p) first (omega (arith, lt)) (omega (arith, le)) (inr (inr (err, fails))) refl,
      )
  tested c cs p q e limit m u mem r rest lt le fits small (all marks frame) after =
      rw (behind_all p q lt fits) (Claims-cons c cs p q e m u rest lt le marks frame after)

  -- The loop of dmirror_exclusive from page frame `p` to `e`, where no callback disturbs it, the range
  -- does not reach the last 64 pages below 2^64, and no error number of a store is above `p`, ends
  -- after at most as many rounds as the range has pages: with 0, every page of the range marked for
  -- exclusive access and the other entries as before; or with -EBUSY, in a round for which the kernel
  -- does not give all its pages, or in which a store fails.
  pub exclusive_loop-Claims :
      (cs : List Claim) (p e limit : ℕ) (m : Dmirror Xa) (mem : Memory)
      → Undisturbed cs
      → p ≤ e
      → e * page_size + 64 * page_size ≤ word
      → e - p ≤ length cs
      → ErrsUpTo xa limit
      → limit ≤ p
      → Claims cs p e m (exclusive_loop xa us vmalloc cs (p * page_size) (e * page_size) m mem)
  unfolding exclusive_loop notify
  exclusive_loop-Claims [] p e limit m mem quiet le fits enough small low =
      simp (ge→ltb (p * page_size) (e * page_size) (omega (arith, enough)), exclusive_loop)
        (
          m,
          mem,
          0,
          refl,
          claimed refl (λ q lo hi. absurd (omega (arith, lo, hi, enough))) (λ q out. refl),
        )
  exclusive_loop-Claims (c ∷ cs) p e limit m mem (silent, quiet) le fits enough small low =
      elim (Bool-cases (ltb (p * page_size) (e * page_size))) [
        | inr done ↦
            simp (done, exclusive_loop)
              (
                m,
                mem,
                0,
                refl,
                claimed refl (λ q lo hi. absurd (ground (arith, lo, hi, done))) (λ q out. refl),
              )
        | inl more ↦
            let (q, next, lt, hi) = claim_end_page p e (ground (arith, more)) fits in
            let start : ℕ = p * page_size in
            let stop : ℕ = q * page_size in
            let u : Dmirror Xa = (atomic_map xa m start stop c.pages).0 in
            let there : shr_page stop - shr_page start ≡ q - p = omega arith in
            let from : shr_page start ≡ p = omega arith in
            let width : shr_page (stop - start) ≡ q - p = omega (arith, lt) in
            let know : Told xa c.pages (q - p) p limit m.pt u.pt
                (atomic_map xa m start stop c.pages).1 =
              rw (there, from) at (atomic_map-Told xa limit c.pages m start stop small) in
            simp (more, exclusive_loop)
              (simp (next, exclusive_loop)
                (simp (silent, exclusive_loop)
                  (elim (Bool-cases (is_all c.ret (shr_page (stop - start)))) [
                    | inr part ↦
                        simp (part, exclusive_loop)
                          (rw (behind_fewer p q 0 (omega (arith, lt)) (omega (arith, hi, fits))) (
                            m,
                            c.others mem,
                            ebusy,
                            refl,
                            busy c (q - p) first (omega (arith, lt)) (omega (arith, hi))
                                (inl (subst (λ n. is_all c.ret n ≡ false) width part)) refl,
                          ))
                    | inl whole ↦
                        simp (whole, exclusive_loop)
                          (tested c cs p q e limit m u (c.others mem)
                            (atomic_map xa m start stop c.pages).1
                            (exclusive_loop xa us vmalloc cs stop (e * page_size) u (c.others mem))
                            lt hi (omega (arith, hi, fits)) low know
                            (exclusive_loop-Claims cs q e limit u (c.others mem) quiet hi fits
                              (omega (arith, enough, lt)) small (omega (arith, low, lt))))
                  ])))
      ]
