-- ===== src/Benchmark/Averages.antt =====
-- copy.c and hash.c: the averages that are reported. The sum does not wrap, and lies between the
-- shortest and the longest duration.
use native.Mathlib.Nat.{suc-mul, le-div_iff_mul-le, div-le_of_le-mul}
use rshm_hmm.Base.{
  ℕ, zero, suc, ◌+◌, ◌*◌, ◌%◌, ◌^◌, ◌≤◌, ◌<◌, ◌≡◌, refl, some, List, [], ◌∷◌, arith,
}
use rshm_hmm.Benchmark.{Durations, time_loop, average_time, bench_loop}

-- All durations lie between these.
abbrev pub Within : ℕ → ℕ → Durations → Type 0
Within lo hi d = (i j : ℕ) → (lo ≤ d i j) × (d i j ≤ hi)

module _ (lo hi : ℕ) (diffs : ℕ → ℕ) (within : (j : ℕ) → (lo ≤ diffs j) × (diffs j ≤ hi)) where
  time_loop_bounds :
      (n j total : ℕ)
      → total + n * hi < 2 ^ 64
      → (total + n * lo ≤ time_loop diffs n j total) × (time_loop diffs n j total ≤ total + n * hi)
  unfolding time_loop
  time_loop_bounds zero j total small = (omega arith, omega arith)
  time_loop_bounds (suc n) j total small =
      let t = total + diffs j in
      let fits : t % 2 ^ 64 ≡ t = omega (arith, within j, suc-mul n hi) in
      let rest = time_loop_bounds n (j + 1) t (omega (arith, within j, suc-mul n hi)) in
      rw fits
        (omega (arith, rest, within j, suc-mul n lo), omega (arith, rest, within j, suc-mul n hi))

-- An average of at most 1000000 operations.
pub average_time_bounds :
    (lo hi i : ℕ) (d : Durations)
    → Within lo hi d
    → hi < 2 ^ 44
    → 0 < i
    → i ≤ 1000000
    → (lo ≤ average_time d i) × (average_time d i ≤ hi)
unfolding average_time
average_time_bounds lo hi i d within small pos few =
    let below : i * hi ≤ 1000000 * hi = grind arith in
    let bounds = time_loop_bounds lo hi (d i) (within i) i 0 0 (omega (arith, below)) in
    ((le-div_iff_mul-le pos).1 (omega (arith, bounds)), div-le_of_le-mul i (omega (arith, bounds)))

-- The numbers of operations, the last first.
abbrev pub sizes : List ℕ
sizes = 1000000 ∷ 100000 ∷ 10000 ∷ 1000 ∷ 100 ∷ 10 ∷ 1 ∷ []

-- The loop ends behind 1000000 operations. What each round makes of the rounds before it holds then.
pub bench_loop_inv :
    {S : Type 0} (P : List ℕ → S → Type 0) (body : ℕ → S → S)
    → ((i : ℕ) (ns : List ℕ) (s : S) → (0 < i) × (i ≤ 1000000) → P ns s → P (i ∷ ns) (body i s))
    → (s : S) → P [] s
    → (t : S) × (bench_loop body 8 1 s ≡ some t) × P sizes t
unfolding bench_loop
bench_loop_inv P body keep s start = (
  _,
  refl,
  keep 1000000 _ _ (omega arith, omega arith)
      (keep 100000 _ _ (omega arith, omega arith)
        (keep 10000 _ _ (omega arith, omega arith)
          (keep 1000 _ _ (omega arith, omega arith)
            (keep 100 _ _ (omega arith, omega arith)
              (keep 10 _ _ (omega arith, omega arith)
                (keep 1 [] s (omega arith, omega arith) start)))))),
)

-- New reports, the last first: of these sizes, with averages between lo and hi.
abbrev pub Reported : ℕ → ℕ → List ℕ → List (ℕ × ℕ) → List (ℕ × ℕ) → Type 0
Reported lo hi [] old new = new ≡ old
Reported lo hi (i ∷ ns) old [] = ⊥
Reported lo hi (i ∷ ns) old ((n, average) ∷ new) =
    (n ≡ i) × (lo ≤ average) × (average ≤ hi) × Reported lo hi ns old new
