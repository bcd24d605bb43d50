-- ===== src/Hash/Closed.antt =====
-- hash.c: XXH3_64bit without loops and fuel: n / 32 stripes, at most one block of 16 bytes, and at
-- most one word. The loops of the code end and compute this, and the result has 64 bits.
use rshm_hmm.Base.{
  ℕ, zero, suc, ◌+◌, ◌-◌, ◌*◌, ◌/◌, ◌%◌, ◌^◌, ◌≤◌, ◌<◌, ◌≡◌, refl, ◌∙◌, sym, ap, inl, inr, some,
  leb, true, false, Bool-cases, if◌then◌else◌, arith,
}
use rshm_hmm.Base.Bits.{xor-lt, or_disjoint}
use rshm_hmm.Hash.{
  default_seed, rotl64, stripe, block, stripe_loop, block_loop, finalize, long_part, short_part,
  xxh3_64bit,
}

-- The accumulator behind the first k stripes.
unfoldable pub stripes : (ℕ → ℕ) → ℕ → ℕ
stripes mem zero = default_seed
stripes mem (suc k) = stripe mem (32 * k) (stripes mem k)

unfoldable pub middle : (ℕ → ℕ) → ℕ → ℕ
unfolding stripes
middle mem n =
    let acc = stripes mem (n / 32) in if leb 16 (n % 32) then block mem (32 * (n / 32)) acc else acc

unfoldable pub closed : (ℕ → ℕ) → ℕ → ℕ
unfolding middle
closed mem n = finalize mem n (16 * (n / 16)) (middle mem n)

module _ (mem : ℕ → ℕ) (n : ℕ) where
  stripe_loop-stripes :
      (fuel k p : ℕ)
      → p ≡ 32 * k
      → p + 32 ≤ n
      → n < fuel + p
      → stripe_loop fuel mem n p (stripes mem k) ≡ some (32 * (n / 32), stripes mem (n / 32))
  unfolding stripe_loop
  stripe_loop-stripes zero k p at_k long fits = absurd (omega arith)
  stripe_loop-stripes (suc fuel) k p at_k long fits =
      let next : stripe mem p (stripes mem k) ≡ stripes mem (suc k) =
        ap (λ (t : ℕ). stripe mem t (stripes mem k)) at_k ∙ unfold stripes in refl in
      rw next (elim (Bool-cases (leb (p + 32) (n - 32))) [
        | inl on ↦
            rw on
              (stripe_loop-stripes fuel (suc k) (p + 32) (omega arith) (ground arith) (omega arith))
        | inr off ↦
            let last : suc k ≡ n / 32 = ground arith in
            let end : p + 32 ≡ 32 * (n / 32) = omega arith in rw (off, last, end)
      ])

  block_loop-block :
      (fuel p acc : ℕ)
      → p ≤ n
      → n < p + 32
      → n < fuel + p
      → block_loop fuel mem n p acc
        ≡ some (if leb (p + 16) n then (p + 16, block mem p acc) else (p, acc))
  unfolding block_loop
  block_loop-block zero p acc h below fits = absurd (omega arith)
  block_loop-block (suc zero) p acc h below fits = ground arith
  block_loop-block (suc (suc fuel)) p acc h below fits = ground arith

  long_part-stripes : long_part mem n ≡ some (32 * (n / 32), stripes mem (n / 32))
  unfolding long_part
  long_part-stripes = elim (Bool-cases (leb 32 n)) [
    | inl long ↦
        rw long
          (unfold stripes in stripe_loop-stripes (n + 1) 0 0 refl (ground arith) (omega arith))
    | inr short ↦ let e : n / 32 ≡ 0 = ground arith in rw (short, e) (unfold stripes in refl)
  ]

  short_part-closed : short_part mem n (32 * (n / 32)) (stripes mem (n / 32)) ≡ some (closed mem n)
  unfolding short_part closed middle
  short_part-closed =
      rw
        (
          block_loop-block (n + 1) (32 * (n / 32)) (stripes mem (n / 32)) (omega arith)
              (omega arith) (omega arith),
          short_part,
        )
        (elim (Bool-cases (leb 16 (n % 32))) [
          | inl more ↦
              let e : leb (32 * (n / 32) + 16) n ≡ true = ground arith in
              let end : 32 * (n / 32) + 16 ≡ 16 * (n / 16) = ground arith in rw (e, more, end)
          | inr done ↦
              let e : leb (32 * (n / 32) + 16) n ≡ false = ground arith in
              let end : 32 * (n / 32) ≡ 16 * (n / 16) = ground arith in rw (e, done, sym end)
        ])

  -- XXH3_64bit ends, and gives the closed form.
  pub xxh3_64bit-closed : xxh3_64bit mem n ≡ some (closed mem n)
  unfolding xxh3_64bit
  xxh3_64bit-closed = rw (long_part-stripes, xxh3_64bit) short_part-closed

-- The accumulator has 64 bits throughout.
rotl64_19-lt : (x : ℕ) → x < 2 ^ 64 → rotl64 x 19 < 2 ^ 64
unfolding rotl64
rotl64_19-lt x h =
    let e : x * 2 ^ 19 % 2 ^ 64 ≡ x % 2 ^ 45 * 2 ^ 19 = omega arith in
    rw (e, or_disjoint 19 (x % 2 ^ 45) (x / 2 ^ 45) (omega arith)) (omega arith)

stripe-lt : (mem : ℕ → ℕ) (p acc : ℕ) → stripe mem p acc < 2 ^ 64
unfolding stripe
stripe-lt mem p acc = xor-lt 64 _ _ (rotl64_19-lt _ (omega arith)) (omega arith)

stripes-lt : (mem : ℕ → ℕ) (k : ℕ) → stripes mem k < 2 ^ 64
unfolding stripes
stripes-lt mem zero = omega arith
stripes-lt mem (suc k) = stripe-lt mem (32 * k) (stripes mem k)

pub middle-lt : (mem : ℕ → ℕ) (n : ℕ) → middle mem n < 2 ^ 64
unfolding middle
middle-lt mem n = elim (Bool-cases (leb 16 (n % 32))) [
  | inl more ↦ rw more (unfold block in omega arith)
  | inr done ↦ rw done (stripes-lt mem (n / 32))
]
