-- ===== src/Base/Bits.antt =====
-- The bitwise operations of C on numbers of any width: the law for the lowest bit, from which the
-- laws of the exclusive or, of the shifts and of disjoint fields follow by induction.
use Prim.Native.Nat.{
  ℕ, zero, suc, ◌+◌, ◌*◌, ◌/◌, ◌%◌, ◌^◌, ◌≤◌, ◌<◌, max, bit_xor, bit_or, digits, differ,
  bit_xor-bitwise, bit_or-bitwise,
}
use mathlib.Core.Path.{◌≡◌, refl, sym, ap, ◌∙◌}
use native.Mathlib.Nat.{
  pow-succ', one-le-pow, le_refl, div-one, div-eq_of_lt, div-lt_iff_lt-mul, div-div-eq-div-mul,
}
use native.Mathlib.Omega.{arith}

module _ (f : ℕ → ℕ → ℕ) where
  abbrev bits : ℕ → ℕ → ℕ → ℕ
  bits = digits (λ y. y) f

  -- Any fuel that covers the number will do.
  bits_fuel : (a b n m : ℕ) → a ≤ n → a ≤ m → bits n a b ≡ bits m a b
  bits_fuel zero b zero zero h k = refl
  bits_fuel zero b zero (suc m) h k = refl
  bits_fuel zero b (suc n) zero h k = refl
  bits_fuel zero b (suc n) (suc m) h k = refl
  bits_fuel (suc a) b zero m h k = absurd (omega arith)
  bits_fuel (suc a) b (suc n) zero h k = absurd (omega arith)
  bits_fuel (suc a) b (suc n) (suc m) h k =
      rw (bits_fuel (suc a / 2) (b / 2) n m (omega arith) (omega arith))

  bits_step : (a b : ℕ) → bits a (suc a / 2) (b / 2) ≡ bits (suc a / 2) (suc a / 2) (b / 2)
  bits_step a b = bits_fuel (suc a / 2) (b / 2) a (suc a / 2) (omega arith) (le_refl (suc a / 2))

pub xor_bit : (a b : ℕ) → bit_xor a b ≡ bit_xor (a / 2) (b / 2) * 2 + differ (a % 2) (b % 2)
xor_bit zero b = simp bit_xor-bitwise (omega arith)
xor_bit (suc a) b = simp bit_xor-bitwise (omega (arith, bits_step differ a b))

pub or_bit : (a b : ℕ) → bit_or a b ≡ bit_or (a / 2) (b / 2) * 2 + max (a % 2) (b % 2)
or_bit zero b = simp bit_or-bitwise (omega arith)
or_bit (suc a) b = simp bit_or-bitwise (omega (arith, bits_step max a b))

differ_bits : (a b : ℕ) → a < 2 → b < 2 → (differ a b < 2) × (differ (differ a b) b ≡ a)
differ_bits zero zero h k = (omega arith, refl)
differ_bits zero (suc zero) h k = (omega arith, refl)
differ_bits (suc zero) zero h k = (omega arith, refl)
differ_bits (suc zero) (suc zero) h k = (omega arith, refl)
differ_bits (suc (suc a)) b h k = absurd (omega arith)
differ_bits a (suc (suc b)) h k = absurd (omega arith)

-- The exclusive or, by its lowest bit and the others.
xor_halves :
    (a b : ℕ)
    → (bit_xor a b / 2 ≡ bit_xor (a / 2) (b / 2)) × (bit_xor a b % 2 ≡ differ (a % 2) (b % 2))
xor_halves a b = omega (arith, xor_bit a b, differ_bits (a % 2) (b % 2) (omega arith) (omega arith))

xor_cancel_below : (n a b : ℕ) → a + b ≤ n → bit_xor (bit_xor a b) b ≡ a
xor_cancel_below zero zero zero h = refl
xor_cancel_below zero zero (suc b) h = absurd (omega arith)
xor_cancel_below zero (suc a) b h = absurd (omega arith)
xor_cancel_below (suc n) a b h =
    rw (xor_bit (bit_xor a b) b, (xor_halves a b).0, (xor_halves a b).1)
      (omega (
        arith,
        xor_cancel_below n (a / 2) (b / 2) (omega arith),
        differ_bits (a % 2) (b % 2) (omega arith) (omega arith),
      ))

-- What is flipped twice is as it was.
pub xor_cancel : (a b : ℕ) → bit_xor (bit_xor a b) b ≡ a
xor_cancel a b = xor_cancel_below (a + b) a b (omega arith)

differ_comm : (a b : ℕ) → differ a b ≡ differ b a
differ_comm zero zero = refl
differ_comm zero (suc b) = refl
differ_comm (suc a) zero = refl
differ_comm (suc a) (suc b) = differ_comm a b

xor_comm_below : (n a b : ℕ) → a + b ≤ n → bit_xor a b ≡ bit_xor b a
xor_comm_below zero zero zero h = refl
xor_comm_below zero zero (suc b) h = absurd (omega arith)
xor_comm_below zero (suc a) b h = absurd (omega arith)
xor_comm_below (suc n) a b h = omega (
  arith,
  xor_bit a b,
  xor_bit b a,
  differ_comm (a % 2) (b % 2),
  xor_comm_below n (a / 2) (b / 2) (omega arith),
)

pub xor_comm : (a b : ℕ) → bit_xor a b ≡ bit_xor b a
xor_comm a b = xor_comm_below (a + b) a b (omega arith)

pub xor_injective : (a b c : ℕ) → bit_xor a c ≡ bit_xor b c → a ≡ b
xor_injective a b c e = sym (xor_cancel a c) ∙ ap (λ (t : ℕ). bit_xor t c) e ∙ xor_cancel b c

pub xor_injective_left : (a b c : ℕ) → bit_xor c a ≡ bit_xor c b → a ≡ b
xor_injective_left a b c e = xor_injective a b c (xor_comm a c ∙ e ∙ xor_comm c b)

differ-zero : (a : ℕ) → differ a 0 ≡ a
differ-zero zero = refl
differ-zero (suc a) = refl

xor-zero_below : (n a : ℕ) → a ≤ n → bit_xor a 0 ≡ a
xor-zero_below n zero h = refl
xor-zero_below zero (suc a) h = absurd (omega arith)
xor-zero_below (suc n) (suc a) h =
    omega (
      arith,
      xor_bit (suc a) 0,
      xor-zero_below n (suc a / 2) (omega arith),
      differ-zero (suc a % 2),
    )

pub xor-zero : (a : ℕ) → bit_xor a 0 ≡ a
xor-zero a = xor-zero_below a a (le_refl a)

shift_suc : (k a : ℕ) → a / 2 ^ suc k ≡ a / 2 / 2 ^ k
shift_suc k a = rw (pow-succ' 2 k) (sym (div-div-eq-div-mul a 2 (2 ^ k)))

-- A shift of an exclusive or shifts both sides.
pub shift-xor : (k a b : ℕ) → bit_xor a b / 2 ^ k ≡ bit_xor (a / 2 ^ k) (b / 2 ^ k)
shift-xor zero a b = rw (div-one (bit_xor a b), div-one a, div-one b)
shift-xor (suc k) a b =
    rw (shift_suc k (bit_xor a b), shift_suc k a, shift_suc k b, (xor_halves a b).0)
      (shift-xor k (a / 2) (b / 2))

pub xor-lt : (k a b : ℕ) → a < 2 ^ k → b < 2 ^ k → bit_xor a b < 2 ^ k
xor-lt k a b h h' = omega (
  arith,
  one-le-pow k 2,
  (div-lt_iff_lt-mul {x = bit_xor a b} {y = 1} (one-le-pow k 2 (omega arith))).0
      (rw (shift-xor k a b, div-eq_of_lt h, div-eq_of_lt h') (omega arith)),
)

or_zero_below : (n a : ℕ) → a ≤ n → bit_or a 0 ≡ a
or_zero_below n zero h = refl
or_zero_below zero (suc a) h = absurd (omega arith)
or_zero_below (suc n) (suc a) h =
    omega (arith, or_bit (suc a) 0, or_zero_below n (suc a / 2) (omega arith))

-- Fields that do not overlap are added.
pub or_disjoint : (k q r : ℕ) → r < 2 ^ k → bit_or (q * 2 ^ k) r ≡ q * 2 ^ k + r
or_disjoint zero q r h =
    let e : r ≡ 0 = omega arith in rw e (omega (arith, or_zero_below (q * 1) (q * 1)))
or_disjoint (suc k) q r h =
    let e : q * 2 ^ suc k ≡ 2 * (q * 2 ^ k) =
      omega (arith, ap (λ (t : ℕ). q * t) (pow-succ' 2 k)) in
    let fits : r / 2 < 2 ^ k = omega (arith, pow-succ' 2 k) in
    let halved : 2 * (q * 2 ^ k) / 2 ≡ q * 2 ^ k = omega arith in
    rw (e, or_bit (2 * (q * 2 ^ k)) r, halved) (omega (arith, or_disjoint k q (r / 2) fits))
