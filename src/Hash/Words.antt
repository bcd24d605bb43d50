-- ===== src/Hash/Words.antt =====
-- hash.c: the operations on one word. A multiplication by an odd constant, a rotation and the
-- shifts of XXH3_avalanche can be undone.
use Prim.Native.Nat.{bit_xor}
use rshm_hmm.Base.{ℕ, zero, suc, ◌+◌, ◌*◌, ◌/◌, ◌%◌, ◌^◌, ◌<◌, ◌≡◌, sym, ap, ◌∙◌, arith}
use rshm_hmm.Base.Bits.{xor_cancel, xor-zero, xor_injective_left, shift-xor, xor-lt, or_disjoint}
use rshm_hmm.Hash.{mul64, load64, rotl64, avalanche, tail}

-- x ^ (x >> k) is undone by itself where k is at least half of the width.
shift_cancel :
    (k x : ℕ)
    → x / 2 ^ k / 2 ^ k ≡ 0
    → bit_xor (bit_xor x (x / 2 ^ k)) (bit_xor x (x / 2 ^ k) / 2 ^ k) ≡ x
shift_cancel k x h =
    rw (shift-xor k x (x / 2 ^ k), h, xor-zero (x / 2 ^ k)) (xor_cancel x (x / 2 ^ k))

-- The inverse of 0x165667919E3779F9.
abbrev pub unmultiplier : ℕ
unmultiplier = 0x8da8ee41d6df849

unmultiply-multiply :
    (x : ℕ)
    → x < 2 ^ 64
    → (mul64 (mul64 x 0x165667919E3779F9) unmultiplier ≡ x)
      × (mul64 (mul64 x unmultiplier) 0x165667919E3779F9 ≡ x)
unmultiply-multiply x h = (omega arith, omega arith)

shifted-lt : (k x : ℕ) → x < 2 ^ 64 → x / 2 ^ k < 2 ^ 64 → bit_xor x (x / 2 ^ k) < 2 ^ 64
shifted-lt k x h h' = xor-lt 64 x (x / 2 ^ k) h h'

-- XXH3_avalanche backwards.
pub unavalanche : ℕ → ℕ
unavalanche h64 =
    let product = bit_xor h64 (h64 / 2 ^ 32) in
    let shifted = mul64 product unmultiplier in bit_xor shifted (shifted / 2 ^ 37)

-- XXH3_avalanche is one to one on the numbers of 64 bits, and hits every one: it is undone by
-- `unavalanche`, and undoes it.
pub avalanche-unavalanche :
    (h64 : ℕ)
    → h64 < 2 ^ 64
    → (avalanche h64 < 2 ^ 64)
      × (unavalanche (avalanche h64) ≡ h64)
      × (avalanche (unavalanche h64) ≡ h64)
unfolding avalanche unavalanche
avalanche-unavalanche h64 h =
    let s = bit_xor h64 (h64 / 2 ^ 37) in
    let s-lt : s < 2 ^ 64 = shifted-lt 37 h64 h (omega arith) in
    let m = mul64 s 0x165667919E3779F9 in
    let p = bit_xor h64 (h64 / 2 ^ 32) in
    let p-lt : p < 2 ^ 64 = shifted-lt 32 h64 h (omega arith) in
    let q = mul64 p unmultiplier in
    (
      shifted-lt 32 m (omega arith) (omega arith),
      rw (shift_cancel 32 m (omega arith), (unmultiply-multiply s s-lt).0)
          (shift_cancel 37 h64 (omega arith)),
      rw (shift_cancel 37 q (omega arith), (unmultiply-multiply p p-lt).1)
          (shift_cancel 32 h64 (omega arith)),
    )

pub avalanche_injective : (x y : ℕ) → x < 2 ^ 64 → y < 2 ^ 64 → avalanche x ≡ avalanche y → x ≡ y
avalanche_injective x y h h' e =
    sym (avalanche-unavalanche x h).1 ∙ ap unavalanche e ∙ (avalanche-unavalanche y h').1

tail_multiply : (x : ℕ) → x < 2 ^ 64 → mul64 (mul64 x 0xA0761D6478BD642F) 0x939c72e4af1e62cf ≡ x
tail_multiply x h = omega arith

tail_multiply_injective :
    (x y : ℕ)
    → x < 2 ^ 64
    → y < 2 ^ 64
    → mul64 x 0xA0761D6478BD642F ≡ mul64 y 0xA0761D6478BD642F
    → x ≡ y
tail_multiply_injective x y h h' e =
    sym (tail_multiply x h) ∙ ap (λ (t : ℕ). mul64 t 0x939c72e4af1e62cf) e ∙ tail_multiply y h'

rotl64_sum : (x : ℕ) → x < 2 ^ 64 → rotl64 x 27 ≡ x % 2 ^ 37 * 2 ^ 27 + x / 2 ^ 37
unfolding rotl64
rotl64_sum x h =
    let e : x * 2 ^ 27 % 2 ^ 64 ≡ x % 2 ^ 37 * 2 ^ 27 = omega arith in
    rw e (or_disjoint 27 (x % 2 ^ 37) (x / 2 ^ 37) (omega arith))

rotl64-lt : (x : ℕ) → x < 2 ^ 64 → rotl64 x 27 < 2 ^ 64
rotl64-lt x h = omega (arith, rotl64_sum x h)

rotl64_injective : (x y : ℕ) → x < 2 ^ 64 → y < 2 ^ 64 → rotl64 x 27 ≡ rotl64 y 27 → x ≡ y
rotl64_injective x y h h' e = omega (arith, rotl64_sum x h, rotl64_sum y h')

-- The bytes of a memory.
abbrev pub Bytes : (ℕ → ℕ) → Type 0
Bytes mem = (i : ℕ) → mem i < 256

module _ (mem : ℕ → ℕ) (p : ℕ) (h : Bytes mem) where
  eight :
      (mem p < 256)
      × (mem (p + 1) < 256)
      × (mem (p + 2) < 256)
      × (mem (p + 3) < 256)
      × (mem (p + 4) < 256)
      × (mem (p + 5) < 256)
      × (mem (p + 6) < 256)
      × (mem (p + 7) < 256)
  eight = (h p, h (p + 1), h (p + 2), h (p + 3), h (p + 4), h (p + 5), h (p + 6), h (p + 7))

  pub load64-lt : load64 mem p < 2 ^ 64
  unfolding load64
  load64-lt = omega (arith, eight)

  -- A word by its bytes.
  load64_byte : (i : ℕ) → i < 8 → load64 mem p / 256 ^ i % 256 ≡ mem (p + i)
  unfolding load64
  load64_byte zero lt = let e : p + 0 ≡ p = omega arith in rw e (omega (arith, eight))
  load64_byte (suc zero) lt = omega (arith, eight)
  load64_byte (suc (suc zero)) lt = omega (arith, eight)
  load64_byte (suc (suc (suc zero))) lt = omega (arith, eight)
  load64_byte (suc (suc (suc (suc zero)))) lt = omega (arith, eight)
  load64_byte (suc (suc (suc (suc (suc zero))))) lt = omega (arith, eight)
  load64_byte (suc (suc (suc (suc (suc (suc zero)))))) lt = omega (arith, eight)
  load64_byte (suc (suc (suc (suc (suc (suc (suc zero))))))) lt = omega (arith, eight)
  load64_byte (suc (suc (suc (suc (suc (suc (suc (suc i)))))))) lt = absurd (omega arith)

-- Two memories with the same word have its eight bytes in common.
pub load64_injective :
    (mem mem' : ℕ → ℕ) (p : ℕ)
    → Bytes mem
    → Bytes mem'
    → load64 mem p ≡ load64 mem' p
    → (i : ℕ) → i < 8
    → mem (p + i) ≡ mem' (p + i)
load64_injective mem mem' p h h' e i lt =
    sym (load64_byte mem p h i lt)
    ∙ ap (λ (t : ℕ). t / 256 ^ i % 256) e
    ∙ load64_byte mem' p h' i lt

-- The last word can be told from the accumulator behind it.
pub tail_injective :
    (mem mem' : ℕ → ℕ) (p acc : ℕ)
    → Bytes mem
    → Bytes mem'
    → acc < 2 ^ 64
    → tail mem p acc ≡ tail mem' p acc
    → load64 mem p ≡ load64 mem' p
unfolding tail
tail_injective mem mem' p acc h h' a e =
    let x = load64 mem p in
    let y = load64 mem' p in
    let u = bit_xor acc (mul64 x 0xA0761D6478BD642F) in
    let v = bit_xor acc (mul64 y 0xA0761D6478BD642F) in
    let u-lt : u < 2 ^ 64 = xor-lt 64 acc (mul64 x 0xA0761D6478BD642F) a (omega arith) in
    let v-lt : v < 2 ^ 64 = xor-lt 64 acc (mul64 y 0xA0761D6478BD642F) a (omega arith) in
    let rotated =
      tail_multiply_injective (rotl64 u 27) (rotl64 v 27) (rotl64-lt u u-lt) (rotl64-lt v v-lt) e in
    tail_multiply_injective x y (load64-lt mem p h) (load64-lt mem' p h')
      (xor_injective_left _ _ acc (rotl64_injective u v u-lt v-lt rotated))
