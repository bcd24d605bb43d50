-- ===== src/Hash.antt =====
-- hash.c: XXH3_rotl64, XXH3_avalanche and XXH3_64bit. A byte of the memory is found by its distance
-- from `input`, and `n` is strlen(input). A u64 is a number below 2 ^ 64, read in little-endian order.
pub mod Words
pub mod Closed
pub mod Footprint
pub mod Last
mod Examples
use Prim.Native.Nat.{bit_xor, bit_or}
use rshm_hmm.Base.{
  ℕ, zero, suc, ◌+◌, ◌-◌, ◌*◌, ◌/◌, ◌%◌, ◌^◌, Option, none, some, leb, ltb, if◌then◌else◌,
}

-- XXH3_64BIT_DEFAULT_SEED
abbrev pub default_seed : ℕ
default_seed = 0

abbrev pub mul64 : ℕ → ℕ → ℕ
mul64 a b = a * b % 2 ^ 64

abbrev pub add64 : ℕ → ℕ → ℕ
add64 a b = (a + b) % 2 ^ 64

-- *(const u64*)p
pub load64 : (ℕ → ℕ) → ℕ → ℕ
load64 mem p =
    mem p
    + 256
      * (mem (p + 1)
          + 256
            * (mem (p + 2)
                + 256
                  * (mem (p + 3)
                      + 256
                        * (mem (p + 4)
                            + 256 * (mem (p + 5) + 256 * (mem (p + 6) + 256 * mem (p + 7)))))))

pub rotl64 : ℕ → ℕ → ℕ
rotl64 x r = bit_or (x * 2 ^ r % 2 ^ 64) (x / 2 ^ (64 - r))

pub avalanche : ℕ → ℕ
avalanche h64 =
    let shifted = bit_xor h64 (h64 / 2 ^ 37) in
    let product = mul64 shifted 0x165667919E3779F9 in bit_xor product (product / 2 ^ 32)

-- A round of the loop over 32 bytes.
pub stripe : (ℕ → ℕ) → ℕ → ℕ → ℕ
unfolding rotl64 load64
stripe mem p acc =
    let k1 = load64 mem p in
    let k2 = load64 mem (p + 8) in
    let k3 = load64 mem (p + 16) in
    let k4 = load64 mem (p + 24) in
    let mixed = rotl64 (bit_xor acc (mul64 k1 0x51B051B051B051B)) 29 in
    let rotated = rotl64 (add64 mixed (mul64 k2 0x7CB07CB07CB07CB1)) 21 in
    let added = add64 (mul64 rotated 0xC6A4A7935BD1E995) k3 in
    bit_xor (rotl64 added 19) (mul64 k4 0x51B051B051B051B)

-- A round of the loop over 16 bytes.
pub block : (ℕ → ℕ) → ℕ → ℕ → ℕ
unfolding rotl64 load64
block mem p acc =
    let k1 = load64 mem p in
    let k2 = load64 mem (p + 8) in
    let mixed = rotl64 (bit_xor acc (mul64 k1 0x9FB21C651E98DF25)) 31 in
    add64 (mul64 mixed 0x9FB21C651E98DF25) (mul64 k2 0x9FB21C651E98DF25)

-- What is left, by one word.
pub tail : (ℕ → ℕ) → ℕ → ℕ → ℕ
unfolding rotl64 load64
tail mem p acc =
    let k1 = load64 mem p in
    mul64 (rotl64 (bit_xor acc (mul64 k1 0xA0761D6478BD642F)) 27) 0xA0761D6478BD642F

-- The position and the accumulator behind the loop over 32 bytes; `none` where the fuel ends. It is
-- entered with at least 32 bytes, so that `limit` is not before `input`.
pub stripe_loop : ℕ → (ℕ → ℕ) → ℕ → ℕ → ℕ → Option (ℕ × ℕ)
unfolding stripe
stripe_loop zero mem n p acc = none
stripe_loop (suc fuel) mem n p acc =
    let acc' = stripe mem p acc in
    let rest = stripe_loop fuel mem n (p + 32) acc' in
    if leb (p + 32) (n - 32) then rest else some (p + 32, acc')

-- Likewise for the loop over 16 bytes, whose `limit` may be before `input`: p <= bEnd - 16.
pub block_loop : ℕ → (ℕ → ℕ) → ℕ → ℕ → ℕ → Option (ℕ × ℕ)
unfolding block
block_loop zero mem n p acc = none
block_loop (suc fuel) mem n p acc =
    let rest = block_loop fuel mem n (p + 16) (block mem p acc) in
    if leb (p + 16) n then rest else some (p, acc)

-- The part for texts of 32 bytes and more, from the start of the text.
pub long_part : (ℕ → ℕ) → ℕ → Option (ℕ × ℕ)
unfolding stripe_loop
long_part mem n =
    if leb 32 n then stripe_loop (n + 1) mem n 0 default_seed else some (0, default_seed)

pub finalize : (ℕ → ℕ) → ℕ → ℕ → ℕ → ℕ
unfolding tail avalanche
finalize mem n p acc =
    let acc' = if ltb p n then tail mem p acc else acc in avalanche (bit_xor acc' n)

-- The part behind it.
pub short_part : (ℕ → ℕ) → ℕ → ℕ → ℕ → Option ℕ
unfolding block_loop finalize
short_part mem n p acc = elim (block_loop (n + 1) mem n p acc) [
  | none ↦ none
  | some (q, acc') ↦ some (finalize mem n q acc')
]

pub xxh3_64bit : (ℕ → ℕ) → ℕ → Option ℕ
unfolding long_part short_part
xxh3_64bit mem n = elim (long_part mem n) [ none ↦ none | some (p, acc) ↦ short_part mem n p acc ]
