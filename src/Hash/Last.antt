-- ===== src/Hash/Last.antt =====
-- hash.c: the last word that XXH3_64bit reads. Each of its values gives another hash, also where
-- bytes behind the text are a part of it.
use rshm_hmm.Base.{
  ℕ, ◌+◌, ◌-◌, ◌*◌, ◌/◌, ◌%◌, ◌^◌, ◌<◌, ◌≡◌, ◌≢◌, ◌↔◌, inl, inr, ltb, Bool-cases, true, lt→ltb,
  ltb→lt, subst, arith,
}
use rshm_hmm.Base.Bits.{xor-lt, xor_injective}
use rshm_hmm.Hash.{load64, tail, finalize, xxh3_64bit}
use rshm_hmm.Hash.Words.{Bytes, load64_injective, tail_injective, avalanche_injective}
use rshm_hmm.Hash.Closed.{middle, middle-lt, closed, xxh3_64bit-closed}
use rshm_hmm.Hash.Footprint.{Agree, middle_agree, xxh3_64bit-footprint}

-- The eight bytes from p on are the same.
abbrev pub SameWord : (ℕ → ℕ) → (ℕ → ℕ) → ℕ → Type 0
SameWord mem mem' p = (i : ℕ) → i < 8 → mem (p + i) ≡ mem' (p + i)

module _ (mem mem' : ℕ → ℕ) (h : Bytes mem) (h' : Bytes mem') (n : ℕ) (short : n < 2 ^ 64) where
  finalize_injective :
      (p acc : ℕ)
      → p < n
      → acc < 2 ^ 64
      → finalize mem n p acc ≡ finalize mem' n p acc
      → load64 mem p ≡ load64 mem' p
  unfolding finalize
  finalize_injective p acc more a e =
      let on : ltb p n ≡ true = lt→ltb p n more in
      let opened = rw on at e in
      tail_injective mem mem' p acc h h' a (
        xor_injective _ _ n (
          avalanche_injective _ _ (xor-lt 64 (tail mem p acc) n (unfold tail in omega arith) short)
            (xor-lt 64 (tail mem' p acc) n (unfold tail in omega arith) short) opened))

  closed_injective :
      n % 16 ≢ 0
      → Agree mem mem' (16 * (n / 16))
      → closed mem n ≡ closed mem' n
      → load64 mem (16 * (n / 16)) ≡ load64 mem' (16 * (n / 16))
  unfolding closed
  closed_injective rest same e =
      let m : middle mem n ≡ middle mem' n =
        middle_agree mem mem' (16 * (n / 16)) same n (omega arith) in
      finalize_injective (16 * (n / 16)) (middle mem' n) (omega arith) (middle-lt mem' n)
        (rw m at e)

-- Where a text has a rest behind its 16-byte blocks, and another memory has the same blocks, the
-- hashes are equal exactly if the eight bytes behind the blocks are, be they of the text or not.
pub xxh3_64bit_rest :
    (mem mem' : ℕ → ℕ)
    → Bytes mem
    → Bytes mem'
    → (n : ℕ) → n < 2 ^ 64
    → n % 16 ≢ 0
    → Agree mem mem' (16 * (n / 16))
    → (xxh3_64bit mem n ≡ xxh3_64bit mem' n) ↔ SameWord mem mem' (16 * (n / 16))
xxh3_64bit_rest mem mem' h h' n short rest same = (same_word, same_hash)
  where
    same_word : xxh3_64bit mem n ≡ xxh3_64bit mem' n → SameWord mem mem' (16 * (n / 16))
    same_word e = load64_injective mem mem' (16 * (n / 16)) h h' (
        closed_injective mem mem' h h' n short rest same
          (cc (e, xxh3_64bit-closed mem n, xxh3_64bit-closed mem' n)))

    same_hash : SameWord mem mem' (16 * (n / 16)) → xxh3_64bit mem n ≡ xxh3_64bit mem' n
    same_hash word = xxh3_64bit-footprint mem mem' n λ j below.
        elim (Bool-cases (ltb j (16 * (n / 16)))) [
          | inl before ↦ same j (ltb→lt j (16 * (n / 16)) before)
          | inr behind ↦
              let i = j - 16 * (n / 16) in
              let e : 16 * (n / 16) + i ≡ j = ground arith in
              subst (λ t. mem t ≡ mem' t) e (word i (ground arith))
        ]
