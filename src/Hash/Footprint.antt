-- ===== src/Hash/Footprint.antt =====
-- hash.c: the bytes that XXH3_64bit reads. They are not the bytes of the text: of a rest of 9 to 15
-- bytes only the first 8 are read, and of a rest of 1 to 7 bytes 8 are read all the same.
use rshm_hmm.Base.{
  ℕ, zero, suc, ◌+◌, ◌*◌, ◌/◌, ◌%◌, ◌≤◌, ◌<◌, ◌≡◌, refl, sym, ap, ◌∙◌, inl, inr, some, leb, ◌==◌,
  Bool-cases, if◌then◌else◌, arith,
}
use rshm_hmm.Hash.{load64, stripe, block, tail, finalize, xxh3_64bit}
use rshm_hmm.Hash.Closed.{stripes, middle, closed, xxh3_64bit-closed}

abbrev pub footprint : ℕ → ℕ
footprint n = if n % 16 == 0 then n else 16 * (n / 16) + 8

abbrev pub Agree : (ℕ → ℕ) → (ℕ → ℕ) → ℕ → Type 0
Agree mem mem' f = (i : ℕ) → i < f → mem i ≡ mem' i

module _ (mem mem' : ℕ → ℕ) (f : ℕ) (same : Agree mem mem' f) where
  load64_agree : (p : ℕ) → p + 8 ≤ f → load64 mem p ≡ load64 mem' p
  unfolding load64
  load64_agree p h = cc (
    same p (omega arith),
    same (p + 1) (omega arith),
    same (p + 2) (omega arith),
    same (p + 3) (omega arith),
    same (p + 4) (omega arith),
    same (p + 5) (omega arith),
    same (p + 6) (omega arith),
    same (p + 7) (omega arith),
  )

  stripe_agree : (p acc : ℕ) → p + 32 ≤ f → stripe mem p acc ≡ stripe mem' p acc
  unfolding stripe
  stripe_agree p acc h = cc (
    load64_agree p (omega arith),
    load64_agree (p + 8) (omega arith),
    load64_agree (p + 16) (omega arith),
    load64_agree (p + 24) (omega arith),
  )

  stripes_agree : (k : ℕ) → 32 * k ≤ f → stripes mem k ≡ stripes mem' k
  unfolding stripes
  stripes_agree zero h = refl
  stripes_agree (suc k) h =
      stripe_agree (32 * k) (stripes mem k) (omega arith)
      ∙ ap (stripe mem' (32 * k)) (stripes_agree k (omega arith))

  block_agree : (p acc : ℕ) → p + 16 ≤ f → block mem p acc ≡ block mem' p acc
  unfolding block
  block_agree p acc h = cc (load64_agree p (omega arith), load64_agree (p + 8) (omega arith))

  pub middle_agree : (n : ℕ) → 16 * (n / 16) ≤ f → middle mem n ≡ middle mem' n
  unfolding middle
  middle_agree n h = elim (Bool-cases (leb 16 (n % 32))) [
    | inl more ↦
        rw (more, stripes_agree (n / 32) (omega arith))
          (block_agree (32 * (n / 32)) (stripes mem' (n / 32)) (ground arith))
    | inr done ↦ rw done (stripes_agree (n / 32) (omega arith))
  ]

  finalize_agree : (n p acc : ℕ) → p + 8 ≤ f → finalize mem n p acc ≡ finalize mem' n p acc
  unfolding finalize tail
  finalize_agree n p acc h = rw (load64_agree p h)

  finalize_nothing : (n acc : ℕ) → finalize mem n n acc ≡ finalize mem' n n acc
  unfolding finalize
  finalize_nothing n acc = ground arith

  closed_agree : (n : ℕ) → footprint n ≤ f → closed mem n ≡ closed mem' n
  unfolding closed
  closed_agree n h =
      let m : middle mem n ≡ middle mem' n = middle_agree n (ground arith) in
      elim (Bool-cases (n % 16 == 0)) [
        | inl even ↦
            let e : 16 * (n / 16) ≡ n = ground arith in
            rw (m, e) (finalize_nothing n (middle mem' n))
        | inr rest ↦ rw m (finalize_agree n (16 * (n / 16)) (middle mem' n) (ground arith))
      ]

-- XXH3_64bit depends on strlen and on the first `footprint n` bytes from `input` on only.
pub xxh3_64bit-footprint :
    (mem mem' : ℕ → ℕ) (n : ℕ) → Agree mem mem' (footprint n) → xxh3_64bit mem n ≡ xxh3_64bit mem' n
xxh3_64bit-footprint mem mem' n same =
    xxh3_64bit-closed mem n
    ∙ ap some (closed_agree mem mem' (footprint n) same n (omega arith))
    ∙ sym (xxh3_64bit-closed mem' n)
