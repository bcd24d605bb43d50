-- ===== src/Hash/Examples.antt =====
-- hash.c on texts: the one that rshm_init begins with, one with all kinds of rounds, and "abc".
use rshm_hmm.Base.{
  ℕ, zero, suc, ◌+◌, ◌%◌, ◌^◌, ◌<◌, ◌≡◌, ◌↔◌, refl, List, [], ◌∷◌, ◌++◌, some, length, get_or,
  arith,
}
use rshm_hmm.Hash.{avalanche, xxh3_64bit}
use rshm_hmm.Hash.Words.{Bytes, unavalanche, avalanche-unavalanche}
use rshm_hmm.Hash.Closed.{closed, xxh3_64bit-closed}
use rshm_hmm.Hash.Footprint.{Agree, xxh3_64bit-footprint}
use rshm_hmm.Hash.Last.{SameWord, xxh3_64bit_rest}

-- Bytes, with zeros behind them.
abbrev text : List ℕ → ℕ → ℕ
text bs i = get_or bs i 0 % 256

text-Bytes : (bs : List ℕ) → Bytes (text bs)
text-Bytes bs i = omega arith

text-Agree : (pre bs cs : List ℕ) → Agree (text (pre ++ bs)) (text (pre ++ cs)) (length pre)
text-Agree [] bs cs i h = elim h [ ]
text-Agree (x ∷ pre) bs cs zero h = refl
text-Agree (x ∷ pre) bs cs (suc i) h = text-Agree pre bs cs i (omega arith)

abbrev hello_wo : List ℕ
hello_wo = 72 ∷ 101 ∷ 108 ∷ 108 ∷ 111 ∷ 32 ∷ 87 ∷ 111 ∷ []

abbrev rld : List ℕ
rld = 114 ∷ 108 ∷ 100 ∷ 33 ∷ []

abbrev marks : List ℕ
marks = 63 ∷ 63 ∷ 63 ∷ 63 ∷ []

abbrev abc : List ℕ
abc = 97 ∷ 98 ∷ 99 ∷ 0 ∷ []

abbrev abc_x : List ℕ
abc_x = 97 ∷ 98 ∷ 99 ∷ 0 ∷ 120 ∷ []

hashes_hello : xxh3_64bit (text (hello_wo ++ rld)) 12 ≡ some 6506461475944711882
unfolding xxh3_64bit
hashes_hello = refl

hashes_rounds : xxh3_64bit (λ i. i + 1) 53 ≡ some 6661281174774725152
unfolding xxh3_64bit
hashes_rounds = refl

hashes_abc : xxh3_64bit (text abc) 3 ≡ some 13205182391043224052
unfolding xxh3_64bit
hashes_abc = refl

-- The same text with another byte behind it.
hashes_abc_x : xxh3_64bit (text abc_x) 3 ≡ some 9507365003403220590
unfolding xxh3_64bit
hashes_abc_x = refl

avalanche-unavalanche_example :
    (avalanche 0x1234_5678 < 2 ^ 64)
    × (unavalanche (avalanche 0x1234_5678) ≡ 0x1234_5678)
    × (avalanche (unavalanche 0x1234_5678) ≡ 0x1234_5678)
avalanche-unavalanche_example = avalanche-unavalanche 0x1234_5678 (omega arith)

xxh3_64bit-closed_example :
    xxh3_64bit (text (hello_wo ++ rld)) 12 ≡ some (closed (text (hello_wo ++ rld)) 12)
xxh3_64bit-closed_example = xxh3_64bit-closed (text (hello_wo ++ rld)) 12

-- "Hello World!" and "Hello Wo????" have one hash.
xxh3_64bit-footprint_example :
    xxh3_64bit (text (hello_wo ++ rld)) 12 ≡ xxh3_64bit (text (hello_wo ++ marks)) 12
xxh3_64bit-footprint_example =
    xxh3_64bit-footprint (text (hello_wo ++ rld)) (text (hello_wo ++ marks)) 12
      (text-Agree hello_wo rld marks)

xxh3_64bit_rest_example :
    (xxh3_64bit (text abc) 3 ≡ xxh3_64bit (text abc_x) 3) ↔ SameWord (text abc) (text abc_x) 0
xxh3_64bit_rest_example =
    xxh3_64bit_rest (text abc) (text abc_x) (text-Bytes abc) (text-Bytes abc_x) 3 (omega arith)
      (λ e. absurd (omega arith)) (λ i h. elim h [ ])
