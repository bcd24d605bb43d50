-- ===== src/Benchmark/Examples.antt =====
-- copy.c and hash.c with operations of 40 to 42 ns.
use rshm_hmm.Base.{ℕ, ◌+◌, ◌%◌, ◌≡◌, refl, true, some, List, [], ◌∷◌, ◌++◌, arith}
use rshm_hmm.Kernel.{page_size}
use rshm_hmm.Benchmark.{
  Durations, memset, average_time, Copies, copy_init, Shash, Hashing, hash_loop,
}
use rshm_hmm.Benchmark.Averages.{Within, sizes, Reported}
use rshm_hmm.Benchmark.Ended.{Freed, copy_init-Ended}

abbrev durations : Durations
durations i j = 40 + j % 3

durations-Within : Within 40 42 durations
durations-Within i j = (omega arith, omega arith)

measured : average_time durations 10 ≡ 40
unfolding average_time
measured = refl

abbrev pages : Copies
pages = record { page_a = λ j. 1; page_b = λ j. 2; allocs = 0; frees = 0; reports = [] }

copy_init-Ended_example :
    (t : Copies) × (ret : ℕ) × (copy_init true true durations durations pages ≡ some (t, ret))
    × Freed pages t
    × ((ret ≡ 0)
        × ((j : ℕ)
            → (t.page_a j ≡ memset pages.page_a 0xBB page_size j)
              × (t.page_b j ≡ memset pages.page_b 0xBB page_size j))
        × ((first : List (ℕ × ℕ)) × Reported 40 42 sizes pages.reports first
            × Reported 40 42 sizes first t.reports))
copy_init-Ended_example =
    copy_init-Ended 40 42 40 42 durations durations durations-Within durations-Within (omega arith)
      (omega arith) true true pages

-- A hash that keeps the bytes that it was given.
abbrev keeping : Shash
keeping = record { State = List ℕ; init = []; update = λ s bytes. s ++ bytes; final = λ s. (s, []) }

abbrev hashing : Hashing keeping
hashing = record { desc = []; digest = []; allocs = 0; frees = 0; reports = [] }

hashed : (hash_loop keeping (λ j. j ∷ []) 3 0 hashing).digest ≡ 3 ∷ []
unfolding hash_loop
hashed = refl
