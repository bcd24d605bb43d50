-- ===== src/Benchmark/Ended.antt =====
-- copy.c and hash.c: how their rshm_init end.
use rshm_hmm.Base.{
  ℕ, zero, suc, ◌+◌, ◌^◌, ◌<◌, ◌≡◌, refl, ap, ◌∙◌, [], ◌∷◌, ◌≤◌, Bool, true, false, ◌&&◌, not, none,
  some, Option, List, ltb, if◌then◌else◌, arith,
}
use rshm_hmm.Kernel.{enomem, page_size}
use rshm_hmm.Benchmark.{
  Durations, Buffer, memset, memcpy, copies, Copies, copy_round, technique, copy_init, copy_pages,
  copy_end, hash_end, Shash, Hashing, hash_loop, hash_round, hash_init,
}
use rshm_hmm.Benchmark.Averages.{Within, sizes, bench_loop_inv, average_time_bounds, Reported}

copies_lem :
    (n : ℕ) (page_b page_a : Buffer) (j : ℕ)
    → 0 < n
    → copies n page_b page_a j ≡ (if ltb j page_size then page_a j else page_b j)
unfolding copies
copies_lem zero page_b page_a j pos = absurd (omega arith)
copies_lem (suc zero) page_b page_a j pos = refl
copies_lem (suc (suc n)) page_b page_a j pos =
    ground (arith, copies_lem (suc n) (memcpy page_b page_a page_size) page_a j (omega arith))

-- Byte j of page B behind these rounds: a copy of page A up to its end, once there was a round.
abbrev pub copied : List ℕ → Buffer → Buffer → Buffer
copied [] page_a page_b j = page_b j
copied (i ∷ ns) page_a page_b j = if ltb j page_size then page_a j else page_b j

-- A state of copy.c behind these rounds that began with `s`.
abbrev pub Copying : ℕ → ℕ → Copies → List ℕ → Copies → Type 0
Copying lo hi s ns t =
    ((j : ℕ) → (t.page_a j ≡ s.page_a j) × (t.page_b j ≡ copied ns s.page_a s.page_b j))
    × (t.allocs ≡ s.allocs)
    × (t.frees ≡ s.frees)
    × Reported lo hi ns s.reports t.reports

module _ (lo hi : ℕ) (d : Durations) (within : Within lo hi d) (small : hi < 2 ^ 44) where
  copies_copied :
      (ns : List ℕ) (i : ℕ) (s t : Copies) (j : ℕ)
      → 0 < i
      → (t.page_a j ≡ s.page_a j) × (t.page_b j ≡ copied ns s.page_a s.page_b j)
      → copies i t.page_b t.page_a j ≡ copied (i ∷ ns) s.page_a s.page_b j
  copies_copied [] i s t j pos (a, b) = ground (arith, copies_lem i t.page_b t.page_a j pos, a, b)
  copies_copied (n ∷ ns) i s t j pos (a, b) =
      ground (arith, copies_lem i t.page_b t.page_a j pos, a, b)

  copy_round-Copying :
      (s : Copies) (i : ℕ) (ns : List ℕ) (t : Copies)
      → (0 < i) × (i ≤ 1000000)
      → Copying lo hi s ns t
      → Copying lo hi s (i ∷ ns) (copy_round d i t)
  unfolding copy_round
  copy_round-Copying s i ns t range (copy, allocs, frees, reported) =
      let bounds = average_time_bounds lo hi i d within small range.0 range.1 in
      (
        λ j. ((copy j).0, copies_copied ns i s t j range.0 (copy j)),
        allocs,
        frees,
        (refl, bounds.0, bounds.1, reported),
      )

  -- A technique ends with both pages filled, nothing allocated or freed, and seven reports.
  technique-Copying :
      (v : ℕ) (s : Copies)
      → (t : Copies) × (technique d v s ≡ some t)
        × Copying lo hi (record s { page_a = memset s.page_a v page_size }) sizes t
  unfolding technique
  technique-Copying v s =
      let start : Copies = record s { page_a = memset s.page_a v page_size } in
      bench_loop_inv (Copying lo hi start) (copy_round d) (copy_round-Copying start) start
        (λ j. (refl, refl), refl, refl, refl)

copy_init_lem :
    (d e : Durations) (s t u : Copies)
    → technique d 0xAA (record s { allocs = s.allocs + 2 }) ≡ some t
    → technique e 0xBB t ≡ some u
    → copy_init true true d e s ≡ some (record u { frees = u.frees + 2 }, 0)
unfolding copy_init copy_pages copy_end
copy_init_lem d e s t u e1 e2 =
    ap (λ (o : Option Copies). copy_end (copy_pages e o)) e1 ∙ ap copy_end e2

filled :
    (s t u : Copies) (j : ℕ)
    → (t.page_a j ≡ memset s.page_a 0xAA page_size j)
      × (t.page_b j ≡ copied sizes (memset s.page_a 0xAA page_size) s.page_b j)
    → (u.page_a j ≡ memset t.page_a 0xBB page_size j)
      × (u.page_b j ≡ copied sizes (memset t.page_a 0xBB page_size) t.page_b j)
    → (u.page_a j ≡ memset s.page_a 0xBB page_size j)
      × (u.page_b j ≡ memset s.page_b 0xBB page_size j)
filled s t u j first second = ground (arith, first, second)

-- What is not freed is as much as before.
abbrev pub Freed : Copies → Copies → Type 0
Freed s t = t.allocs + s.frees ≡ s.allocs + t.frees

module _ (lo hi lo' hi' : ℕ) (d e : Durations) (within : Within lo hi d)
    (within' : Within lo' hi' e) (small : hi < 2 ^ 44) (small' : hi' < 2 ^ 44) where
  -- rshm_init of copy.c ends and frees what it allocated. Where a page is refused it returns -ENOMEM
  -- and reports nothing. Else it returns 0, both pages hold 0xBB throughout, and the reports are seven
  -- averages of memcpy and seven of copy_page, for 1 to 1000000 operations, each between the shortest
  -- and the longest duration of its operation, where no operation takes 2^44 ns.
  pub copy_init-Ended :
      (alloc_a alloc_b : Bool) (s : Copies)
      → (t : Copies) × (ret : ℕ) × (copy_init alloc_a alloc_b d e s ≡ some (t, ret))
        × Freed s t
        × (if alloc_a && alloc_b
            then (ret ≡ 0)
              × ((j : ℕ)
                  → (t.page_a j ≡ memset s.page_a 0xBB page_size j)
                    × (t.page_b j ≡ memset s.page_b 0xBB page_size j))
              × ((first : List (ℕ × ℕ)) × Reported lo hi sizes s.reports first
                  × Reported lo' hi' sizes first t.reports)
            else (ret ≡ enomem) × (t.reports ≡ s.reports))
  unfolding copy_init
  copy_init-Ended false alloc_b s = (s, enomem, refl, refl, (refl, refl))
  copy_init-Ended true false s = (_, enomem, refl, omega arith, (refl, refl))
  copy_init-Ended true true s =
      let with_b : Copies = record s { allocs = s.allocs + 2 } in
      let (t, e1, (copy, allocs, frees, reported)) =
        technique-Copying lo hi d within small 0xAA with_b in
      let (u, e2, (copy', allocs', frees', reported')) =
        technique-Copying lo' hi' e within' small' 0xBB t in
      (
        record u { frees = u.frees + 2 },
        0,
        copy_init_lem d e s t u e1 e2,
        omega (arith, allocs, frees, allocs', frees'),
        (refl, λ j. filled s t u j (copy j) (copy' j), (t.reports, reported, reported')),
      )

module _ (k : Shash) where
  open k use {State, init}

  -- What the hashing leaves alone.
  abbrev Hashes : ℕ → ℕ → Hashing k → List ℕ → Hashing k → Type 0
  Hashes lo hi s ns t =
      (t.allocs ≡ s.allocs) × (t.frees ≡ s.frees) × Reported lo hi ns s.reports t.reports

  hash_loop_keeps :
      (text : ℕ → List ℕ) (n j : ℕ) (s : Hashing k)
      → let t = hash_loop k text n j s in
        (t.allocs ≡ s.allocs) × (t.frees ≡ s.frees) × (t.reports ≡ s.reports)
  unfolding hash_loop
  hash_loop_keeps text zero j s = (refl, refl, refl)
  hash_loop_keeps text (suc n) j s = hash_loop_keeps text n (j + 1) _

  module _ (lo hi : ℕ) (d : Durations) (text : ℕ → List ℕ) (within : Within lo hi d)
      (small : hi < 2 ^ 44) where
    hash_round-Hashes :
        (s : Hashing k) (i : ℕ) (ns : List ℕ) (t : Hashing k)
        → (0 < i) × (i ≤ 1000000)
        → Hashes lo hi s ns t
        → Hashes lo hi s (i ∷ ns) (hash_round k text d i t)
    unfolding hash_round
    hash_round-Hashes s i ns t range (allocs, frees, reported) =
        let bounds = average_time_bounds lo hi i d within small range.0 range.1 in
        let (a, f, r) = hash_loop_keeps text i 0 t in
        (a ∙ allocs, f ∙ frees, (refl, bounds.0, bounds.1, rw r reported))

    -- rshm_init of hash.c ends with 0 where it does not fault, and has freed what it allocated. Without
    -- the algorithm nothing is reported; with it, and memory for the description, the reports are seven
    -- averages, for 1 to 1000000 operations, each between the shortest and the longest duration, where no
    -- operation takes 2^44 ns. Without that memory the code writes to a NULL pointer.
    pub hash_init-Ended :
        (algorithm kmalloc : Bool) (s : Hashing k)
        → if algorithm && not kmalloc
          then hash_init k algorithm kmalloc text d s ≡ none
          else (t : Hashing k) × (hash_init k algorithm kmalloc text d s ≡ some (t, 0))
            × (t.allocs + s.frees ≡ s.allocs + t.frees)
            × (if algorithm then Reported lo hi sizes s.reports t.reports else t ≡ s)
    unfolding hash_init hash_end
    hash_init-Ended false kmalloc s = (s, refl, refl, refl)
    hash_init-Ended true false s = refl
    hash_init-Ended true true s =
        let ready : Hashing k = record s { allocs = s.allocs + 2; desc = init } in
        let (t, e, (allocs, frees, reported)) =
          bench_loop_inv (Hashes lo hi ready) (hash_round k text d) (hash_round-Hashes ready) ready
            (refl, refl, refl) in
        (
          record t { frees = t.frees + 2 },
          ap (hash_end k) e,
          omega (arith, allocs, frees),
          reported,
        )
