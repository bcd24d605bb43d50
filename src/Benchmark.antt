-- ===== src/Benchmark.antt =====
-- copy.c and the rshm_init of hash.c: modules that time an operation in rounds of 1 to 1000000 and
-- report the averages. How long an operation takes, in nanoseconds, is a parameter.
pub mod Averages
pub mod Ended
mod Examples
use rshm_hmm.Base.{
  ℕ, zero, suc, ◌+◌, ◌*◌, ◌/◌, ◌%◌, ◌^◌, Bool, true, false, not, Option, none, some, List, [], ◌∷◌,
  leb, ltb, if◌then◌else◌,
}
use rshm_hmm.Kernel.{enomem, page_size}

-- How long operation j of the round of i operations takes.
abbrev pub Durations : Type 0
Durations = ℕ → ℕ → ℕ

-- total_time after the operations that are left, from operation j on.
pub time_loop : (ℕ → ℕ) → ℕ → ℕ → ℕ → ℕ
time_loop diffs zero j total_time = total_time
time_loop diffs (suc n) j total_time = time_loop diffs n (j + 1) ((total_time + diffs j) % 2 ^ 64)

pub average_time : Durations → ℕ → ℕ
unfolding time_loop
average_time d i = time_loop (d i) i 0 0 / i

-- for (i = 1; i <= 1000000; i *= 10), from i on; `none` where the fuel ends.
pub bench_loop : {S : Type 0} → (ℕ → S → S) → ℕ → ℕ → S → Option S
bench_loop body zero i s = none
bench_loop body (suc fuel) i s = elim (leb i 1000000) [
  | true ↦ bench_loop body fuel (i * 10) (body i s)
  | false ↦ some s
]

-- A buffer is what stands at each place of it.
abbrev pub Buffer : Type 0
Buffer = ℕ → ℕ

abbrev pub memset : Buffer → ℕ → ℕ → Buffer
memset p v n i = if ltb i n then v else p i

-- memcpy, and copy_page
abbrev pub memcpy : Buffer → Buffer → ℕ → Buffer
memcpy dst src n i = if ltb i n then src i else dst i

-- The two pages of copy.c, how often a page was allocated and freed, and what was reported, the last
-- first.
pub record Copies : Type 0 where
  pub page_a : Buffer
  pub page_b : Buffer
  pub allocs : ℕ
  pub frees : ℕ
  pub reports : List (ℕ × ℕ)

-- n copies of page A.
pub copies : ℕ → Buffer → Buffer → Buffer
copies zero page_b page_a = page_b
copies (suc n) page_b page_a = copies n (memcpy page_b page_a page_size) page_a

pub copy_round : Durations → ℕ → Copies → Copies
unfolding copies average_time
copy_round d i s = record s {
  page_b = copies i s.page_b s.page_a;
  reports = (i, average_time d i) ∷ s.reports;
}

-- The rounds that follow a memset of page A.
pub technique : Durations → ℕ → Copies → Option Copies
unfolding copy_round bench_loop
technique d v s = bench_loop (copy_round d) 8 1 (record s { page_a = memset s.page_a v page_size })

-- The second technique, where the first one ended.
pub copy_pages : Durations → Option Copies → Option Copies
copy_pages e none = none
copy_pages e (some s) = technique e 0xBB s

-- The end of rshm_init of copy.c.
pub copy_end : Option Copies → Option (Copies × ℕ)
copy_end none = none
copy_end (some s) = some (record s { frees = s.frees + 2 }, 0)

-- rshm_init of copy.c: the answers of the two kmallocs, and the durations of memcpy and of copy_page.
pub copy_init : Bool → Bool → Durations → Durations → Copies → Option (Copies × ℕ)
copy_init alloc_a alloc_b d e s =
    let with_a = record s { allocs = s.allocs + 1 } in
    let with_b = record s { allocs = s.allocs + 2 } in
    if not alloc_a
    then some (s, enomem)
    else if not alloc_b
    then some (record with_a { frees = s.frees + 1 }, enomem)
    else copy_end (copy_pages e (technique d 0xAA with_b))

-- The hash that the kernel gives for "md5": the state of a description behind crypto_shash_init, and
-- what crypto_shash_update and crypto_shash_final do.
pub record Shash : Type 1 where
  pub State : Type 0
  pub init : State
  pub update : State → List ℕ → State
  pub final : State → List ℕ × State

module _ (k : Shash) where
  open k use {State, init, update, final}

  -- The description and the digest of hash.c, how often the algorithm and the description were
  -- allocated and freed, and what was reported.
  pub record Hashing : Type 0 where
    pub desc : State
    pub digest : List ℕ
    pub allocs : ℕ
    pub frees : ℕ
    pub reports : List (ℕ × ℕ)

  -- The operations of a round that are left, from j on; `text` is what sprintf makes of a number.
  pub hash_loop : (ℕ → List ℕ) → ℕ → ℕ → Hashing → Hashing
  hash_loop text zero j s = s
  hash_loop text (suc n) j s =
      let (digest, desc) = final (update s.desc (text (j + 1))) in
      hash_loop text n (j + 1) (record s { desc = desc; digest = digest })

  pub hash_round : (ℕ → List ℕ) → Durations → ℕ → Hashing → Hashing
  unfolding hash_loop average_time
  hash_round text d i s =
      let hashed = hash_loop text i 0 s in
      record hashed { reports = (i, average_time d i) ∷ hashed.reports }

  -- The end of rshm_init of hash.c.
  pub hash_end : Option Hashing → Option (Hashing × ℕ)
  hash_end none = none
  hash_end (some s) = some (record s { frees = s.frees + 2 }, 0)

  -- rshm_init of hash.c: whether crypto_alloc_shash and kmalloc succeed. The code uses the description
  -- without a test, and `none` is the fault where there is none.
  pub hash_init : Bool → Bool → (ℕ → List ℕ) → Durations → Hashing → Option (Hashing × ℕ)
  hash_init algorithm kmalloc text d s =
      let ready = record s { allocs = s.allocs + 2; desc = init } in
      if not algorithm
      then some (s, 0)
      else if not kmalloc
      then none
      else hash_end (bench_loop (hash_round text d) 8 1 ready)
