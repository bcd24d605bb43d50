-- ===== src/Faulting.antt =====
-- dmirror_range_fault and dmirror_fault of hmm.c. What the kernel and other threads do while the
-- loop waits is a list of attempts, one for each round; where it ends, the loop is still going.

pub mod Attempts
pub mod Chunks
pub mod Quiet
mod Examples
use rshm_hmm.Base.{
  ℕ, zero, suc, ◌+◌, ◌*◌, ◌%◌, ◌^◌, min, Bool, true, false, Option, none, some, List, [], ◌∷◌, ltb,
  ◌==◌, if◌then◌else◌,
}
use rshm_hmm.Kernel.{Memory, XArray, add64, page_size, ebusy, Mutation}
use rshm_hmm.Mirror.{Dmirror, HmmPfn, HmmRange, Notice, lock, unlock, do_fault, interval_invalidate}

-- One round of the loop: whether the time is over, the callbacks that run before the sequence
-- number is read and then before the mutex is taken, what others do to the memory, and what
-- hmm_range_fault returns and reports.
pub record Attempt : Type 0 where
  pub expired : Bool
  pub before : List Notice
  pub during : List Notice
  pub others : Mutation
  pub ret : ℕ
  pub pfns : ℕ → HmmPfn

-- The mirror, the memory and the attempts to come.
pub record State (Xa : Type 0) : Type 0 where
  pub mirror : Dmirror Xa
  pub memory : Memory
  pub attempts : List Attempt

abbrev pub chunk_pages : ℕ
chunk_pages = 64

-- min(addr + (ARRAY_SIZE(pfns) << PAGE_SHIFT), end)
unfoldable pub next_chunk : ℕ → ℕ → ℕ
next_chunk addr end = min (add64 addr (chunk_pages * page_size)) end

module _ (xa : XArray) where
  open xa use {Xa}

  unfoldable pub notify : Dmirror Xa → List Notice → Dmirror Xa
  notify d [] = d
  notify d (notice ∷ rest) = notify (interval_invalidate xa d notice).0 rest

  pub range_fault : List Attempt → Dmirror Xa → Memory → HmmRange → Option (State Xa × ℕ)
  unfolding notify
  range_fault [] d mem range = none
  range_fault (a ∷ rest) d mem range =
      let begun = notify d a.before in
      let locked = lock (notify begun a.during) in
      let mem' = a.others mem in
      let done : Dmirror Xa → ℕ → Option (State Xa × ℕ) =
        λ m ret. some (record { mirror = m; memory = mem'; attempts = rest }, ret) in
      let again = range_fault rest (unlock locked) mem' range in
      elim a.expired [
        | true ↦ some (record { mirror = d; memory = mem; attempts = rest }, ebusy)
        | false ↦ elim (a.ret == 0) [
          | false ↦ if a.ret == ebusy then again else done (notify begun a.during) a.ret
          | true ↦ elim (locked.seq == begun.seq) [
            | false ↦ again
            | true ↦ (let (d', ret) = do_fault xa locked range a.pfns in done (unlock d') ret)
          ]
        ]
      ]

  -- The loop of dmirror_fault, on fuel.
  pub fault_loop : ℕ → ℕ → ℕ → Bool → State Xa → Option (State Xa × ℕ)
  unfolding range_fault
  fault_loop zero addr end write s = none
  fault_loop (suc fuel) addr end write s =
      let next = next_chunk addr end in
      elim (ltb addr end) [
        | false ↦ some (s, 0)
        | true ↦
            elim (range_fault s.attempts s.mirror s.memory
              (record { start = addr; end = next; req_write = write })) [
                | none ↦ none
                | some (s', ret) ↦ elim (ret == 0) [
                  | true ↦ fault_loop fuel next end write s'
                  | false ↦ some (s', ret)
                ]
              ]
      ]

  -- `alive` is the answer of mmget_not_zero.
  pub fault : ℕ → Bool → ℕ → ℕ → Bool → State Xa → Option (State Xa × ℕ)
  unfolding fault_loop
  fault fuel alive start end write s =
      if alive then fault_loop fuel start end write s else some (s, 0)
