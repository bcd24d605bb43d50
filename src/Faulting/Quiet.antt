-- ===== src/Faulting/Quiet.antt =====
-- dmirror_fault of hmm.c where no callback and no failure comes in between: it maps the range.
use rshm_hmm.Base.{
  ℕ, zero, suc, ◌+◌, ◌-◌, ◌*◌, ◌≤◌, ◌<◌, ◌≡◌, refl, ap, subst, ◌∙◌, ◌≢◌, inl, inr, Bool, true,
  false, arith, ==_refl, ltb, ge→ltb, some, Option, List, [], ◌∷◌, length, Bool-cases,
}
use rshm_hmm.Kernel.{Memory, Entry, entry, stored, XArray, word, page_size, shr_page}
use rshm_hmm.Mirror.{Dmirror, HmmPfn, HmmRange, lock, unlock, do_fault, tag_write}
use rshm_hmm.Mirror.Fault.{Faulted, do_fault-Faulted, all_done, refused, no_room}
use rshm_hmm.Faulting.{
  Attempt, State, notify, range_fault, fault_loop, fault, next_chunk, chunk_pages,
}
use rshm_hmm.Faulting.Chunks.{next_chunk-shr_page}

-- An attempt in which hmm_range_fault succeeds with this report, and nobody comes in between.
abbrev pub quiet_attempt : (ℕ → HmmPfn) → Attempt
quiet_attempt pfns = record {
  expired = false;
  before = [];
  during = [];
  others = λ m. m;
  ret = 0;
  pfns = pfns;
}

-- Every page frame is reported with a page that may be written.
abbrev pub IsGood : (ℕ → HmmPfn) → Type 0
IsGood pfns = (i : ℕ) → ((pfns i).write ≡ true) × ((pfns i).page ≢ 0)

abbrev pub AllGood : List (ℕ → HmmPfn) → Type 0
AllGood [] = Unit {0}
AllGood (r ∷ rs) = IsGood r × AllGood rs

abbrev pub quiet : List (ℕ → HmmPfn) → List Attempt
quiet [] = []
quiet (r ∷ rs) = quiet_attempt r ∷ quiet rs

module _ (xa : XArray) where
  open xa use {Xa, load, store}

  -- The array finds memory for every entry.
  abbrev pub HasRoom : Type 0
  HasRoom = (x : Xa) (i : ℕ) (e : Entry) → (y : Xa) × (store x i e ≡ stored y)

  -- Every page frame from `p` up to `e` has a page that may be written.
  abbrev pub Mapped : Xa → ℕ → ℕ → Type 0
  Mapped x p e = (f : ℕ) → p ≤ f → f < e → ((load x f).page ≢ 0) × ((load x f).tag ≡ tag_write)

  range_fault_quiet :
      (r : ℕ → HmmPfn) (rest : List Attempt) (d : Dmirror Xa) (mem : Memory) (range : HmmRange)
      → range_fault xa (quiet_attempt r ∷ rest) d mem range
        ≡ some (
          record {
            mirror = unlock (do_fault xa (lock d) range r).0;
            memory = mem;
            attempts = rest;
          },
          (do_fault xa (lock d) range r).1,
        )
  unfolding range_fault notify
  range_fault_quiet r rest d mem range = rw (==_refl d.seq, range_fault)

  -- With room and a good report dmirror_do_fault goes through the whole range.
  Faulted-quiet :
      (r : ℕ → HmmPfn) (w : Bool) (n pfn ret : ℕ) (x y : Xa)
      → HasRoom
      → IsGood r
      → Faulted xa w r n pfn 0 x y ret
      → (ret ≡ 0) × Mapped y pfn (pfn + n) × ((p : ℕ) → p < pfn → load y p ≡ load x p)
  Faulted-quiet r w n pfn ret x y room good f = elim (f.stop (pfn + f.k) f.k refl (omega arith)) [
    | all_done all z ↦ (z, mapped all, λ p h. f.frame p (omega arith))
    | refused lt (dry, _) z ↦ cc (dry, (good f.k).0)
    | no_room e lt q failed ↦ cc (failed, (room y (pfn + f.k) e).1)
  ]
    where
      mapped : f.k ≡ n → Mapped y pfn (pfn + n)
      mapped all p lo hi =
          let e = f.holds (p - pfn) p (p - pfn) (omega arith) (omega arith) (omega arith) in
          let same : load y p ≡ entry (r (p - pfn)).page tag_write =
            e.0 ∙ rw (good (p - pfn)).0 refl in
          rw same ((good (p - pfn)).1, refl)

  abbrev page_range : ℕ → ℕ → Bool → HmmRange
  page_range p q w = record { start = p * page_size; end = q * page_size; req_write = w }

  do_fault_quiet :
      (r : ℕ → HmmPfn) (w : Bool) (p q : ℕ) (d : Dmirror Xa)
      → HasRoom
      → IsGood r
      → let (d', ret) = do_fault xa d (page_range p q w) r in
        (ret ≡ 0) × Mapped d'.pt p q × ((f : ℕ) → f < p → load d'.pt f ≡ load d.pt f)
  do_fault_quiet r w p q d room good =
      let (zero_ret, mapped, frame) =
        Faulted-quiet r w (shr_page (q * page_size) - shr_page (p * page_size))
          (shr_page (p * page_size)) _ d.pt _ room good
          (do_fault-Faulted xa d (page_range p q w) r) in
      (zero_ret, (λ f lo hi. mapped f (omega arith) (omega arith)), λ f h. frame f (omega arith))

  -- One round whose chunk ends at `next` and succeeds.
  pub fault_loop_step :
      (n addr end : ℕ) (w : Bool) (s : State Xa) (next : ℕ) (s' : State Xa)
      → ltb addr end ≡ true
      → next_chunk addr end ≡ next
      → range_fault xa s.attempts s.mirror s.memory
          (record { start = addr; end = next; req_write = w })
        ≡ some (s', 0)
      → fault_loop xa (suc n) addr end w s ≡ fault_loop xa n next end w s'
  unfolding fault_loop
  fault_loop_step n addr end w s next s' more e =
      subst
        (λ t.
          range_fault xa s.attempts s.mirror s.memory
              (record { start = addr; end = t; req_write = w })
            ≡ some (s', 0)
          → fault_loop xa (suc n) addr end w s ≡ fault_loop xa n t end w s')
        e (λ h. rw (more, h, fault_loop))

  -- What a quiet run of the loop from page frame `p` to `e` leads to.
  abbrev pub Serves : ℕ → ℕ → Dmirror Xa → Memory → Option (State Xa × ℕ) → Type 0
  Serves p e d mem o =
      (s' : State Xa) × (o ≡ some (s', 0))
      × Mapped s'.mirror.pt p e
      × ((f : ℕ) → f < p → load s'.mirror.pt f ≡ load d.pt f)
      × (s'.memory ≡ mem)

  Serves-cons :
      (p q e : ℕ) (d d' : Dmirror Xa) (mem : Memory) (o : Option (State Xa × ℕ))
      → p ≤ q
      → Mapped d'.pt p q
      → ((f : ℕ) → f < p → load d'.pt f ≡ load d.pt f)
      → Serves q e d' mem o
      → Serves p e d mem o
  Serves-cons p q e d d' mem o le mapped frame (s, at, rest, kept, same) =
      (s, at, here, (λ f h. kept f (omega arith) ∙ frame f h), same)
    where
      here : Mapped s.mirror.pt p e
      here f lo hi = elim (Bool-cases (ltb f q)) [
        | inl first ↦ rw (kept f (ground arith)) (mapped f lo (ground arith))
        | inr later ↦ rest f (ground arith) hi
      ]

  fault_loop_quiet :
      (fuel : ℕ) (rs : List (ℕ → HmmPfn)) (p e : ℕ) (w : Bool) (d : Dmirror Xa) (mem : Memory)
      → HasRoom
      → AllGood rs
      → p ≤ e
      → e ≤ p + length rs
      → e < p + fuel
      → e * page_size + chunk_pages * page_size ≤ word
      → Serves p e d mem (
          fault_loop xa fuel
            (p * page_size)
            (e * page_size)
            w
            (record { mirror = d; memory = mem; attempts = quiet rs }))
  unfolding fault_loop
  fault_loop_quiet zero rs p e w d mem room good le enough fuel fits = absurd (omega arith)
  fault_loop_quiet (suc n) [] p e w d mem room good le enough fuel fits =
      rw (ge→ltb (p * page_size) (e * page_size) (omega arith), fault_loop)
        (
          record { mirror = d; memory = mem; attempts = [] },
          refl,
          (λ f lo hi. absurd (omega arith)),
          (λ f h. refl),
          refl,
        )
  fault_loop_quiet (suc n) (r ∷ rs) p e w d mem room good le enough fuel fits =
      elim (Bool-cases (ltb (p * page_size) (e * page_size))) [
        | inr done ↦
            rw (done, fault_loop)
              (
                record { mirror = d; memory = mem; attempts = quiet (r ∷ rs) },
                refl,
                (λ f lo hi. absurd (ground arith)),
                (λ f h. refl),
                refl,
              )
        | inl more ↦
            let (q, at, lt, hi, chunk) = next_chunk-shr_page p e (ground arith) fits in
            let (zero_ret, mapped, frame) = do_fault_quiet r w p q (lock d) room good.0 in
            let d' : Dmirror Xa = unlock (do_fault xa (lock d) (page_range p q w) r).0 in
            let s' : State Xa = record { mirror = d'; memory = mem; attempts = quiet rs } in
            let served : range_fault xa (quiet (r ∷ rs)) d mem (page_range p q w) ≡ some (s', 0) =
              range_fault_quiet r (quiet rs) d mem (page_range p q w)
              ∙ ap (λ t. some (s', t)) zero_ret in
            rw
              (fault_loop_step n (p * page_size) (e * page_size) w
                (record { mirror = d; memory = mem; attempts = quiet (r ∷ rs) }) (q * page_size) s'
                more at served)
              (Serves-cons p q e d d' mem _ (omega arith) mapped frame (
                fault_loop_quiet n rs q e w d' mem room good.1 hi (omega arith) (omega arith) fits))
      ]

  -- dmirror_fault on a page-aligned range that ends a chunk below 2^64, where the page table has
  -- room and every call of hmm_range_fault succeeds with pages that may be written while nobody
  -- comes in between: with fuel and attempts for its pages it returns 0, every page frame of the
  -- range then has a page that may be written, and those before the range are as before.
  pub fault_quiet :
      (fuel : ℕ) (rs : List (ℕ → HmmPfn)) (p e : ℕ) (w : Bool) (d : Dmirror Xa) (mem : Memory)
      → HasRoom
      → AllGood rs
      → p ≤ e
      → e ≤ p + length rs
      → e < p + fuel
      → e * page_size + chunk_pages * page_size ≤ word
      → Serves p e d mem (
          fault xa fuel true
            (p * page_size)
            (e * page_size)
            w
            (record { mirror = d; memory = mem; attempts = quiet rs }))
  unfolding fault
  fault_quiet = fault_loop_quiet

  -- A process that is gone: nothing is faulted in, and the result is 0.
  pub fault_dead :
      (fuel start end : ℕ) (w : Bool) (s : State Xa)
      → fault xa fuel false start end w s ≡ some (s, 0)
  unfolding fault
  fault_dead fuel start end w s = refl
