-- ===== src/Sockets/Retrieve.antt =====
-- nmsg_retrieve_pages of mm/nmsg.c: which pages it syncs.
use rshm_hmm.Base.{
  ℕ, zero, suc, ◌+◌, ◌≤◌, ◌<◌, ◌≡◌, ◌≢◌, refl, sym, ◌∙◌, ◌⊎◌, inl, inr, Bool, true, false, Option,
  some, none, arith, ◌==◌, ltb, ==_refl, ==→eq, ◌++◌, ne→==, lt→ltb, Bool-cases, length, length-set,
  get_or, set, get_or-set_self, get_or-set_ne, if◌then◌else◌,
}
use rshm_hmm.Kernel.{Memory, put}
use rshm_hmm.Sockets.{
  Page, shared, Pages, no_page, Delivery, request_message, copied_bytes, retrieve_loop,
  retrieve_pages,
}

-- The slot of a page that was synced.
abbrev pub slot : Delivery → Page
slot d = record { state = shared; page = d.page }

module _ (ds : ℕ → Delivery) where
  -- alloc_page gives different pages in different rounds.
  abbrev pub AreDistinct : Type 0
  AreDistinct = (i j : ℕ) → i ≢ j → (ds i).page ≢ 0 → (ds i).page ≢ (ds j).page

  -- The round gets no page.
  abbrev pub Fails : ℕ → Type 0
  Fails i = ((ds i).failed ≡ true) ⊎ ((ds i).page ≡ 0)

  -- How `n` rounds from `i` on end: the first `k` of them are done, and all if the result is 0.
  pub record Synced (n i : ℕ) (m : Pages) (mem : Memory) (m' : Pages) (mem' : Memory) (ret : ℕ)
      : Type 0 where
    pub k : ℕ
    pub done :
        (j : ℕ)
        → j < k
        → (get_or m'.pages (i + j) no_page ≡ slot (ds (i + j)))
          × (mem' (ds (i + j)).page ≡ request_message ++ (ds (i + j)).behind)
    pub rest :
        (q : ℕ) → (q < i) ⊎ (i + k ≤ q) → get_or m'.pages q no_page ≡ get_or m.pages q no_page
    pub memory : (p : ℕ) → ((j : ℕ) → i ≤ j → (ds j).page ≢ 0 → (ds j).page ≢ p) → mem' p ≡ mem p
    pub size : (m'.size ≡ m.size) × (length m'.pages ≡ length m.pages)
    pub end : ((ret ≡ 0) × (k ≡ n)) ⊎ ((ret ≡ 1) × (k < n) × Fails (i + k))

  abbrev pub Ends : ℕ → ℕ → Pages → Memory → Option (Pages × Memory × ℕ) → Type 0
  Ends n i m mem o =
      (m' : Pages) × (mem' : Memory) × (ret : ℕ) × (o ≡ some (m', mem', ret))
      × Synced n i m mem m' mem' ret

  stop_here : (n i : ℕ) (m : Pages) (mem : Memory) → Fails i → Synced (suc n) i m mem m mem 1
  stop_here n i m mem why = record {
    k = 0;
    done = λ j lt. absurd (omega (arith, lt));
    rest = λ q out. refl;
    memory = λ p off. refl;
    size = (refl, refl);
    end = inr (refl, omega arith, (let at : i + 0 ≡ i = omega arith in rw at why));
  }

  abbrev synced : Pages → ℕ → Pages
  synced m i = record m { pages = set m.pages i (slot (ds i)) }

  Synced-cons :
      (n i : ℕ) (m : Pages) (mem : Memory) (m' : Pages) (mem' : Memory) (ret : ℕ)
      → AreDistinct
      → i < length m.pages
      → (ds i).page ≢ 0
      → Synced n (i + 1) (synced m i) (put mem (ds i).page (copied_bytes (ds i))) m' mem' ret
      → Synced (suc n) i m mem m' mem' ret
  Synced-cons n i m mem m' mem' ret distinct lt real s = record {
    k = suc s.k;
    done = done;
    rest = λ q out.
        s.rest q (omega (arith, out))
        ∙ get_or-set_ne m.pages i q (slot (ds i)) no_page (omega (arith, out));
    memory = λ p off.
        s.memory p (λ j le nz. off j (omega (arith, le)) nz)
        ∙ rw (ne→== (ds i).page p (off i (omega arith) real)) refl;
    size = (s.size.0, s.size.1 ∙ length-set m.pages i (slot (ds i)));
    end = elim s.end [
      | inl (z, all) ↦ inl (z, omega (arith, all))
      | inr (o, few, why) ↦
          inr
            (o, omega (arith, few), (let at : i + suc s.k ≡ i + 1 + s.k = omega arith in rw at why))
    ];
  }
    where
      done :
          (j : ℕ)
          → j < suc s.k
          → (get_or m'.pages (i + j) no_page ≡ slot (ds (i + j)))
            × (mem' (ds (i + j)).page ≡ request_message ++ (ds (i + j)).behind)
      done zero h =
          let at : i + 0 ≡ i = omega arith in
          rw at (
            s.rest i (omega arith) ∙ get_or-set_self m.pages i (slot (ds i)) no_page lt,
            s.memory (ds i).page (λ j le nz e. distinct i j (omega (arith, le)) real (sym e))
                ∙ rw (==_refl (ds i).page) refl,
          )
      done (suc j) h =
          let at : i + suc j ≡ i + 1 + j = omega arith in rw at (s.done j (omega (arith, h)))

  retrieve_loop-Synced :
      (n i : ℕ) (m : Pages) (mem : Memory)
      → AreDistinct
      → i + n ≤ length m.pages
      → Ends n i m mem (retrieve_loop ds n i m mem)
  unfolding retrieve_loop
  retrieve_loop-Synced zero i m mem distinct le = (
    m,
    mem,
    0,
    refl,
    record {
      k = 0;
      done = λ j lt. absurd (omega (arith, lt));
      rest = λ q out. refl;
      memory = λ p off. refl;
      size = (refl, refl);
      end = inl (refl, refl);
    },
  )
  retrieve_loop-Synced (suc n) i m mem distinct le = elim (Bool-cases (ds i).failed) [
    | inl lost ↦ simp (lost, retrieve_loop) (m, mem, 1, refl, stop_here n i m mem (inl lost))
    | inr came ↦
        simp (came, retrieve_loop)
          (elim (Bool-cases ((ds i).page == 0)) [
            | inl no_memory ↦
                simp (no_memory, retrieve_loop)
                  (m, mem, 1, refl, stop_here n i m mem (inr (==→eq (ds i).page 0 no_memory)))
            | inr real ↦
                let lt : i < length m.pages = omega (arith, le) in
                let (m', mem', ret, e, s) =
                  retrieve_loop-Synced n (i + 1) (synced m i)
                    (put mem (ds i).page (copied_bytes (ds i))) distinct
                    (omega (arith, le, length-set m.pages i (slot (ds i)))) in
                simp (real, lt→ltb i (length m.pages) lt, e, retrieve_loop)
                  (
                    m',
                    mem',
                    ret,
                    refl,
                    Synced-cons n i m mem m' mem' ret distinct lt (ground (arith, real)) s,
                  )
          ])
  ]

  overruns :
      (n i : ℕ) (m : Pages) (mem : Memory)
      → length m.pages < i + n
      → i ≤ length m.pages
      → ((j : ℕ) → (ds j).failed ≡ false)
      → ((j : ℕ) → (ds j).page ≢ 0)
      → retrieve_loop ds n i m mem ≡ none
  unfolding retrieve_loop
  overruns zero i m mem more le come real = absurd (omega (arith, more, le))
  overruns (suc n) i m mem more le come real =
      simp (come i, ne→== (ds i).page 0 (real i), retrieve_loop)
        (elim (Bool-cases (ltb i (length m.pages))) [
          | inr out ↦ simp out refl
          | inl inside ↦
              let len = length-set m.pages i (slot (ds i)) in
              simp inside (
                overruns n (i + 1) (synced m i) (put mem (ds i).page (copied_bytes (ds i)))
                  (omega (arith, more, len)) (ground (arith, inside, len)) come real)
        ])

  -- nmsg_retrieve_pages of at most as many pages as the array has, with different new pages, ends: with
  -- -1 where the request is not sent; otherwise the first k slots of the array are shared and have new
  -- pages, each with the 100 bytes of the request and what stands behind them on the stack; the other
  -- slots and the rest of the memory are as before; and k is the number asked for if the result is 0,
  -- and otherwise less, with -1, as the next kernel_recvmsg or alloc_page fails.
  pub retrieve_pages-Synced :
      (sent : Bool) (num_pages : ℕ) (m : Pages) (mem : Memory)
      → AreDistinct
      → num_pages ≤ length m.pages
      → if sent
        then Ends num_pages 0 m mem (retrieve_pages sent ds num_pages m mem)
        else retrieve_pages sent ds num_pages m mem ≡ some (m, mem, 1)
  unfolding retrieve_pages
  retrieve_pages-Synced true num_pages m mem distinct le =
      retrieve_loop-Synced num_pages 0 m mem distinct (omega (arith, le))
  retrieve_pages-Synced false num_pages m mem distinct le = refl

  -- More pages than the array has, all of which come, are written behind its end.
  pub retrieve_pages_overruns :
      (num_pages : ℕ) (m : Pages) (mem : Memory)
      → length m.pages < num_pages
      → ((i : ℕ) → (ds i).failed ≡ false)
      → ((i : ℕ) → (ds i).page ≢ 0)
      → retrieve_pages true ds num_pages m mem ≡ none
  unfolding retrieve_pages
  retrieve_pages_overruns num_pages m mem more come real =
      overruns num_pages 0 m mem (omega (arith, more)) (omega arith) come real
