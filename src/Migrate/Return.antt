-- ===== src/Migrate/Return.antt =====
-- dmirror_devmem_fault_alloc_and_copy of hmm.c: what comes back from the device, and with what.
use rshm_hmm.Base.{
  ℕ, zero, suc, ◌+◌, ◌≤◌, ◌<◌, ◌≡◌, ◌≢◌, refl, sym, ◌∙◌, ◌⊎◌, inl, inr, Bool, true, false, not,
  ◌&&◌, ◌||◌, arith, ◌==◌, ==_refl, ne→==, Bool-cases, if◌then◌else◌,
}
use rshm_hmm.Kernel.{null_entry, Memory, put, XArray, shr_page}
use rshm_hmm.Mirror.{Dmirror}
use rshm_hmm.Snapshot.{PageKind, device_private}
use rshm_hmm.Devmem.{Device}
use rshm_hmm.Migrate.{
  MigratePfn, Pfns, set_pfn, migrate_pfn, rounds, source_page, fault_copy_loop,
  devmem_fault_alloc_and_copy,
}

pub source_page_private :
    (kind : ℕ → PageKind) (d : Device) (e : MigratePfn) (dev : ℕ)
    → e.migrate ≡ true
    → e.page ≢ 0
    → kind e.page ≡ device_private dev
    → source_page kind d e ≡ d.zdd e.page
unfolding source_page
source_page_private kind d e dev moves nz private =
    rw (moves, ne→== e.page 0 nz, private, source_page) refl

module _ (xa : XArray) (kind : ℕ → PageKind) (d : Device) (pages : ℕ → ℕ) (src : Pfns) where
  open xa use {Xa, load, erase, load-erase}

  abbrev source : ℕ → ℕ
  source i = source_page kind d (src i)

  -- The round has a device page to copy from and a system page to copy to.
  abbrev pub copies : ℕ → Bool
  copies i = not (source i == 0 || pages i == 0)

  -- alloc_page_vma gives different pages in different rounds, and none that is copied from.
  pub record AreNew : Type 0 where
    pub distinct : (i j : ℕ) → i ≢ j → pages i ≢ 0 → pages i ≢ pages j
    pub fresh : (i j : ℕ) → pages i ≢ 0 → pages i ≢ source j

  -- How `n` rounds from `i` on, at page frame `pfn`, leave the page table, the memory and `dst`.
  pub record Returned (n pfn i : ℕ) (x : Xa) (mem : Memory) (dst : Pfns) (y : Xa) (mem' : Memory)
      (dst' : Pfns) : Type 0 where
    pub copied :
        (j : ℕ)
        → j < n
        → copies (i + j) ≡ true
        → (mem' (pages (i + j)) ≡ mem (source (i + j)))
          × (dst' (i + j) ≡ migrate_pfn (pages (i + j)) (src (i + j)).write)
          × (load y (pfn + j) ≡ null_entry)
    pub skipped :
        (j : ℕ)
        → j < n
        → copies (i + j) ≡ false
        → (dst' (i + j) ≡ dst (i + j)) × (load y (pfn + j) ≡ load x (pfn + j))
    pub elsewhere : (q : ℕ) → (q < pfn) ⊎ (pfn + n ≤ q) → load y q ≡ load x q
    pub before : (j : ℕ) → j < i → dst' j ≡ dst j
    pub memory : (p : ℕ) → ((j : ℕ) → i ≤ j → copies j ≡ true → pages j ≢ p) → mem' p ≡ mem p

  Returned-cons :
      (n pfn i : ℕ) (x u y : Xa) (mem mid mem' : Memory) (dst via dst' : Pfns)
      → AreNew
      → ((q : ℕ) → load u q ≡ (if pfn == q && copies i then null_entry else load x q))
      → ((p : ℕ) → mid p ≡ (if pages i == p && copies i then mem (source i) else mem p))
      → ((j : ℕ)
          → via j ≡ (if i == j && copies i then migrate_pfn (pages i) (src i).write else dst j))
      → Returned n (pfn + 1) (i + 1) u mid via y mem' dst'
      → Returned (suc n) pfn i x mem dst y mem' dst'
  Returned-cons n pfn i x u y mem mid mem' dst via dst' new pt_eq mem_eq dst_eq rest = record {
    copied = copied;
    skipped = skipped;
    elsewhere = λ q out.
        rest.elsewhere q (omega (arith, out))
        ∙ pt_eq q
        ∙ rw (ne→== pfn q (omega (arith, out))) refl;
    before = λ j lt.
        rest.before j (omega (arith, lt)) ∙ dst_eq j ∙ rw (ne→== i j (omega (arith, lt))) refl;
    memory =
        λ p off. rest.memory p (λ j le c. off j (omega (arith, le)) c) ∙ mem_eq p ∙ untouched p off;
  }
    where
      untouched :
          (p : ℕ)
          → ((j : ℕ) → i ≤ j → copies j ≡ true → pages j ≢ p)
          → (if pages i == p && copies i then mem (source i) else mem p) ≡ mem p
      untouched p off = elim (Bool-cases (copies i)) [
        | inr stays ↦ ground (arith, stays)
        | inl goes ↦ rw (ne→== (pages i) p (off i (omega arith) goes)) refl
      ]

      copied :
          (j : ℕ)
          → j < suc n
          → copies (i + j) ≡ true
          → (mem' (pages (i + j)) ≡ mem (source (i + j)))
            × (dst' (i + j) ≡ migrate_pfn (pages (i + j)) (src (i + j)).write)
            × (load y (pfn + j) ≡ null_entry)
      copied zero lt c =
          let here : pfn + 0 ≡ pfn = omega arith in
          let at : i + 0 ≡ i = omega arith in
          let goes : copies i ≡ true = rw at at c in
          let real : pages i ≢ 0 = ground (arith, goes) in
          rw (here, at)
            (
              rest.memory (pages i) (λ j le c' e. new.distinct i j (omega (arith, le)) real (sym e))
                  ∙ mem_eq (pages i)
                  ∙ rw (==_refl (pages i), goes) refl,
              rest.before i (omega arith) ∙ dst_eq i ∙ rw (==_refl i, goes) refl,
              rest.elsewhere pfn (omega arith) ∙ pt_eq pfn ∙ rw (==_refl pfn, goes) refl,
            )
      copied (suc j) lt c =
          let here : pfn + suc j ≡ pfn + 1 + j = omega arith in
          let at : i + suc j ≡ i + 1 + j = omega arith in
          let r = rest.copied j (omega (arith, lt)) (rw at at c) in
          rw (here, at) (r.0 ∙ mem_eq (source (i + 1 + j)) ∙ own_page (i + 1 + j), r.1, r.2)
        where
          own_page :
              (k : ℕ)
              → (if pages i == source k && copies i then mem (source i) else mem (source k))
                ≡ mem (source k)
          own_page k = elim (Bool-cases (pages i == 0)) [
            | inl no_page ↦ ground (arith, no_page)
            | inr real ↦ rw (ne→== (pages i) (source k) (new.fresh i k (ground (arith, real)))) refl
          ]

      skipped :
          (j : ℕ)
          → j < suc n
          → copies (i + j) ≡ false
          → (dst' (i + j) ≡ dst (i + j)) × (load y (pfn + j) ≡ load x (pfn + j))
      skipped zero lt c =
          let here : pfn + 0 ≡ pfn = omega arith in
          let at : i + 0 ≡ i = omega arith in
          let stays : copies i ≡ false = rw at at c in
          rw (here, at)
            (
              rest.before i (omega arith) ∙ dst_eq i ∙ rw (==_refl i, stays) refl,
              rest.elsewhere pfn (omega arith) ∙ pt_eq pfn ∙ rw (==_refl pfn, stays) refl,
            )
      skipped (suc j) lt c =
          let here : pfn + suc j ≡ pfn + 1 + j = omega arith in
          let at : i + suc j ≡ i + 1 + j = omega arith in
          let (a, b) = rest.skipped j (omega (arith, lt)) (rw at at c) in
          rw (here, at)
            (
              a ∙ dst_eq (i + 1 + j) ∙ rw (ne→== i (i + 1 + j) (omega arith)) refl,
              b ∙ pt_eq (pfn + 1 + j) ∙ rw (ne→== pfn (pfn + 1 + j) (omega arith)) refl,
            )

  fault_copy_loop-Returned :
      (n pfn i : ℕ) (x : Xa) (mem : Memory) (dst : Pfns)
      → AreNew
      → let (y, mem', dst') = fault_copy_loop xa kind d pages src n pfn i x mem dst in
        Returned n pfn i x mem dst y mem' dst'
  unfolding fault_copy_loop
  fault_copy_loop-Returned zero pfn i x mem dst new = record {
    copied = λ j lt. absurd (omega (arith, lt));
    skipped = λ j lt. absurd (omega (arith, lt));
    elsewhere = λ q out. refl;
    before = λ j lt. refl;
    memory = λ p off. refl;
  }
  fault_copy_loop-Returned (suc n) pfn i x mem dst new =
      elim (Bool-cases (source i == 0 || pages i == 0)) [
        | inl stays ↦
            rw (stays, fault_copy_loop)
              (Returned-cons n pfn i x x _ mem mem _ dst dst _ new (λ q. ground (arith, stays))
                (λ p. ground (arith, stays)) (λ j. ground (arith, stays))
                (fault_copy_loop-Returned n (pfn + 1) (i + 1) x mem dst new))
        | inr goes ↦
            rw (goes, fault_copy_loop)
              (Returned-cons n pfn i x (erase x pfn) _ mem (put mem (pages i) (mem (source i))) _
                dst (set_pfn dst i (migrate_pfn (pages i) (src i).write)) _ new
                (λ q. load-erase x pfn q ∙ ground (arith, goes)) (λ p. ground (arith, goes))
                (λ j. ground (arith, goes))
                (fault_copy_loop-Returned n (pfn + 1) (i + 1) (erase x pfn)
                  (put mem (pages i) (mem (source i)))
                  (set_pfn dst i (migrate_pfn (pages i) (src i).write)) new))
      ]

  -- dmirror_devmem_fault_alloc_and_copy, where the pages that it gets are new and differ: a round
  -- with a migrating device page and a page to copy to leaves there what the backing page had, enters
  -- it in `dst`, writable as it was, and takes the page out of the page table; the other rounds, the
  -- rest of the page table and the rest of the memory stay as they are.
  pub devmem_fault_alloc_and_copy-Returned :
      (start end : ℕ) (dst : Pfns) (m : Dmirror Xa) (mem : Memory)
      → AreNew
      → let (m', mem', dst') =
          devmem_fault_alloc_and_copy xa kind d pages src start end dst m mem in
        Returned (rounds start end) (shr_page start) 0 m.pt mem dst m'.pt mem' dst'
  unfolding devmem_fault_alloc_and_copy
  devmem_fault_alloc_and_copy-Returned start end dst m mem =
      fault_copy_loop-Returned (rounds start end) (shr_page start) 0 m.pt mem dst
