-- ===== src/Migrate/Sources.antt =====
-- dmirror_devmem_fault_alloc_and_copy of hmm.c: which pages come back from the device, and with what.
use rshm_hmm.Base.{
  ℕ, ◌+◌, ◌≤◌, ◌<◌, ◌≡◌, ◌≢◌, refl, sym, ap, ◌∙◌, ◌⊎◌, inl, inr, true, false, not, ◌||◌, arith,
  ◌==◌, ==→eq, ne→==, Bool-cases,
}
use rshm_hmm.Kernel.{null_entry, Memory, XArray, shr_page}
use rshm_hmm.Mirror.{Dmirror}
use rshm_hmm.Snapshot.{PageKind, device_private, device_coherent, zero_page, system}
use rshm_hmm.Devmem.{Device}
use rshm_hmm.Migrate.{MigratePfn, Pfns, rounds, source_page, devmem_fault_alloc_and_copy}
use rshm_hmm.Migrate.Return.{AreNew, copies, devmem_fault_alloc_and_copy-Returned}

module _ (kind : ℕ → PageKind) (d : Device) where
  -- The page that stands behind a device page that is to move: for a private page its backing page, and
  -- for a coherent page itself.
  pub data Backs (e : MigratePfn) (spage : ℕ) : Type 0 where
    backing :
        (dev : ℕ)
        → e.migrate ≡ true
        → e.page ≢ 0
        → kind e.page ≡ device_private dev
        → spage ≡ d.zdd e.page
        → Backs e spage
    itself :
        (dev : ℕ)
        → e.migrate ≡ true
        → e.page ≢ 0
        → kind e.page ≡ device_coherent dev
        → spage ≡ e.page
        → Backs e spage

  Backs-source_page : (e : MigratePfn) (spage : ℕ) → Backs e spage → source_page kind d e ≡ spage
  unfolding source_page
  Backs-source_page e spage (backing dev moves nz private at) =
      rw (moves, ne→== e.page 0 nz, private, source_page) (sym at)
  Backs-source_page e spage (itself dev moves nz coherent at) =
      rw (moves, ne→== e.page 0 nz, coherent, source_page) (sym at)

  source_page-Backs : (e : MigratePfn) → source_page kind d e ≢ 0 → Backs e (source_page kind d e)
  unfolding source_page
  source_page-Backs e real = elim (Bool-cases (e.page == 0 || not e.migrate)) [
    | inl stays ↦ absurd (real (rw stays refl))
    | inr moves ↦ of_kind (kind e.page) refl (ground (arith, moves)) (ground (arith, moves))
  ]
    where
      of_kind :
          (k : PageKind)
          → kind e.page ≡ k
          → e.migrate ≡ true
          → e.page ≢ 0
          → Backs e (source_page kind d e)
      of_kind (device_private dev) is moves nz =
          backing dev moves nz is (Backs-source_page e _ (backing dev moves nz is refl))
      of_kind (device_coherent dev) is moves nz =
          itself dev moves nz is (Backs-source_page e _ (itself dev moves nz is refl))
      of_kind zero_page is moves nz =
          absurd (real (rw (moves, ne→== e.page 0 nz, is, source_page) refl))
      of_kind system is moves nz =
          absurd (real (rw (moves, ne→== e.page 0 nz, is, source_page) refl))

  module _ (pages : ℕ → ℕ) (src : Pfns) where
    -- alloc_page_vma gives different pages in different rounds, and none that stands behind one.
    pub record AreFresh : Type 0 where
      pub distinct : (i j : ℕ) → i ≢ j → pages i ≢ 0 → pages i ≢ pages j
      pub fresh : (i j spage : ℕ) → pages i ≢ 0 → Backs (src j) spage → pages i ≢ spage

    -- How `n` rounds, at page frame `pfn`, leave the page table, the memory and `dst`.
    module _ (xa : XArray) where
      open xa use {Xa, load}

      pub record CameBack (n pfn : ℕ) (x : Xa) (mem : Memory) (dst : Pfns) (y : Xa) (mem' : Memory)
          (dst' : Pfns) : Type 0 where
        pub copied :
            (j spage : ℕ)
            → j < n
            → Backs (src j) spage
            → spage ≢ 0
            → pages j ≢ 0
            → (mem' (pages j) ≡ mem spage)
              × (dst' j
                  ≡ record { valid = true; migrate = false; write = (src j).write; page = pages j })
              × (load y (pfn + j) ≡ null_entry)
        pub skipped :
            (j : ℕ)
            → j < n
            → (pages j ≡ 0) ⊎ ((spage : ℕ) → Backs (src j) spage → spage ≡ 0)
            → (dst' j ≡ dst j) × (load y (pfn + j) ≡ load x (pfn + j))
        pub elsewhere : (q : ℕ) → (q < pfn) ⊎ (pfn + n ≤ q) → load y q ≡ load x q
        pub memory :
            (p : ℕ)
            → ((j spage : ℕ) → Backs (src j) spage → spage ≢ 0 → pages j ≢ 0 → pages j ≢ p)
            → mem' p ≡ mem p

      AreFresh-AreNew : AreFresh → AreNew xa kind d pages src
      AreFresh-AreNew new = record {
        distinct = new.distinct;
        fresh = λ i j nz. elim (Bool-cases (source_page kind d (src j) == 0)) [
          | inl no_source ↦ λ e. nz (e ∙ ==→eq _ 0 no_source)
          | inr real ↦ new.fresh i j _ nz (source_page-Backs (src j) (ground (arith, real)))
        ];
      }

      stays :
          (j : ℕ)
          → (pages j ≡ 0) ⊎ ((spage : ℕ) → Backs (src j) spage → spage ≡ 0)
          → copies xa kind d pages src j ≡ false
      stays j (inl no_page) = ground (arith, no_page)
      stays j (inr none_behind) = elim (Bool-cases (source_page kind d (src j) == 0)) [
        | inl no_source ↦ rw no_source refl
        | inr real ↦
            let nz : source_page kind d (src j) ≢ 0 = ground (arith, real) in
            absurd (nz (none_behind (source_page kind d (src j)) (source_page-Backs (src j) nz)))
      ]

      -- dmirror_devmem_fault_alloc_and_copy, where the pages that it gets are new and differ: in a round
      -- for a device page that is to move, which is private and has a backing page or is coherent, and
      -- with a page to copy to, that page gets what the backing page or the coherent page had, it stands
      -- in `dst`, writable as the device page was, and the entry of the page table is erased. The other
      -- rounds, the rest of the page table and the rest of the memory stay as they are.
      pub devmem_fault_alloc_and_copy-CameBack :
          (start end : ℕ) (dst : Pfns) (m : Dmirror Xa) (mem : Memory)
          → AreFresh
          → let (m', mem', dst') =
              devmem_fault_alloc_and_copy xa kind d pages src start end dst m mem in
            CameBack (rounds start end) (shr_page start) m.pt mem dst m'.pt mem' dst'
      devmem_fault_alloc_and_copy-CameBack start end dst m mem new =
          let r =
            devmem_fault_alloc_and_copy-Returned xa kind d pages src start end dst m mem
              (AreFresh-AreNew new) in
          record {
            copied = λ j spage lt backs real page.
                let z : 0 + j ≡ j = omega arith in
                let is = Backs-source_page (src j) spage backs in
                let goes : copies xa kind d pages src j ≡ true =
                  rw (is, ne→== spage 0 real, ne→== (pages j) 0 page) refl in
                let (a, b, e) = rw z at (r.copied j lt (rw z goes)) in (a ∙ ap mem is, b, e);
            skipped = λ j lt why.
                let z : 0 + j ≡ j = omega arith in rw z at (r.skipped j lt (rw z (stays j why)));
            elsewhere = r.elsewhere;
            memory = λ p off. r.memory p (λ j le goes.
                off j (source_page kind d (src j))
                  (source_page-Backs (src j) (ground (arith, goes))) (ground (arith, goes))
                  (ground (arith, goes)));
          }
