-- ===== src/Migrate/Finalize.antt =====
-- dmirror_migrate_finalize_and_map of hmm.c, and what the migrated pages have in the page table then.
use rshm_hmm.Base.{
  ℕ, zero, suc, ◌+◌, ◌-◌, ◌≤◌, ◌<◌, ◌≡◌, ◌≢◌, refl, ap, ◌∙◌, ◌⊎◌, inl, inr, Bool, true, not, ◌&&◌,
  arith, ◌==◌, ==_refl, ne→==, Bool-cases, if◌then◌else◌,
}
use rshm_hmm.Kernel.{Entry, entry, XArray, xa_err, Stored-cases, shr_page}
use rshm_hmm.Mirror.{Dmirror, tag_write}
use rshm_hmm.Migrate.{MigratePfn, Pfns, finalize_loop, finalize_and_map}

-- The round has a device page to map.
abbrev pub maps : Pfns → Pfns → ℕ → Bool
maps src dst i = (src i).migrate && not ((dst i).page == 0)

-- The entry that it stores.
abbrev pub device_entry : (ℕ → ℕ) → MigratePfn → Entry
device_entry zdd e = entry (zdd e.page) (if e.write then tag_write else 0)

module _ (xa : XArray) where
  open xa use {Xa, load, store, load-store, store_err_pos}

  -- The first `m` of the rounds are done, and nothing else is.
  pub record Mapped (zdd : ℕ → ℕ) (src dst : Pfns) (pfn i m : ℕ) (x y : Xa) : Type 0 where
    pub done :
        (j : ℕ)
        → j < m
        → load y (pfn + j)
          ≡ (if maps src dst (i + j) then device_entry zdd (dst (i + j)) else load x (pfn + j))
    pub elsewhere : (q : ℕ) → (q < pfn) ⊎ (pfn + m ≤ q) → load y q ≡ load x q

  -- All rounds are done, or a store failed in the round behind the `m` first ones.
  pub data Finalized (zdd : ℕ → ℕ) (src dst : Pfns) (n pfn i : ℕ) (x y : Xa) (ret : ℕ)
      : Type 0 where
    finished : ret ≡ 0 → Mapped zdd src dst pfn i n x y → Finalized zdd src dst n pfn i x y ret
    stopped :
        (m : ℕ)
        → ret ≢ 0
        → m < n
        → maps src dst (i + m) ≡ true
        → store y (pfn + m) (device_entry zdd (dst (i + m))) ≡ xa_err ret
        → Mapped zdd src dst pfn i m x y
        → Finalized zdd src dst n pfn i x y ret

  module _ (zdd : ℕ → ℕ) (src dst : Pfns) where
    Mapped-cons :
        (pfn i m : ℕ) (x y z : Xa)
        → ((q : ℕ)
            → load y q
              ≡ (if pfn == q && maps src dst i then device_entry zdd (dst i) else load x q))
        → Mapped zdd src dst (pfn + 1) (i + 1) m y z
        → Mapped zdd src dst pfn i (suc m) x z
    Mapped-cons pfn i m x y z first rest = record { done = done; elsewhere = elsewhere }
      where
        done :
            (j : ℕ)
            → j < suc m
            → load z (pfn + j)
              ≡ (if maps src dst (i + j) then device_entry zdd (dst (i + j)) else load x (pfn + j))
        done zero lt =
            let here : pfn + 0 ≡ pfn = omega arith in
            let at : i + 0 ≡ i = omega arith in
            rw (here, at) (rest.elsewhere pfn (omega arith) ∙ first pfn ∙ rw (==_refl pfn) refl)
        done (suc j) lt =
            let here : pfn + suc j ≡ pfn + 1 + j = omega arith in
            let at : i + suc j ≡ i + 1 + j = omega arith in
            let before : load y (pfn + 1 + j) ≡ load x (pfn + 1 + j) =
              first (pfn + 1 + j) ∙ rw (ne→== pfn (pfn + 1 + j) (omega arith)) refl in
            rw (here, at)
              (rest.done j (omega (arith, lt))
                ∙ ap
                    (λ (t : Entry).
                      if maps src dst (i + 1 + j) then device_entry zdd (dst (i + 1 + j)) else t)
                    before)

        elsewhere : (q : ℕ) → (q < pfn) ⊎ (pfn + suc m ≤ q) → load z q ≡ load x q
        elsewhere q out =
            rest.elsewhere q (omega (arith, out))
            ∙ first q
            ∙ rw (ne→== pfn q (omega (arith, out))) refl

    Finalized-cons :
        (n pfn i : ℕ) (x y z : Xa) (ret : ℕ)
        → ((q : ℕ)
            → load y q
              ≡ (if pfn == q && maps src dst i then device_entry zdd (dst i) else load x q))
        → Finalized zdd src dst n (pfn + 1) (i + 1) y z ret
        → Finalized zdd src dst (suc n) pfn i x z ret
    Finalized-cons n pfn i x y z ret first (finished ok rest) =
        finished ok (Mapped-cons pfn i n x y z first rest)
    Finalized-cons n pfn i x y z ret first (stopped m bad lt here err rest) =
        let at : pfn + suc m ≡ pfn + 1 + m = omega arith in
        let at' : i + suc m ≡ i + 1 + m = omega arith in
        stopped (suc m) bad (omega (arith, lt)) (rw at' here) (rw (at, at') err)
          (Mapped-cons pfn i m x y z first rest)

    Mapped-none : (pfn i : ℕ) (x : Xa) → Mapped zdd src dst pfn i 0 x x
    Mapped-none pfn i x = record {
      done = λ j lt. absurd (omega (arith, lt));
      elsewhere = λ q out. refl;
    }

    finalize_loop-Finalized :
        (n pfn i : ℕ) (x : Xa)
        → let (y, ret) = finalize_loop xa zdd src dst n pfn i x in
          Finalized zdd src dst n pfn i x y ret
    unfolding finalize_loop
    finalize_loop-Finalized zero pfn i x = finished refl (Mapped-none pfn i x)
    finalize_loop-Finalized (suc n) pfn i x = elim (Bool-cases (maps src dst i)) [
      | inr skips ↦
          rw (skips, finalize_loop)
            (Finalized-cons n pfn i x x _ _ (λ q. ground (arith, skips))
              (finalize_loop-Finalized n (pfn + 1) (i + 1) x))
      | inl maps_it ↦
          rw (maps_it, finalize_loop)
            (elim (Stored-cases (store x pfn (device_entry zdd (dst i)))) [
              | inl (y, ok) ↦
                  rw (ok, finalize_loop)
                    (Finalized-cons n pfn i x y _ _
                      (λ q.
                        load-store x y pfn q (device_entry zdd (dst i)) ok
                        ∙ ground (arith, maps_it))
                      (finalize_loop-Finalized n (pfn + 1) (i + 1) y))
              | inr (err, e) ↦
                  let at : pfn + 0 ≡ pfn = omega arith in
                  let at' : i + 0 ≡ i = omega arith in
                  rw (e, finalize_loop)
                    (stopped 0 (omega (arith, store_err_pos x pfn err (device_entry zdd (dst i)) e))
                      (omega arith) (rw at' maps_it) (rw (at, at') e) (Mapped-none pfn i x))
            ])
    ]

    -- dmirror_migrate_finalize_and_map returns 0 with every migrated page that has a device page
    -- entered by its backing page, tagged where it is writable; or it returns the error of a store,
    -- with the pages before that one entered. The rest of the page table stays as it was.
    pub finalize_and_map-Finalized :
        (start end : ℕ) (m : Dmirror Xa)
        → let (m', ret) = finalize_and_map xa zdd src dst start end m in
          Finalized zdd src dst (shr_page end - shr_page start) (shr_page start) 0 m.pt m'.pt ret
    unfolding finalize_and_map
    finalize_and_map-Finalized start end m =
        finalize_loop-Finalized (shr_page end - shr_page start) (shr_page start) 0 m.pt
