-- ===== src/Mirror/Fault.antt =====
-- dmirror_do_fault of hmm.c: what the page table holds after it, on every branch.
use rshm_hmm.Base.{
  ℕ, zero, suc, ◌+◌, ◌-◌, ◌≤◌, ◌<◌, ◌≡◌, refl, ap, ◌∙◌, ne→==, ==_refl, Option-cases, ◌⊎◌, inl, inr,
  Bool, true, false, none, some, arith, Bool-cases, if◌then◌else◌,
}
use rshm_hmm.Kernel.{Entry, entry, Stored-cases, stored, xa_err, XArray, shr_page, efault}
use rshm_hmm.Mirror.{tag_write, Dmirror, HmmPfn, HmmRange, fault_entry, do_fault_loop, do_fault}

-- The page is entered as it was reported, with the write tag if it was reported with write access, and
-- only if it was or none was asked for.
abbrev pub IsStored : HmmPfn → Bool → Entry → Type 0
IsStored p req_write e =
    (e ≡ entry p.page (if p.write then tag_write else 0)) × ((p.write ≡ true) ⊎ (req_write ≡ false))

-- Write access was asked for and is not reported.
abbrev pub IsRefused : HmmPfn → Bool → Type 0
IsRefused p req_write = (p.write ≡ false) × (req_write ≡ true)

fault_entry-IsStored :
    (p : HmmPfn) (req_write : Bool) (e : Entry)
    → fault_entry p req_write ≡ some e
    → IsStored p req_write e
unfolding fault_entry
fault_entry-IsStored p req_write e is = elim (Bool-cases p.write) [
  | inl w ↦ (rw w (cc (rw w at is)), inl w)
  | inr dry ↦ elim (Bool-cases req_write) [
    | inl asked ↦ absurd (cc (rw (dry, asked) at is))
    | inr free ↦ (rw dry (cc (rw (dry, free) at is)), inr free)
  ]
]

fault_entry-IsRefused :
    (p : HmmPfn) (req_write : Bool) → fault_entry p req_write ≡ none → IsRefused p req_write
unfolding fault_entry
fault_entry-IsRefused p req_write is = elim (Bool-cases p.write) [
  | inl w ↦ absurd (cc (rw w at is))
  | inr dry ↦ elim (Bool-cases req_write) [
    | inl asked ↦ (dry, asked)
    | inr free ↦ absurd (cc (rw (dry, free) at is))
  ]
]

module _ (xa : XArray) where
  open xa use {Xa, load, store, load-store}

  -- Why the loop ended: it went through, or the next page was refused or not stored.
  pub data Stop (req_write : Bool) (n k : ℕ) (next : HmmPfn) (pfn : ℕ) (x : Xa) (ret : ℕ)
      : Type 0 where
    all_done : k ≡ n → ret ≡ 0 → Stop req_write n k next pfn x ret
    refused : k < n → IsRefused next req_write → ret ≡ efault → Stop req_write n k next pfn x ret
    no_room :
        (e : Entry)
        → k < n
        → IsStored next req_write e
        → store x pfn e ≡ xa_err ret
        → Stop req_write n k next pfn x ret

  module _ (req_write : Bool) (pfns : ℕ → HmmPfn) where
    -- `k` of the `n` pages from `pfn` on are stored, the rest of the table is as it was. Indices are
    -- variables with equations.
    pub record Faulted (n pfn i : ℕ) (x y : Xa) (ret : ℕ) : Type 0 where
      pub k : ℕ
      pub k_le : k ≤ n
      pub holds :
          (j p a : ℕ) → j < k → p ≡ pfn + j → a ≡ i + j → IsStored (pfns a) req_write (load y p)
      pub frame : (p : ℕ) → (p < pfn) ⊎ (pfn + k ≤ p) → load y p ≡ load x p
      pub stop : (p a : ℕ) → p ≡ pfn + k → a ≡ i + k → Stop req_write n k (pfns a) p y ret

    Faulted-Stop :
        {n pfn i ret : ℕ} {x : Xa} → Stop req_write n 0 (pfns i) pfn x ret → Faulted n pfn i x x ret
    Faulted-Stop {pfn} {i} s = record {
      k = 0;
      k_le = omega arith;
      holds = λ j p a h. absurd (omega arith);
      frame = λ p h. refl;
      stop = λ p a u v.
          let u' : p ≡ pfn = omega arith in let v' : a ≡ i = omega arith in rw (u', v') s;
    }

    Stop-suc :
        {n k : ℕ} {next : HmmPfn} {pfn ret : ℕ} {x : Xa}
        → Stop req_write n k next pfn x ret
        → Stop req_write (suc n) (suc k) next pfn x ret
    Stop-suc (all_done e r) = all_done (ap suc e) r
    Stop-suc (refused h e r) = refused (omega arith) e r
    Stop-suc (no_room e h q r) = no_room e (omega arith) q r

    Faulted-suc :
        {n pfn i ret : ℕ} {x y z : Xa} (e : Entry)
        → IsStored (pfns i) req_write e
        → store x pfn e ≡ stored y
        → Faulted n (pfn + 1) (i + 1) y z ret
        → Faulted (suc n) pfn i x z ret
    Faulted-suc {n} {pfn} {i} {ret} {x} {y} {z} e q s f = record {
      k = suc f.k;
      k_le = omega arith;
      holds = holds;
      frame = λ p h.
          f.frame p (omega arith) ∙ load-store x y pfn p e s ∙ rw (ne→== pfn p (omega arith));
      stop = λ p a u v. Stop-suc (f.stop p a (omega arith) (omega arith));
    }
      where
        here : load z pfn ≡ e
        here = f.frame pfn (omega arith) ∙ load-store x y pfn pfn e s ∙ rw (==_refl pfn)

        holds :
            (j p a : ℕ)
            → j < suc f.k
            → p ≡ pfn + j
            → a ≡ i + j
            → IsStored (pfns a) req_write (load z p)
        holds zero p a h u v =
            let u' : p ≡ pfn = omega arith in let v' : a ≡ i = omega arith in rw (u', v', here) q
        holds (suc j) p a h u v = f.holds j p a (omega arith) (omega arith) (omega arith)

    do_fault_loop-Faulted :
        (n pfn i : ℕ) (x : Xa)
        → let (y, ret) = do_fault_loop xa req_write pfns n pfn i x in Faulted n pfn i x y ret
    unfolding do_fault_loop
    do_fault_loop-Faulted zero pfn i x = Faulted-Stop (all_done refl refl)
    do_fault_loop-Faulted (suc n) pfn i x = elim (Option-cases (fault_entry (pfns i) req_write)) [
      | inl none_e ↦
          rw (none_e, do_fault_loop)
            (Faulted-Stop
              (refused (omega arith) (fault_entry-IsRefused (pfns i) req_write none_e) refl))
      | inr (e, some_e) ↦
          rw (some_e, do_fault_loop)
            (elim (Stored-cases (store x pfn e)) [
              | inl (y, kept) ↦
                  rw (kept, do_fault_loop)
                    (Faulted-suc e (fault_entry-IsStored (pfns i) req_write e some_e) kept
                      (do_fault_loop-Faulted n (pfn + 1) (i + 1) y))
              | inr (err, failed) ↦
                  rw (failed, do_fault_loop)
                    (Faulted-Stop (
                      no_room e (omega arith) (fault_entry-IsStored (pfns i) req_write e some_e)
                        failed))
            ])
    ]

  -- After dmirror_do_fault a first part of the range's page frames hold what `pfns` reports for
  -- them, with the write tag exactly where it reports write access, and all other entries are as
  -- before. It is the whole range and the result is 0, or the next page frame was reported without
  -- the write access asked for and the result is -EFAULT, or its store failed and the result is
  -- the store's error.
  pub do_fault-Faulted :
      (d : Dmirror Xa) (range : HmmRange) (pfns : ℕ → HmmPfn)
      → let (d', ret) = do_fault xa d range pfns in
        let first = shr_page range.start in
        Faulted range.req_write pfns (shr_page range.end - first) first 0 d.pt d'.pt ret
  unfolding do_fault
  do_fault-Faulted d range pfns =
      do_fault_loop-Faulted range.req_write pfns (shr_page range.end - shr_page range.start)
        (shr_page range.start) 0 d.pt

  pub mdevice-do_fault :
      (d : Dmirror Xa) (range : HmmRange) (pfns : ℕ → HmmPfn)
      → (do_fault xa d range pfns).0.mdevice ≡ d.mdevice
  unfolding do_fault
  mdevice-do_fault d range pfns = refl
