-- ===== src/Migrate/Loop.antt =====
-- dmirror_migrate_alloc_and_copy of hmm.c as a whole: every round keeps what the earlier ones did.
use rshm_hmm.Base.{
  ℕ, zero, suc, ◌+◌, ◌≤◌, ◌<◌, ◌≡◌, ◌≢◌, refl, sym, subst, ◌∙◌, inl, inr, Bool, true, arith, ◌==◌,
  ==_refl, ne→==, ==→eq, Bool-cases,
}
use rshm_hmm.Kernel.{Memory}
use rshm_hmm.Snapshot.{PageKind}
use rshm_hmm.Devmem.Pool.{hold}
use rshm_hmm.Migrate.{
  MigratePfn, Pfns, set_pfn, Alloc, World, alloc_one, alloc_and_copy_loop, alloc_and_copy, rounds,
}
use rshm_hmm.Migrate.Round.{IsLawful, Good, Later, Entered, left, entered, alloc_one-Round}

-- Every system page that a round copies from is in use.
abbrev pub UsesSources : Pfns → (ℕ → Bool) → Type 0
UsesSources src used = (j : ℕ) → (src j).page ≢ 0 → used (src j).page ≡ true

Later-trans :
    {u v w : World} {hu iu hv iv hw iw : ℕ → Bool}
    → Later u hu iu v hv iv
    → Later v hv iv w hw iw
    → Later u hu iu w hw iw
Later-trans a b = record {
  good = b.good;
  held_on = λ q h. b.held_on q (a.held_on q h);
  used_on = λ p h. b.used_on p (a.used_on p h);
  zdd = λ q h. b.zdd q (a.held_on q h) ∙ a.zdd q h;
  memory = λ p h. b.memory p (a.used_on p h) ∙ a.memory p h;
}

-- An entry that a round has made stands for the same contents later.
Entered-Later :
    {vm_write : Bool} {src old e : MigratePfn} {mem : Memory} {v w : World} {hv iv hw iw : ℕ → Bool}
    → Later v hv iv w hw iw
    → Entered vm_write src old mem v hv iv e
    → Entered vm_write src old mem w hw iw e
Entered-Later l (left x) = left x
Entered-Later {e = e} {v = v} {w = w} l (entered m nz wr content h u real) =
    let at : w.device.zdd e.page ≡ v.device.zdd e.page = l.zdd e.page h in
    entered m nz wr (rw at (l.memory (v.device.zdd e.page) u ∙ content)) (l.held_on e.page h)
      (rw at (l.used_on (v.device.zdd e.page) u)) (λ z. real (sym at ∙ z))

-- What a later round copies is what was there before the first one.
Entered-memory :
    {vm_write : Bool} {src old e : MigratePfn} {before mem : Memory} {w : World}
    {held used : ℕ → Bool}
    → (src.page ≢ 0 → mem src.page ≡ before src.page)
    → Entered vm_write src old mem w held used e
    → Entered vm_write src old before w held used e
Entered-memory same (left x) = left x
Entered-memory {src = src} same (entered m nz wr content h u real) =
    entered m nz wr
      (content ∙ (elim (Bool-cases (src.page == 0)) [
        | inl no_source ↦ rw no_source refl
        | inr source ↦ rw source (same (ground (arith, source)))
      ]))
      h u real

module _ (kind : ℕ → PageKind) (own : ℕ) (vm_write : Bool) (ks : ℕ → Alloc) (src : Pfns) where
  -- Every round's answers are lawful where the round starts.
  abbrev pub AllLawful : ℕ → ℕ → Pfns → World → (ℕ → Bool) → Type 0
  AllLawful zero i dst w used = Unit {0}
  AllLawful (suc n) i dst w used =
      IsLawful (ks i) w.device used
      × AllLawful n (i + 1) (set_pfn dst i (alloc_one kind own vm_write (ks i) (src i) (dst i) w).1)
          (alloc_one kind own vm_write (ks i) (src i) (dst i) w).0 (hold used (ks i).rpage true)

  -- How the rounds from `i` on leave the world and the entries.
  pub record Looped (n i : ℕ) (dst : Pfns) (w : World) (held used : ℕ → Bool) (v : World)
      (dst' : Pfns) : Type 0 where
    pub held' : ℕ → Bool
    pub used' : ℕ → Bool
    pub later : Later w held used v held' used'
    pub before : (j : ℕ) → j < i → dst' j ≡ dst j
    pub each :
        (j : ℕ)
        → i ≤ j
        → j < i + n
        → Entered vm_write (src j) (dst j) w.memory v held' used' (dst' j)

  Looped-cons :
      (n i : ℕ) (dst : Pfns) (w u v : World) (e : MigratePfn) (dst' : Pfns)
      (held used hu iu : ℕ → Bool)
      → UsesSources src used
      → Later w held used u hu iu
      → Entered vm_write (src i) (dst i) w.memory u hu iu e
      → Looped n (i + 1) (set_pfn dst i e) u hu iu v dst'
      → Looped (suc n) i dst w held used v dst'
  Looped-cons n i dst w u v e dst' held used hu iu uses first here rest = record {
    held' = rest.held';
    used' = rest.used';
    later = Later-trans first rest.later;
    before = λ j lt. rest.before j (omega (arith, lt)) ∙ rw (ne→== i j (omega (arith, lt))) refl;
    each = each;
  }
    where
      at_first : dst' i ≡ e
      at_first = rest.before i (omega arith) ∙ rw (==_refl i) refl

      each :
          (j : ℕ)
          → i ≤ j
          → j < i + suc n
          → Entered vm_write (src j) (dst j) w.memory v rest.held' rest.used' (dst' j)
      each j le lt = elim (Bool-cases (i == j)) [
        | inl same ↦
            subst (λ t. Entered vm_write (src t) (dst t) w.memory v rest.held' rest.used' (dst' t))
              (==→eq i j same)
              (Entered-Later rest.later (
                subst (λ t. Entered vm_write (src i) (dst i) w.memory u hu iu t) (sym at_first)
                  here))
        | inr other ↦
            Entered-memory (λ nz. first.memory (src j).page (uses j nz))
              (rw other at (rest.each j (ground (arith, le, other)) (omega (arith, lt))))
      ]

  -- The loop of dmirror_migrate_alloc_and_copy.
  pub alloc_and_copy_loop-Looped :
      (n i : ℕ) (dst : Pfns) (w : World) (held used : ℕ → Bool)
      → UsesSources src used
      → Good w.device held
      → AllLawful n i dst w used
      → let (v, dst') = alloc_and_copy_loop kind own vm_write ks src n i dst w in
        Looped n i dst w held used v dst'
  unfolding alloc_and_copy_loop
  alloc_and_copy_loop-Looped zero i dst w held used uses g laws = record {
    held' = held;
    used' = used;
    later = record {
      good = g;
      held_on = λ q h. h;
      used_on = λ p h. h;
      zdd = λ q h. refl;
      memory = λ p h. refl;
    };
    before = λ j lt. refl;
    each = λ j le lt. absurd (omega (arith, le, lt));
  }
  alloc_and_copy_loop-Looped (suc n) i dst w held used uses g (law, laws) =
      let (hu, first, here) =
        alloc_one-Round own vm_write (ks i) (src i) (dst i) w held used g law kind in
      let e = (alloc_one kind own vm_write (ks i) (src i) (dst i) w).1 in
      let u = (alloc_one kind own vm_write (ks i) (src i) (dst i) w).0 in
      Looped-cons n i dst w u _ e _ held used hu (hold used (ks i).rpage true) uses first here (
        alloc_and_copy_loop-Looped n (i + 1) (set_pfn dst i e) u hu (hold used (ks i).rpage true)
          (λ j nz. first.used_on (src j).page (uses j nz)) first.good laws)

  -- dmirror_migrate_alloc_and_copy on a device of the private type, where the kernel's answers are
  -- lawful and the source pages are in use: the device stays well-formed, pages in use keep what they
  -- hold, and every round leaves its entry of `dst` as it was, or enters in it a device page whose
  -- backing page holds at the end what the source page held at the start, zeros where there is none.
  pub alloc_and_copy-Looped :
      (start end : ℕ) (dst : Pfns) (w : World) (held used : ℕ → Bool)
      → UsesSources src used
      → Good w.device held
      → AllLawful (rounds start end) 0 dst w used
      → let (v, dst') = alloc_and_copy kind own vm_write ks src start end dst w in
        Looped (rounds start end) 0 dst w held used v dst'
  unfolding alloc_and_copy
  alloc_and_copy-Looped start end dst w held used =
      alloc_and_copy_loop-Looped (rounds start end) 0 dst w held used
