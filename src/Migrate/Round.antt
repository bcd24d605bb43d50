-- ===== src/Migrate/Round.antt =====
-- One round of dmirror_migrate_alloc_and_copy of hmm.c: the device page that it takes, the copy, and
-- what it leaves alone.
use rshm_hmm.Base.{
  ℕ, ◌≡◌, ◌≢◌, refl, sym, subst, ◌∙◌, inl, inr, Bool, true, false, not, ◌&&◌, ◌||◌, List, arith,
  ◌==◌, ==_refl, ne→==, ==→eq, Bool-cases, if◌then◌else◌,
}
use rshm_hmm.Kernel.{Memory}
use rshm_hmm.Snapshot.{PageKind}
use rshm_hmm.Devmem.{Device, ChunkAnswers, set_zdd, devmem_alloc_page, is_private_zone}
use rshm_hmm.Devmem.Backing.{zdd-devmem_alloc_page, private-devmem_alloc_page, alloc_backed}
use rshm_hmm.Devmem.Chunks.{in_chunks}
use rshm_hmm.Devmem.Pages.{Page, null, taken, devmem_alloc_page-Page, set_zdd-Inv}
use rshm_hmm.Devmem.Pool.{has, hold, has-Off}
use rshm_hmm.Devmem.Refines.{
  System, Sim, IsNewRegion, IsNewRegion-IsFreeRegion, ask, Step-Simulated, Page-not_held,
}
use rshm_hmm.Migrate.{MigratePfn, Alloc, World, blank, is_device, copy_to_device, alloc_one}

abbrev pub system_of : Device → (ℕ → Bool) → System
system_of d held = record { device = d; held = held }

-- The kernel's answers are what a round needs: a new region, and a system page that nobody uses.
pub record IsLawful (k : Alloc) (d : Device) (used : ℕ → Bool) : Type 0 where
  pub new : IsNewRegion k.chunk d.chunks
  pub unused : k.rpage ≢ 0 → used k.rpage ≡ false
  pub outside : in_chunks (devmem_alloc_page d k.chunk k.rpage).0.chunks k.rpage ≡ false

-- A device of the private type, its free list, and the device pages in use.
pub record Good (d : Device) (held : ℕ → Bool) : Type 0 where
  pub free : List ℕ
  pub sim : Sim (system_of d held) free
  pub private : is_private_zone d ≡ true

-- How a call of dmirror_devmem_alloc_page ends on such a device.
pub data Got (d : Device) (held : ℕ → Bool) (k : Alloc) (d' : Device) (page : ℕ) : Type 0 where
  no_page : page ≡ 0 → Good d' held → Got d held k d' page
  a_page :
      page ≢ 0
      → k.rpage ≢ 0
      → held page ≡ false
      → Good d' (hold held page true)
      → d'.zdd page ≡ k.rpage
      → Got d held k d' page

Page-zdd :
    {d : Device} {ps : List ℕ} {k : ChunkAnswers} {rpage : ℕ} {d' : Device} {page : ℕ}
    → Page d ps k rpage d' page
    → page ≢ 0
    → d'.zdd page ≡ (if is_private_zone d then rpage else 0)
Page-zdd (null _ z _ _ _) ne = absurd (ne z)
Page-zdd (taken _ _ _ _ _ z _ _) ne = z

pub alloc-Got :
    (d : Device) (held used : ℕ → Bool) (k : Alloc)
    → Good d held
    → IsLawful k d used
    → let (d', page) = devmem_alloc_page d k.chunk k.rpage in Got d held k d' page
alloc-Got d held used k g law =
    let d' = (devmem_alloc_page d k.chunk k.rpage).0 in
    let page = (devmem_alloc_page d k.chunk k.rpage).1 in
    let (qs, sim, _) =
      Step-Simulated (system_of d held) _ g.free g.sim (ask k.chunk k.rpage law.new) in
    let private : is_private_zone d' ≡ true =
      private-devmem_alloc_page d k.chunk k.rpage ∙ g.private in
    let held_by : Bool → Type 0 =
      λ b. Sim (record { device = d'; held = if b then held else hold held page true }) qs in
    let p : Page d g.free k.chunk k.rpage d' page =
      devmem_alloc_page-Page d g.free k.chunk k.rpage g.sim.inv
        (IsNewRegion-IsFreeRegion k.chunk (system_of d held) g.free g.sim law.new) in
    elim (Bool-cases (page == 0)) [
      | inl z ↦
          no_page (==→eq page 0 z)
            (record { free = qs; sim = subst held_by z sim; private = private })
      | inr nz ↦
          let ne : page ≢ 0 = ground (arith, nz) in
          a_page ne (alloc_backed d k.chunk k.rpage g.private ne)
            (Page-not_held (system_of d held) g.free k.chunk k.rpage d' page g.sim law.new p)
            (record { free = qs; sim = subst held_by nz sim; private = private })
            (Page-zdd p ne ∙ rw g.private refl)
    ]

-- What a round leaves of the entry of `dst`: the old one; or the device page, whose backing page has
-- what the source page had, or is blank where there is none, and which is writable as the source was.
pub data Entered (vm_write : Bool) (src old : MigratePfn) (mem : Memory) (w : World)
    (held used : ℕ → Bool) (e : MigratePfn) : Type 0 where
  left : e ≡ old → Entered vm_write src old mem w held used e
  entered :
      src.migrate ≡ true
      → e.page ≢ 0
      → e.write ≡ (src.write || src.page == 0 && vm_write)
      → w.memory (w.device.zdd e.page) ≡ (if src.page == 0 then blank else mem src.page)
      → held e.page ≡ true
      → used (w.device.zdd e.page) ≡ true
      → w.device.zdd e.page ≢ 0
      → Entered vm_write src old mem w held used e

-- From one state to a later one: what is in use stays in use, held device pages keep their backing
-- pages, and system pages in use keep their contents.
pub record Later (w : World) (held used : ℕ → Bool) (v : World) (held' used' : ℕ → Bool)
    : Type 0 where
  pub good : Good v.device held'
  pub held_on : (q : ℕ) → held q ≡ true → held' q ≡ true
  pub used_on : (p : ℕ) → used p ≡ true → used' p ≡ true
  pub zdd : (q : ℕ) → held q ≡ true → v.device.zdd q ≡ w.device.zdd q
  pub memory : (p : ℕ) → used p ≡ true → v.memory p ≡ w.memory p

hold_on : (used : ℕ → Bool) (p q : ℕ) → used q ≡ true → hold used p true q ≡ true
hold_on used p q h = ground (arith, h)

not_null : {d : Device} {held : ℕ → Bool} → Good d held → (q : ℕ) → held q ≡ true → 0 ≢ q
not_null {held = held} g q h e = cc (subst (λ t. held t ≡ true) (sym e) h, g.sim.frame.null_out)

-- A system page is none of the device's, so that a write to its zone_device_data changes nothing there.
Good-set_zdd :
    (d : Device) (held : ℕ → Bool) (rpage own : ℕ)
    → in_chunks d.chunks rpage ≡ false
    → Good d held
    → Good (set_zdd d rpage own) held
unfolding is_private_zone
Good-set_zdd d held rpage own out g = record {
  free = g.free;
  sim = record {
    inv = set_zdd-Inv d rpage own g.free (has-Off rpage g.free not_free) g.sim.inv;
    frame = g.sim.frame;
  };
  private = g.private;
}
  where
    not_free : has g.free rpage ≡ false
    not_free = elim (Bool-cases (has g.free rpage)) [
      | inr miss ↦ miss
      | inl hit ↦ cc (out, g.sim.frame.free_inside rpage hit)
    ]

abbrev Rounded :
    Bool
    → MigratePfn
    → MigratePfn
    → World
    → (ℕ → Bool)
    → (ℕ → Bool)
    → ℕ
    → World × MigratePfn
    → Type 0
Rounded vm_write src old w held used rpage (v, e) =
    (held' : ℕ → Bool) × Later w held used v held' (hold used rpage true)
    × Entered vm_write src old w.memory v held' (hold used rpage true) e

module _ (own : ℕ) (vm_write : Bool) (k : Alloc) (src old : MigratePfn) (w : World)
    (held used : ℕ → Bool) (good : Good w.device held) (law : IsLawful k w.device used) where
  abbrev out : Device
  out = (devmem_alloc_page w.device k.chunk k.rpage).0

  abbrev page : ℕ
  page = (devmem_alloc_page w.device k.chunk k.rpage).1

  zdd_kept : (q : ℕ) → held q ≡ true → page ≢ q → out.zdd q ≡ w.device.zdd q
  zdd_kept q h ne =
      zdd-devmem_alloc_page q w.device k.chunk k.rpage law.new (good.sim.frame.held_inside q h) ne

  idle : Rounded vm_write src old w held used k.rpage (w, old)
  idle = (
    held,
    record {
      good = good;
      held_on = λ q h. h;
      used_on = hold_on used k.rpage;
      zdd = λ q h. refl;
      memory = λ p h. refl;
    },
    left refl,
  )

  unserved :
      page ≡ 0
      → Good out held
      → Rounded vm_write src old w held used k.rpage (record w { device = out }, old)
  unserved z g = (
    held,
    record {
      good = g;
      held_on = λ q h. h;
      used_on = hold_on used k.rpage;
      zdd = λ q h. zdd_kept q h (λ e. not_null good q h (sym z ∙ e));
      memory = λ p h. refl;
    },
    left refl,
  )

  copied :
      page ≢ 0
      → k.rpage ≢ 0
      → held page ≡ false
      → Good out (hold held page true)
      → out.zdd page ≡ k.rpage
      → src.migrate ≡ true
      → Rounded vm_write src old w held used k.rpage
          (copy_to_device own vm_write src page (record w { device = out }))
  unfolding copy_to_device
  copied nz rp free g at migrate = rw (at) (
    hold held page true,
    record {
      good = Good-set_zdd out (hold held page true) k.rpage own law.outside g;
      held_on = hold_on held page;
      used_on = hold_on used k.rpage;
      zdd = λ q h.
          rw (not_rpage q (hold_on held page q h))
            (zdd_kept q h (λ e. cc (h, subst (λ t. held t ≡ false) e free)));
      memory = λ p h.
          rw (ne→== k.rpage p (λ e. cc (h, subst (λ t. used t ≡ false) e (law.unused rp)))) refl;
    },
    entered migrate nz refl (rw (not_rpage page (rw (==_refl page) refl), at, ==_refl k.rpage) refl)
        (rw (==_refl page) refl)
        (rw (not_rpage page (rw (==_refl page) refl), at, ==_refl k.rpage) refl)
        (λ e. rp (sym (rw (not_rpage page (rw (==_refl page) refl), at) refl) ∙ e)),
  )
    where
      not_rpage : (q : ℕ) → hold held page true q ≡ true → (k.rpage == q) ≡ false
      not_rpage q h = ne→== k.rpage q (λ e.
          cc (
            subst (λ t. in_chunks out.chunks t ≡ false) e law.outside,
            g.sim.frame.held_inside q h,
          ))

  -- One round of dmirror_migrate_alloc_and_copy.
  pub alloc_one-Round :
      (kind : ℕ → PageKind)
      → Rounded vm_write src old w held used k.rpage (alloc_one kind own vm_write k src old w)
  unfolding alloc_one
  alloc_one-Round kind = elim (Bool-cases src.migrate) [
    | inr stays ↦ simp (stays, alloc_one) idle
    | inl moves ↦
        simp (moves, alloc_one)
          (elim (Bool-cases (not (src.page == 0) && is_device (kind src.page))) [
            | inl device ↦ simp (device, alloc_one) idle
            | inr sys ↦
                simp (sys, alloc_one)
                  (elim (alloc-Got w.device held used k good law) [
                    | no_page z g ↦ simp (z, alloc_one) (unserved z g)
                    | a_page nz rp free g at ↦
                        simp (ne→== page 0 nz, alloc_one) (copied nz rp free g at moves)
                  ])
          ])
  ]
