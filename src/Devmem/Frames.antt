-- ===== src/Devmem/Frames.antt =====
-- The free list and the held pages of a device of hmm.c side by side: they share no page, and their
-- pages are pages of its chunks.
use rshm_hmm.Base.{
  ℕ, ◌≡◌, ◌≢◌, refl, sym, subst, ◌∙◌, ◌⊎◌, inl, inr, Bool, true, false, List, [], ◌∷◌, ◌++◌, arith,
  ◌==◌, ne→==, ==→eq, Bool-cases,
}
use rshm_hmm.Kernel.{shr_page}
use rshm_hmm.Devmem.{Chunk, new_chunk, pages_of, has_page, is_removed}
use rshm_hmm.Devmem.Chunks.{in_chunks, in_chunks-append, Apart, Apart-page}
use rshm_hmm.Devmem.FreeList.{Off, Outside, onto}
use rshm_hmm.Devmem.Pool.{PoolStep, has, hold, pool_of, in_range, Off-has, has-onto, join_front}

abbrev pub Kept : List Chunk → Type 0
Kept [] = Unit {0}
Kept (c ∷ cs) = (c.remove ≡ false) × Kept cs

-- The free list `ps` and the held pages share nothing, and are pages of chunks that nobody removes.
pub record Frame (cs : List Chunk) (held : ℕ → Bool) (ps : List ℕ) : Type 0 where
  pub apart : (q : ℕ) → has ps q ≡ true → held q ≡ false
  pub free_inside : (q : ℕ) → has ps q ≡ true → in_chunks cs q ≡ true
  pub held_inside : (q : ℕ) → held q ≡ true → in_chunks cs q ≡ true
  pub kept : Kept cs
  pub null_out : held 0 ≡ false

pub not_removed : (cs : List Chunk) (page : ℕ) → Kept cs → is_removed cs page ≡ false
unfolding is_removed
not_removed [] page k = refl
not_removed (c ∷ cs) page (r, k) = elim (Bool-cases (has_page c page)) [
  | inl hit ↦ rw hit r
  | inr miss ↦ rw miss (not_removed cs page k)
]

Kept-append : (cs : List Chunk) (c : Chunk) → Kept cs → c.remove ≡ false → Kept (cs ++ c ∷ [])
Kept-append [] c k r = (r, tt)
Kept-append (b ∷ cs) c (kb, k) r = (kb, Kept-append cs c k r)

pub Apart-Outside :
    (first n : ℕ) (cs : List Chunk) (ps : List ℕ)
    → Apart first n cs
    → ((q : ℕ) → has ps q ≡ true → in_chunks cs q ≡ true)
    → Outside first n ps
Apart-Outside first n cs [] a inside = tt
Apart-Outside first n cs (p ∷ ps) a inside = (
  Apart-page first n cs p a (inside p (ground arith)),
  Apart-Outside first n cs ps a (λ q h. inside q (ground (arith, h))),
)

in_longer :
    (cs : List Chunk) (c : Chunk) (q : ℕ)
    → in_chunks cs q ≡ true
    → in_chunks (cs ++ c ∷ []) q ≡ true
in_longer cs c q h = in_chunks-append cs c q ∙ rw h refl

in_new :
    (cs : List Chunk) (c : Chunk) (q : ℕ)
    → in_range (pages_of c) (shr_page c.start) q ≡ true
    → in_chunks (cs ++ c ∷ []) q ≡ true
in_new cs c q h = in_chunks-append cs c q ∙ ground (arith, h)

-- A new chunk in front of the free list.
module _ (cs : List Chunk) (held : ℕ → Bool) (ps : List ℕ) (f : Frame cs held ps) (at : ℕ)
    (apart : Apart (shr_page at) (pages_of (new_chunk at)) cs) where
  abbrev in_new_range : ℕ → Bool
  in_new_range = in_range (pages_of (new_chunk at)) (shr_page at)

  not_inside : (q : ℕ) → in_new_range q ≡ true → in_chunks cs q ≡ false
  not_inside q h = elim (Bool-cases (in_chunks cs q)) [
    | inr miss ↦ miss
    | inl hit ↦ ground (arith, h, Apart-page (shr_page at) (pages_of (new_chunk at)) cs q apart hit)
  ]

  not_held : (q : ℕ) → in_new_range q ≡ true → held q ≡ false
  not_held q h = elim (Bool-cases (held q)) [
    | inr miss ↦ miss
    | inl hit ↦ cc (f.held_inside q hit, not_inside q h)
  ]

  not_free : (q : ℕ) → in_new_range q ≡ true → has ps q ≡ false
  not_free q h = elim (Bool-cases (has ps q)) [
    | inr miss ↦ miss
    | inl hit ↦ cc (f.free_inside q hit, not_inside q h)
  ]

  abbrev more : List ℕ
  more = onto (pages_of (new_chunk at)) (shr_page at) ps

  has-more : (q : ℕ) → has more q ≡ true → (in_new_range q ≡ true) ⊎ (has ps q ≡ true)
  has-more q h = elim (Bool-cases (in_new_range q)) [
    | inl new ↦ inl new
    | inr old ↦ inr (sym (has-onto (pages_of (new_chunk at)) (shr_page at) ps q ∙ rw old refl) ∙ h)
  ]

  pub join_new : PoolStep (pool_of ps held) (pool_of more held)
  join_new =
      join_front (pages_of (new_chunk at)) (shr_page at) ps held
        (λ q h. rw (not_free q h, not_held q h) refl)

  pub Frame-more : Frame (cs ++ new_chunk at ∷ []) held more
  Frame-more = record {
    apart = λ q h. elim (has-more q h) [ inl new ↦ not_held q new | inr old ↦ f.apart q old ];
    free_inside = λ q h. elim (has-more q h) [
      | inl new ↦ in_new cs (new_chunk at) q new
      | inr old ↦ in_longer cs (new_chunk at) q (f.free_inside q old)
    ];
    held_inside = λ q h. in_longer cs (new_chunk at) q (f.held_inside q h);
    kept = Kept-append cs (new_chunk at) f.kept refl;
    null_out = f.null_out;
  }

pub Frame-give :
    (cs : List Chunk) (held : ℕ → Bool) (p : ℕ) (qs : List ℕ)
    → p ≢ 0
    → Off p qs
    → Frame cs held (p ∷ qs)
    → Frame cs (hold held p true) qs
Frame-give cs held p qs ne off f = record {
  apart = λ q h. elim (Bool-cases (p == q)) [
    | inl e ↦ ground (arith, h, Off-has p qs off, ==→eq p q e)
    | inr other ↦ rw other (f.apart q (ground (arith, h)))
  ];
  free_inside = λ q h. f.free_inside q (ground (arith, h));
  held_inside = λ q h. elim (Bool-cases (p == q)) [
    | inl e ↦ f.free_inside q (rw e refl)
    | inr other ↦ f.held_inside q (rw other at h)
  ];
  kept = f.kept;
  null_out = rw (ne→== p 0 ne) f.null_out;
}

pub Frame-back :
    (cs : List Chunk) (held : ℕ → Bool) (p : ℕ) (ps : List ℕ)
    → held p ≡ true
    → Frame cs held ps
    → Frame cs (hold held p false) (p ∷ ps)
Frame-back cs held p ps hp f = record {
  apart = λ q h. elim (Bool-cases (p == q)) [
    | inl e ↦ rw e refl
    | inr other ↦ rw other (f.apart q (rw other at h))
  ];
  free_inside = λ q h. elim (Bool-cases (p == q)) [
    | inl e ↦ f.held_inside q (subst (λ t. held t ≡ true) (==→eq p q e) hp)
    | inr other ↦ f.free_inside q (rw other at h)
  ];
  held_inside = λ q h. elim (Bool-cases (p == q)) [
    | inl e ↦ cc (rw e at h)
    | inr other ↦ f.held_inside q (rw other at h)
  ];
  kept = f.kept;
  null_out = elim (Bool-cases (p == 0)) [ inl e ↦ rw e refl | inr other ↦ rw other f.null_out ];
}
