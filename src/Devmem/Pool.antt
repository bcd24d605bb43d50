-- ===== src/Devmem/Pool.antt =====
-- What the device memory of hmm.c promises: a pool in which every page frame is foreign to the device,
-- free, or in use; and the pool of a free list and of the pages that users hold.
use rshm_hmm.Base.{
  ℕ, zero, suc, ◌+◌, ◌≡◌, refl, fun_ext, inl, inr, Bool, true, false, ◌&&◌, ◌||◌, List, [], ◌∷◌,
  arith, leb, ltb, ◌==◌, ==_refl, ==→eq, Bool-cases, if◌then◌else◌,
}
use rshm_hmm.Devmem.FreeList.{Off, onto}

pub data Status : Type 0 where
  foreign : Status
  free : Status
  in_use : Status

abbrev pub Pool : Type 0
Pool = ℕ → Status

abbrev pub mark : Pool → ℕ → Status → Pool
mark s p v q = if p == q then v else s q

abbrev pub in_range : ℕ → ℕ → ℕ → Bool
in_range n first q = leb first q && ltb q (first + n)

-- A page is given to a user, comes back, or joins the pool with its neighbours.
pub data PoolStep (s t : Pool) : Type 0 where
  give : (p : ℕ) → s p ≡ free → t ≡ mark s p in_use → PoolStep s t
  back : (p : ℕ) → s p ≡ in_use → t ≡ mark s p free → PoolStep s t
  join :
      (n first : ℕ)
      → ((q : ℕ) → in_range n first q ≡ true → s q ≡ foreign)
      → t ≡ (λ q. if in_range n first q then free else s q)
      → PoolStep s t

pub data PoolRun (s : Pool) : Pool → Type 0 where
  start : PoolRun s s
  and_then : {t u : Pool} → PoolRun s t → PoolStep t u → PoolRun s u

abbrev pub has : List ℕ → ℕ → Bool
has [] q = false
has (p ∷ ps) q = p == q || has ps q

abbrev pub pool_of : List ℕ → (ℕ → Bool) → Pool
pool_of ps held q = if has ps q then free else if held q then in_use else foreign

abbrev pub hold : (ℕ → Bool) → ℕ → Bool → ℕ → Bool
hold held p b q = if p == q then b else held q

pub Off-has : (p : ℕ) (qs : List ℕ) → Off p qs → has qs p ≡ false
Off-has p [] o = refl
Off-has p (q ∷ qs) (ne, o) = ground (arith, Off-has p qs o, ne)

pub has-Off : (p : ℕ) (qs : List ℕ) → has qs p ≡ false → Off p qs
has-Off p [] h = tt
has-Off p (q ∷ qs) h = (ground (arith, h), has-Off p qs (ground (arith, h)))

pub has-onto :
    (n first : ℕ) (ps : List ℕ) (q : ℕ) → has (onto n first ps) q ≡ (in_range n first q || has ps q)
unfolding onto
has-onto zero first ps q = ground arith
has-onto (suc n) first ps q = ground (arith, has-onto n (first + 1) (first ∷ ps) q)

-- The first page of the free list is given.
pub give_first :
    (p : ℕ) (qs : List ℕ) (held : ℕ → Bool)
    → Off p qs
    → PoolStep (pool_of (p ∷ qs) held) (pool_of qs (hold held p true))
give_first p qs held off = give p (rw (==_refl p) refl) (fun_ext same)
  where
    same : (q : ℕ) → pool_of qs (hold held p true) q ≡ mark (pool_of (p ∷ qs) held) p in_use q
    same q = elim (Bool-cases (p == q)) [
      | inl e ↦ ground (arith, Off-has p qs off, ==→eq p q e)
      | inr ne ↦ rw ne refl
    ]

-- A page in use goes to the front of the free list.
pub back_first :
    (p : ℕ) (ps : List ℕ) (held : ℕ → Bool)
    → held p ≡ true
    → has ps p ≡ false
    → PoolStep (pool_of ps held) (pool_of (p ∷ ps) (hold held p false))
back_first p ps held h miss = back p (rw (miss, h) refl) (fun_ext same)
  where
    same : (q : ℕ) → pool_of (p ∷ ps) (hold held p false) q ≡ mark (pool_of ps held) p free q
    same q = elim (Bool-cases (p == q)) [ inl e ↦ rw e refl | inr ne ↦ rw ne refl ]

-- The pages of a new chunk join the free list.
pub join_front :
    (n first : ℕ) (ps : List ℕ) (held : ℕ → Bool)
    → ((q : ℕ) → in_range n first q ≡ true → pool_of ps held q ≡ foreign)
    → PoolStep (pool_of ps held) (pool_of (onto n first ps) held)
join_front n first ps held new = join n first new (fun_ext same)
  where
    same :
        (q : ℕ)
        → pool_of (onto n first ps) held q
          ≡ (if in_range n first q then free else pool_of ps held q)
    same q = elim (Bool-cases (in_range n first q)) [
      | inl e ↦ rw (has-onto n first ps q, e) refl
      | inr ne ↦ rw (has-onto n first ps q, ne) refl
    ]
