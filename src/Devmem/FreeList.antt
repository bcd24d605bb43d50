-- ===== src/Devmem/FreeList.antt =====
-- The free list of device pages of hmm.c: the chain through zone_device_data, and pushes to it.
use rshm_hmm.Base.{
  ℕ, zero, suc, ◌+◌, ◌≤◌, ◌<◌, ◌≡◌, refl, ap, ◌∙◌, ◌≢◌, ◌⊎◌, List, [], ◌∷◌, length, arith, ◌==◌,
  ne→==, ==_refl, if◌then◌else◌,
}
use rshm_hmm.Devmem.{Device, push_free, push_all}

-- From `head` the pointers lead through the pages `ps` to NULL.
abbrev pub Chain : (ℕ → ℕ) → ℕ → List ℕ → Type 0
Chain zdd head [] = head ≡ 0
Chain zdd head (p ∷ ps) = (head ≡ p) × (p ≢ 0) × Chain zdd (zdd p) ps

abbrev pub Off : ℕ → List ℕ → Type 0
Off p [] = Unit {0}
Off p (q ∷ qs) = (p ≢ q) × Off p qs

abbrev pub Distinct : List ℕ → Type 0
Distinct [] = Unit {0}
Distinct (p ∷ ps) = Off p ps × Distinct ps

-- A write to the field of a page that is not in the chain leaves it alone.
pub Chain-write :
    (zdd : ℕ → ℕ) (head page v : ℕ) (ps : List ℕ)
    → Off page ps
    → Chain zdd head ps
    → Chain (λ q. if page == q then v else zdd q) head ps
Chain-write zdd head page v [] off c = c
Chain-write zdd head page v (p ∷ ps) (ne, off) (at, pos, c) =
    (at, pos, rw (ne→== page p ne) (Chain-write zdd (zdd p) page v ps off c))

pub push_free-Chain :
    (d : Device) (page : ℕ) (ps : List ℕ)
    → page ≢ 0
    → Off page ps
    → Chain d.zdd d.free_pages ps
    → let d' = push_free d page in Chain d'.zdd d'.free_pages (page ∷ ps)
push_free-Chain d page ps ne off c =
    (refl, ne, rw (==_refl page) (Chain-write d.zdd d.free_pages page d.free_pages ps off c))

-- The page frames from `pfn` on, the last one first, in front of a list.
unfoldable pub onto : ℕ → ℕ → List ℕ → List ℕ
onto zero pfn ps = ps
onto (suc n) pfn ps = onto n (pfn + 1) (pfn ∷ ps)

-- None of the `n` page frames from `pfn` on is in the list.
abbrev pub Outside : ℕ → ℕ → List ℕ → Type 0
Outside pfn n [] = Unit {0}
Outside pfn n (q ∷ qs) = ((q < pfn) ⊎ (pfn + n ≤ q)) × Outside pfn n qs

Outside-suc :
    (pfn n : ℕ) (ps : List ℕ) → Outside pfn (suc n) ps → Off pfn ps × Outside (pfn + 1) n ps
Outside-suc pfn n [] o = (tt, tt)
Outside-suc pfn n (q ∷ qs) (o, os) =
    let (a, b) = Outside-suc pfn n qs os in ((omega arith, a), (omega arith, b))

-- The loop over a new chunk puts its pages in front of the chain.
pub push_all-Chain :
    (n pfn : ℕ) (d : Device) (ps : List ℕ)
    → 0 < pfn
    → Outside pfn n ps
    → Distinct ps
    → Chain d.zdd d.free_pages ps
    → let d' = push_all n pfn d in
      Chain d'.zdd d'.free_pages (onto n pfn ps) × Distinct (onto n pfn ps)
unfolding push_all onto
push_all-Chain zero pfn d ps pos o u c = (c, u)
push_all-Chain (suc n) pfn d ps pos o u c =
    let (off, rest) = Outside-suc pfn n ps o in
    push_all-Chain n (pfn + 1) (push_free d pfn) (pfn ∷ ps) (omega arith) (omega arith, rest)
      (off, u) (push_free-Chain d pfn ps (omega arith) off c)

pub length-onto : (n pfn : ℕ) (ps : List ℕ) → length (onto n pfn ps) ≡ n + length ps
unfolding onto
length-onto zero pfn ps = omega arith
length-onto (suc n) pfn ps = omega (arith, length-onto n (pfn + 1) (pfn ∷ ps))

-- The page frame that was pushed last stands first.
pub onto-suc : (n pfn : ℕ) (ps : List ℕ) → onto (suc n) pfn ps ≡ (pfn + n) ∷ onto n pfn ps
unfolding onto
onto-suc zero pfn ps = let e : pfn ≡ pfn + 0 = omega arith in ap (λ (t : ℕ). t ∷ ps) e
onto-suc (suc n) pfn ps =
    onto-suc n (pfn + 1) (pfn ∷ ps) ∙ (let e : pfn + 1 + n ≡ pfn + suc n = omega arith in rw e)
