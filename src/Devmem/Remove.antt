-- ===== src/Devmem/Remove.antt =====
-- dmirror_remove_free_pages of hmm.c: what it leaves of the free list.
use rshm_hmm.Base.{
  ℕ, zero, suc, ◌≤◌, ◌==◌, ◌<◌, ◌≡◌, refl, sym, ap, subst, ◌∙◌, inl, inr, true, false, some, List,
  [], ◌∷◌, ◌++◌, length, arith, ne→==, Bool-cases, Option-cases, if◌then◌else◌,
}
use rshm_hmm.Devmem.{
  Device, Chunk, has_page, remove_loop, remove_free_pages, devmem_free, is_removed,
}
use rshm_hmm.Devmem.FreeList.{Chain}

-- The pages behind the last one of the chunk among `ps`, or `cur` if there is none.
pub behind : Chunk → List ℕ → List ℕ → List ℕ
behind c [] cur = cur
behind c (p ∷ ps) cur = behind c ps (if has_page c p then ps else cur)

abbrev pub NoneOf : Chunk → List ℕ → Type 0
NoneOf c [] = Unit {0}
NoneOf c (p ∷ ps) = (has_page c p ≡ false) × NoneOf c ps

-- A page of the chunk is dropped with all that stand before it.
pub behind_page :
    (c : Chunk) (before : List ℕ) (q : ℕ) (qs cur : List ℕ)
    → has_page c q ≡ true
    → behind c (before ++ q ∷ qs) cur ≡ behind c qs qs
unfolding behind
behind_page c [] q qs cur h = ap (behind c qs) (rw h)
behind_page c (p ∷ before) q qs cur h =
    behind_page c before q qs (if has_page c p then before ++ q ∷ qs else cur) h

behind_none : (c : Chunk) (ps cur : List ℕ) → NoneOf c ps → behind c ps cur ≡ cur
unfolding behind
behind_none c [] cur h = refl
behind_none c (p ∷ ps) cur (miss, h) = rw miss (behind_none c ps cur h)

-- `kept` is what stands behind the last page of the chunk so far, of which the rest `ps` is a part.
NoneOf-behind :
    (c : Chunk) (ps cur : List ℕ) → (NoneOf c ps → NoneOf c cur) → NoneOf c (behind c ps cur)
unfolding behind
NoneOf-behind c [] cur h = h tt
NoneOf-behind c (p ∷ ps) cur h = elim (Bool-cases (has_page c p)) [
  | inl hit ↦ rw hit (NoneOf-behind c ps ps (λ n. n))
  | inr miss ↦ rw miss (NoneOf-behind c ps cur (λ n. h (miss, n)))
]

remove_loop-behind :
    (fuel : ℕ) (c : Chunk) (zdd : ℕ → ℕ) (page head : ℕ) (ps cur : List ℕ)
    → length ps < fuel
    → Chain zdd page ps
    → Chain zdd head cur
    → (h : ℕ) × (remove_loop fuel c zdd page head ≡ some h) × Chain zdd h (behind c ps cur)
unfolding remove_loop behind
remove_loop-behind zero c zdd page head ps cur lt chain kept = absurd (omega arith)
remove_loop-behind (suc fuel) c zdd page head [] cur lt chain kept = rw chain (head, refl, kept)
remove_loop-behind (suc fuel) c zdd page head (p ∷ ps) cur lt (at, ne, chain) kept =
    subst
      (λ t.
        (h : ℕ) × (remove_loop (suc fuel) c zdd t head ≡ some h)
        × Chain zdd h (behind c (p ∷ ps) cur))
      (sym at)
      (rw (ne→== p 0 ne, remove_loop)
        (elim (Bool-cases (has_page c p)) [
          | inl hit ↦
              rw hit (remove_loop-behind fuel c zdd (zdd p) (zdd p) ps ps (omega arith) chain chain)
          | inr miss ↦
              rw miss (remove_loop-behind fuel c zdd (zdd p) head ps cur (omega arith) chain kept)
        ]))

-- dmirror_remove_free_pages, with fuel for the free pages and one more, ends, and leaves the pages
-- behind the last page of the chunk: none of them is of the chunk.
pub remove_free_pages-behind :
    (fuel : ℕ) (d : Device) (c : Chunk) (ps : List ℕ)
    → length ps < fuel
    → Chain d.zdd d.free_pages ps
    → (d' : Device) × (remove_free_pages fuel d c ≡ some d')
      × Chain d'.zdd d'.free_pages (behind c ps ps)
      × NoneOf c (behind c ps ps)
unfolding remove_free_pages
remove_free_pages-behind fuel d c ps lt chain =
    let (h, e, left) =
      remove_loop-behind fuel c d.zdd d.free_pages d.free_pages ps ps lt chain chain in
    (record d { free_pages = h }, rw (e, remove_free_pages), left, NoneOf-behind c ps ps (λ n. n))

-- Free pages of other chunks leave the list too: whatever stands before the last page of the chunk
-- in the free list is not in it any more, whichever chunk it is of. Fuel is as above.
pub remove_free_pages_drops :
    (fuel : ℕ) (d : Device) (c : Chunk) (before : List ℕ) (q : ℕ) (qs : List ℕ)
    → length (before ++ q ∷ qs) < fuel
    → Chain d.zdd d.free_pages (before ++ q ∷ qs)
    → has_page c q ≡ true
    → NoneOf c qs
    → (d' : Device) × (remove_free_pages fuel d c ≡ some d') × Chain d'.zdd d'.free_pages qs
remove_free_pages_drops fuel d c before q qs lt chain h none_left =
    let (d', e, left, _) = remove_free_pages-behind fuel d c (before ++ q ∷ qs) lt chain in
    (
      d',
      e,
      subst (Chain d'.zdd d'.free_pages)
          (behind_page c before q qs (before ++ q ∷ qs) h ∙ behind_none c qs qs none_left) left,
    )

pub length-behind :
    (c : Chunk) (ps cur : List ℕ) (n : ℕ)
    → length ps ≤ n
    → length cur ≤ n
    → length (behind c ps cur) ≤ n
unfolding behind
length-behind c [] cur n le le' = le'
length-behind c (p ∷ ps) cur n le le' =
    length-behind c ps (if has_page c p then ps else cur) n (omega (arith, le))
      (ground (arith, le, le'))

-- A page of a chunk that is being removed does not go back to the free list.
pub devmem_free_removed :
    (d : Device) (page : ℕ)
    → is_removed d.chunks page ≡ true
    → devmem_free d page ≡ record d { backing = (devmem_free d page).backing }
unfolding devmem_free
devmem_free_removed d page going = elim (Bool-cases (d.zdd page == page)) [
  | inl own ↦ rw (own, going) refl
  | inr backed ↦ rw (backed, going) refl
]

abbrev pub AllRemoving : List Chunk → Type 0
AllRemoving [] = Unit {0}
AllRemoving (c ∷ cs) = (c.remove ≡ true) × AllRemoving cs

pub is_removed-append :
    (before : List Chunk) (c : Chunk) (after : List Chunk) (page : ℕ)
    → AllRemoving before
    → c.remove ≡ true
    → has_page c page ≡ true
    → is_removed (before ++ c ∷ after) page ≡ true
unfolding is_removed
is_removed-append [] c after page all r h = rw h r
is_removed-append (b ∷ before) c after page (rb, all) r h = elim (Bool-cases (has_page b page)) [
  | inl hit ↦ rw hit rb
  | inr miss ↦ rw miss (is_removed-append before c after page all r h)
]

pub AllRemoving-append :
    (before : List Chunk) (c : Chunk)
    → AllRemoving before
    → c.remove ≡ true
    → AllRemoving (before ++ c ∷ [])
AllRemoving-append [] c all r = (r, tt)
AllRemoving-append (b ∷ before) c (rb, all) r = (rb, AllRemoving-append before c all r)

pub remove_free_pages_frame :
    (fuel : ℕ) (d d' : Device) (c : Chunk)
    → remove_free_pages fuel d c ≡ some d'
    → d' ≡ record d { free_pages = d'.free_pages }
unfolding remove_free_pages
remove_free_pages_frame fuel d d' c e =
    elim (Option-cases (remove_loop fuel c d.zdd d.free_pages d.free_pages)) [
      | inl stuck ↦ cc (rw (stuck, remove_free_pages) at e)
      | inr (head, is) ↦
          let found : remove_free_pages fuel d c ≡ some (record d { free_pages = head }) =
            rw (is, remove_free_pages) refl in
          let here : record d { free_pages = head } ≡ d' = cc (e, found) in
          subst (λ t. t ≡ record d { free_pages = t.free_pages }) here refl
    ]
