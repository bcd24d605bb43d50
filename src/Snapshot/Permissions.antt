-- ===== src/Snapshot/Permissions.antt =====
-- dmirror_mkentry of hmm.c: what a permission byte says.
use rshm_hmm.Base.{ℕ, ◌*◌, ◌/◌, ◌%◌, ◌<◌, ◌≡◌, refl, true, false, arith, ◌==◌, if◌then◌else◌}
use rshm_hmm.Mirror.{HmmPfn}
use rshm_hmm.Snapshot.{
  PageKind, device_private, device_coherent, zero_page, system, prot_place, prot_order, mkentry,
}

-- Where a page is: 0 in system memory, 1 the zero page, 2 and 3 device private, 4 and 5 device
-- coherent memory, of the own device or of another.
pub place_code : ℕ → PageKind → ℕ
place_code own (device_private dev) = if own == dev then 2 else 3
place_code own (device_coherent dev) = if own == dev then 4 else 5
place_code own zero_page = 1
place_code own system = 0

prot_place-place_code : (own : ℕ) (k : PageKind) → prot_place own k ≡ place_code own k * 16
unfolding prot_place place_code
prot_place-place_code own (device_private dev) = ground arith
prot_place-place_code own (device_coherent dev) = ground arith
prot_place-place_code own zero_page = refl
prot_place-place_code own system = refl

place_code_bound : (own : ℕ) (k : PageKind) → place_code own k < 6
unfolding place_code
place_code_bound own (device_private dev) = ground arith
place_code_bound own (device_coherent dev) = ground arith
place_code_bound own zero_page = omega arith
place_code_bound own system = omega arith

-- The byte of an entry that is valid and no error: the upper four bits say where the page is, the two
-- lowest ones whether it may be written, and the two between whether a PMD or a PUD maps it. It is a
-- byte, and not that of an error.
pub mkentry_fields :
    (own : ℕ) (kind : ℕ → PageKind) (p : HmmPfn)
    → p.error ≡ false
    → p.valid ≡ true
    → let b = mkentry own kind p in
      (b / 16 ≡ place_code own (kind p.page))
      × (b % 4 ≡ (if p.write then 2 else 1))
      × (b / 4 % 4 ≡ (if p.map_order == 9 then 1 else if p.map_order == 18 then 2 else 0))
      × (b < 255)
unfolding mkentry prot_order
mkentry_fields own kind p good valid =
    rw (good, valid, prot_place-place_code own (kind p.page))
      (ground (arith, place_code_bound own (kind p.page)))
