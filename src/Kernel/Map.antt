-- ===== src/Kernel/Map.antt =====
-- XArrays that meet the interface: functions from indices to entries, of which one finds no memory
-- for a store at an index from `limit` on.
use rshm_hmm.Base.{ℕ, ◌<◌, ◌≡◌, refl, arith, ltb, ◌==◌, if◌then◌else◌}
use rshm_hmm.Kernel.{Entry, null_entry, Stored, stored, xa_err, XArray, enomem}

abbrev Table : Type 0
Table = ℕ → Entry

abbrev place : Table → ℕ → Entry → Table
place t i e j = if i == j then e else t j

abbrev try_place : ℕ → Table → ℕ → Entry → Stored Table
try_place limit t i e = if ltb i limit then stored (place t i e) else xa_err enomem

pub load-place :
    (x y : Table) (i j : ℕ) (e : Entry)
    → stored (place x i e) ≡ stored y
    → y j ≡ (if i == j then e else x j)
load-place x y i j e h = ground (arith, h)

pub place_err : (x : Table) (i n : ℕ) (e : Entry) → (stored (place x i e) ≡ xa_err n) → 0 < n
place_err x i n e h = ground arith

pub load-try_place :
    (limit : ℕ) (x y : Table) (i j : ℕ) (e : Entry)
    → try_place limit x i e ≡ stored y
    → y j ≡ (if i == j then e else x j)
load-try_place limit x y i j e h = ground (arith, h)

pub try_place_err :
    (limit : ℕ) (x : Table) (i n : ℕ) (e : Entry) → try_place limit x i e ≡ xa_err n → 0 < n
try_place_err limit x i n e h = ground arith

abbrev pub bounded_map : ℕ → XArray
bounded_map limit = record {
  Xa = Table;
  empty = λ i. null_entry;
  load = λ t i. t i;
  store = try_place limit;
  erase = λ t i. place t i null_entry;
  load-empty = λ i. refl;
  load-store = load-try_place limit;
  store_err_pos = try_place_err limit;
  load-erase = λ x i j. refl;
}

-- One in which every store finds memory.
abbrev pub roomy_map : XArray
roomy_map = record {
  Xa = Table;
  empty = λ i. null_entry;
  load = λ t i. t i;
  store = λ t i e. stored (place t i e);
  erase = λ t i. place t i null_entry;
  load-empty = λ i. refl;
  load-store = load-place;
  store_err_pos = place_err;
  load-erase = λ x i j. refl;
}
