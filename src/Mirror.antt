-- ===== src/Mirror.antt =====
-- struct dmirror of hmm.c and the functions on its page table: dmirror_do_fault,
-- dmirror_do_update, dmirror_interval_invalidate, dmirror_check_atomic and dmirror_atomic_map. The
-- page table is an XArray, a parameter. A loop over page frame numbers counts the rounds left.
pub mod Update
pub mod Fault
pub mod Atomic
pub mod Marks
mod Examples
use rshm_hmm.Base.{
  ℕ, zero, suc, ◌+◌, ◌-◌, Bool, true, false, not, ◌&&◌, Option, none, some, ◌==◌, if◌then◌else◌,
}
use rshm_hmm.Kernel.{Entry, entry, is_null, stored, xa_err, XArray, shr_page, efault, eperm}

abbrev pub tag_atomic : ℕ
tag_atomic = 1

abbrev pub tag_write : ℕ
tag_write = 3

-- `locked` is the state of `mutex`, and `seq` the sequence number of `notifier`.
pub record Dmirror (Xa : Type 0) : Type 0 where
  pub mdevice : ℕ
  pub pt : Xa
  pub seq : ℕ
  pub locked : Bool

-- An entry of `hmm_pfns`: the flags that the driver tests, and the page.
pub record HmmPfn : Type 0 where
  pub error : Bool
  pub valid : Bool
  pub write : Bool
  pub page : ℕ
  pub map_order : ℕ

-- `req_write` is the flag HMM_PFN_REQ_WRITE of `default_flags`, the same bit as HMM_PFN_WRITE.
pub record HmmRange : Type 0 where
  pub start : ℕ
  pub end : ℕ
  pub req_write : Bool

-- A notifier callback's arguments.
pub record Notice : Type 0 where
  pub start : ℕ
  pub end : ℕ
  pub is_migrate : Bool
  pub owner : ℕ
  pub blockable : Bool
  pub cur_seq : ℕ

abbrev pub lock : {X : Type 0} → Dmirror X → Dmirror X
lock d = record d { locked = true }

abbrev pub unlock : {X : Type 0} → Dmirror X → Dmirror X
unlock d = record d { locked = false }

-- The int that dmirror_atomic_map returns: a count, or an error below 0.
pub data Mapped : Type 0 where
  mapped : ℕ → Mapped
  map_err : ℕ → Mapped

-- What dmirror_do_fault stores for one page; `none` is its -EFAULT.
pub fault_entry : HmmPfn → Bool → Option Entry
fault_entry p req_write =
    if p.write
    then some (entry p.page tag_write)
    else if req_write
    then none
    else some (entry p.page 0)

module _ (xa : XArray) where
  open xa use {Xa, load, store, erase}

  -- The rounds of dmirror_do_fault that are left, at page frame `pfn` and index `i` of `pfns`.
  pub do_fault_loop : Bool → (ℕ → HmmPfn) → ℕ → ℕ → ℕ → Xa → Xa × ℕ
  do_fault_loop req_write pfns zero pfn i x = (x, 0)
  do_fault_loop req_write pfns (suc n) pfn i x = elim (fault_entry (pfns i) req_write) [
    | none ↦ (x, efault)
    | some e ↦ elim (store x pfn e) [
      | stored y ↦ do_fault_loop req_write pfns n (pfn + 1) (i + 1) y
      | xa_err err ↦ (x, err)
    ]
  ]

  pub do_fault : Dmirror Xa → HmmRange → (ℕ → HmmPfn) → Dmirror Xa × ℕ
  unfolding do_fault_loop fault_entry
  do_fault d range pfns =
      let first = shr_page range.start in
      let (x, ret) = do_fault_loop range.req_write pfns (shr_page range.end - first) first 0 d.pt in
      (record d { pt = x }, ret)

  -- xa_for_each_range visits the indices that hold an entry, the last one included.
  unfoldable pub do_update_loop : ℕ → ℕ → Xa → Xa
  do_update_loop zero pfn x = x
  do_update_loop (suc n) pfn x =
      do_update_loop n (pfn + 1) (if is_null (load x pfn) then x else erase x pfn)

  unfoldable pub do_update : Dmirror Xa → ℕ → ℕ → Dmirror Xa
  unfolding do_update_loop
  do_update d start end =
      let first = shr_page start in
      record d { pt = do_update_loop (shr_page end + 1 - first) first d.pt }

  -- The callback with the result that it returns. The mutex is free when a callback that may block
  -- gets it; one that may not block tries it.
  unfoldable pub interval_invalidate : Dmirror Xa → Notice → Dmirror Xa × Bool
  unfolding do_update
  interval_invalidate d notice =
      if notice.is_migrate && notice.owner == d.mdevice
      then (d, true)
      else if not notice.blockable && d.locked
      then (d, false)
      else (let held = record (lock d) { seq = notice.cur_seq } in
          (unlock (do_update held notice.start notice.end), true))

  pub check_atomic_loop : ℕ → ℕ → Xa → ℕ
  check_atomic_loop zero pfn x = 0
  check_atomic_loop (suc n) pfn x =
      let rest = check_atomic_loop n (pfn + 1) x in
      if (load x pfn).tag == tag_atomic then eperm else rest

  pub check_atomic : Dmirror Xa → ℕ → ℕ → ℕ
  unfolding check_atomic_loop
  check_atomic d start end = check_atomic_loop (shr_page end - shr_page start) (shr_page start) d.pt

  -- The rounds of dmirror_atomic_map, with the count of the pages mapped so far.
  pub atomic_map_loop : (ℕ → ℕ) → ℕ → ℕ → ℕ → ℕ → Xa → Xa × Mapped
  atomic_map_loop pages zero pfn i count x = (x, mapped count)
  atomic_map_loop pages (suc n) pfn i count x = elim (pages i == 0) [
    | true ↦ atomic_map_loop pages n (pfn + 1) (i + 1) count x
    | false ↦ elim (store x pfn (entry (pages i) tag_atomic)) [
      | stored y ↦ atomic_map_loop pages n (pfn + 1) (i + 1) (count + 1) y
      | xa_err err ↦ (x, map_err err)
    ]
  ]

  pub atomic_map : Dmirror Xa → ℕ → ℕ → (ℕ → ℕ) → Dmirror Xa × Mapped
  unfolding atomic_map_loop
  atomic_map d start end pages =
      let first = shr_page start in
      let (x, r) = atomic_map_loop pages (shr_page end - first) first 0 0 (lock d).pt in
      (unlock (record (lock d) { pt = x }), r)
