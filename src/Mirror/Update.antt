-- ===== src/Mirror/Update.antt =====
-- dmirror_do_update and dmirror_interval_invalidate of hmm.c: which entries an invalidation clears.
use rshm_hmm.Base.{
  ℕ, zero, suc, ◌+◌, ◌-◌, ◌≡◌, refl, sym, ap, ◌∙◌, ◌⊎◌, ==→eq, inl, inr, true, false, not, ◌&&◌,
  arith, leb, ltb, ◌==◌, Bool-cases, if◌then◌else◌,
}
use rshm_hmm.Kernel.{Entry, null_entry, is_null, XArray, shr_page}
use rshm_hmm.Mirror.{Dmirror, Notice, lock, do_update_loop, do_update, interval_invalidate}

eq_null : (e : Entry) → is_null e ≡ true → e ≡ null_entry
eq_null e h = ground arith

-- A callback for a migration to the mirror's own device, which the mirror ignores.
abbrev pub IsOwn : ℕ → Notice → Type 0
IsOwn own notice = (notice.is_migrate && notice.owner == own) ≡ true

module _ (xa : XArray) where
  open xa use {Xa, load, erase, load-erase}

  cleared :
      (x : Xa) (pfn j : ℕ)
      → load (if is_null (load x pfn) then x else erase x pfn) j
        ≡ (if pfn == j then null_entry else load x j)
  cleared x pfn j = elim (Bool-cases (is_null (load x pfn))) [
    | inl e ↦ rw e (elim (Bool-cases (pfn == j)) [
      | inl same ↦ rw same (ap (load x) (sym (==→eq pfn j same)) ∙ eq_null (load x pfn) e)
      | inr other ↦ rw other
    ])
    | inr e ↦ rw e (load-erase x pfn j)
  ]

  load-do_update_loop :
      (n pfn j : ℕ) (x : Xa)
      → load (do_update_loop xa n pfn x) j
        ≡ (if leb pfn j && ltb j (pfn + n) then null_entry else load x j)
  unfolding do_update_loop
  load-do_update_loop zero pfn j x = ground arith
  load-do_update_loop (suc n) pfn j x = ground (
    arith,
    cleared x pfn j,
    load-do_update_loop n (pfn + 1) j (if is_null (load x pfn) then x else erase x pfn),
  )

  -- An invalidation of `start` to `end` clears the entries of the page frames from that of `start`
  -- to that of `end`, the last one included, and no other.
  pub load-do_update :
      (d : Dmirror Xa) (start end j : ℕ)
      → load (do_update xa d start end).pt j
        ≡ (if leb (shr_page start) j && leb j (shr_page end) then null_entry else load d.pt j)
  unfolding do_update
  load-do_update d start end j =
      ground
        (arith, load-do_update_loop (shr_page end + 1 - shr_page start) (shr_page start) j d.pt)

  -- A callback that is not for a migration to the mirror's own device either clears the entries of
  -- its range, the last page frame included, keeps the others, takes over the sequence number and
  -- leaves the mutex free; or, where it may not block and the mutex is held, it reports false and
  -- changes nothing. A callback for a migration to the own device changes nothing and reports true.
  pub interval_invalidate_lem :
      (d : Dmirror Xa) (notice : Notice) (j : ℕ)
      → let (d', done) = interval_invalidate xa d notice in
        if notice.is_migrate && notice.owner == d.mdevice
        then (d' ≡ d) × (done ≡ true)
        else if not notice.blockable && d.locked
        then (d' ≡ d) × (done ≡ false)
        else ((load d'.pt j ≡ (
              if leb (shr_page notice.start) j && leb j (shr_page notice.end)
              then null_entry
              else load d.pt j))
            × (d'.seq ≡ notice.cur_seq)
            × (d'.locked ≡ false)
            × (d'.mdevice ≡ d.mdevice)
            × (done ≡ true))
  unfolding interval_invalidate
  interval_invalidate_lem d notice j =
      elim (Bool-cases (notice.is_migrate && notice.owner == d.mdevice)) [
        | inl own ↦ rw own (refl, refl)
        | inr other ↦ rw other (elim (Bool-cases (not notice.blockable && d.locked)) [
          | inl busy ↦ rw busy (refl, refl)
          | inr free ↦ rw free (
            load-do_update (record (lock d) { seq = notice.cur_seq }) notice.start notice.end j,
            refl,
            refl,
            refl,
            refl,
          )
        ])
      ]

  -- One callback while the mutex is free.
  pub record Notified (d d' : Dmirror Xa) (n : Notice) : Type 0 where
    pub unlocked : d'.locked ≡ false
    pub device : d'.mdevice ≡ d.mdevice
    pub seq : (IsOwn d.mdevice n × (d'.seq ≡ d.seq)) ⊎ (d'.seq ≡ n.cur_seq)

  pub invalidate-Notified :
      (d : Dmirror Xa) (n : Notice) → d.locked ≡ false → Notified d (interval_invalidate xa d n).0 n
  unfolding interval_invalidate do_update
  invalidate-Notified d n free = ground arith
