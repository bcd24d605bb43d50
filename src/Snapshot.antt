-- ===== src/Snapshot.antt =====
-- The snapshots of hmm.c: dmirror_mkentry, dmirror_snapshot_invalidate, dmirror_range_snapshot and
-- dmirror_snapshot. A permission is a byte; its bits are set one by one and do not overlap, so that
-- setting one is adding it. The rounds of the loops are as in Faulting.
pub mod Permissions
pub mod Heard
pub mod Stable
pub mod Progress
mod Examples
use rshm_hmm.Base.{
  ℕ, zero, suc, ◌+◌, ◌-◌, ◌*◌, Bool, true, false, not, ◌&&◌, Option, none, some, List, [], ◌∷◌, ltb,
  ◌==◌, if◌then◌else◌,
}
use rshm_hmm.Kernel.{XArray, UserSpace, add64, shl_page, shr_page, ebusy, efault, einval}
use rshm_hmm.Mirror.{Dmirror, HmmPfn, Notice, lock, unlock, interval_invalidate}
use rshm_hmm.Bounce.{Cmd}
use rshm_hmm.Faulting.{Attempt, next_chunk}

-- What kind of page the kernel says a page is, with the device that has it.
pub data PageKind : Type 0 where
  device_private : ℕ → PageKind
  device_coherent : ℕ → PageKind
  zero_page : PageKind
  system : PageKind

abbrev pub prot_error : ℕ
prot_error = 255

-- The upper half of the byte.
pub prot_place : ℕ → PageKind → ℕ
prot_place own (device_private dev) = if own == dev then 32 else 48
prot_place own (device_coherent dev) = if own == dev then 64 else 80
prot_place own zero_page = 16
prot_place own system = 0

-- hmm_pfn_to_map_order(entry) + PAGE_SHIFT == PMD_SHIFT, or PUD_SHIFT
pub prot_order : ℕ → ℕ
prot_order order = if order + 12 == 21 then 4 else if order + 12 == 30 then 8 else 0

pub mkentry : ℕ → (ℕ → PageKind) → HmmPfn → ℕ
unfolding prot_place prot_order
mkentry own kind p =
    if p.error
    then prot_error
    else if not p.valid
    then 0
    else prot_place own (kind p.page) + (if p.write then 2 else 1) + prot_order p.map_order

-- The mutex of the mirror and the sequence number of the snapshot's own notifier.
pub record Watch (Xa : Type 0) : Type 0 where
  pub mirror : Dmirror Xa
  pub seq : ℕ

pub snapshot_invalidate : {X : Type 0} → Watch X → Notice → Watch X × Bool
snapshot_invalidate w notice =
    if not notice.blockable && w.mirror.locked
    then (w, false)
    else (record w { seq = notice.cur_seq; mirror = unlock (lock w.mirror) }, true)

-- The loop over the entries of a chunk.
pub mkentries : ℕ → (ℕ → PageKind) → ℕ → ℕ → (ℕ → HmmPfn) → List ℕ
unfolding mkentry
mkentries own kind zero i pfns = []
mkentries own kind (suc n) i pfns = mkentry own kind (pfns i) ∷ mkentries own kind n (i + 1) pfns

-- What dmirror_range_snapshot leaves: the mirror, the attempts to come, the permissions, the result.
pub record Shot (Xa : Type 0) : Type 0 where
  pub mirror : Dmirror Xa
  pub attempts : List Attempt
  pub perm : List ℕ
  pub ret : ℕ

-- What dmirror_snapshot leaves.
pub record Taken (Xa User : Type 0) : Type 0 where
  pub mirror : Dmirror Xa
  pub attempts : List Attempt
  pub user : User
  pub cmd : Cmd
  pub ret : ℕ

-- `meets` is whether the kernel calls the notifier of a snapshot of a range for an invalidation; the
-- mirror's own notifier is on all addresses, and is called for each.
module _ (xa : XArray) (meets : ℕ → ℕ → Notice → Bool) where
  open xa use {Xa}

  -- The callbacks of one invalidation: dmirror_interval_invalidate, and dmirror_snapshot_invalidate.
  pub heard_one : ℕ → ℕ → Watch Xa → Notice → Watch Xa
  unfolding snapshot_invalidate
  heard_one start end w notice =
      let w' : Watch Xa = record w { mirror = (interval_invalidate xa w.mirror notice).0 } in
      if meets start end notice then (snapshot_invalidate w' notice).0 else w'

  pub hear : ℕ → ℕ → Watch Xa → List Notice → Watch Xa
  unfolding heard_one
  hear start end w [] = w
  hear start end w (notice ∷ rest) = hear start end (heard_one start end w notice) rest

  -- The loop of dmirror_range_snapshot over the `n` pages from `start` to `end`.
  pub shot_loop : (ℕ → PageKind) → ℕ → ℕ → ℕ → List Attempt → Watch Xa → Option (Shot Xa)
  unfolding hear mkentries
  shot_loop kind start end n [] w = none
  shot_loop kind start end n (a ∷ rest) w =
      let begun = hear start end w a.before in
      let heard = hear start end begun a.during in
      let again =
        shot_loop kind start end n rest (record heard { mirror = unlock (lock heard.mirror) }) in
      elim a.expired [
        | true ↦ some (record { mirror = w.mirror; attempts = rest; perm = []; ret = ebusy })
        | false ↦ elim (a.ret == 0) [
          | false ↦
              if a.ret == ebusy
              then again
              else some (record { mirror = heard.mirror; attempts = rest; perm = []; ret = a.ret })
          | true ↦ elim (heard.seq == begun.seq) [
            | false ↦ again
            | true ↦ some (record {
              mirror = unlock (lock heard.mirror);
              attempts = rest;
              perm = mkentries heard.mirror.mdevice kind n 0 a.pfns;
              ret = 0;
            })
          ]
        ]
      ]

  -- `insert` is what mmu_interval_notifier_insert answers, and `seq` the number that the new notifier
  -- begins with.
  pub range_snapshot : (ℕ → PageKind) → ℕ → ℕ → ℕ → ℕ → List Attempt → Dmirror Xa → Option (Shot Xa)
  unfolding shot_loop
  range_snapshot kind insert seq start end attempts d =
      if insert == 0
      then shot_loop kind start end (shr_page (end - start)) attempts
          (record { mirror = d; seq = seq })
      else some (record { mirror = d; attempts = attempts; perm = []; ret = insert })

  module _ (us : UserSpace) (kind : ℕ → PageKind) (insert seq : ℕ) where
    open us use {User, copy_bytes}

    -- The loop of dmirror_snapshot, on fuel.
    pub snapshot_loop :
        ℕ → ℕ → ℕ → ℕ → List Attempt → Dmirror Xa → User → Cmd → Option (Taken Xa User)
    unfolding range_snapshot
    snapshot_loop zero addr end uptr attempts d u cmd = none
    snapshot_loop (suc fuel) addr end uptr attempts d u cmd =
        let next = next_chunk addr end in
        let n = shr_page (next - addr) in
        elim (ltb addr end) [
          | false ↦ some (record { mirror = d; attempts = attempts; user = u; cmd = cmd; ret = 0 })
          | true ↦ elim (range_snapshot kind insert seq addr next attempts d) [
            | none ↦ none
            | some s ↦ elim (s.ret == 0) [
              | false ↦ some (record {
                mirror = s.mirror;
                attempts = s.attempts;
                user = u;
                cmd = cmd;
                ret = s.ret;
              })
              | true ↦
                  let (u', failed) = copy_bytes u uptr s.perm in
                  elim failed [
                    | true ↦ some (record {
                      mirror = s.mirror;
                      attempts = s.attempts;
                      user = u';
                      cmd = cmd;
                      ret = efault;
                    })
                    | false ↦
                        snapshot_loop fuel next end (uptr + n) s.attempts s.mirror u'
                          (record cmd { cpages = cmd.cpages + n })
                  ]
            ]
          ]
        ]

    pub snapshot : ℕ → Bool → List Attempt → Dmirror Xa → User → Cmd → Option (Taken Xa User)
    unfolding snapshot_loop
    snapshot fuel alive attempts d u cmd =
        let end = add64 cmd.addr (shl_page cmd.npages) in
        let refused : Option (Taken Xa User) =
          some (record { mirror = d; attempts = attempts; user = u; cmd = cmd; ret = einval }) in
        if ltb end cmd.addr
        then refused
        else if not alive
        then refused
        else snapshot_loop fuel cmd.addr end cmd.ptr attempts d u cmd
