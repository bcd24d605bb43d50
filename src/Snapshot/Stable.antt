-- ===== src/Snapshot/Stable.antt =====
-- dmirror_range_snapshot of hmm.c: a snapshot is taken of what no invalidation of its range has touched.
use rshm_hmm.Base.{
  ℕ, ◌-◌, ◌≤◌, ◌≡◌, refl, ap, ◌∙◌, ◌≢◌, ◌⊎◌, inl, inr, Bool, true, false, Option, none, some, List,
  [], ◌∷◌, arith, ◌==◌, ==→eq, Bool-cases, if◌then◌else◌,
}
use rshm_hmm.Kernel.{XArray, shr_page, ebusy}
use rshm_hmm.Mirror.{Dmirror, Notice, lock, unlock}
use rshm_hmm.Faulting.{Attempt}
use rshm_hmm.Faulting.Attempts.{Rising, RisingAll, last_seq, Reached, here, there, NoneExpired}
use rshm_hmm.Snapshot.Heard.{OnlyErased, OnlyErased-trans, AllMiss, Heard, hear-Heard}
use rshm_hmm.Snapshot.{PageKind, Watch, Shot, hear, mkentries, shot_loop, range_snapshot}

module _ (xa : XArray) (meets : ℕ → ℕ → Notice → Bool) where
  open xa use {Xa}

  module _ (start end : ℕ) where
    module _ (kind : ℕ → PageKind) (n own : ℕ) where
      -- How a call that returns ended: out of time; with an error of hmm_range_fault; or with the
      -- permissions of a report during which no invalidation of the range came in.
      pub data ShotEnded (as' : List Attempt) (perm : List ℕ) (ret : ℕ) : Type 0 where
        timed_out :
            (a : Attempt) → Reached a as' → a.expired ≡ true → ret ≡ ebusy → ShotEnded as' perm ret
        failed :
            (a : Attempt)
            → Reached a as'
            → a.expired ≡ false
            → a.ret ≡ ret
            → ret ≢ 0
            → ret ≢ ebusy
            → ShotEnded as' perm ret
        shot :
            (a : Attempt)
            → Reached a as'
            → a.expired ≡ false
            → a.ret ≡ 0
            → AllMiss xa meets start end a.during
            → perm ≡ mkentries own kind n 0 a.pfns
            → ret ≡ 0
            → ShotEnded as' perm ret

      -- The mutex is free, and of the mirror only entries were erased.
      abbrev pub Stable : Dmirror Xa → List Attempt → Option (Shot Xa) → Type 0
      Stable d as' none = NoneExpired as'
      Stable d as' (some s) =
          (s.mirror.locked ≡ false)
          × (s.mirror.mdevice ≡ own)
          × OnlyErased xa meets d s.mirror
          × ShotEnded as' s.perm s.ret

      Stable-there :
          (d e : Dmirror Xa) (a : Attempt) (as' : List Attempt) (o : Option (Shot Xa))
          → a.expired ≡ false
          → (a.ret ≡ ebusy) ⊎ ((a.ret ≡ 0) × (a.during ≢ []))
          → OnlyErased xa meets d e
          → Stable e as' o
          → Stable d (a ∷ as') o
      Stable-there d e a as' none fresh why er h = (fresh, h)
      Stable-there d e a as' (some s) fresh why er (free, dev, erased, h) = (
        free,
        dev,
        OnlyErased-trans xa meets d e s.mirror er erased,
        elim h [
          | timed_out b at late z ↦ timed_out b (there fresh why at) late z
          | failed b at intime z ne nb ↦ failed b (there fresh why at) intime z ne nb
          | shot b at intime z quiet perm r ↦ shot b (there fresh why at) intime z quiet perm r
        ],
      )

      Stable-step :
          (a : Attempt) (rest : List Attempt) (s : ℕ) (w : Watch Xa)
          → w.mirror.mdevice ≡ own
          → w.mirror.locked ≡ false
          → w.seq ≤ s
          → Rising s a.before × Rising (last_seq s a.before) a.during
          → ((v : Watch Xa)
              → v.mirror.mdevice ≡ own
              → v.mirror.locked ≡ false
              → v.seq ≤ last_seq (last_seq s a.before) a.during
              → Stable v.mirror rest (shot_loop xa meets kind start end n rest v))
          → Stable w.mirror (a ∷ rest) (shot_loop xa meets kind start end n (a ∷ rest) w)
      unfolding shot_loop
      Stable-step a rest s w device free le (r1, r2) retry = elim (Bool-cases a.expired) [
        | inl late ↦
            simp (late, shot_loop) (free, device, (λ p. inl refl), timed_out a here late refl)
        | inr fresh ↦
            simp (fresh, shot_loop)
              (elim (Bool-cases (a.ret == 0)) [
                | inr failure ↦
                    rw (failure, shot_loop)
                      (elim (Bool-cases (a.ret == ebusy)) [
                        | inl busy ↦ rw busy (
                            Stable-there w.mirror heard.mirror a rest _ fresh
                              (inl (==→eq a.ret ebusy busy)) erased again)
                        | inr other ↦ rw other (
                          second.unlocked,
                          at_own,
                          erased,
                          failed a here fresh refl (ground arith) (ground arith),
                        )
                      ])
                | inl found ↦
                    rw (found, shot_loop)
                      (elim (Bool-cases (heard.seq == begun.seq)) [
                        | inr changed ↦
                            rw (changed, shot_loop)
                              (Stable-there w.mirror heard.mirror a rest _ fresh
                                (inr (==→eq a.ret 0 found, came_in changed)) erased again)
                        | inl same ↦
                            rw (same, shot_loop)
                              (
                                refl,
                                at_own,
                                erased,
                                shot a here fresh (==→eq a.ret 0 found)
                                    (second.quiet (==→eq heard.seq begun.seq same))
                                    (ap (λ o. mkentries o kind n 0 a.pfns) at_own) refl,
                              )
                      ])
              ])
      ]
        where
          begun : Watch Xa
          begun = hear xa meets start end w a.before

          heard : Watch Xa
          heard = hear xa meets start end begun a.during

          first : Heard xa meets start end s w begun a.before
          first = hear-Heard xa meets start end s a.before w free le r1

          second : Heard xa meets start end (last_seq s a.before) begun heard a.during
          second =
              hear-Heard xa meets start end (last_seq s a.before) a.during begun first.unlocked
                first.upper r2

          at_own : heard.mirror.mdevice ≡ own
          at_own = second.device ∙ first.device ∙ device

          erased : OnlyErased xa meets w.mirror heard.mirror
          erased =
              OnlyErased-trans xa meets w.mirror begun.mirror heard.mirror first.erased
                second.erased

          came_in : (heard.seq == begun.seq) ≡ false → a.during ≢ []
          came_in changed none_came =
              let same : heard ≡ begun = ap (hear xa meets start end begun) none_came in
              ground (arith, changed, ap (λ (v : Watch Xa). v.seq) same)

          calmed : Watch Xa
          calmed = record heard { mirror = unlock (lock heard.mirror) }

          again : Stable heard.mirror rest (shot_loop xa meets kind start end n rest calmed)
          again = retry calmed at_own refl second.upper

      shot_loop-Stable :
          (as' : List Attempt) (s : ℕ) (w : Watch Xa)
          → w.mirror.mdevice ≡ own
          → w.mirror.locked ≡ false
          → w.seq ≤ s
          → RisingAll s as'
          → Stable w.mirror as' (shot_loop xa meets kind start end n as' w)
      unfolding shot_loop
      shot_loop-Stable [] s w device free le r = tt
      shot_loop-Stable (a ∷ rest) s w device free le (r1, r2, r3) =
          Stable-step a rest s w device free le (r1, r2)
            λ v dev unlocked upper. shot_loop-Stable rest _ v dev unlocked upper r3

  -- dmirror_range_snapshot, called with the mutex free, where the invalidations carry rising sequence
  -- numbers, and the mirror's own callback runs on each: where the notifier cannot be inserted, its error
  -- is the result and the mirror is as it was. Else, if the call returns, the mutex is free and only
  -- entries of the mirror's page table were erased; and it ended out of time, with an error of
  -- hmm_range_fault, or with 0 and the permissions of a report behind which no invalidation of its range
  -- came in before the mutex was taken. Attempts before that answered -EBUSY, or an invalidation came in.
  -- It does not return only while none of the attempts finds its time over.
  pub range_snapshot-Stable :
      (kind : ℕ → PageKind) (insert q start end : ℕ) (as' : List Attempt) (d : Dmirror Xa)
      → d.locked ≡ false
      → RisingAll q as'
      → if insert == 0
        then Stable start end kind
            (shr_page (end - start))
            d.mdevice
            d
            as'
            (range_snapshot xa meets kind insert q start end as' d)
        else range_snapshot xa meets kind insert q start end as' d
          ≡ some (record { mirror = d; attempts = as'; perm = []; ret = insert })
  unfolding range_snapshot
  range_snapshot-Stable kind insert q start end as' d free r = elim (Bool-cases (insert == 0)) [
    | inl ok ↦
        rw (ok, range_snapshot)
          (shot_loop-Stable start end kind (shr_page (end - start)) d.mdevice as' q
            (record { mirror = d; seq = q }) refl free (omega arith) r)
    | inr kept_out ↦ rw (kept_out, range_snapshot) refl
  ]
