-- ===== src/Faulting/Attempts.antt =====
-- dmirror_range_fault of hmm.c: how the loop over the attempts ends.
use rshm_hmm.Base.{
  ℕ, ◌-◌, ◌≤◌, ◌<◌, ◌≡◌, refl, subst, ap, ◌⊎◌, true, ◌∙◌, ◌≢◌, inl, inr, false, arith, ◌==◌, ==→eq,
  none, some, Option, List, [], ◌∷◌, Bool-cases,
}
use rshm_hmm.Kernel.{Memory, XArray, shr_page, ebusy}
use rshm_hmm.Mirror.{Dmirror, HmmRange, Notice, lock, unlock, interval_invalidate}
use rshm_hmm.Mirror.Update.{IsOwn, Notified, invalidate-Notified}
use rshm_hmm.Mirror.Fault.{Faulted, do_fault-Faulted, mdevice-do_fault}
use rshm_hmm.Faulting.{Attempt, State, notify, range_fault}

abbrev pub AllOwn : ℕ → List Notice → Type 0
AllOwn own [] = Unit {0}
AllOwn own (n ∷ ns) = IsOwn own n × AllOwn own ns

-- Callbacks carry rising sequence numbers, as the notifier of the kernel gives them.
abbrev pub Rising : ℕ → List Notice → Type 0
Rising s [] = Unit {0}
Rising s (n ∷ ns) = (s < n.cur_seq) × Rising n.cur_seq ns

abbrev pub last_seq : ℕ → List Notice → ℕ
last_seq s [] = s
last_seq s (n ∷ ns) = last_seq n.cur_seq ns

abbrev pub RisingAll : ℕ → List Attempt → Type 0
RisingAll s [] = Unit {0}
RisingAll s (a ∷ as') =
    Rising s a.before
    × Rising (last_seq s a.before) a.during
    × RisingAll (last_seq (last_seq s a.before) a.during) as'

-- The attempt that decides, behind attempts that are tried again: those in time of which
-- hmm_range_fault answers -EBUSY, or goes through with a callback coming in behind it.
pub data Reached (a : Attempt) : List Attempt → Type 0 where
  here : {as' : List Attempt} → Reached a (a ∷ as')
  there :
      {b : Attempt} {as' : List Attempt}
      → b.expired ≡ false
      → (b.ret ≡ ebusy) ⊎ ((b.ret ≡ 0) × (b.during ≢ []))
      → Reached a as'
      → Reached a (b ∷ as')

abbrev pub NoneExpired : List Attempt → Type 0
NoneExpired [] = Unit {0}
NoneExpired (a ∷ as') = (a.expired ≡ false) × NoneExpired as'

module _ (xa : XArray) where
  open xa use {Xa, load}

  -- What a list of callbacks leaves, the mutex free before each.
  record Heard (s : ℕ) (d d' : Dmirror Xa) (ns : List Notice) : Type 0 where
    unlocked : d'.locked ≡ false
    device : d'.mdevice ≡ d.mdevice
    lower : d.seq ≤ d'.seq
    upper : d'.seq ≤ last_seq s ns
    quiet : d'.seq ≡ d.seq → AllOwn d.mdevice ns

  Heard-cons :
      (s : ℕ) (d e f : Dmirror Xa) (n : Notice) (ns : List Notice)
      → d.seq ≤ s
      → s < n.cur_seq
      → Notified xa d e n
      → Heard n.cur_seq e f ns
      → Heard s d f (n ∷ ns)
  Heard-cons s d e f n ns le lt one h = record {
    unlocked = h.unlocked;
    device = h.device ∙ one.device;
    lower = omega (arith, one.seq, h.lower);
    upper = h.upper;
    quiet = λ same. elim one.seq [
      | inl (own, kept) ↦ (own, subst (λ o. AllOwn o ns) one.device (h.quiet (omega arith)))
      | inr taken ↦ absurd (omega (arith, h.lower))
    ];
  }

  notify-Heard :
      (s : ℕ) (ns : List Notice) (d : Dmirror Xa)
      → d.locked ≡ false
      → d.seq ≤ s
      → Rising s ns
      → Heard s d (notify xa d ns) ns
  unfolding notify
  notify-Heard s [] d free le r = record {
    unlocked = free;
    device = refl;
    lower = omega arith;
    upper = le;
    quiet = λ e. tt;
  }
  notify-Heard s (n ∷ ns) d free le r =
      let one = invalidate-Notified xa d n free in
      Heard-cons s d (interval_invalidate xa d n).0 _ n ns le r.0 one (
        notify-Heard n.cur_seq ns (interval_invalidate xa d n).0 one.unlocked
          (omega (arith, one.seq)) r.1)

  -- How a call that returns ended: out of time; with an error of hmm_range_fault; or with the
  -- report of an attempt in which no callback but ignored ones came between hmm_range_fault and
  -- the mutex, after which the table holds what this attempt reports, as Faulted says.
  pub data Ended (own : ℕ) (as' : List Attempt) (range : HmmRange) (y : Xa) (ret : ℕ) : Type 0 where
    timed_out :
        (a : Attempt) → Reached a as' → a.expired ≡ true → ret ≡ ebusy → Ended own as' range y ret
    failed :
        (a : Attempt)
        → Reached a as'
        → a.expired ≡ false
        → a.ret ≡ ret
        → ret ≢ 0
        → ret ≢ ebusy
        → Ended own as' range y ret
    accepted :
        (a : Attempt) (x : Xa)
        → Reached a as'
        → a.expired ≡ false
        → a.ret ≡ 0
        → AllOwn own a.during
        → Faulted xa range.req_write a.pfns
            (shr_page range.end - shr_page range.start)
            (shr_page range.start)
            0
            x
            y
            ret
        → Ended own as' range y ret

  abbrev pub Decided : ℕ → List Attempt → HmmRange → Option (State Xa × ℕ) → Type 0
  Decided own as' range none = NoneExpired as'
  Decided own as' range (some (s, ret)) =
      (s.mirror.locked ≡ false) × (s.mirror.mdevice ≡ own) × Ended own as' range s.mirror.pt ret

  Decided-there :
      (own : ℕ) (a : Attempt) (as' : List Attempt) (range : HmmRange) (o : Option (State Xa × ℕ))
      → a.expired ≡ false
      → (a.ret ≡ ebusy) ⊎ ((a.ret ≡ 0) × (a.during ≢ []))
      → Decided own as' range o
      → Decided own (a ∷ as') range o
  Decided-there own a as' range none fresh why h = (fresh, h)
  Decided-there own a as' range (some (s, ret)) fresh why (free, device, h) = (
    free,
    device,
    elim h [
      | timed_out b at late e ↦ timed_out b (there fresh why at) late e
      | failed b at intime e ne nb ↦ failed b (there fresh why at) intime e ne nb
      | accepted b x at intime e own_only f ↦ accepted b x (there fresh why at) intime e own_only f
    ],
  )

  -- One attempt, given what the attempts behind it lead to.
  Decided-step :
      (own : ℕ) (a : Attempt) (as' : List Attempt) (s : ℕ) (d : Dmirror Xa) (mem : Memory)
      (range : HmmRange)
      → d.mdevice ≡ own
      → d.locked ≡ false
      → d.seq ≤ s
      → Rising s a.before × Rising (last_seq s a.before) a.during
      → ((e : Dmirror Xa)
          → e.mdevice ≡ own
          → e.locked ≡ false
          → e.seq ≤ last_seq (last_seq s a.before) a.during
          → Decided own as' range (range_fault xa as' e (a.others mem) range))
      → Decided own (a ∷ as') range (range_fault xa (a ∷ as') d mem range)
  unfolding range_fault
  Decided-step own a as' s d mem range device free le (r1, r2) retry = elim (Bool-cases a.expired) [
    | inl late ↦ simp (late, range_fault) (free, device, timed_out a here late refl)
    | inr fresh ↦
        simp (fresh, range_fault)
          (elim (Bool-cases (a.ret == 0)) [
            | inr failure ↦
                rw (failure, range_fault)
                  (elim (Bool-cases (a.ret == ebusy)) [
                    | inl busy ↦
                        rw busy (
                          Decided-there own a as' range _ fresh (inl (==→eq a.ret ebusy busy))
                            again)
                    | inr other ↦ rw other (
                      heard.unlocked,
                      at_own,
                      failed a here fresh refl (ground arith) (ground arith),
                    )
                  ])
            | inl found ↦
                rw (found, range_fault)
                  (elim (Bool-cases (heard_mirror.seq == begun.seq)) [
                    | inr changed ↦
                        rw (changed, range_fault)
                          (Decided-there own a as' range _ fresh
                            (inr (==→eq a.ret 0 found, came_in changed)) again)
                    | inl same ↦
                        rw (same, range_fault)
                          (
                            refl,
                            mdevice-do_fault xa (lock heard_mirror) range a.pfns ∙ at_own,
                            accepted a heard_mirror.pt here fresh (==→eq a.ret 0 found)
                                (subst (λ o. AllOwn o a.during) begun_own
                                  (heard.quiet (==→eq _ _ same)))
                                (do_fault-Faulted xa (lock heard_mirror) range a.pfns),
                          )
                  ])
          ])
  ]
    where
      begun : Dmirror Xa
      begun = notify xa d a.before

      heard_mirror : Dmirror Xa
      heard_mirror = notify xa begun a.during

      first : Heard s d begun a.before
      first = notify-Heard s a.before d free le r1

      heard : Heard (last_seq s a.before) begun heard_mirror a.during
      heard = notify-Heard (last_seq s a.before) a.during begun first.unlocked first.upper r2

      begun_own : begun.mdevice ≡ own
      begun_own = first.device ∙ device

      at_own : heard_mirror.mdevice ≡ own
      at_own = heard.device ∙ begun_own

      came_in : (heard_mirror.seq == begun.seq) ≡ false → a.during ≢ []
      came_in changed none_came =
          let same : heard_mirror ≡ begun = ap (notify xa begun) none_came in
          ground (arith, changed, ap (λ (m : Dmirror Xa). m.seq) same)

      again : Decided own as' range (range_fault xa as' (unlock heard_mirror) (a.others mem) range)
      again = retry (unlock heard_mirror) at_own refl heard.upper

  -- dmirror_range_fault, called with the mutex free, where the callbacks carry rising sequence
  -- numbers: if it returns, the mutex is free, and it ended with -EBUSY in an attempt whose time was over;
  -- with an error of hmm_range_fault other than -EBUSY; or with the report of an attempt behind which
  -- no callback but ignored ones came in before the mutex was taken, stored as dmirror_do_fault stores
  -- it, and with its result. Every attempt before was in time, and hmm_range_fault answered -EBUSY, or a
  -- callback came in. It does not return only while none of the attempts finds its time over.
  pub range_fault-Decided :
      (own : ℕ) (as' : List Attempt) (s : ℕ) (d : Dmirror Xa) (mem : Memory) (range : HmmRange)
      → d.mdevice ≡ own
      → d.locked ≡ false
      → d.seq ≤ s
      → RisingAll s as'
      → Decided own as' range (range_fault xa as' d mem range)
  unfolding range_fault
  range_fault-Decided own [] s d mem range device free le r = tt
  range_fault-Decided own (a ∷ as') s d mem range device free le (r1, r2, r3) =
      Decided-step own a as' s d mem range device free le (r1, r2)
        λ e dev unlocked upper.
          range_fault-Decided own as' _ e (a.others mem) range dev unlocked upper r3
