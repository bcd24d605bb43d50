-- ===== src/Snapshot/Heard.antt =====
-- What invalidations do to the mirror and to the notifier of dmirror_range_snapshot of hmm.c.
use rshm_hmm.Base.{
  ℕ, ◌≤◌, ◌<◌, ◌≡◌, refl, ap, ◌∙◌, ◌⊎◌, inl, inr, Bool, false, not, ◌&&◌, List, [], ◌∷◌, arith, leb,
  ◌==◌, Bool-cases,
}
use rshm_hmm.Kernel.{XArray, null_entry, shr_page}
use rshm_hmm.Mirror.{Dmirror, Notice, lock, unlock, interval_invalidate}
use rshm_hmm.Mirror.Update.{interval_invalidate_lem, Notified, invalidate-Notified}
use rshm_hmm.Faulting.Attempts.{Rising, last_seq}
use rshm_hmm.Snapshot.{Watch, snapshot_invalidate, heard_one, hear}

module _ (xa : XArray) (meets : ℕ → ℕ → Notice → Bool) where
  open xa use {Xa, load}

  -- Every entry is as it was, or erased.
  abbrev pub OnlyErased : Dmirror Xa → Dmirror Xa → Type 0
  OnlyErased d d' = (p : ℕ) → (load d'.pt p ≡ load d.pt p) ⊎ (load d'.pt p ≡ null_entry)

  pub OnlyErased-trans : (d e f : Dmirror Xa) → OnlyErased d e → OnlyErased e f → OnlyErased d f
  OnlyErased-trans d e f one two p = elim (two p) [
    | inr gone ↦ inr gone
    | inl kept ↦ elim (one p) [ inl same ↦ inl (kept ∙ same) | inr gone ↦ inr (kept ∙ gone) ]
  ]

  invalidate-OnlyErased :
      (d : Dmirror Xa) (n : Notice) → OnlyErased d (interval_invalidate xa d n).0
  invalidate-OnlyErased d n p =
      let e = interval_invalidate_lem xa d n p in
      elim (Bool-cases (n.is_migrate && n.owner == d.mdevice)) [
        | inl own ↦ inl (ap (λ (m : Dmirror Xa). load m.pt p) (rw own at e).0)
        | inr other ↦ elim (Bool-cases (not n.blockable && d.locked)) [
          | inl busy ↦ inl (ap (λ (m : Dmirror Xa). load m.pt p) (rw (other, busy) at e).0)
          | inr free ↦
              let at = (rw (other, free) at e).0 in
              elim (Bool-cases (leb (shr_page n.start) p && leb p (shr_page n.end))) [
                | inl inside ↦ inr (at ∙ rw inside refl)
                | inr outside ↦ inl (at ∙ rw outside refl)
              ]
        ]
      ]

  module _ (start end : ℕ) where
    -- None of the invalidations is of the range of the snapshot.
    abbrev pub AllMiss : List Notice → Type 0
    AllMiss [] = Unit {0}
    AllMiss (n ∷ ns) = (meets start end n ≡ false) × AllMiss ns

    -- What a list of invalidations leaves, the mutex free before each.
    pub record Heard (s : ℕ) (w w' : Watch Xa) (ns : List Notice) : Type 0 where
      pub unlocked : w'.mirror.locked ≡ false
      pub device : w'.mirror.mdevice ≡ w.mirror.mdevice
      pub erased : OnlyErased w.mirror w'.mirror
      pub lower : w.seq ≤ w'.seq
      pub upper : w'.seq ≤ last_seq s ns
      pub quiet : w'.seq ≡ w.seq → AllMiss ns

    record HeardOne (w w' : Watch Xa) (n : Notice) : Type 0 where
      pub unlocked : w'.mirror.locked ≡ false
      pub device : w'.mirror.mdevice ≡ w.mirror.mdevice
      pub erased : OnlyErased w.mirror w'.mirror
      seq : ((meets start end n ≡ false) × (w'.seq ≡ w.seq)) ⊎ (w'.seq ≡ n.cur_seq)

    heard_one-HeardOne :
        (w : Watch Xa) (n : Notice)
        → w.mirror.locked ≡ false
        → HeardOne w (heard_one xa meets start end w n) n
    unfolding heard_one snapshot_invalidate
    heard_one-HeardOne w n free =
        let one = invalidate-Notified xa w.mirror n free in
        elim (Bool-cases (meets start end n)) [
          | inr misses ↦ rw misses (record {
            unlocked = one.unlocked;
            device = one.device;
            erased = invalidate-OnlyErased w.mirror n;
            seq = inl (misses, refl);
          })
          | inl hits ↦ elim (Bool-cases n.blockable) [
            | inl waits ↦ simp (hits, waits, heard_one, snapshot_invalidate) (heard n one)
            | inr tries ↦
                simp (hits, tries, one.unlocked, heard_one, snapshot_invalidate) (heard n one)
          ]
        ]
      where
        heard :
            (n : Notice)
            → Notified xa w.mirror (interval_invalidate xa w.mirror n).0 n
            → HeardOne w
                (record {
                  mirror = unlock (lock (interval_invalidate xa w.mirror n).0);
                  seq = n.cur_seq;
                })
                n
        heard n one = record {
          unlocked = refl;
          device = one.device;
          erased = invalidate-OnlyErased w.mirror n;
          seq = inr refl;
        }

    Heard-cons :
        (s : ℕ) (w v u : Watch Xa) (n : Notice) (ns : List Notice)
        → w.seq ≤ s
        → s < n.cur_seq
        → HeardOne w v n
        → Heard n.cur_seq v u ns
        → Heard s w u (n ∷ ns)
    Heard-cons s w v u n ns le lt one h = record {
      unlocked = h.unlocked;
      device = h.device ∙ one.device;
      erased = OnlyErased-trans w.mirror v.mirror u.mirror one.erased h.erased;
      lower = omega (arith, one.seq, h.lower);
      upper = h.upper;
      quiet = λ same. elim one.seq [
        | inl (misses, kept) ↦ (misses, h.quiet (omega arith))
        | inr taken ↦ absurd (omega (arith, h.lower))
      ];
    }

    pub hear-Heard :
        (s : ℕ) (ns : List Notice) (w : Watch Xa)
        → w.mirror.locked ≡ false
        → w.seq ≤ s
        → Rising s ns
        → Heard s w (hear xa meets start end w ns) ns
    unfolding hear
    hear-Heard s [] w free le r = record {
      unlocked = free;
      device = refl;
      erased = λ p. inl refl;
      lower = omega arith;
      upper = le;
      quiet = λ e. tt;
    }
    hear-Heard s (n ∷ ns) w free le r =
        let one = heard_one-HeardOne w n free in
        Heard-cons s w (heard_one xa meets start end w n) _ n ns le r.0 one (
          hear-Heard n.cur_seq ns (heard_one xa meets start end w n) one.unlocked
            (omega (arith, one.seq)) r.1)
