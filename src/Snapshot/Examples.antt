-- ===== src/Snapshot/Examples.antt =====
-- Snapshots of hmm.c on concrete reports.
use rshm_hmm.Base.{
  ℕ, ◌+◌, ◌≡◌, refl, arith, List, [], ◌∷◌, true, false, some, none, Bool, ltb, ◌&&◌, ◌==◌,
  if◌then◌else◌,
}
use rshm_hmm.Kernel.{XArray, UserSpace, null_entry}
use rshm_hmm.Kernel.Map.{bounded_map}
use rshm_hmm.Mirror.{
  Dmirror, HmmPfn, Notice, unlock, interval_invalidate, do_update, do_update_loop,
}
use rshm_hmm.Bounce.{Cmd}
use rshm_hmm.Faulting.{Attempt, next_chunk}
use rshm_hmm.Faulting.Attempts.{RisingAll}
use rshm_hmm.Faulting.Quiet.{quiet_attempt}
use rshm_hmm.Snapshot.{
  PageKind, device_private, system, mkentry, range_snapshot, prot_place, prot_order, snapshot,
  snapshot_loop, shot_loop, hear, heard_one, snapshot_invalidate, mkentries,
}
use rshm_hmm.Snapshot.Stable.{Stable, range_snapshot-Stable}

abbrev table : XArray
table = bounded_map 1000

abbrev mirror : Dmirror table.Xa
mirror = record { mdevice = 7; pt = λ i. null_entry; seq = 5; locked = false }

abbrev kind : ℕ → PageKind
kind page = if page == 90 then device_private 7 else system

abbrev report : ℕ → HmmPfn
report i = record { error = false; valid = true; write = i == 0; page = 90 + i; map_order = 9 }

abbrev invalidation : Notice
invalidation = record {
  start = 65536;
  end = 69632;
  is_migrate = false;
  owner = 0;
  blockable = true;
  cur_seq = 6;
}

abbrev attempts : List Attempt
attempts =
    (record (quiet_attempt report) { during = invalidation ∷ [] }) ∷ quiet_attempt report ∷ []

rising : RisingAll 5 attempts
rising = (tt, (omega arith, tt), (tt, tt, tt))

-- DEV_PRIVATE_LOCAL, WRITE and PMD
local_byte : mkentry 7 kind (report 0) ≡ 38
unfolding mkentry prot_place prot_order
local_byte = refl

-- The kernel calls the notifier for the pages 16 and 17.
abbrev meets : ℕ → ℕ → Notice → Bool
meets start end n = ltb n.start end && ltb start n.end

range_snapshot-Stable_example :
    Stable table meets 65536 73728 kind 2 7
      (unlock mirror)
      attempts
      (range_snapshot table meets kind 0 5 65536 73728 attempts (unlock mirror))
range_snapshot-Stable_example =
    range_snapshot-Stable table meets kind 0 5 65536 73728 attempts (unlock mirror) refl rising

-- A process that is given bytes and has none of them missing.
abbrev process : UserSpace
process = record {
  User = List ℕ;
  copy_pages = λ u at pages. (u, false);
  copy_bytes = λ u at bytes. (bytes, false);
  copy_in = λ u at size. none;
}

abbrev cmd : Cmd
cmd = record { addr = 65536; ptr = 4096; npages = 2; cpages = 0; faults = 0 }

-- The bytes of the pages 90 and 91, behind an attempt that an invalidation spoils.
bytes_taken :
    snapshot table meets process kind 0 5 3 true attempts (unlock mirror) [] cmd
    ≡ some (record {
      mirror = record (unlock mirror) { seq = 6 };
      attempts = [];
      user = 38 ∷ 5 ∷ [];
      cmd = record cmd { cpages = 2 };
      ret = 0;
    })
unfolding snapshot snapshot_loop range_snapshot shot_loop hear heard_one interval_invalidate
    do_update do_update_loop snapshot_invalidate mkentries mkentry prot_place prot_order next_chunk
bytes_taken = refl
