-- ===== src/Faulting/Examples.antt =====
-- The fault loops of hmm.c on concrete attempts.
use rshm_hmm.Base.{ℕ, ◌+◌, refl, List, [], ◌∷◌, arith, true, false}
use rshm_hmm.Kernel.{Memory, null_entry, XArray}
use rshm_hmm.Kernel.Map.{bounded_map, roomy_map}
use rshm_hmm.Mirror.{Dmirror, HmmPfn, HmmRange, Notice}
use rshm_hmm.Faulting.{Attempt, range_fault, fault}
use rshm_hmm.Faulting.Attempts.{Decided, range_fault-Decided, RisingAll}
use rshm_hmm.Faulting.Quiet.{quiet, quiet_attempt, IsGood, HasRoom, Serves, fault_quiet}

abbrev table : XArray
table = bounded_map 1000

abbrev roomy : XArray
roomy = roomy_map

abbrev mirror : Dmirror table.Xa
mirror = record { mdevice = 7; pt = λ i. null_entry; seq = 5; locked = false }

abbrev memory : Memory
memory p = p ∷ []

abbrev report : ℕ → HmmPfn
report i = record { error = false; valid = true; write = true; page = 90 + i; map_order = 0 }

abbrev invalidation : Notice
invalidation = record {
  start = 65536;
  end = 69632;
  is_migrate = false;
  owner = 0;
  blockable = true;
  cur_seq = 6;
}

-- An invalidation comes in during the first attempt, and the second goes through.
abbrev attempts : List Attempt
attempts =
    (record (quiet_attempt report) { during = invalidation ∷ [] }) ∷ quiet_attempt report ∷ []

abbrev range : HmmRange
range = record { start = 65536; end = 73728; req_write = true }

rising : RisingAll 5 attempts
rising = (tt, (omega arith, tt), (tt, tt, tt))

range_fault-Decided_example :
    Decided table 7 attempts range (range_fault table attempts mirror memory range)
range_fault-Decided_example =
    range_fault-Decided table 7 attempts 5 mirror memory range refl refl (omega arith) rising

has_room : HasRoom roomy
has_room x i e = (_, refl)

good : IsGood report
good i = (refl, omega arith)

fault_quiet_example : Serves roomy 16 18 mirror memory (
    fault roomy 3 true 65536 73728 true
      (record { mirror = mirror; memory = memory; attempts = quiet (report ∷ report ∷ []) }))
fault_quiet_example =
    fault_quiet roomy 3 (report ∷ report ∷ []) 16 18 true mirror memory has_room (good, (good, tt))
      (omega arith) (omega arith) (omega arith) (omega arith)
