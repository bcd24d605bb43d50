-- ===== src/Transfer/Examples.antt =====
-- dmirror_read and dmirror_write of hmm.c on concrete commands.
use rshm_hmm.Base.{
  ℕ, ◌+◌, ◌≡◌, refl, List, [], ◌∷◌, some, none, arith, true, false, ◌==◌, if◌then◌else◌, Option,
}
use rshm_hmm.Kernel.{Memory, Content, entry, null_entry, XArray, UserSpace}
use rshm_hmm.Kernel.Map.{roomy_map}
use rshm_hmm.Mirror.{Dmirror, HmmPfn}
use rshm_hmm.Bounce.{Cmd, Bounce}
use rshm_hmm.Faulting.{State}
use rshm_hmm.Faulting.Quiet.{quiet, IsGood, HasRoom}
use rshm_hmm.Transfer.{read_loop, read}
use rshm_hmm.Transfer.Progress.{read_loop_dead}
use rshm_hmm.Transfer.Quiet.{Answers, read-Answers}

abbrev roomy : XArray
roomy = roomy_map

-- Of the page frames 16 and 17 only the first has a page.
abbrev mirror : Dmirror roomy.Xa
mirror = record {
  mdevice = 7;
  pt = λ i. if i == 16 then entry 40 3 else null_entry;
  seq = 5;
  locked = false;
}

abbrev memory : Memory
memory p = p ∷ []

abbrev report : ℕ → HmmPfn
report i = record { error = false; valid = true; write = true; page = 90 + i; map_order = 0 }

abbrev state : State roomy.Xa
state = record { mirror = mirror; memory = memory; attempts = quiet (report ∷ report ∷ []) }

abbrev cmd : Cmd
cmd = record { addr = 65536; ptr = 4096; npages = 2; cpages = 0; faults = 0 }

abbrev buffer : Bounce
buffer = record { ptr = [] ∷ [] ∷ []; size = 8192; addr = 65536; cpages = 0 }

has_room : HasRoom roomy
has_room x i e = (_, refl)

good : IsGood report
good i = (refl, omega arith)

-- A process that keeps what it was given, in pages.
abbrev process : UserSpace
process = record {
  User = List Content;
  copy_pages = λ u at pages. (pages, false);
  copy_bytes = λ u at bytes. (u, false);
  copy_in = λ u at size. some u;
}

abbrev vmalloc : ℕ → Option (List Content)
vmalloc size = some ([] ∷ [] ∷ [])

read-Answers_example :
    Answers roomy process vmalloc 16 2 memory [] cmd
      (read roomy process vmalloc 2 true [] state cmd)
read-Answers_example =
    read-Answers roomy process vmalloc 0 16 2 (report ∷ report ∷ []) mirror memory [] cmd
      ([] ∷ [] ∷ []) has_room (good, (good, tt)) (omega arith) refl refl refl (omega arith)
      (omega arith)

read_loop_dead_example : read_loop roomy 9 false cmd 65536 73728 buffer state ≡ none
read_loop_dead_example =
    read_loop_dead roomy 9 cmd 16 2 65536 73728 buffer state 17 refl refl refl refl (omega arith)
      (omega arith) (omega arith) (omega arith) refl
