-- ===== src/Mirror/Examples.antt =====
-- The page table of hmm.c on concrete mirrors.
use rshm_hmm.Base.{ℕ, ◌≡◌, refl, ◌+◌, true, false, ◌==◌, if◌then◌else◌}
use rshm_hmm.Kernel.{entry, null_entry, XArray}
use rshm_hmm.Kernel.Map.{bounded_map}
use rshm_hmm.Mirror.{
  Dmirror, HmmPfn, HmmRange, Notice, mapped, do_fault, do_fault_loop, interval_invalidate,
  atomic_map, fault_entry, atomic_map_loop,
}
use rshm_hmm.Mirror.Update.{interval_invalidate_lem}
use rshm_hmm.Mirror.Fault.{Faulted, do_fault-Faulted}

abbrev table : XArray
table = bounded_map 1000

abbrev mirror : Dmirror table.Xa
mirror = record {
  mdevice = 7;
  pt = λ i. if i == 17 then entry 40 1 else if i == 18 then entry 41 3 else null_entry;
  seq = 5;
  locked = false;
}

abbrev report : ℕ → HmmPfn
report i = record { error = false; valid = true; write = i == 0; page = 90 + i; map_order = 0 }

abbrev two_pages : HmmRange
two_pages = record { start = 65536; end = 73728; req_write = false }

abbrev unmap : Notice
unmap = record {
  start = 69632;
  end = 73728;
  is_migrate = false;
  owner = 0;
  blockable = true;
  cur_seq = 9;
}

fault_result : (do_fault table mirror two_pages report).1 ≡ 0
unfolding do_fault do_fault_loop fault_entry
fault_result = refl

fault_first : (do_fault table mirror two_pages report).0.pt 16 ≡ entry 90 3
unfolding do_fault do_fault_loop fault_entry
fault_first = refl

map_result : (atomic_map table mirror 65536 73728 (λ i. i)).1 ≡ mapped 1
unfolding atomic_map atomic_map_loop
map_result = refl

do_fault-Faulted_example :
    let (d', ret) = do_fault table mirror two_pages report in
    Faulted table false report 2 16 0 mirror.pt d'.pt ret
do_fault-Faulted_example = do_fault-Faulted table mirror two_pages report

interval_invalidate_lem_example :
    let (d', done) = interval_invalidate table mirror unmap in
    (d'.pt 16 ≡ null_entry) × (d'.seq ≡ 9) × (d'.locked ≡ false) × (d'.mdevice ≡ 7) × (done ≡ true)
interval_invalidate_lem_example = interval_invalidate_lem table mirror unmap 16
