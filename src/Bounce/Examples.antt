-- ===== src/Bounce/Examples.antt =====
-- Reads and writes of a bounce buffer of hmm.c on a concrete mirror of two pages.
use rshm_hmm.Base.{ℕ, ◌≡◌, refl, ◌<◌, [], ◌∷◌, get_or, arith, ◌==◌, if◌then◌else◌, false}
use rshm_hmm.Kernel.{Memory, entry, null_entry, XArray}
use rshm_hmm.Kernel.Map.{bounded_map}
use rshm_hmm.Mirror.{Dmirror}
use rshm_hmm.Bounce.{Bounce, do_read, do_read_loop, do_write, do_write_loop}
use rshm_hmm.Bounce.Write.{Distinct, Written, do_write-Written}
use rshm_hmm.Bounce.RoundTrip.{do_read-do_write}

abbrev table : XArray
table = bounded_map 1000

abbrev mirror : Dmirror table.Xa
mirror = record {
  mdevice = 7;
  pt = λ i. if i == 16 then entry 40 3 else if i == 17 then entry 41 3 else null_entry;
  seq = 5;
  locked = false;
}

abbrev memory : Memory
memory p = p ∷ []

abbrev out : Bounce
out = record { ptr = (1 ∷ []) ∷ (2 ∷ []) ∷ []; size = 8192; addr = 65536; cpages = 0 }

abbrev back : Bounce
back = record { ptr = [] ∷ [] ∷ []; size = 8192; addr = 65536; cpages = 0 }

-- The third page of the range has no entry.
read_short : (do_read table mirror memory 65536 77824 back).0.cpages ≡ 2
unfolding do_read do_read_loop
read_short = refl

write_second : (do_write table mirror 65536 73728 out memory).1 41 ≡ get_or out.ptr 1 []
unfolding do_write do_write_loop
write_second = refl

write_result : (do_write table mirror 65536 73728 out memory).2 ≡ 0
unfolding do_write do_write_loop
write_result = refl

two_pages : Distinct table mirror.pt 16 2
two_pages p r lo hi lo' hi' e = ground (arith, e)

do_write-Written_example :
    Written table mirror.pt 2 16 0 out memory (do_write table mirror 65536 73728 out memory)
do_write-Written_example =
    do_write-Written table mirror.pt mirror 65536 73728 0 out memory refl (omega arith)
      (omega arith) two_pages

do_read-do_write_example :
    let (c', ret) =
      do_read table mirror (do_write table mirror 65536 73728 out memory).1 65536 73728 back in
    (ret ≡ 0) × (c'.cpages ≡ 2) × ((a : ℕ) → a < 2 → get_or c'.ptr a [] ≡ get_or out.ptr a [])
do_read-do_write_example =
    do_read-do_write table mirror 73728 out back memory (omega arith) refl (omega arith) two_pages
      write_result
