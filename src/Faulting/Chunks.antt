-- ===== src/Faulting/Chunks.antt =====
-- The chunks of 64 pages in which the loops of hmm.c go through a range of addresses.
use rshm_hmm.Base.{ℕ, ◌+◌, ◌-◌, ◌*◌, ◌≤◌, ◌<◌, ◌≡◌, min, arith}
use rshm_hmm.Kernel.{word, page_size, shr_page}
use rshm_hmm.Faulting.{chunk_pages, next_chunk}

-- Where the range and one more chunk fit below 2^64, the next address lies behind the present one
-- and not behind the end, it is page-aligned if both are, and the 64 entries of the arrays are
-- enough for the pages between.
pub next_chunk_bounds :
    (addr end : ℕ)
    → addr < end
    → end + chunk_pages * page_size ≤ word
    → (addr < next_chunk addr end)
      × (next_chunk addr end ≤ end)
      × (next_chunk addr end - addr ≤ chunk_pages * page_size)
      × (shr_page (next_chunk addr end) - shr_page addr ≤ chunk_pages)
unfolding next_chunk
next_chunk_bounds addr end lt fits = (omega arith, omega arith, omega arith, omega arith)

-- the page-aligned case, in page frames
pub next_chunk-shr_page :
    (p e : ℕ)
    → p < e
    → e * page_size + chunk_pages * page_size ≤ word
    → (q : ℕ) × (next_chunk (p * page_size) (e * page_size) ≡ q * page_size)
      × (p < q)
      × (q ≤ e)
      × (q ≤ p + chunk_pages)
unfolding next_chunk
next_chunk-shr_page p e lt fits =
    (min (p + chunk_pages) e, omega arith, omega arith, omega arith, omega arith)

-- Within one chunk of 2^64 the addition wraps, and the next address lies before the present one.
pub next_chunk_wraps :
    (addr end : ℕ)
    → addr < word
    → word ≤ addr + chunk_pages * page_size
    → next_chunk addr end < addr
unfolding next_chunk
next_chunk_wraps addr end lt near = omega arith
