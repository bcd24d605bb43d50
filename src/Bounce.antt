-- ===== src/Bounce.antt =====
-- The commands and their bounce buffers in hmm.c: struct hmm_dmirror_cmd, struct dmirror_bounce,
-- dmirror_bounce_init, dmirror_do_read and dmirror_do_write. A buffer is the list of its pages, and
-- a pointer into it is an offset in bytes.
pub mod Read
pub mod Write
pub mod RoundTrip
mod Examples
use rshm_hmm.Base.{
  ℕ, zero, suc, ◌+◌, ◌-◌, ◌*◌, ◌/◌, ◌%◌, Bool, true, false, not, ◌&&◌, Option, none, some, List, [],
  ◌==◌, get_or, set,
}
use rshm_hmm.Kernel.{Content, Memory, put, Entry, XArray, page_size, word, shr_page, enoent, enomem}
use rshm_hmm.Mirror.{Dmirror, tag_write}

pub record Cmd : Type 0 where
  pub addr : ℕ
  pub ptr : ℕ
  pub npages : ℕ
  pub cpages : ℕ
  pub faults : ℕ

pub record Bounce : Type 0 where
  pub ptr : List Content
  pub size : ℕ
  pub addr : ℕ
  pub cpages : ℕ

-- A value, or the number of an error.
pub data Result (A : Type 0) : Type 0 where
  ok : A → Result A
  err : ℕ → Result A

-- `vmalloc` gives the pages of a buffer of so many bytes, or NULL.
unfoldable pub bounce_init : (ℕ → Option (List Content)) → ℕ → ℕ → Result Bounce
bounce_init vmalloc addr size = elim (vmalloc size) [
  | none ↦ err enomem
  | some pages ↦ ok (record { ptr = pages; size = size; addr = addr; cpages = 0 })
]

-- (start - addr) & PAGE_MASK
abbrev pub offset : ℕ → ℕ → ℕ
offset start addr = (start + word - addr) % word / page_size * page_size

-- memcpy of one page into the buffer, and the count of it
abbrev pub fill : Bounce → ℕ → Content → Bounce
fill b off c = record b { ptr = set b.ptr (off / page_size) c; cpages = b.cpages + 1 }

module _ (xa : XArray) where
  open xa use {Xa, load}

  -- The rounds of dmirror_do_read that are left, at page frame `pfn` and buffer offset `off`.
  pub do_read_loop : Xa → Memory → ℕ → ℕ → ℕ → Bounce → Bounce × ℕ
  do_read_loop x mem zero pfn off b = (b, 0)
  do_read_loop x mem (suc n) pfn off b = elim ((load x pfn).page == 0) [
    | true ↦ (b, enoent)
    | false ↦ do_read_loop x mem n (pfn + 1) (off + page_size) (fill b off (mem (load x pfn).page))
  ]

  pub do_read : Dmirror Xa → Memory → ℕ → ℕ → Bounce → Bounce × ℕ
  unfolding do_read_loop
  do_read d mem start end b =
      let first = shr_page start in
      do_read_loop d.pt mem (shr_page end - first) first (offset start b.addr) b

  abbrev pub is_writable : Xa → ℕ → Bool
  is_writable x pfn = not ((load x pfn).page == 0) && (load x pfn).tag == tag_write

  -- The rounds of dmirror_do_write that are left.
  pub do_write_loop : Xa → ℕ → ℕ → ℕ → Bounce → Memory → Bounce × Memory × ℕ
  do_write_loop x zero pfn off b mem = (b, mem, 0)
  do_write_loop x (suc n) pfn off b mem = elim (is_writable x pfn) [
    | false ↦ (b, mem, enoent)
    | true ↦
        do_write_loop x n (pfn + 1) (off + page_size) (record b { cpages = b.cpages + 1 })
          (put mem (load x pfn).page (get_or b.ptr (off / page_size) []))
  ]

  pub do_write : Dmirror Xa → ℕ → ℕ → Bounce → Memory → Bounce × Memory × ℕ
  unfolding do_write_loop
  do_write d start end b mem =
      let first = shr_page start in
      do_write_loop d.pt (shr_page end - first) first (offset start b.addr) b mem
