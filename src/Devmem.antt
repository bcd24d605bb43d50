-- ===== src/Devmem.antt =====
-- The device memory of hmm.c: struct dmirror_device, struct dmirror_chunk, the free list through
-- zone_device_data, dmirror_allocate_chunk, dmirror_devmem_alloc_page, dmirror_devmem_free,
-- and dmirror_remove_free_pages. A device page is its page frame number.
pub mod Backing
pub mod Chunks
pub mod Failure
pub mod Frames
pub mod FreeList
pub mod Invariant
pub mod Pages
pub mod Pool
pub mod Refines
pub mod Remove
mod Examples
use rshm_hmm.Base.{
  ℕ, zero, suc, ◌+◌, ◌-◌, Bool, true, false, not, ◌&&◌, Option, none, some, List, [], ◌∷◌, ◌++◌,
  leb, ltb, ◌==◌, if◌then◌else◌,
}
use rshm_hmm.Kernel.{shr_page, enomem, efault}

abbrev pub device_private : ℕ
device_private = 1

abbrev pub devmem_chunks_reserve : ℕ
devmem_chunks_reserve = 16

abbrev pub devmem_chunk_size : ℕ
devmem_chunk_size = 268435456

-- `start` and `end` are the range of the pagemap in bytes, the end included.
pub record Chunk : Type 0 where
  pub start : ℕ
  pub end : ℕ
  pub remove : Bool

-- `zdd` is zone_device_data of every page. `regions`, `structs` and `backing` count what the driver
-- holds of the kernel: memory regions, dmirror_chunk structures, and system pages behind device pages.
pub record Device : Type 0 where
  pub zone_device_type : ℕ
  pub capacity : ℕ
  pub count : ℕ
  pub chunks : List Chunk
  pub calloc : ℕ
  pub cfree : ℕ
  pub free_pages : ℕ
  pub zdd : ℕ → ℕ
  pub devmem_locked : Bool
  pub regions : ℕ
  pub structs : ℕ
  pub backing : ℕ

-- What the kernel answers to one dmirror_allocate_chunk: kzalloc, the start of the region or
-- nothing, krealloc, and the error of memremap_pages, 0 where it succeeds; a NULL of it is -EFAULT.
pub record ChunkAnswers : Type 0 where
  pub kzalloc : Bool
  pub region : Option ℕ
  pub krealloc : Bool
  pub memremap : ℕ

unfoldable pub is_private_zone : Device → Bool
is_private_zone d = d.zone_device_type == device_private

abbrev pub set_zdd : Device → ℕ → ℕ → Device
set_zdd d page v = record d { zdd = λ q. if page == q then v else d.zdd q }

-- page->zone_device_data = free_pages; free_pages = page
abbrev pub push_free : Device → ℕ → Device
push_free d page = record (set_zdd d page d.free_pages) { free_pages = page }

-- The loop over the page frames of a new chunk.
pub push_all : ℕ → ℕ → Device → Device
push_all zero pfn d = d
push_all (suc n) pfn d = push_all n (pfn + 1) (push_free d pfn)

-- free_pages = page->zone_device_data; calloc++
abbrev pub pop_free : Device → Device
pop_free d = record d { free_pages = d.zdd d.free_pages; calloc = d.calloc + 1 }

abbrev pub pages_of : Chunk → ℕ
pages_of c = shr_page (c.end + 1 - c.start)

abbrev pub has_page : Chunk → ℕ → Bool
has_page c page = leb (shr_page c.start) page && ltb page (shr_page c.start + pages_of c)

abbrev pub new_chunk : ℕ → Chunk
new_chunk start = record { start = start; end = start + devmem_chunk_size - 1; remove = false }

-- The label err_release, and err_devmem behind it.
abbrev pub err_release : Device → Device
err_release d = record d { devmem_locked = false; regions = d.regions - 1; structs = d.structs - 1 }

abbrev pub grow : Device → Device
grow d = record d { capacity = d.capacity + devmem_chunks_reserve }

-- The success path behind memremap_pages, with the page that leaves the free list if `ppage` is not
-- NULL.
pub add_chunk : Device → Chunk → Bool → Device × ℕ
unfolding push_all
add_chunk d c wants_page =
    let held = record d {
      chunks = d.chunks ++ c ∷ [];
      count = d.count + 1;
      devmem_locked = false;
    } in
    let filled = push_all (pages_of c) (shr_page c.start) held in
    if wants_page then (pop_free filled, filled.free_pages) else (filled, 0)

-- The part of dmirror_allocate_chunk behind request_free_mem_region: the device, the result, and
-- the page in `*ppage`.
pub map_chunk : Device → ℕ → ChunkAnswers → Bool → Device × ℕ × ℕ
unfolding add_chunk
map_chunk d start k wants_page =
    let locked = record d {
      devmem_locked = true;
      regions = d.regions + 1;
      structs = d.structs + 1;
    } in
    let room = if d.count == d.capacity then grow locked else locked in
    let (added, page) = add_chunk room (new_chunk start) wants_page in
    if d.count == d.capacity && not k.krealloc
    then (err_release locked, enomem, 0)
    else if k.memremap == 0
    then (added, 0, page)
    else (err_release room, k.memremap, 0)

-- `wants_page` says that `ppage` is not NULL.
pub allocate_chunk : Device → ChunkAnswers → Bool → Device × ℕ × ℕ
unfolding map_chunk
allocate_chunk d k wants_page =
    if not k.kzalloc
    then (d, enomem, 0)
    else elim k.region [ none ↦ (d, enomem, 0) | some start ↦ map_chunk d start k wants_page ]

-- `rpage` is what alloc_page gives, 0 where it fails; the result is the page, 0 for NULL.
unfoldable pub devmem_alloc_page : Device → ChunkAnswers → ℕ → Device × ℕ
devmem_alloc_page d k rpage =
    let backed = if is_private_zone d then record d { backing = d.backing + 1 } else d in
    let back : ℕ = if is_private_zone d then rpage else 0 in
    let (d', ret, dpage) = allocate_chunk backed k true in
    if is_private_zone d && rpage == 0
    then (d, 0)
    else if not (d.free_pages == 0)
    then (set_zdd (pop_free backed) d.free_pages back, d.free_pages)
    else if ret == 0
    then (set_zdd d' dpage back, dpage)
    else ((if is_private_zone d then record d' { backing = d'.backing - 1 } else d'), 0)

-- The chunk of a page, by its pagemap, is being removed.
pub is_removed : List Chunk → ℕ → Bool
is_removed [] page = false
is_removed (c ∷ cs) page = if has_page c page then c.remove else is_removed cs page

-- Every device page is of the private type, so that its backing page is its zone_device_data.
pub devmem_free : Device → ℕ → Device
unfolding is_removed
devmem_free d page =
    let released = if d.zdd page == page then d else record d { backing = d.backing - 1 } in
    if is_removed d.chunks page
    then released
    else push_free (record released { cfree = d.cfree + 1 }) page

-- The walk of dmirror_remove_free_pages from `page`, on fuel; `none` is a list that goes on.
pub remove_loop : ℕ → Chunk → (ℕ → ℕ) → ℕ → ℕ → Option ℕ
remove_loop zero c zdd page head = none
remove_loop (suc fuel) c zdd page head = elim (page == 0) [
  | true ↦ some head
  | false ↦ remove_loop fuel c zdd (zdd page) (if has_page c page then zdd page else head)
]

pub remove_free_pages : ℕ → Device → Chunk → Option Device
unfolding remove_loop
remove_free_pages fuel d c = elim (remove_loop fuel c d.zdd d.free_pages d.free_pages) [
  | none ↦ none
  | some head ↦ some (record d { free_pages = head })
]
