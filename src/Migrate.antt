-- ===== src/Migrate.antt =====
-- The migration of pages in hmm.c: dmirror_migrate_alloc_and_copy, dmirror_migrate_finalize_and_map,
-- dmirror_devmem_fault_alloc_and_copy and dmirror_successful_migrated_pages. The arrays `src` and
-- `dst` are functions of the index; a loop counts the rounds left. What the kernel gives in a round is
-- a function of the index too.
pub mod Back
pub mod Finalize
pub mod Fixtures
pub mod Loop
pub mod Return
pub mod Sources
pub mod Round
mod Examples
use rshm_hmm.Base.{
  ℕ, zero, suc, ◌+◌, ◌-◌, ◌*◌, ◌/◌, Bool, true, false, not, ◌&&◌, ◌||◌, List, [], ◌∷◌, ◌==◌,
  if◌then◌else◌,
}
use rshm_hmm.Kernel.{Content, Memory, put, entry, XArray, stored, xa_err, page_size, shr_page}
use rshm_hmm.Mirror.{Dmirror, lock, unlock, tag_write}
use rshm_hmm.Snapshot.{PageKind, device_private, device_coherent, zero_page, system}
use rshm_hmm.Devmem.{Device, ChunkAnswers, set_zdd, devmem_alloc_page}

-- A migrate pfn: its flags, and the page that migrate_pfn_to_page gives, 0 for NULL.
pub record MigratePfn : Type 0 where
  pub valid : Bool
  pub migrate : Bool
  pub write : Bool
  pub page : ℕ

abbrev pub no_pfn : MigratePfn
no_pfn = record { valid = false; migrate = false; write = false; page = 0 }

-- migrate_pfn(page_to_pfn(page)), with MIGRATE_PFN_WRITE if `write`
abbrev pub migrate_pfn : ℕ → Bool → MigratePfn
migrate_pfn page write = record { valid = true; migrate = false; write = write; page = page }

abbrev pub Pfns : Type 0
Pfns = ℕ → MigratePfn

-- What migrate_vma_setup leaves in `dst`.
abbrev pub no_pfns : Pfns
no_pfns i = no_pfn

abbrev pub set_pfn : Pfns → ℕ → MigratePfn → Pfns
set_pfn dst i e j = if i == j then e else dst j

zeros : ℕ → Content
zeros zero = []
zeros (suc n) = 0 ∷ zeros n

-- What clear_highpage leaves of a page.
pub blank : Content
unfolding zeros
blank = zeros page_size

-- What the kernel gives for one page: alloc_page, and what a chunk takes if one is needed.
pub record Alloc : Type 0 where
  pub rpage : ℕ
  pub chunk : ChunkAnswers

pub record World : Type 0 where
  pub device : Device
  pub memory : Memory

abbrev pub is_device : PageKind → Bool
is_device (device_private dev) = true
is_device (device_coherent dev) = true
is_device _ = false

-- The end of a round that has got a device page: the copy, and the entry of `dst`. Every device page
-- is of the private type, so that its backing page is its zone_device_data; `own` is the mirror.
pub copy_to_device : ℕ → Bool → MigratePfn → ℕ → World → World × MigratePfn
copy_to_device own vm_write src dpage w =
    let rpage = w.device.zdd dpage in
    let content = if src.page == 0 then blank else w.memory src.page in
    (
      record { device = set_zdd w.device rpage own; memory = put w.memory rpage content },
      migrate_pfn dpage (src.write || src.page == 0 && vm_write),
    )

-- One round of dmirror_migrate_alloc_and_copy; `old` is the entry of `dst` before it.
pub alloc_one :
    (ℕ → PageKind) → ℕ → Bool → Alloc → MigratePfn → MigratePfn → World → World × MigratePfn
unfolding copy_to_device
alloc_one kind own vm_write k src old w =
    let (d, dpage) = devmem_alloc_page w.device k.chunk k.rpage in
    if not src.migrate
    then (w, old)
    else if not (src.page == 0) && is_device (kind src.page)
    then (w, old)
    else if dpage == 0
    then (record w { device = d }, old)
    else copy_to_device own vm_write src dpage (record w { device = d })

pub alloc_and_copy_loop :
    (ℕ → PageKind) → ℕ → Bool → (ℕ → Alloc) → Pfns → ℕ → ℕ → Pfns → World → World × Pfns
unfolding alloc_one
alloc_and_copy_loop kind own vm_write ks src zero i dst w = (w, dst)
alloc_and_copy_loop kind own vm_write ks src (suc n) i dst w =
    let (w', e) = alloc_one kind own vm_write (ks i) (src i) (dst i) w in
    alloc_and_copy_loop kind own vm_write ks src n (i + 1) (set_pfn dst i e) w'

-- The rounds of `for (addr = start; addr < end; addr += PAGE_SIZE)`.
abbrev pub rounds : ℕ → ℕ → ℕ
rounds start end = (end - start + page_size - 1) / page_size

pub alloc_and_copy :
    (ℕ → PageKind) → ℕ → Bool → (ℕ → Alloc) → Pfns → ℕ → ℕ → Pfns → World → World × Pfns
unfolding alloc_and_copy_loop
alloc_and_copy kind own vm_write ks src start end dst w =
    alloc_and_copy_loop kind own vm_write ks src (rounds start end) 0 dst w

-- dmirror_successful_migrated_pages
unfoldable pub successful : Pfns → ℕ → ℕ → ℕ
successful src zero i = 0
successful src (suc n) i =
    (if (src i).valid && (src i).migrate then 1 else 0) + successful src n (i + 1)

-- The page that dmirror_devmem_fault_alloc_and_copy copies from, 0 where it goes on without it.
pub source_page : (ℕ → PageKind) → Device → MigratePfn → ℕ
source_page kind d src = if src.page == 0 || not src.migrate then 0 else elim (kind src.page) [
  | device_private dev ↦ d.zdd src.page
  | device_coherent dev ↦ src.page
  | zero_page ↦ 0
  | system ↦ 0
]

module _ (xa : XArray) where
  open xa use {Xa, load, store, erase}

  -- The rounds of dmirror_migrate_finalize_and_map, with the page table and the result.
  pub finalize_loop : (ℕ → ℕ) → Pfns → Pfns → ℕ → ℕ → ℕ → Xa → Xa × ℕ
  finalize_loop zdd src dst zero pfn i x = (x, 0)
  finalize_loop zdd src dst (suc n) pfn i x = elim ((src i).migrate && not ((dst i).page == 0)) [
    | false ↦ finalize_loop zdd src dst n (pfn + 1) (i + 1) x
    | true ↦
        elim (store x pfn (entry (zdd (dst i).page) (if (dst i).write then tag_write else 0))) [
          | stored y ↦ finalize_loop zdd src dst n (pfn + 1) (i + 1) y
          | xa_err err ↦ (x, err)
        ]
  ]

  pub finalize_and_map : (ℕ → ℕ) → Pfns → Pfns → ℕ → ℕ → Dmirror Xa → Dmirror Xa × ℕ
  unfolding finalize_loop
  finalize_and_map zdd src dst start end m =
      let first = shr_page start in
      let (x, ret) = finalize_loop zdd src dst (shr_page end - first) first 0 (lock m).pt in
      (unlock (record (lock m) { pt = x }), ret)

  -- The rounds of dmirror_devmem_fault_alloc_and_copy: the page table, the memory and `dst`.
  -- `pages` is what alloc_page_vma gives.
  pub fault_copy_loop :
      (ℕ → PageKind) → Device → (ℕ → ℕ) → Pfns → ℕ → ℕ → ℕ → Xa → Memory → Pfns → Xa × Memory × Pfns
  unfolding source_page
  fault_copy_loop kind d pages src zero pfn i x mem dst = (x, mem, dst)
  fault_copy_loop kind d pages src (suc n) pfn i x mem dst =
      let spage = source_page kind d (src i) in
      elim (spage == 0 || pages i == 0) [
        | true ↦ fault_copy_loop kind d pages src n (pfn + 1) (i + 1) x mem dst
        | false ↦
            fault_copy_loop kind d pages src n (pfn + 1) (i + 1) (erase x pfn)
              (put mem (pages i) (mem spage)) (set_pfn dst i (migrate_pfn (pages i) (src i).write))
      ]

  pub devmem_fault_alloc_and_copy :
      (ℕ → PageKind)
      → Device
      → (ℕ → ℕ)
      → Pfns
      → ℕ
      → ℕ
      → Pfns
      → Dmirror Xa
      → Memory
      → Dmirror Xa × Memory × Pfns
  unfolding fault_copy_loop
  devmem_fault_alloc_and_copy kind d pages src start end dst m mem =
      let (x, mem', dst') =
        fault_copy_loop kind d pages src (rounds start end) (shr_page start) 0 m.pt mem dst in
      (record m { pt = x }, mem', dst')
