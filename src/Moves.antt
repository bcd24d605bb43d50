-- ===== src/Moves.antt =====
-- The commands of hmm.c that migrate: dmirror_select_device, dmirror_migrate_to_system,
-- dmirror_migrate_to_device, dmirror_devmem_fault, dmirror_device_evict_chunk; and dmirror_exclusive.
-- What the kernel does in the rounds of a loop is a list of rounds; where it ends too early, the loop
-- is still going (`none`).
pub mod Exclusive
pub mod ReadBack
pub mod Rounds
pub mod ToDevice
pub mod ToSystem
pub mod WholeDevice
pub mod WholeExclusive
mod Examples
use rshm_hmm.Base.{
  ℕ, zero, suc, ◌+◌, ◌-◌, Bool, true, false, not, ◌&&◌, Option, none, some, List, [], ◌∷◌, ltb, leb,
  ◌==◌, if◌then◌else◌,
}
use rshm_hmm.Kernel.{
  Content, Memory, Mutation, put, XArray, UserSpace, add64, shl_page, shr_page, page_size, word,
  einval, ebusy, efault,
}
use rshm_hmm.Mirror.{Dmirror, Notice, Mapped, mapped, map_err, lock, unlock, atomic_map}
use rshm_hmm.Bounce.{Cmd, Bounce, ok, err, bounce_init, do_read}
use rshm_hmm.Faulting.{notify, next_chunk}
use rshm_hmm.Snapshot.{PageKind}
use rshm_hmm.Devmem.{Device, Chunk, devmem_free, is_private_zone}
use rshm_hmm.Migrate.{
  Pfns, no_pfns, migrate_pfn, set_pfn, Alloc, World, alloc_and_copy, finalize_and_map,
  devmem_fault_alloc_and_copy, successful, source_page,
}

pub data Direction : Type 0 where
  select_system : Direction
  select_device_private : Direction
  select_device_coherent : Direction

pub select_device : Device → Direction
select_device d = if is_private_zone d then select_device_private else select_device_coherent

pub record Vma : Type 0 where
  pub vm_read : Bool
  pub vm_write : Bool
  pub vm_end : ℕ

-- What the kernel does in one round: the answer of vma_lookup; the result of migrate_vma_setup, the
-- callbacks that run in it, what others do to the memory, and the pages that it isolates; the pages
-- that the driver's allocations get; `src` and `npages` behind migrate_vma_pages; and the device pages
-- that lose their last user in migrate_vma_finalize.
pub record Round : Type 0 where
  pub vma : Option Vma
  pub setup : ℕ
  pub notices : List Notice
  pub others : Mutation
  pub kind : ℕ → PageKind
  pub src : Pfns
  pub allocs : ℕ → Alloc
  pub pages : ℕ → ℕ
  pub after : Pfns
  pub npages : ℕ
  pub freed : List ℕ

pub record Site (Xa : Type 0) : Type 0 where
  pub mirror : Dmirror Xa
  pub world : World

abbrev pub with_mirror : {X : Type 0} → Site X → Dmirror X → Memory → Site X
with_mirror s m mem = record { mirror = m; world = record s.world { memory = mem } }

-- The callback page_free for each of the pages.
unfoldable pub free_all : List ℕ → Device → Device
free_all [] d = d
free_all (p ∷ ps) d = free_all ps (devmem_free d p)

abbrev pub readable : Option Vma → Bool
readable none = false
readable (some vma) = vma.vm_read

abbrev pub writable : Option Vma → Bool
writable none = false
writable (some vma) = vma.vm_write

-- next = min(end, addr + (64 << PAGE_SHIFT)), and no further than the area
abbrev pub next_addr : Option Vma → ℕ → ℕ → ℕ
next_addr none addr end = next_chunk addr end
next_addr (some vma) addr end =
    let next = next_chunk addr end in if ltb vma.vm_end next then vma.vm_end else next

-- Where a loop ends: the state, the pages counted, and the result.
pub record Ended (S : Type 0) : Type 0 where
  pub state : S
  pub cpages : ℕ
  pub ret : ℕ

pub record Reply (S User : Type 0) : Type 0 where
  pub state : S
  pub user : User
  pub cmd : Cmd
  pub ret : ℕ

-- What comes in between the unlocking of the process's map and the mutex of the mirror, before the pages
-- are read back: callbacks, and what others do to the memory.
pub record Late : Type 0 where
  pub notices : List Notice
  pub others : Mutation

-- What make_device_exclusive_range returns: a count, or an error.
pub record Claim : Type 0 where
  pub notices : List Notice
  pub others : Mutation
  pub ret : Mapped
  pub pages : ℕ → ℕ

pub claim_end : ℕ → ℕ → ℕ
claim_end addr end = let limit = add64 addr (shl_page 64) in if ltb end limit then end else limit

abbrev pub is_all : Mapped → ℕ → Bool
is_all (mapped n) pages = n == pages
is_all (map_err e) pages = false

-- An int in an unsigned long.
abbrev pub as_long : Mapped → ℕ
as_long (mapped n) = n
as_long (map_err e) = word - e

module _ (xa : XArray) where
  open xa use {Xa}

  -- The part of a round of dmirror_migrate_to_system behind migrate_vma_setup.
  pub to_system_round : Round → ℕ → ℕ → Site Xa → Site Xa
  unfolding free_all
  to_system_round r addr next s =
      let m = notify xa s.mirror r.notices in
      let (m', mem, dst) =
        devmem_fault_alloc_and_copy xa r.kind s.world.device r.pages r.src addr next no_pfns m
          (r.others s.world.memory) in
      record {
        mirror = m';
        world = record { device = free_all r.freed s.world.device; memory = mem };
      }

  -- `ret` is the variable, which the code does not initialise.
  pub to_system_loop : List Round → ℕ → ℕ → ℕ → ℕ → Site Xa → Option (Ended (Site Xa))
  unfolding to_system_round
  to_system_loop [] addr end cpages ret s =
      if ltb addr end then none else some (record { state = s; cpages = cpages; ret = ret })
  to_system_loop (r ∷ rs) addr end cpages ret s =
      let next = next_addr r.vma addr end in
      let go_on =
        to_system_loop rs next end (cpages + successful r.after r.npages 0) 0
          (to_system_round r addr next s) in
      if not (ltb addr end)
      then some (record { state = s; cpages = cpages; ret = ret })
      else if not (readable r.vma)
      then some (record { state = s; cpages = cpages; ret = einval })
      else if not (r.setup == 0)
      then some (record { state = s; cpages = cpages; ret = r.setup })
      else go_on

  -- `alive` is the answer of mmget_not_zero.
  pub migrate_to_system : List Round → Bool → ℕ → Site Xa → Cmd → Option (Site Xa × Cmd × ℕ)
  unfolding to_system_loop
  migrate_to_system rs alive junk s cmd =
      let end = add64 cmd.addr (shl_page cmd.npages) in
      if ltb end cmd.addr
      then some (s, cmd, einval)
      else if not alive
      then some (s, cmd, einval)
      else elim (to_system_loop rs cmd.addr end 0 junk s) [
        | none ↦ none
        | some e ↦ some (e.state, record cmd { cpages = e.cpages }, e.ret)
      ]

  -- The part of a round of dmirror_migrate_to_device behind migrate_vma_setup; `own` is the mirror.
  pub to_device_round : ℕ → Round → ℕ → ℕ → Site Xa → Site Xa
  unfolding free_all
  to_device_round own r addr next s =
      let m = notify xa s.mirror r.notices in
      let w : World = record s.world { memory = r.others s.world.memory } in
      let (w', dst) =
        alloc_and_copy r.kind own (writable r.vma) r.allocs r.src addr next no_pfns w in
      let (m', _) = finalize_and_map xa w'.device.zdd r.after dst addr next m in
      record { mirror = m'; world = record w' { device = free_all r.freed w'.device } }

  -- The loop of dmirror_migrate_to_device, with 0 where it goes on behind it.
  pub to_device_loop : ℕ → List Round → ℕ → ℕ → Site Xa → Option (Site Xa × ℕ)
  unfolding to_device_round
  to_device_loop own [] addr end s = if ltb addr end then none else some (s, 0)
  to_device_loop own (r ∷ rs) addr end s =
      let next = next_addr r.vma addr end in
      let go_on = to_device_loop own rs next end (to_device_round own r addr next s) in
      if not (ltb addr end)
      then some (s, 0)
      else if not (readable r.vma)
      then some (s, einval)
      else if not (r.setup == 0)
      then some (s, r.setup)
      else go_on

  module _ (us : UserSpace) (vmalloc : ℕ → Option (List Content)) where
    open us use {User, copy_pages}

    -- Return the migrated data for verification; `back` is the state with the mirror and the memory.
    pub read_back :
        {S : Type 0}
        → (Dmirror Xa → Memory → S)
        → Late
        → Dmirror Xa
        → Memory
        → User
        → Cmd
        → ℕ
        → ℕ
        → Reply S User
    read_back back late m0 mem0 u cmd end size =
        let m = notify xa m0 late.notices in
        let mem = late.others mem0 in
        elim (bounce_init vmalloc cmd.addr size) [
          | err e ↦ record { state = back m mem; user = u; cmd = cmd; ret = e }
          | ok b ↦
              (let (b', ret) = do_read xa (lock m) mem cmd.addr end b in
                let (u', failed) = copy_pages u cmd.ptr b'.ptr in
                let cmd' : Cmd = record cmd { cpages = b'.cpages } in
                let s = back (unlock (lock m)) mem in
                if ret == 0
                then record {
                  state = s;
                  user = u';
                  cmd = cmd';
                  ret = (if failed then efault else 0);
                }
                else record { state = s; user = u; cmd = cmd'; ret = ret })
        ]

    pub migrate_to_device :
        ℕ → List Round → Late → Bool → Site Xa → User → Cmd → Option (Reply (Site Xa) User)
    unfolding to_device_loop read_back
    migrate_to_device own rs late alive s u cmd =
        let size = shl_page cmd.npages in
        let end = add64 cmd.addr size in
        if ltb end cmd.addr
        then some (record { state = s; user = u; cmd = cmd; ret = einval })
        else if not alive
        then some (record { state = s; user = u; cmd = cmd; ret = einval })
        else elim (to_device_loop own rs cmd.addr end s) [
          | none ↦ none
          | some (s', ret) ↦
              if ret == 0
              then some (read_back (with_mirror s') late s'.mirror s'.world.memory u cmd end size)
              else some (record { state = s'; user = u; cmd = cmd; ret = ret })
        ]

    -- One round of dmirror_exclusive: what the kernel and others do before the mutex is taken, and what
    -- make_device_exclusive_range returns and gives.
    pub exclusive_loop : List Claim → ℕ → ℕ → Dmirror Xa → Memory → Option (Dmirror Xa × Memory × ℕ)
    exclusive_loop [] addr end m mem = if ltb addr end then none else some (m, mem, 0)
    exclusive_loop (c ∷ cs) addr end m mem =
        let next = claim_end addr end in
        let m1 = notify xa m c.notices in
        let mem' = c.others mem in
        let (m2, r) = atomic_map xa m1 addr next c.pages in
        let all = is_all c.ret (shr_page (next - addr)) in
        let m' = if all then m2 else m1 in
        let n = if all then as_long r else 0 in
        let go_on = exclusive_loop cs next end m' mem' in
        if not (ltb addr end)
        then some (m, mem, 0)
        else if ltb (add64 addr (shl_page n)) next
        then some (m', mem', ebusy)
        else go_on

    pub exclusive :
        List Claim
        → Late
        → Bool
        → Dmirror Xa
        → Memory
        → User
        → Cmd
        → Option (Reply (Dmirror Xa × Memory) User)
    unfolding exclusive_loop read_back
    exclusive cs late alive m mem u cmd =
        let size = shl_page cmd.npages in
        let end = add64 cmd.addr size in
        if ltb end cmd.addr
        then some (record { state = (m, mem); user = u; cmd = cmd; ret = einval })
        else if not alive
        then some (record { state = (m, mem); user = u; cmd = cmd; ret = einval })
        else elim (exclusive_loop cs cmd.addr end m mem) [
          | none ↦ none
          | some (m', mem', ret) ↦
              if ret == 0
              then some (read_back (λ d mem. (d, mem)) late m' mem' u cmd end size)
              else some (record { state = (m', mem'); user = u; cmd = cmd; ret = ret })
        ]

  -- dmirror_devmem_fault, in one round of one page; VM_FAULT_SIGBUS is true.
  pub devmem_fault : Round → ℕ → Site Xa → Site Xa × Bool
  unfolding to_system_round
  devmem_fault r addr s =
      if r.setup == 0 then (to_system_round r addr (add64 addr page_size) s, false) else (s, true)

-- The rounds of dmirror_device_evict_chunk, with the memory and `dst`. `pages` is what alloc_page gives,
-- which does not fail.
pub evict_loop : (ℕ → PageKind) → Device → (ℕ → ℕ) → Pfns → ℕ → ℕ → Memory → Pfns → Memory × Pfns
evict_loop kind d pages src zero i mem dst = (mem, dst)
evict_loop kind d pages src (suc n) i mem dst =
    let spage = source_page kind d (src i) in
    elim (spage == 0) [
      | true ↦ evict_loop kind d pages src n (i + 1) mem dst
      | false ↦
          evict_loop kind d pages src n (i + 1) (put mem (pages i) (mem spage))
            (set_pfn dst i (migrate_pfn (pages i) (src i).write))
    ]

-- What the kernel does in one dmirror_device_evict_chunk: the pages of migrate_device_range, those of
-- alloc_page, and the device pages that migrate_device_finalize frees.
pub record Eviction : Type 0 where
  pub kind : ℕ → PageKind
  pub src : Pfns
  pub pages : ℕ → ℕ
  pub freed : List ℕ

unfoldable pub evict_chunk : Eviction → Chunk → World → World
unfolding evict_loop free_all
evict_chunk e c w =
    let npages = shr_page c.end - shr_page c.start + 1 in
    let (mem, _) = evict_loop e.kind w.device e.pages e.src npages 0 w.memory no_pfns in
    record { device = free_all e.freed w.device; memory = mem }
