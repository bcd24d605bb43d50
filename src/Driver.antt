-- ===== src/Driver.antt =====
-- The life of the driver of hmm.c: dmirror_device_remove_chunks, dmirror_device_init,
-- dmirror_device_remove, rshm_init, rshm_exit, dmirror_fops_open and dmirror_fops_release. `none` is a walk of a
-- free list that goes on.
pub mod Release
pub mod Start
mod Examples
use rshm_hmm.Base.{
  ℕ, zero, suc, ◌-◌, Bool, true, false, not, Option, none, some, List, [], ◌∷◌, ◌++◌, ◌==◌,
  if◌then◌else◌,
}
use rshm_hmm.Kernel.{Memory, XArray, enomem}
use rshm_hmm.Mirror.{Dmirror}
use rshm_hmm.Devmem.{Device, Chunk, ChunkAnswers, device_private, allocate_chunk, remove_free_pages}
use rshm_hmm.Migrate.{World}
use rshm_hmm.Moves.{Eviction, evict_chunk}

abbrev pub removing : Chunk → Chunk
removing c = record c { remove = true }

-- memunmap_pages, release_mem_region and kfree of one chunk; every chunk is of the private type.
abbrev pub drop_chunk : World → World
drop_chunk w = record w {
  device = record w.device { regions = w.device.regions - 1; structs = w.device.structs - 1 };
}

abbrev pub with_device : World → Device → World
with_device w d = record w { device = d }

-- The rounds of dmirror_device_remove_chunks behind the chunks `done`, with what the kernel does in
-- each eviction and with fuel for the walks of the free list.
pub remove_rounds : ℕ → (ℕ → Eviction) → ℕ → List Chunk → List Chunk → World → Option World
remove_rounds fuel es i done [] w = some w
remove_rounds fuel es i done (c ∷ cs) w =
    let marked = record w.device { chunks = done ++ removing c ∷ cs } in
    elim (remove_free_pages fuel marked (removing c)) [
      | none ↦ none
      | some d ↦
          remove_rounds fuel es (suc i) (done ++ removing c ∷ []) cs
            (drop_chunk (evict_chunk (es i) (removing c) (with_device w d)))
    ]

abbrev pub no_chunks : Device → Device
no_chunks d = record d {
  count = 0;
  capacity = 0;
  free_pages = 0;
  chunks = [];
  devmem_locked = false;
}

-- The array is there if it has room.
pub remove_chunks : ℕ → (ℕ → Eviction) → World → Option World
unfolding remove_rounds
remove_chunks fuel es w =
    let locked = record w.device { devmem_locked = true } in
    elim (w.device.capacity == 0) [
      | true ↦ some (with_device w (record locked { devmem_locked = false }))
      | false ↦ elim (remove_rounds fuel es 0 [] w.device.chunks (with_device w locked)) [
        | none ↦ none
        | some v ↦ some (with_device v (no_chunks v.device))
      ]
    ]

-- A dmirror_device, and whether its cdev is added.
pub record Slot : Type 0 where
  pub device : Device
  pub cdev : Bool

-- The errors of dev_set_name and cdev_device_add, 0 for none, and what a chunk takes.
pub record InitAnswers : Type 0 where
  pub set_name : ℕ
  pub add : ℕ
  pub chunk : ChunkAnswers

pub device_init : Slot → InitAnswers → Slot × ℕ
device_init s k =
    let (d, ret, _) = allocate_chunk s.device k.chunk false in
    if not (k.set_name == 0)
    then (s, k.set_name)
    else if not (k.add == 0)
    then (s, k.add)
    else (record { device = d; cdev = true }, ret)

pub device_remove : ℕ → (ℕ → Eviction) → Slot → Memory → Option (Slot × Memory)
unfolding remove_chunks
device_remove fuel es s mem =
    elim (remove_chunks fuel es (record { device = s.device; memory = mem })) [
      | none ↦ none
      | some w ↦ some (record { device = w.device; cdev = false }, w.memory)
    ]

-- A dmirror_device after memset, but for its type.
abbrev pub blank_slot : Slot
blank_slot = record {
  device = record {
    zone_device_type = device_private;
    capacity = 0;
    count = 0;
    chunks = [];
    calloc = 0;
    cfree = 0;
    free_pages = 0;
    zdd = λ p. 0;
    devmem_locked = false;
    regions = 0;
    structs = 0;
    backing = 0;
  };
  cdev = false;
}

-- One without a type.
abbrev pub unset_slot : Slot
unset_slot = record blank_slot { device = record blank_slot.device { zone_device_type = 0 } }

-- The module: whether it has its region of device numbers, its two devices, and the memory. The other
-- two entries of dmirror_devices have no type, and rshm_exit passes over them.
pub record Module : Type 0 where
  pub chrdev : Bool
  pub first : Slot
  pub second : Slot
  pub memory : Memory

-- rshm_init with its loop over the two devices written out; `region` is the error of
-- alloc_chrdev_region, 0 for none. The second device fails with the first one removed again.
pub rshm_init : ℕ → (ℕ → Eviction) → ℕ → InitAnswers → InitAnswers → Memory → Option (Module × ℕ)
unfolding device_init device_remove
rshm_init fuel es region k l mem =
    let (a, ret) = device_init blank_slot k in
    let (b, ret') = device_init blank_slot l in
    let idle : Slot → Slot → Module =
      λ x y. record { chrdev = false; first = x; second = y; memory = mem } in
    elim (region == 0) [
      | false ↦ some (idle unset_slot unset_slot, region)
      | true ↦ elim (ret == 0) [
        | false ↦ some (idle a blank_slot, ret)
        | true ↦ elim (ret' == 0) [
          | true ↦ some (record { chrdev = true; first = a; second = b; memory = mem }, 0)
          | false ↦ elim (device_remove fuel es a mem) [
            | none ↦ none
            | some (a', mem') ↦
                some (record { chrdev = false; first = a'; second = b; memory = mem' }, ret')
          ]
        ]
      ]
    ]

-- One round of rshm_exit: a device with a type is removed.
abbrev pub exit_slot : ℕ → (ℕ → Eviction) → Slot → Memory → Option (Slot × Memory)
exit_slot fuel es s mem = elim (s.device.zone_device_type == 0) [
  | true ↦ some (s, mem)
  | false ↦ device_remove fuel es s mem
]

-- `es` are the evictions of the first device, and `fs` those of the second.
pub rshm_exit : ℕ → (ℕ → Eviction) → (ℕ → Eviction) → Module → Option Module
unfolding device_remove
rshm_exit fuel es fs m = elim (exit_slot fuel es m.first m.memory) [
  | none ↦ none
  | some (a, mem) ↦ elim (exit_slot fuel fs m.second mem) [
    | none ↦ none
    | some (b, mem') ↦ some (record { chrdev = false; first = a; second = b; memory = mem' })
  ]
]

module _ (xa : XArray) where
  open xa use {Xa, empty}

  -- An open file: its dmirror, if it has one, and the notifier that is inserted for it.
  pub record File : Type 0 where
    pub private_data : Option (Dmirror Xa)
    pub allocated : Bool
    pub inserted : Bool

  -- `kzalloc` says that the dmirror is allocated, `insert` is the error of
  -- mmu_interval_notifier_insert, and `seq` the sequence number that it begins with.
  pub fops_open : ℕ → Bool → ℕ → ℕ → File × ℕ
  fops_open mdevice kzalloc insert seq =
      let closed : File = record { private_data = none; allocated = false; inserted = false } in
      let dmirror : Dmirror Xa = record {
        mdevice = mdevice;
        pt = empty;
        seq = seq;
        locked = false;
      } in
      if not kzalloc
      then (closed, enomem)
      else if not (insert == 0)
      then (closed, insert)
      else (record { private_data = some dmirror; allocated = true; inserted = true }, 0)

  pub fops_release : File → File
  fops_release f = record { private_data = f.private_data; allocated = false; inserted = false }
