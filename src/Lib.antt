-- ===== src/Lib.antt =====
-- RSHM-HMM is a set of kernel modules: hmm.c mirrors a process's page table into a device, which has
-- memory of its own, and mm/ carries pages between hosts over RDMA or sockets. The device file of
-- hmm.c takes commands to read and write the process's memory through the mirror: a command works
-- over a bounce buffer and, where the mirror lacks a page, faults it in and goes on.
--
-- Files, with what they model:
--   Base      tests and lists over the native numbers, the laws of the bitwise operations, and the
--             names of the library
--   Kernel    what hmm.c takes from the kernel: errors, page arithmetic, memory, and the XArray and the
--             process's memory as interfaces; Kernel/Map has instances of the XArray
--   Mirror    struct dmirror of hmm.c: dmirror_do_fault, dmirror_do_update,
--             dmirror_interval_invalidate, dmirror_check_atomic, dmirror_atomic_map
--   Bounce    struct dmirror_bounce: dmirror_bounce_init, dmirror_do_read, dmirror_do_write
--   Faulting  dmirror_range_fault and dmirror_fault
--   Transfer  dmirror_read and dmirror_write
--   Devmem    the device memory: dmirror_allocate_chunk, dmirror_devmem_alloc_page,
--             dmirror_devmem_free, dmirror_remove_free_pages; Devmem/Pool is the pool that it
--             implements, and Devmem/Refines how its operations follow one another
--   Snapshot  dmirror_mkentry, dmirror_range_snapshot, dmirror_snapshot
--   Migrate   the pages of one round of a migration: dmirror_migrate_alloc_and_copy,
--             dmirror_migrate_finalize_and_map, dmirror_devmem_fault_alloc_and_copy
--   Moves     dmirror_migrate_to_system, dmirror_migrate_to_device, dmirror_exclusive,
--             dmirror_devmem_fault, dmirror_device_evict_chunk
--   Driver    dmirror_device_remove_chunks, rshm_init, rshm_exit, and the opening of a file
--   Command   dmirror_fops_unlocked_ioctl, which calls the parts above
--   Rdma      mm/nmsg_rdma.h; Rdma/Server and Rdma/Setup are mm/nmsg_rdma_server.c, Rdma/Client is
--             mm/nmsg_rdma_client.c, and Rdma/Handshake joins client and server;
--             Rdma/Session is the client from nmsg_init_client to nmsg_destroy_client
--   Sockets   mm/mem.c and mm/nmsg.c: the array of shared pages, and its client and server over UDP;
--             Sockets/Client has retrieve_page of mm/migrate_device.c
--   Hash      XXH3_64bit of hash.c
--   Benchmark copy.c, and rshm_init of hash.c
-- The files below a part hold its theorems by subject, and its Examples the runs on concrete inputs.
--
-- The state of the mirror is a record with the XArray in it; the code's functions return the new
-- state and the int of the C function, where n stands for -n. Mutexes are fields where a property
-- speaks of them. unsigned long is a natural number below 2^64, and its sums and shifts wrap
-- (add64, shl_page). A page is its number, with 0 for NULL, and the memory gives its contents.
--
-- Loops over page frames count the rounds that the C loop makes. dmirror_range_fault takes a list
-- of attempts, which say what hmm_range_fault reports, which callbacks run in between and whether
-- time is over; the loops of dmirror_fault, dmirror_read, dmirror_write and dmirror_snapshot take
-- fuel, and none is a loop that is still going. dmirror_fault is given one round more than its
-- range has pages, which is enough since each chunk goes forward (Faulting.Chunks); the walk of
-- the free list takes one round more than there are free pages. A wait for a state of a connection
-- takes the events in their order.
--
-- The loops of a migration take what the kernel does in each round as a list (Moves.Round): the area,
-- the result of migrate_vma_setup, the pages that it isolates, those that the driver's allocations get,
-- and what is left behind migrate_vma_pages. The loops of dmirror_migrate_to_system,
-- dmirror_migrate_to_device and dmirror_exclusive are given as many rounds as the range has pages, which
-- is enough since each round goes forward.
--
-- The mirror's notifier is on the whole address space, so that a snapshot runs dmirror_interval_invalidate
-- on each invalidation, and dmirror_snapshot_invalidate on those of its range. Callbacks between the loop
-- of a migration and the mutex for the reading back are a parameter of the commands (Moves.Late).
--
-- XXH3_64bit reads its bytes from a memory that is a function of the distance from input; its loops get
-- one round more than the text has bytes, which is enough since each round goes forward. The loops of
-- copy.c and hash.c run over 1, 10, ..., 1000000 and get eight rounds; the durations are parameters.
--
-- Not modelled: user.c, which only calls the device file and prints, and mm/migrate_device.c (but for
-- retrieve_page) and mm/internal.h, which are copies of Linux files. What the drivers and the kernel
-- functions do that the code calls is a parameter throughout.
pub mod Base
pub mod Benchmark
pub mod Bounce
pub mod Command
pub mod Devmem
pub mod Driver
pub mod Faulting
pub mod Hash
pub mod Kernel
pub mod Migrate
pub mod Mirror
pub mod Moves
pub mod Rdma
pub mod Snapshot
pub mod Sockets
pub mod Transfer
