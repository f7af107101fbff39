-- ===== src/Lib.antt =====
-- HexaOS: a model of the kernel's core and the theorems that hold of it.
--
-- HexaOS is a 32-bit kernel in C. Its tasks live in one table of 16 slots; the timer interrupt calls the
-- scheduler, tasks exchange bytes through pipes, forms through typed pipes and events through queues,
-- and the pages and heap blocks that all of it stands on come from two allocators. The files:
--
--   Process      process.c: the task table; proc_init, proc_create, proc_exit, proc_wait, proc_kill and
--                proc_reap_zombies, with the stack frame that proc_create builds.
--   Scheduler    process.c: schedule, its two passes and the switch.
--   Events       process.c: process_event_send and process_event_poll.
--   Fds          process.c: proc_get_fd_entry, proc_alloc_fd, proc_free_fd.
--   Pipe         pipe.c: pipe_create, pipe_read, pipe_write, pipe_close and the typed pipes. pipe_create
--                calls proc_alloc_fd of Fds on the state of Process.
--   Pmm          paging.c: pmm_init, pmm_alloc, pmm_free, pmm_count_free.
--   Heap         paging.c: kheap_init, kmalloc, kfree.
--   Log          log.c: the ring of characters, log_write, log_write_hex, log_get.
--   Net          net.c: the loopback device, interfaces and connections.
--   Sync         sync.c: mutexes and semaphores.
--   Disk         hexafs_disk.c: the block cache, over a disk driver that is a parameter.
--   Blocks       hexafs_disk.c: the block allocator, which clears blocks through the cache.
--   Superblock   hexafs_disk.c: the superblock, written and read through the cache.
--   Store        hexafs_disk.c and hexafs.c: formatting and mounting, the saved bitmap, transactions
--                (Store/Commit), snapshots (Store/Snapshots) and objects (Store/Objects).
--   Text         hexa.c: the string functions, itoa and atoi (Text/Numbers), password hashes
--                (Text/Password).
--   Forms        hexa.c: the table of forms, check_perm, and the commands that change a form
--                (Forms/Dispatch: all but makedim and copy, which share content). vfs.c and
--                intent.c call find_form, check_perm, form_ensure_cap and cmd_mkform of it.
--   Users        hexa.c: the users, their commands and their form on disk; passwords are those of Text.
--   Vfs          vfs.c: descriptors for forms, pipes (of Pipe) and the console.
--   Intents      intent.c: the table of intents, their fulfilment on forms, and the calls like those on
--                files.
--   Rules        hexafs.c: the rules that say which capabilities a user may take.
--   Struct       packed 32-bit fields in a sector, and hexafs_content_hash with the checksums.
--   Ring         the rings with one free slot that pipes, events, the log and the loopback device keep.
--   Bitmap       the bitmap in bytes of the page allocator and of the block allocator.
--   Base         names of the libraries, Boolean tests, arrays as functions, lists, bits and counts.
--
-- How the model is built. The static variables of a C file are a record, and a function that changes
-- them takes and returns that record. An array is a function from its index. `int`, `pid_t` and
-- `uint32_t` are natural numbers below 2^32 with the wrap-around written out; a negative `int` is its
-- bit pattern, so -1 is 2^32 - 1, and a comparison of signed numbers says so. A result of -1 that means
-- failure is `none`. A C `for` that stops at the first hit is `scan`, a search over a range. The headers
-- of the heap are the list that their `next` fields make, each with its address. Calls of log_write
-- change only the log and are left out of the callers.
--
-- Bounds and termination. The loops run over tables of fixed size or over the bytes asked for, so they
-- are structural recursion. The loop of itoa has 32 rounds, which are enough for any word;
-- the search along the snapshots looks at 4096 blocks, as many as the disk has, and says so if more of
-- the chain is left, which only a cycle does; the loops
-- over a C string go over the list of its bytes, and one that reads a field of fixed size stops at its
-- end. pipe_read and pipe_write wait in a loop for another
-- task; the model of one call stops there with the status `spinning`, and Pipe/Interleave interleaves
-- the critical sections of any number of readers and writers instead. Between cli and sti nothing
-- interleaves. The heap is assumed to end below 2^31, which kheap_init keeps by far.
--
-- Parameters. The addresses of the tasks' stacks, which the linker gives, and the kernel's page
-- directory are arguments of proc_create. The disk driver, ata_read_sector and ata_write_sector of
-- hexa.c, is the record Disk.Ata; the laws that the theorems ask of it are Disk.IsDriver: a write that
-- succeeds can be read back, and it leaves the other sectors alone. For forms the heap is an argument:
-- what kmalloc returns for a size. Typed keys, passwords, the tick that salts them and what
-- hexafs_cap_check answers are arguments too.
--
-- Not modelled: port I/O, the interrupt and segment tables, the page tables and user processes, the
-- chains of names in the store on disk and what is built on them, the games and screens of the shell,
-- functions that only format text, and makedim and copy, which write through a content pointer that a
-- delete leaves to two entries, where forms are values here. A write behind a buffer, where the code allows one, is not given a
-- meaning: the content of a form is a function from all indices, and the theorems say which stay within; for an
-- intent, past_form counts the bytes that go behind the block.
pub mod Base
pub mod Bitmap
pub mod Blocks
pub mod Disk
pub mod Events
pub mod Fds
pub mod Forms
pub mod Heap
pub mod Intents
pub mod Log
pub mod Net
pub mod Pipe
pub mod Pmm
pub mod Process
pub mod Ring
pub mod Rules
pub mod Scheduler
pub mod Store
pub mod Struct
pub mod Superblock
pub mod Sync
pub mod Text
pub mod Users
pub mod Vfs
