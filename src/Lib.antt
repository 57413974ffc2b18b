-- ===== src/Lib.antt =====
-- A model of the core of the Blackmount kernel, with the theorems that make it correct.
--
-- The kernel is one program of C files that share memory: the page allocator hands out frames, the
-- heap carves the pages that it maps at boot, the socket table and the user tables are static arrays
-- or heap blocks, and the process table is what all of them wake and suspend. A static variable is a
-- field of a record of the model, and an operation takes the record and returns it, with what the C
-- function returns. A pointer into a table is an index; a string is its characters before the null,
-- or the whole array where the code can read behind the null. Numbers are natural numbers, with the
-- wrap-around of the C type written out where it can occur.
--
-- Modules, and the files of the repository that they model:
-- - Memory: src/kernel/memory.c, the byte loops over an addressed memory.
-- - Pmm: src/kernel/mem/pmm.c, the bitmap of physical pages; Init builds it from the boot map.
-- - Heap: src/kernel/heap.c, the chain of blocks. Chain says what a well-formed chain is, Carve and
--   Absorb what splitting and joining do to it, Malloc, Free, Defrag and Totals state the operations.
-- - UnixSocket: src/kernel/net/unix_socket.c. RingBuffer and Fifo are the receive buffer, Connect and
--   Transfer the calls that can wait, IsValid, Keeps and Calls the invariant, Used says which slots
--   are taken and freed, Reach is about the reached tables, Pairing, Stream and Hangup the life of a
--   connection.
-- - Users: src/kernel/user/user.c, with strcmp of src/kernel/string.c. Passwords sets and checks
--   passwords, Login runs one after the other, Permissions is about what a user may do to another.
-- - Vmm: src/kernel/mem/vmm.c, the page tables over the page allocator, with Spaces for address
--   spaces. Tables says what tables map and when they form a tree, Grow, Hang, Step and Walk what a
--   walk does to it, Write, Map and Range the operations on the map, Physical the look-up of an
--   address.
-- - Procs: src/kernel/proc/proc.c, with strlen of src/kernel/string.c. Schedule is about the timer
--   interrupt, Create and Fork make processes, Copy and Young are about a fork, Exit and Kill end
--   processes, Reap and Stack are about these, Break, Heap and Sbrk about the heap of a process,
--   Identity has the calls that set user and group numbers, Privilege and Calls what a process can do
--   with them, Directory the working directory. Others has the start of scheduling, flat code and the
--   calls by which users act on processes, Rights what these let a user do.
-- - Vfs: src/kernel/hal/vfs.c. Files and Sockets are the calls on descriptors, Resolve, Isolation and
--   Descriptors what is shown of paths and of them; the model of unix_socket.c stands behind sockets.
-- - Block: src/kernel/block, the table of devices, disks in memory and MBR partitions, with Gpt for
--   those of GPT. Disk is about the sectors of a RAM disk, Register about the table.
-- - Common: names, Boolean tests, lists and integers that the others share.
--
-- Loops are recursion on the list or on the number of rounds. The walks of the heap follow pointers
-- and take fuel: 32 times the fuel is to be at least the heap's size and 32 more, which is enough as
-- no block is smaller than its header. The write loop of a socket writes a byte in each round, and
-- takes more fuel than there are bytes. The calls that proc_kill_children makes of itself take fuel for
-- their depth: as many as there are process numbers above the parent's are enough.
--
-- A function that waits in proc_yield ends there in the model, and what it does after the wait is a
-- definition of its own or the call entered anew. The calls of proc_block and proc_unblock by the
-- sockets are recorded in a list. Whether vmm_alloc_pages and kmalloc grant memory is an argument of
-- their callers, and so is the hash function of passwords, of which a theorem uses only that it has
-- 32 bytes of output.
--
-- Address spaces are numbers to the process table, and what it asks of vmm.c is an argument or is
-- recorded in a list; the bytes of programs and of user stacks are left out there. What ext2.c and
-- device.c answer is an argument of the virtual file system, and so is which process calls it.
--
-- Not modelled: log output, the assembly, the TLB, devices and the file systems on disk, the system
-- call table, and the files of the user database.
pub mod Common
pub mod Memory
pub mod Pmm
pub mod Vmm
pub mod Heap
pub mod UnixSocket
pub mod Users
pub mod Procs
pub mod Vfs
pub mod Block
