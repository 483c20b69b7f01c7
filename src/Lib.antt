-- ===== src/Lib.antt =====
-- Models of the kernel of BoredOS (C), with theorems about them. The parts and their files:
--
--   Base        numbers, lists, C arrays and rings, shared by all parts
--   Pty         sys/pty.c: pseudo terminals. Pty/Ring is the byte ring of a side, Pty the table of
--               pairs and Pty/Control its ioctl; pty_create is `create`, pty_write_input is
--               `write_input` and so on. A call returns the new table and the calls it makes into
--               other parts, as events.
--   WorkQueue   sys/work_queue.c: work that interrupt handlers leave for a processor to do
--   WaitQueue   sys/wait_queue.c: processes that sleep until they are woken. Terminals and sockets
--               wake their readers through it.
--   Sockbuf     net/sockbuf.c: the receive buffer between lwIP and a socket
--   Kutils      core/kutils.c: C strings
--   Vfs/Paths   fs/vfs_path.c: normal forms of paths
--   Vfs/Mounts  fs/vfs_mount.c and vfs_resolve_mount: the table of mount points, which looks paths
--               up in their normal form and compares them by Kutils
--   Radix       mem/radix_tree.c: the index of the page cache
--   Pmm         mem/pmm.c: the physical page allocator. Pmm/Pages counts the free blocks that a page
--               is in.
--   Shm         fs/shm.c: named shared memory
--   Lz4         fs/lz4.c: decompression of blocks and frames. Lz4/Sequences has the blocks by their
--               sequences.
--   Rbtree      core/lib/rbtree.c: red-black trees; Rbtree/Erase erases. A tree is given by its
--               child links, and a place in it is the list of the nodes above it. Where the code
--               leaves a parent link at the erased node, `erase` answers whose it is.
--   Vma         mem/vma.c: the memory areas of an address space, in a tree of Rbtree and in a list;
--               vma_insert is `insert`, of which `descend` is the loop. An area is known by its
--               start.
--   Process     sys/process.c: the table of processes. Process/Exit ends and reaps them, and
--               Process/Schedule chooses the next one: process_schedule is `schedule`.
--   Files       sys/process.c and sys/syscall_file.c: the descriptors of processes and what they
--               refer to. Files/Pipe is the ring of a pipe. A call gives none where the code would
--               use memory that is free or of another kind.
--
-- Each file opens with the code it is about. A function of the code is a function of the same name,
-- less the prefix of its part; a record has the code's fields, and a loop that walks a list or
-- counts down is structural recursion. What a function changes is an argument and a result. A
-- linked list is the list of the addresses or values in it, first one first, and a string is the
-- list of its bytes up to the NUL. Integers that can wrap have their remainder written out.
--
-- Fuel: `walk` of Vfs/Paths takes a round for each component and starts with the length of the path
-- and one more; `ingest` of Pmm adds at least one page in a round; `drain` of WorkQueue takes a
-- round for each waiting item, of which there are at most 63. That this is enough is part of the
-- theorems about them. `first_fit` of Process/Schedule takes a round for each process on the ring up
-- to where it started, and answers none where the walk is not over within its rounds.
-- `decompress_block` and `frame_blocks` of Lz4 take one for each sequence and block, each of which
-- takes at least a byte of the source; the loops of a pipe take one for each byte. The other bounded
-- loops are bounded in the code.
--
-- Every function runs as a whole under the lock that it takes in the code; interleavings are lists
-- of calls (WorkQueue/Fifo, Pty/Invariant) or steps of a relation (Shm/References, Files/Reach). The
-- calls of Files change counts without a lock, so Files/Reach is about calls one after another.
-- Parameters, which stand for code that is not modelled: lwIP's packet buffers (`Pbufs`), the
-- process table that a terminal asks (`ProcessTable`), what `kmalloc` gives, and what happens while
-- a process is off the processor. Process keeps the table itself, and the release of a process's
-- memory is an event there.
--
-- Not modelled: the creation of processes, exec and signals, since they load programs and copy
-- memory; the dispatch of system calls; page tables and the kernel heap; the file systems behind the
-- mount table; lwIP, drivers, graphics and start-up code. In the parts above: gang lookup in the
-- radix tree, pmm_init, the contents of pages, printing numbers, the merging of memory areas, reads
-- and writes of files, and sockets behind descriptors but for their counts.
pub mod Base
pub mod Pty
pub mod WorkQueue
pub mod Sockbuf
pub mod WaitQueue
pub mod Kutils
pub mod Vfs
pub mod Radix
pub mod Pmm
pub mod Shm
pub mod Process
pub mod Files
pub mod Lz4
pub mod Rbtree
pub mod Vma
