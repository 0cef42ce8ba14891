-- ===== src/Lib.antt =====
-- zy_os: a 32-bit x86 kernel with paging, preemptive threads, a disk file system and a shell. This library
-- models the parts of it that keep state in memory or lay data out, and proves what they promise.
--
-- How the parts interact. The bitmap (Bitmap) marks pages, inodes and blocks; the page allocator (Memory)
-- takes runs of virtual pages and single physical pages from bitmaps and enters them in the page tables.
-- Intrusive lists (LinkedList) hold the ready threads (Thread) and the waiters of semaphores; the clock
-- (Timer) calls the scheduler; locks (Sync) block and wake threads. The keyboard (Keyboard) puts characters
-- into a ring (IoQueue) that readers take them from. The file system (Fs) lays out a partition, marks
-- blocks and inodes in bitmaps, keeps tables of open files, and reads and writes their blocks as sectors
-- of a disk; paths are searched through its directories, and open files and directories share inodes that
-- count who refers to them; the driver (Ide) turns runs of sectors into commands. The shell (Shell) reads lines, splits
-- them into words and makes paths absolute. A process (Process) is loaded from a file into pages, and
-- copied page by page when it forks. Strings and Stdio are the library below.
--
-- Which file models what:
--   Base        names shared by all, `Run` for code that `ASSERT` and `PANIC` may halt (kernel/debug.h),
--               lists and Boolean tests over native numbers, bits of bytes.
--   Bitmap      lib/kernel/bitmap.c. Bitmap/Bits: bits and writes; Bitmap/Scan: scans for one bit;
--               Bitmap/Runs: scans for runs.
--   LinkedList  lib/kernel/list.c over a store of elements. Links: chains; Edit: insertion and removal;
--               Walk: the loops over a list.
--   IoQueue     device/io_queue.c. Fifo: the queue as the list of its characters.
--   Memory      kernel/memory.c. Pool, PoolLaws: physical pages and their layout; Paging, PagingLaws: page
--               tables; Pages: virtual pages, from `vaddr_get` to `mfree_page`; Mapped, Region, Malloc: what
--               `malloc_page` returns, for one page, for a region, and for the call; Blocks: the sizes of
--               the heap's blocks and their places in an arena; Heap, ArenaBlocks, HeapLaws: `sys_malloc` and `sys_free`.
--   Thread      thread/thread.c: creation and scheduling. Valid: the invariant; Fair: each operation, and turns.
--   Sync        thread/sync.c as steps that interleave. Inv: the invariant; Steps: each step; Safe: what
--               holds in every state that can be reached.
--   Timer       device/timer.c. Quantum: when the clock switches threads.
--   Keyboard    device/keyboard.c. Keys: what a key does.
--   Strings     lib/string.c. Blocks: filling, copying, joining; Compare: comparison.
--   Stdio       lib/stdio.c. Digits: numbers; Formats: the loop of `vsprintf`.
--   Fs          fs/. Format, Layout: `partition_format`; Inode, InodeLaws: inodes on the disk, `sys_lseek`;
--               Files: the tables of open files; File with Content, ReadLaws, Write, WriteLaws and GrowLaws:
--               `file_read` and `file_write` of fs/file.c; Dir with Search, Full and Delete: fs/dir.c;
--               Opened with Counts, Steps and Shared: inodes in memory, the opening and closing of files and
--               the counts of fork; Paths with Resolve, Names, Calls and Opening: `search_file` and the
--               system calls that use it; Release with Blocks: `inode_release`; Create with Rollback: `file_create` and
--               `sys_mkdir`; Remove: `dir_remove`, `sys_rmdir`, and where `sys_read` and `sys_write` go;
--               Cwd with Climb: `sys_getcwd`.
--   Process     user_process/. Segments: what exec.c loads; Copied, Fork: what `copy_body_stack3` copies.
--   Descriptor  kernel/interrupt.c and user_process/tss.c: gates, segments and the table of handlers.
--               Decoded: what the processor reads in them.
--   Ide         device/ide.c. Requests: the sectors that the register writes of a command ask
--               for; Transfers: those of a call; Waiting: `busy_wait` and
--               the interrupt; Partitions: `partition_scan`.
--   Shell       shell/ and the paths of fs/fs.c. Components: the names of a path; Depth: `path_depth_cnt`;
--               WashLaws: shell/buildin_cmd.c; Command, CommandLaws and LineLaws: shell/shell.c.
-- A `struct` is a record with the source's fields, a function of the source a definition of the same name
-- from a state to a state, and a helper is named for the loop or branch that it stands for. A `uint32_t`
-- is a native number, with `% 2 ^ 32` written where it may wrap. Each folder's Tests has concrete runs.
--
-- Loops and fuel. Loops with a counter recurse on the rounds left. The walks of LinkedList and the loops
-- of Strings that end at a NUL run on fuel; more fuel than elements or characters is enough, which the
-- theorems on them state. `itoa` divides a 32-bit value by at least 10, so that 32 calls are enough.
-- `file_read`, `file_write`, `ide_read` and `ide_write` run their loops with one round more than bytes or
-- sectors, and the loops over paths and words with one or two more than characters; the theorems on them
-- show that the fuel does not run out. `partition_scan` recurs into the tables that a disk names, which may
-- name themselves, so that its fuel is a bound on the depth. `search_file` runs with two rounds more than
-- characters. `sys_getcwd` follows the entries of a disk that may lead in circles: its fuel is a bound on
-- the depth of the directory. `delete_dir_entry` takes fuel for the loop that counts the blocks in a table of
-- addresses, for which no fuel is enough.
--
-- Bounds. Addresses of strings and lists do not wrap, and the addresses behind the last 4 MB, where the
-- page tables are seen, are not mapped. Locks are taken fewer than 2^32 times by one thread.
--
-- Arrays that the source may overrun. `path_depth_cnt`, `search_file`, the washing of paths and `sys_getcwd`
-- give `none` where they write a name or a path behind its array on the stack, and so does `partition_scan`
-- where it stores into `logic_parts[8]`: such a run is not described any further. Theorems on paths bound
-- the names instead. The table of interrupt entries is a parameter, a function of the vector; what its
-- entries from 0x30 on are is not known, since kernel/kernel.s defines none.
--
-- Blocking. What a thread does up to `switch_to` is one step, and what it does when it runs again another.
-- Thread keeps the ready queue as the list of its threads, in which form LinkedList describes lists.
--
-- Memory that `sys_malloc` returns. The models of files and directories take it to be cleared, which is what
-- `sys_malloc` does. Whether a buffer is returned is the parameter `io_buf` of `file_create`, `dir_remove`,
-- `sys_rmdir`, `sys_unlink` behind its search, and `sys_getcwd`; all other calls are taken to return memory.
-- The address of a new inode is the parameter `fresh`, which in `file_create` may be missing. The search of paths and the current directory take the inode that
-- `inode_open` finds for a number as a function, so that the inodes that they open and close again do not
-- change under them.
--
-- Not modelled: boot code, the entry of interrupts and the printing of exceptions (boot/, kernel/kernel.s,
-- kernel/main.c) and the screen (device/console.c, lib/kernel/print.s), which are input and output;
-- `identify_disk` and `ide_init`, which print; the stacks that fork and exec build and `start_process`; of
-- the file system mounting and the search in front of `sys_mkdir`; the shell's commands themselves.
pub mod Base
pub mod Bitmap
pub mod Ide
pub mod IoQueue
pub mod LinkedList
pub mod Memory
pub mod Keyboard
pub mod Shell
pub mod Strings
pub mod Stdio
pub mod Thread
pub mod Sync
pub mod Timer
pub mod Descriptor
pub mod Fs
pub mod Process
