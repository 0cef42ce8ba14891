-- ===== src/Memory.antt =====
-- kernel/memory.c and memory.h: page pools, page tables, pages of the kernel and of a process, and the
-- block sizes of the heap. The proofs stand in the modules behind the definitions.
pub mod Pool
pub mod PoolLaws
pub mod Paging
pub mod PagingLaws
pub mod Pages
pub mod Mapped
pub mod Region
pub mod Malloc
pub mod Blocks
pub mod Heap
pub mod ArenaBlocks
pub mod HeapLaws
mod HeapTests
mod Tests
