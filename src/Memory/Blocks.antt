-- ===== src/Memory/Blocks.antt =====
-- Block sizes of the heap: `block_desc_init`, `arena2block`, `block2arena`, and the search of `sys_malloc`
-- for the descriptor of a size. `sizeof(struct arena)` is 12. The free lists start empty and are left out.
use zy_os.Base.{
  ℕ, zero, suc, ◌+◌, ◌-◌, ◌*◌, ◌/◌, ◌%◌, ◌^◌, ◌≤◌, ◌<◌, ◌≡◌, ◌⊎◌, true, false, List, [], ◌∷◌, arith,
  leb, get_or,
}
use zy_os.Memory.Pool.{page_size, u32}

pub record MemBlockDesc : Type 0 where
  pub block_size : ℕ
  pub blocks_per_arena : ℕ

abbrev pub desc_cnt : ℕ
desc_cnt = 7

abbrev pub arena_size : ℕ
arena_size = 12

-- `block_size` is a `uint16_t`.
unfoldable pub descs_from : (block_size left : ℕ) → List MemBlockDesc
descs_from block_size zero = []
descs_from block_size (suc left) =
    record { block_size = block_size; blocks_per_arena = (page_size - arena_size) / block_size }
    ∷ descs_from (block_size * 2 % 2 ^ 16) left

unfoldable pub block_desc_init : List MemBlockDesc
unfolding descs_from
block_desc_init = descs_from 16 desc_cnt

-- The loop over `desc_idx` that stops at the first block size that is large enough.
unfoldable pub desc_for : ℕ → (descs : List MemBlockDesc) → (desc_idx : ℕ) → ℕ
desc_for size [] desc_idx = desc_idx
desc_for size (d ∷ ds) desc_idx = elim (leb size d.block_size) [
  | true ↦ desc_idx
  | false ↦ desc_for size ds (desc_idx + 1)
]

unfoldable pub arena2block : (a block_size idx : ℕ) → ℕ
arena2block a block_size idx = u32 (a + arena_size + idx * block_size)

-- `b & 0xfffff000`
unfoldable pub block2arena : ℕ → ℕ
block2arena b = b - b % 4096

abbrev no_desc : MemBlockDesc
no_desc = record { block_size = 0; blocks_per_arena = 0 }

abbrev pub desc : ℕ → MemBlockDesc
desc i = get_or block_desc_init i no_desc

-- For a size from 1 to 1024 the search for a descriptor ends inside the table at blocks that are large
-- enough, and less than twice the size unless they are the smallest.
pub desc_for_lem :
    (size : ℕ)
    → 0 < size
    → size ≤ 1024
    → let i = desc_for size block_desc_init 0 in
      (i < desc_cnt)
      × (size ≤ (desc i).block_size)
      × (((desc i).block_size < 2 * size) ⊎ ((desc i).block_size ≡ 16))
unfolding desc_for block_desc_init
desc_for_lem size h l = ground arith

-- In an arena on one page, with any of the seven block sizes, each block lies behind the arena's head
-- and inside the page, leads back to the arena, and starts behind the end of the blocks before it.
pub blocks_lem :
    (a i j k : ℕ)
    → a % page_size ≡ 0
    → a + page_size ≤ 2 ^ 32
    → i < desc_cnt
    → j < k
    → k < (desc i).blocks_per_arena
    → let size = (desc i).block_size in
      (a + arena_size ≤ arena2block a size j)
      × (arena2block a size j + size ≤ arena2block a size k)
      × (arena2block a size k + size ≤ a + page_size)
      × (block2arena (arena2block a size k) ≡ a)
unfolding block_desc_init arena2block block2arena
blocks_lem a zero j k h f l b c = omega arith
blocks_lem a (suc zero) j k h f l b c = omega arith
blocks_lem a (suc (suc zero)) j k h f l b c = omega arith
blocks_lem a (suc (suc (suc zero))) j k h f l b c = omega arith
blocks_lem a (suc (suc (suc (suc zero)))) j k h f l b c = omega arith
blocks_lem a (suc (suc (suc (suc (suc zero))))) j k h f l b c = omega arith
blocks_lem a (suc (suc (suc (suc (suc (suc zero)))))) j k h f l b c = omega arith
blocks_lem a (suc (suc (suc (suc (suc (suc (suc i))))))) j k h f l b c = absurd (omega arith)
