-- ===== src/Memory/Heap.antt =====
-- `sys_malloc` and `sys_free` of kernel/memory.c, over the pages of Pages.antt.
-- The arenas are found by the address of their page, and a free list is the list of its blocks' addresses,
-- for the descriptors of the thread that runs. What the blocks hold is left out.
use zy_os.Base.{
  ℕ, zero, suc, ◌+◌, ◌-◌, ◌/◌, ◌^◌, Bool, true, false, not, ◌&&◌, ◌||◌, Option, none, some, List,
  [], ◌∷◌, ◌++◌, ◌==◌, ltb, leb, if◌then◌else◌, update, Run, ok, panic, assert, ◌>>=◌, ◌>>◌,
}
use zy_os.Memory.Pool.{page_size, u32, k_heap_start}
use zy_os.Memory.Pages.{
  PoolFlags, pf_kernel, pf_user, Mem, pool_of, malloc_page, mfree_page, lock_pool, unlock_pool,
}
use zy_os.Memory.Blocks.{block_desc_init, desc_for, desc, arena_size, arena2block, block2arena}

-- `struct arena`, where `desc` is the index of the descriptor.
pub record Arena : Type 0 where
  pub desc_idx : Option ℕ
  pub cnt : ℕ
  pub large : Bool

pub record Heap : Type 0 where
  pub mem : Mem
  pub arenas : ℕ → Arena
  pub free_lists : ℕ → List ℕ

abbrev pub flags_of : Heap → PoolFlags
flags_of h = if h.mem.is_kernel then pf_kernel else pf_user

abbrev pub lock_heap : Heap → Heap
lock_heap h = record h { mem = lock_pool (flags_of h) h.mem }

abbrev pub unlock_heap : PoolFlags → Heap → Heap
unlock_heap pf h = record h { mem = unlock_pool pf h.mem }

unfoldable pub has_block : ℕ → List ℕ → Bool
has_block b [] = false
has_block b (c ∷ free_list) = let rest = has_block b free_list in if c == b then true else rest

unfoldable pub without_block : ℕ → List ℕ → List ℕ
without_block b [] = []
without_block b (c ∷ free_list) =
    let rest = without_block b free_list in if c == b then free_list else c ∷ rest

-- The loops over `block_idx`, with the rounds left.
unfoldable pub add_blocks : (a block_size left block_idx : ℕ) → List ℕ → Run (List ℕ)
add_blocks a block_size zero block_idx free_list = ok free_list
add_blocks a block_size (suc left) block_idx free_list =
    let b = arena2block a block_size block_idx in
    assert (not (has_block b free_list))
    >> add_blocks a block_size left (block_idx + 1) (free_list ++ (b ∷ []))

unfoldable pub remove_blocks : (a block_size left block_idx : ℕ) → List ℕ → Run (List ℕ)
remove_blocks a block_size zero block_idx free_list = ok free_list
remove_blocks a block_size (suc left) block_idx free_list =
    let b = arena2block a block_size block_idx in
    assert (has_block b free_list)
    >> remove_blocks a block_size left (block_idx + 1) (without_block b free_list)

-- `malloc_page` on the memory of the heap.
abbrev pub heap_page : PoolFlags → (page_cnt : ℕ) → Heap → Run (Option ℕ × Heap)
heap_page pf page_cnt h = malloc_page pf page_cnt h.mem >>= λ r. ok (r.0, record h { mem = r.1 })

-- More than 1024 bytes.
abbrev pub large_arena : PoolFlags → (page_cnt : ℕ) → Option ℕ × Heap → Run (Option ℕ × Heap)
large_arena pf page_cnt (none, h) = ok (none, unlock_heap pf h)
large_arena pf page_cnt (some a, h) =
    let arena : Arena = record { desc_idx = none; cnt = page_cnt; large = true } in
    ok (some (u32 (a + arena_size)), unlock_heap pf (record h { arenas = update h.arenas a arena }))

unfoldable pub malloc_large : PoolFlags → (size : ℕ) → Heap → Run (Option ℕ × Heap)
malloc_large pf size h =
    let page_cnt = u32 (size + arena_size + (page_size - 1)) / page_size in
    heap_page pf page_cnt h >>= large_arena pf page_cnt

-- A page that becomes an arena: `false` for a `NULL` from `malloc_page`.
abbrev pub small_arena : (i : ℕ) → Option ℕ × Heap → Run (Bool × Heap)
small_arena i (none, h) = ok (false, h)
small_arena i (some a, h) =
    let d = desc i in
    let arena : Arena = record { desc_idx = some i; cnt = d.blocks_per_arena; large = false } in
    add_blocks a d.block_size d.blocks_per_arena 0 (h.free_lists i) >>= λ free_list. ok (
      true,
      record h { arenas = update h.arenas a arena; free_lists = update h.free_lists i free_list },
    )

abbrev pub with_blocks : PoolFlags → (i : ℕ) → Heap → List ℕ → Run (Bool × Heap)
with_blocks pf i h [] = heap_page pf 1 h >>= small_arena i
with_blocks pf i h (b ∷ free_list) = ok (true, h)

-- `list_pop` of a list that is not empty; an empty one would give an element of no list.
abbrev pub take_block : PoolFlags → (i : ℕ) → Heap → List ℕ → Run (Option ℕ × Heap)
take_block pf i h [] = panic
take_block pf i h (b ∷ free_list) =
    let a = block2arena b in
    let arena = h.arenas a in
    ok (
      some b,
      unlock_heap pf (record h {
        arenas = update h.arenas a (record arena { cnt = u32 (arena.cnt + (2 ^ 32 - 1)) });
        free_lists = update h.free_lists i free_list;
      }),
    )

unfoldable pub malloc_small : PoolFlags → (size : ℕ) → Heap → Run (Option ℕ × Heap)
malloc_small pf size h =
    let i = desc_for size block_desc_init 0 in
    with_blocks pf i h (h.free_lists i) >>= λ r.
    if r.0 then take_block pf i r.1 (r.1.free_lists i) else ok (none, unlock_heap pf r.1)

unfoldable pub sys_malloc : (size : ℕ) → Heap → Run (Option ℕ × Heap)
sys_malloc size h =
    let pf = flags_of h in
    if ltb 0 size && ltb size (pool_of pf h.mem).pool_size
    then (if ltb 1024 size
        then malloc_large pf size (lock_heap h)
        else malloc_small pf size (lock_heap h))
    else ok (none, h)

-- `mfree_page` and the end of `sys_free`.
abbrev pub free_page : PoolFlags → (a page_cnt : ℕ) → Heap → Run Heap
free_page pf a page_cnt h =
    mfree_page pf a page_cnt h.mem >>= λ m. ok (unlock_heap pf (record h { mem = m }))

-- A block goes back to its list, and an arena whose blocks are all free gives its page back.
unfoldable pub free_block : PoolFlags → (i a b : ℕ) → Heap → Run Heap
free_block pf i a b h =
    let d = desc i in
    let arena = h.arenas a in
    let cnt = u32 (arena.cnt + 1) in
    let free_list = h.free_lists i ++ (b ∷ []) in
    let arenas = update h.arenas a (record arena { cnt = cnt }) in
    if cnt == d.blocks_per_arena
    then (remove_blocks a d.block_size d.blocks_per_arena 0 free_list >>= λ left.
        free_page pf a 1 (record h { arenas = arenas; free_lists = update h.free_lists i left }))
    else ok (
        unlock_heap pf (record h { arenas = arenas; free_lists = update h.free_lists i free_list }))

-- A pointer into a page that is no arena is not covered: its descriptor would be read through `NULL`.
abbrev pub free_in : PoolFlags → (a b : ℕ) → Heap → Option ℕ → (large : Bool) → Run Heap
free_in pf a b h none true = free_page pf a (h.arenas a).cnt h
free_in pf a b h none false = panic
free_in pf a b h (some i) large = free_block pf i a b h

unfoldable pub sys_free : (ptr : ℕ) → Heap → Run Heap
sys_free ptr h =
    let pf = flags_of h in
    let a = block2arena ptr in
    assert (not (ptr == 0))
    >> (assert (not h.mem.is_kernel || leb k_heap_start ptr)
        >> free_in pf a ptr (lock_heap h) (h.arenas a).desc_idx (h.arenas a).large)
