-- ===== src/Memory/HeapLaws.antt =====
-- What `sys_malloc` and `sys_free` of kernel/memory.c do to an arena and a free list.
use zy_os.Base.{
  ℕ, suc, ◌+◌, ◌-◌, ◌*◌, ◌/◌, ◌%◌, ◌^◌, ◌≤◌, ◌<◌, ◌≡◌, ◌⊎◌, inl, inr, refl, sym, ap, ◌∙◌, true,
  false, not, ◌&&◌, ◌||◌, none, some, List, [], ◌∷◌, ◌==◌, ltb, leb, if◌then◌else◌, update, arith,
  Bool-cases, ok, ◌>>=◌,
}
use zy_os.Memory.Pool.{page_size, u32, k_heap_start}
use zy_os.Memory.Pages.{PoolFlags, Mem, pool_of, malloc_page, mfree_page, lock_pool, unlock_pool}
use zy_os.Memory.Blocks.{
  block_desc_init, desc_for, desc, desc_cnt, arena_size, arena2block, block2arena, desc_for_lem,
}
use zy_os.Memory.Heap.{
  Arena, Heap, flags_of, lock_heap, unlock_heap, add_blocks, malloc_small, sys_malloc, free_block,
  sys_free, with_blocks, take_block, malloc_large,
}
use zy_os.Memory.ArenaBlocks.{blocks, desc_pos, add_blocks_lem, remove_all}

first_block_at :
    (a size : ℕ)
    → a % page_size ≡ 0
    → a + page_size ≤ 2 ^ 32
    → (arena2block a size 0 ≡ a + arena_size) × (block2arena (arena2block a size 0) ≡ a)
unfolding arena2block block2arena
first_block_at a size aligned inside = (omega arith, omega arith)

-- What a call leaves of the heap around one arena and one free list.
pub record Leaves (h h' : Heap) (m : Mem) (a i : ℕ) (arena : Arena) (free_list : List ℕ)
    : Type 0 where
  pub mem : h'.mem ≡ m
  pub arenas : (p : ℕ) → h'.arenas p ≡ (if p == a then arena else h.arenas p)
  pub free_lists : (j : ℕ) → h'.free_lists j ≡ (if j == i then free_list else h.free_lists j)

-- The arena and the list behind a new arena, whose first block is taken.
abbrev new_arena : (i : ℕ) → Arena
new_arena i = record { desc_idx = some i; cnt = (desc i).blocks_per_arena; large = false }

abbrev taken_from : (pf : PoolFlags) (i a : ℕ) → Heap → Mem → (rest : List ℕ) → Heap
taken_from pf i a h m rest = record {
  mem = unlock_pool pf m;
  arenas =
      update (update h.arenas a (new_arena i)) a
        (record (new_arena i) { cnt = u32 ((desc i).blocks_per_arena + (2 ^ 32 - 1)) });
  free_lists = update (update h.free_lists i (arena2block a (desc i).block_size 0 ∷ rest)) i rest;
}

run_small :
    (pf : PoolFlags) (i a : ℕ) (h : Heap) (m : Mem) (rest : List ℕ)
    → malloc_page pf 1 h.mem ≡ ok (some a, m)
    → h.free_lists i ≡ []
    → add_blocks a (desc i).block_size (desc i).blocks_per_arena 0 []
      ≡ ok (arena2block a (desc i).block_size 0 ∷ rest)
    → block2arena (arena2block a (desc i).block_size 0) ≡ a
    → (with_blocks pf i h (h.free_lists i) >>= λ r.
        if r.0 then take_block pf i r.1 (r.1.free_lists i) else ok (none, unlock_heap pf r.1))
      ≡ ok (some (arena2block a (desc i).block_size 0), taken_from pf i a h m rest)
run_small pf i a h m rest page empty added back =
    let ii : (i == i) ≡ true = ground arith in
    let aa : (a == a) ≡ true = ground arith in
    rw (empty) (rw page (rw (empty) (rw added (rw ii (rw back (rw aa refl))))))

taken_from-Leaves :
    (pf : PoolFlags) (i a : ℕ) (h : Heap) (m : Mem) (rest : List ℕ)
    → i < desc_cnt
    → Leaves h
        (taken_from pf i a h m rest)
        (unlock_pool pf m)
        a
        i
        (record { desc_idx = some i; cnt = (desc i).blocks_per_arena - 1; large = false })
        rest
taken_from-Leaves pf i a h m rest small =
    let (some_size, two, bound) = desc_pos i small in
    let one : u32 ((desc i).blocks_per_arena + (2 ^ 32 - 1)) ≡ (desc i).blocks_per_arena - 1 =
      omega arith in
    record {
      mem = refl;
      arenas = λ p. elim (Bool-cases (p == a)) [ inl y ↦ rw (y, one) refl | inr n ↦ rw n refl ];
      free_lists = λ j. elim (Bool-cases (j == i)) [ inl y ↦ rw y refl | inr n ↦ rw n refl ];
    }

blocks_split :
    (a i : ℕ)
    → i < desc_cnt
    → a % page_size ≡ 0
    → a + page_size ≤ 2 ^ 32
    → add_blocks a (desc i).block_size (desc i).blocks_per_arena 0 []
      ≡ ok (
          arena2block a (desc i).block_size 0
          ∷ blocks a (desc i).block_size 1 ((desc i).blocks_per_arena - 1))
blocks_split a i small aligned inside =
    let (some_size, two, bound) = desc_pos i small in
    let per = (desc i).blocks_per_arena in
    let bs = (desc i).block_size in
    add_blocks_lem a i aligned inside small per 0 (omega arith)
    ∙ ap (λ n. ok (blocks a bs 0 n)) (let e : 0 + per ≡ suc (per - 1) = omega arith in e)

-- For a size from 1 to 1024 below the size of the pool, with no free block of the kind, when
-- malloc_page gives an aligned page, sys_malloc makes it an arena without any assertion failing: it
-- returns the place behind the arena's head, the other blocks are free in order, the arena counts
-- these, the other lists and arenas stay, and the memory is that behind malloc_page with the lock given
-- back.
pub sys_malloc_lem :
    (size a : ℕ) (h : Heap) (m : Mem)
    → let i = desc_for size block_desc_init 0 in
      let pf = flags_of h in
      0 < size
      → size ≤ 1024
      → size < (pool_of pf h.mem).pool_size
      → h.free_lists i ≡ []
      → malloc_page pf 1 (lock_pool pf h.mem) ≡ ok (some a, m)
      → a % page_size ≡ 0
      → a + page_size ≤ 2 ^ 32
      → (h' : Heap) × (sys_malloc size h ≡ ok (some (a + arena_size), h'))
        × Leaves h h'
            (unlock_pool pf m)
            a
            i
            (record { desc_idx = some i; cnt = (desc i).blocks_per_arena - 1; large = false })
            (blocks a (desc i).block_size 1 ((desc i).blocks_per_arena - 1))
unfolding sys_malloc malloc_small
sys_malloc_lem size a h m pos few room empty page aligned inside =
    let i = desc_for size block_desc_init 0 in
    let pf = flags_of h in
    let (small, enough, tight) = desc_for_lem size pos few in
    let rest = blocks a (desc i).block_size 1 ((desc i).blocks_per_arena - 1) in
    let (address, back) = first_block_at a (desc i).block_size aligned inside in
    let left = taken_from-Leaves pf i a (lock_heap h) m rest small in
    let in_range : (ltb 0 size && ltb size (pool_of pf h.mem).pool_size) ≡ true = ground arith in
    let is_small : ltb 1024 size ≡ false = ground arith in
    (
      taken_from pf i a (lock_heap h) m rest,
      rw (in_range, is_small)
          (run_small pf i a (lock_heap h) m rest page empty (blocks_split a i small aligned inside)
              back
            ∙ ap (λ b. ok (some b, taken_from pf i a (lock_heap h) m rest)) address),
      record { mem = left.mem; arenas = left.arenas; free_lists = left.free_lists },
    )

-- For more than 1024 bytes below the size of the pool and 2^31, when malloc_page gives a page, sys_malloc asks
-- for the fewest pages that hold the bytes and the arena's head, notes their number in the arena, and
-- returns the place behind the head.
pub malloc_large_lem :
    (size a n : ℕ) (h : Heap) (m : Mem)
    → let pf = flags_of h in
      1024 < size
      → size < (pool_of pf h.mem).pool_size
      → size < 2 ^ 31
      → n ≡ (size + arena_size + (page_size - 1)) / page_size
      → malloc_page pf n (lock_pool pf h.mem) ≡ ok (some a, m)
      → a + page_size ≤ 2 ^ 32
      → (size + arena_size ≤ n * page_size)
        × ((n - 1) * page_size < size + arena_size)
        × (h' : Heap) × (sys_malloc size h ≡ ok (some (a + arena_size), h'))
        × (h'.arenas a ≡ record { desc_idx = none; cnt = n; large = true })
unfolding sys_malloc malloc_large
malloc_large_lem size a n h m big room fits pages page inside =
    let pf = flags_of h in
    let in_range : (ltb 0 size && ltb size (pool_of pf h.mem).pool_size) ≡ true = ground arith in
    let is_large : ltb 1024 size ≡ true = ground arith in
    let count : u32 (size + arena_size + (page_size - 1)) / page_size ≡ n = omega arith in
    let address : u32 (a + arena_size) ≡ a + arena_size = omega arith in
    let aa : (a == a) ≡ true = ground arith in
    let arena : Arena = record { desc_idx = none; cnt = n; large = true } in
    (
      omega arith,
      omega arith,
      record {
        mem = unlock_pool pf m;
        arenas = update h.arenas a arena;
        free_lists = h.free_lists;
      },
      rw (in_range, is_large) (rw count (rw page (rw address refl))),
      rw aa refl,
    )

free_last :
    (pf : PoolFlags) (a i n : ℕ) (h : Heap) (m : Mem)
    → a % page_size ≡ 0
    → a + page_size ≤ 2 ^ 32
    → i < desc_cnt
    → suc n ≡ (desc i).blocks_per_arena
    → (h.arenas a).cnt ≡ n
    → h.free_lists i ≡ blocks a (desc i).block_size 1 n
    → mfree_page pf a 1 h.mem ≡ ok m
    → free_block pf i a (arena2block a (desc i).block_size 0) h
      ≡ ok (record {
        mem = unlock_pool pf m;
        arenas = update h.arenas a (record (h.arenas a) { cnt = suc n });
        free_lists = update h.free_lists i [];
      })
unfolding free_block
free_last pf a i n h m aligned inside small whole count list freed =
    let (some_size, two, bound) = desc_pos i small in
    let full : u32 (n + 1) ≡ suc n = omega arith in
    let here : (suc n == suc n) ≡ true = ground arith in
    let gone = remove_all a i n aligned inside small whole in
    rw (count, list, full, ← whole) (rw (here) (rw (gone) (rw freed refl)))

-- When the last block in use of an arena, its first one, is freed and the others are in the free list
-- in order, sys_free finds and removes every block without an assertion failing, so that the list is
-- empty, gives the page back, and keeps the other lists and arenas.
pub sys_free_lem :
    (a i n : ℕ) (h : Heap) (m : Mem)
    → let pf = flags_of h in
      0 < a
      → (h.mem.is_kernel ≡ false) ⊎ (k_heap_start ≤ a)
      → a % page_size ≡ 0
      → a + page_size ≤ 2 ^ 32
      → i < desc_cnt
      → suc n ≡ (desc i).blocks_per_arena
      → h.arenas a ≡ record { desc_idx = some i; cnt = n; large = false }
      → h.free_lists i ≡ blocks a (desc i).block_size 1 n
      → mfree_page pf a 1 (lock_pool pf h.mem) ≡ ok m
      → (h' : Heap) × (sys_free (a + arena_size) h ≡ ok h')
        × Leaves h h'
            (unlock_pool pf m)
            a
            i
            (record { desc_idx = some i; cnt = suc n; large = false })
            []
unfolding sys_free
sys_free_lem a i n h m pos own aligned inside small whole arena list freed =
    let pf = flags_of h in
    let (address, back) = first_block_at a (desc i).block_size aligned inside in
    let back' : block2arena (a + arena_size) ≡ a = ap block2arena (sym address) ∙ back in
    let there : (a + arena_size == 0) ≡ false = ground arith in
    let mine : (not h.mem.is_kernel || leb k_heap_start (a + arena_size)) ≡ true = elim own [
      | inl user ↦ ground arith
      | inr high ↦ ground arith
    ] in
    let run =
      free_last pf a i n (lock_heap h) m aligned inside small whole
        (ap (λ (r : Arena). r.cnt) arena) list freed in
    let left : Arena → Heap = λ r. record {
      mem = unlock_pool pf m;
      arenas = update h.arenas a (record r { cnt = suc n });
      free_lists = update h.free_lists i [];
    } in
    (
      record {
        mem = unlock_pool pf m;
        arenas = update h.arenas a (record { desc_idx = some i; cnt = suc n; large = false });
        free_lists = update h.free_lists i [];
      },
      rw (there, mine)
          (rw back' (
            rw arena (
              ap (λ b. free_block pf i a b (lock_heap h)) (sym address)
              ∙ run
              ∙ ap (λ (r : Arena). ok (left r)) arena))),
      record {
        mem = refl;
        arenas = λ p. elim (Bool-cases (p == a)) [ inl y ↦ rw y refl | inr o ↦ rw o refl ];
        free_lists = λ j. elim (Bool-cases (j == i)) [ inl y ↦ rw y refl | inr o ↦ rw o refl ];
      },
    )
