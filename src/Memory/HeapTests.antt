-- ===== src/Memory/HeapTests.antt =====
-- The heap of a small machine.
use zy_os.Base.{
  ℕ, ◌+◌, ◌-◌, ◌≡◌, inr, refl, true, false, none, some, [], ◌∷◌, arith, Run, ok, panic,
}
use zy_os.Base.Bytes.{memory, set_bit, clear_bit}
use zy_os.Bitmap.{Bitmap, bitmap_scan, bitmap_set, skip_full, skip_set, find_run, bitmap_scan_test}
use zy_os.Memory.Pool.{Pool, palloc, pool_free}
use zy_os.Memory.Paging.{page_table_add, page_table_pte_remove, addr_v2p, pte_ptr, pde_ptr}
use zy_os.Memory.Pages.{
  pf_kernel, Mem, set_bits, vaddr_get, map_page, map_pages, malloc_page, mfree_page, free_pages,
  pfree, vaddr_remove, lock_pool, unlock_pool,
}
use zy_os.Memory.Blocks.{desc, desc_for, block_desc_init, arena_size}
use zy_os.Memory.Heap.{Heap, sys_malloc, sys_free}
use zy_os.Memory.ArenaBlocks.{blocks}
use zy_os.Memory.HeapLaws.{Leaves, sys_malloc_lem, sys_free_lem}

-- Sixteen pages, of which the first is taken.
abbrev some_bits : Bitmap
some_bits = record { bmap_bytes_len = 2; bits = memory (1 ∷ 0 ∷ []) }

abbrev pool : ℕ → Pool
pool start = record {
  pool_bitmap = some_bits;
  phy_addr_start = start;
  pool_size = 0x10000;
  held = 0;
}

abbrev machine : Mem
machine = record {
  kernel_pool = pool 0x200000;
  user_pool = pool 0x300000;
  kernel_vaddr = record { vaddr_bitmap = some_bits; vaddr_start = 0xc0100000 };
  user_vaddr = record { vaddr_bitmap = some_bits; vaddr_start = 0x8048000 };
  is_kernel = true;
  words = λ a. 0;
}

abbrev heap : Heap
heap = record {
  mem = machine;
  arenas = λ p. record { desc_idx = none; cnt = 0; large = false };
  free_lists = λ i. [];
}

-- What is left where a call succeeds.
abbrev left_of : {A : Type 0} → Run (A × Mem) → Mem
left_of (ok (v, s)) = s
left_of panic = machine

abbrev kept_of : Run Mem → Mem
kept_of (ok s) = s
kept_of panic = machine

abbrev page_of : Mem
page_of = left_of (malloc_page pf_kernel 1 (lock_pool pf_kernel machine))

page_at : malloc_page pf_kernel 1 (lock_pool pf_kernel machine) ≡ ok (some 0xc0101000, page_of)
unfolding malloc_page vaddr_get map_pages map_page set_bits palloc page_table_add bitmap_scan
    bitmap_set skip_full skip_set find_run bitmap_scan_test pte_ptr pde_ptr set_bit
page_at = refl

hundred : desc_for 100 block_desc_init 0 ≡ 3
unfolding desc_for block_desc_init
hundred = refl

sys_malloc_lem_example :
    (h' : Heap) × (sys_malloc 100 heap ≡ ok (some (0xc0101000 + arena_size), h'))
    × Leaves heap h'
        (unlock_pool pf_kernel page_of)
        0xc0101000
        (desc_for 100 block_desc_init 0)
        (record {
          desc_idx = some (desc_for 100 block_desc_init 0);
          cnt = (desc (desc_for 100 block_desc_init 0)).blocks_per_arena - 1;
          large = false;
        })
        (blocks 0xc0101000
          (desc (desc_for 100 block_desc_init 0)).block_size
          1
          ((desc (desc_for 100 block_desc_init 0)).blocks_per_arena - 1))
sys_malloc_lem_example =
    sys_malloc_lem 100 0xc0101000 heap page_of (omega arith) (omega arith) (omega arith) refl
      page_at refl (omega arith)

-- The arena with one block of 128 bytes in use.
abbrev one_used : Heap
one_used = record {
  mem = unlock_pool pf_kernel page_of;
  arenas = λ p. record { desc_idx = some 3; cnt = 30; large = false };
  free_lists = λ i. blocks 0xc0101000 (desc 3).block_size 1 30;
}

abbrev freed : Mem
freed = kept_of (mfree_page pf_kernel 0xc0101000 1 (lock_pool pf_kernel one_used.mem))

freed_at : mfree_page pf_kernel 0xc0101000 1 (lock_pool pf_kernel one_used.mem) ≡ ok freed
unfolding mfree_page free_pages pfree pool_free vaddr_remove page_table_pte_remove addr_v2p
    malloc_page vaddr_get map_pages map_page set_bits palloc page_table_add bitmap_scan bitmap_set
    skip_full skip_set find_run bitmap_scan_test pte_ptr pde_ptr set_bit clear_bit
freed_at = refl

blocks_of_128 : 31 ≡ (desc 3).blocks_per_arena
unfolding block_desc_init
blocks_of_128 = refl

sys_free_lem_example :
    (h' : Heap) × (sys_free (0xc0101000 + arena_size) one_used ≡ ok h')
    × Leaves one_used h'
        (unlock_pool pf_kernel freed)
        0xc0101000
        3
        (record { desc_idx = some 3; cnt = 31; large = false })
        []
unfolding malloc_page vaddr_get bitmap_scan skip_full set_bits bitmap_set map_pages map_page palloc
    page_table_add mfree_page skip_set set_bit pte_ptr
sys_free_lem_example =
    sys_free_lem 0xc0101000 3 30 one_used freed (omega arith) (inr (omega arith)) refl (omega arith)
      (omega arith) blocks_of_128 refl refl freed_at
