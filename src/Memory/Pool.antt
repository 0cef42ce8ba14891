-- ===== src/Memory/Pool.antt =====
-- Pools of physical pages: `struct pool`, `struct virtual_addr`, `palloc`, the bit that `pfree` clears,
-- and the layout that `mem_pool_init` computes. `held` counts how often the lock of a pool is taken.
use zy_os.Base.{ℕ, ◌+◌, ◌-◌, ◌*◌, ◌/◌, ◌%◌, ◌^◌, Option, none, some, Run, ok, ◌>>=◌}
use zy_os.Bitmap.{Bitmap, bitmap_init, bitmap_scan, bitmap_set}

abbrev pub page_size : ℕ
page_size = 4096

-- `uint32_t` arithmetic
abbrev pub u32 : ℕ → ℕ
u32 x = x % 2 ^ 32

abbrev pub sub32 : ℕ → ℕ → ℕ
sub32 a b = (a + 2 ^ 32 - b) % 2 ^ 32

pub record Pool : Type 0 where
  pub pool_bitmap : Bitmap
  pub phy_addr_start : ℕ
  pub pool_size : ℕ
  pub held : ℕ

pub record VirtualAddr : Type 0 where
  pub vaddr_bitmap : Bitmap
  pub vaddr_start : ℕ

unfoldable pub palloc : Pool → Run (Option ℕ × Pool)
palloc pool = do
  found ← bitmap_scan pool.pool_bitmap 1
  elim found [
    | none ↦ ok (none, pool)
    | some bit_idx ↦ do
      bitmap ← bitmap_set pool.pool_bitmap bit_idx 1
      ok (
        some (u32 (bit_idx * page_size + pool.phy_addr_start)),
        record pool { pool_bitmap = bitmap },
      )
  ]

-- The part of `pfree` behind its choice of a pool.
unfoldable pub pool_free : Pool → ℕ → Run Pool
pool_free pool pg_phy_addr = do
  bitmap ← bitmap_set pool.pool_bitmap (sub32 pg_phy_addr pool.phy_addr_start / page_size) 0
  ok (record pool { pool_bitmap = bitmap })

pub record Layout : Type 0 where
  pub kernel_pool : Pool
  pub user_pool : Pool
  pub kernel_vaddr : VirtualAddr
  -- The addresses of the three bitmaps.
  pub kernel_bits : ℕ
  pub user_bits : ℕ
  pub vaddr_bits : ℕ

abbrev pub mem_bitmap_base : ℕ
mem_bitmap_base = 0xc009a000

abbrev pub k_heap_start : ℕ
k_heap_start = 0xc0100000

-- `memory` is what lies at a virtual address. The locks are free behind `lock_init`.
unfoldable pub mem_pool_init : (ℕ → ℕ) → ℕ → Layout
mem_pool_init memory all_mem =
    let page_table_size = page_size * 256 in
    let used_mem = page_table_size + 0x100000 in
    let free_mem = sub32 all_mem used_mem in
    let all_free_pages = free_mem / page_size % 2 ^ 16 in
    let kernel_free_pages = all_free_pages / 2 in
    let user_free_pages = all_free_pages - kernel_free_pages in
    let kbm_length = kernel_free_pages / 8 in
    let ubm_length = user_free_pages / 8 in
    let kp_start = used_mem in
    let up_start = u32 (kp_start + kernel_free_pages * page_size) in
    let bitmap = λ (start length : ℕ).
      bitmap_init (record { bmap_bytes_len = length; bits = λ i. memory (start + i) }) in
    record {
      kernel_pool = record {
        pool_bitmap = bitmap mem_bitmap_base kbm_length;
        phy_addr_start = kp_start;
        pool_size = kernel_free_pages * page_size;
        held = 0;
      };
      user_pool = record {
        pool_bitmap = bitmap (mem_bitmap_base + kbm_length) ubm_length;
        phy_addr_start = up_start;
        pool_size = user_free_pages * page_size;
        held = 0;
      };
      kernel_vaddr = record {
        vaddr_bitmap = bitmap (mem_bitmap_base + kbm_length + ubm_length) kbm_length;
        vaddr_start = k_heap_start;
      };
      kernel_bits = mem_bitmap_base;
      user_bits = mem_bitmap_base + kbm_length;
      vaddr_bits = mem_bitmap_base + kbm_length + ubm_length;
    }
