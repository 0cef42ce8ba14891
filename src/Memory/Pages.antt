-- ===== src/Memory/Pages.antt =====
-- Pages of virtual memory: `vaddr_get`, `malloc_page`, `get_kernel_pages`, `get_user_pages`, `get_a_page`,
-- `get_a_page_without_opvaddrbitmap`, `pfree`, `vaddr_remove` and `mfree_page` of kernel/memory.c.
-- The state is that of one running thread: `user_vaddr` is its `user_process_vaddr`, and `is_kernel` says
-- that its `pg_dir` is `NULL`. The contents of pages other than the page tables are left out, and so are
-- the calls of `memset` that clear a page which was just mapped.
use zy_os.Base.{
  ℕ, zero, suc, ◌+◌, ◌-◌, ◌*◌, ◌/◌, ◌%◌, Bool, true, false, not, ◌&&◌, Option, none, some, ltb, leb,
  ◌==◌, if◌then◌else◌, Run, ok, assert, ◌>>=◌, ◌>>◌,
}
use zy_os.Bitmap.{Bitmap, bitmap_scan, bitmap_set}
use zy_os.Memory.Pool.{Pool, VirtualAddr, palloc, pool_free, page_size, u32, sub32}
use zy_os.Memory.Paging.{Words, page_table_add, page_table_pte_remove, addr_v2p}

pub data PoolFlags : Type 0 where
  pf_kernel pf_user : PoolFlags

pub record Mem : Type 0 where
  pub kernel_pool : Pool
  pub user_pool : Pool
  pub kernel_vaddr : VirtualAddr
  pub user_vaddr : VirtualAddr
  pub is_kernel : Bool
  pub words : Words

abbrev pub pool_of : PoolFlags → Mem → Pool
pool_of pf_kernel m = m.kernel_pool
pool_of pf_user m = m.user_pool

abbrev pub set_pool : PoolFlags → Pool → Mem → Mem
set_pool pf_kernel p m = record m { kernel_pool = p }
set_pool pf_user p m = record m { user_pool = p }

abbrev pub vaddr_of : PoolFlags → Mem → VirtualAddr
vaddr_of pf_kernel m = m.kernel_vaddr
vaddr_of pf_user m = m.user_vaddr

abbrev pub set_bitmap : PoolFlags → Bitmap → Mem → Mem
set_bitmap pf_kernel b m = record m { kernel_vaddr = record (m.kernel_vaddr) { vaddr_bitmap = b } }
set_bitmap pf_user b m = record m { user_vaddr = record (m.user_vaddr) { vaddr_bitmap = b } }

-- `for (; cnt < pg_cnt;) bitmap_set(bmap, start + cnt++, value)`, with the rounds left.
unfoldable pub set_bits : Bitmap → (start value left : ℕ) → Run Bitmap
set_bits bmap start value zero = ok bmap
set_bits bmap start value (suc left) =
    bitmap_set bmap start value >>= λ bmap'. set_bits bmap' (start + 1) value left

-- `ASSERT` of the branch for a process; there is none for the kernel.
abbrev pub below_stack : PoolFlags → ℕ → Bool
below_stack pf_kernel vaddr = true
below_stack pf_user vaddr = ltb vaddr (0xc0000000 - page_size)

-- `vaddr_get` behind the scan.
abbrev pub take_run : PoolFlags → ℕ → Mem → Option ℕ → Run (Option ℕ × Mem)
take_run pf pg_cnt m none = ok (none, m)
take_run pf pg_cnt m (some bit_idx_start) =
    let vaddr_start = u32 ((vaddr_of pf m).vaddr_start + bit_idx_start * page_size) in
    set_bits (vaddr_of pf m).vaddr_bitmap bit_idx_start 1 pg_cnt >>= λ bitmap.
    assert (below_stack pf vaddr_start) >> ok (some vaddr_start, set_bitmap pf bitmap m)

unfoldable pub vaddr_get : PoolFlags → ℕ → Mem → Run (Option ℕ × Mem)
vaddr_get pf pg_cnt m = bitmap_scan (vaddr_of pf m).vaddr_bitmap pg_cnt >>= take_run pf pg_cnt m

abbrev pub palloc_of : PoolFlags → Mem → Run (Option ℕ × Mem)
palloc_of pf m = palloc (pool_of pf m) >>= λ r. ok (r.0, set_pool pf r.1 m)

abbrev pub add_of : (vaddr page_phyaddr : ℕ) → Mem → Run Mem
add_of vaddr page_phyaddr m = page_table_add vaddr page_phyaddr m.words m.kernel_pool >>= λ r.
    ok (record m { words = r.0; kernel_pool = r.1 })

-- One round of the loop of `malloc_page`; `false` for a `NULL` from `palloc`.
abbrev pub map_found : ℕ → Option ℕ × Mem → Run (Bool × Mem)
map_found vaddr (none, m) = ok (false, m)
map_found vaddr (some page_phyaddr, m) = add_of vaddr page_phyaddr m >>= λ m'. ok (true, m')

unfoldable pub map_page : PoolFlags → ℕ → Mem → Run (Bool × Mem)
map_page pf vaddr m = palloc_of pf m >>= map_found vaddr

abbrev pub map_rest : (Mem → Run (Bool × Mem)) → Bool × Mem → Run (Bool × Mem)
map_rest go (true, m) = go m
map_rest go (false, m) = ok (false, m)

-- `while (cnt-- > 0)` of `malloc_page`. A page that fails leaves the earlier ones as they are.
unfoldable pub map_pages : PoolFlags → (vaddr cnt : ℕ) → Mem → Run (Bool × Mem)
map_pages pf vaddr zero m = ok (true, m)
map_pages pf vaddr (suc cnt) m =
    map_page pf vaddr m >>= map_rest (map_pages pf (u32 (vaddr + page_size)) cnt)

abbrev pub map_from : PoolFlags → ℕ → Option ℕ × Mem → Run (Option ℕ × Mem)
map_from pf pg_cnt (none, m) = ok (none, m)
map_from pf pg_cnt (some vaddr_start, m) =
    map_pages pf vaddr_start pg_cnt m >>= λ r. ok (if r.0 then some vaddr_start else none, r.1)

unfoldable pub malloc_page : PoolFlags → ℕ → Mem → Run (Option ℕ × Mem)
malloc_page pf pg_cnt m =
    assert (ltb 0 pg_cnt && ltb pg_cnt 3840) >> (vaddr_get pf pg_cnt m >>= map_from pf pg_cnt)

-- `lock_acquire` and `lock_release` of the lock of a pool, by the thread that runs.
abbrev pub lock_pool : PoolFlags → Mem → Mem
lock_pool pf m = let p = pool_of pf m in set_pool pf (record p { held = p.held + 1 }) m

abbrev pub unlock_pool : PoolFlags → Mem → Mem
unlock_pool pf m = let p = pool_of pf m in set_pool pf (record p { held = p.held - 1 }) m

unfoldable pub get_kernel_pages : ℕ → Mem → Run (Option ℕ × Mem)
get_kernel_pages pg_cnt m = malloc_page pf_kernel pg_cnt (lock_pool pf_kernel m) >>= λ r.
    ok (r.0, unlock_pool pf_kernel r.1)

unfoldable pub get_user_pages : ℕ → Mem → Run (Option ℕ × Mem)
get_user_pages pg_cnt m =
    malloc_page pf_user pg_cnt (lock_pool pf_user m) >>= λ r. ok (r.0, unlock_pool pf_user r.1)

-- The end of `get_a_page`, where a `NULL` from `palloc` returns with the lock held, and of
-- `get_a_page_without_opvaddrbitmap`, which gives it back.
abbrev pub install_page : PoolFlags → ℕ → Option ℕ × Mem → Run (Option ℕ × Mem)
install_page pf vaddr (none, m) = ok (none, m)
install_page pf vaddr (some page_phyaddr, m) =
    add_of vaddr page_phyaddr m >>= λ m'. ok (some vaddr, unlock_pool pf m')

abbrev pub install_page_unlocking : PoolFlags → ℕ → Option ℕ × Mem → Run (Option ℕ × Mem)
install_page_unlocking pf vaddr (none, m) = ok (none, unlock_pool pf m)
install_page_unlocking pf vaddr (some page_phyaddr, m) =
    add_of vaddr page_phyaddr m >>= λ m'. ok (some vaddr, unlock_pool pf m')

-- Whether the pool is that of the thread; `PANIC` otherwise.
abbrev pub own_pool : PoolFlags → Mem → Bool
own_pool pf_kernel m = m.is_kernel
own_pool pf_user m = not m.is_kernel

-- `bit_idx` is an `int32_t` that `uint32_t` division gives, so it is positive exactly when it is not 0.
-- A bit behind the bytes of the bitmap, which an address below `vaddr_start` has, is written to memory that
-- nothing else here uses.
unfoldable pub get_a_page : PoolFlags → ℕ → Mem → Run (Option ℕ × Mem)
get_a_page pf vaddr m0 =
    let m1 = lock_pool pf m0 in
    let bit_idx = sub32 vaddr (vaddr_of pf m1).vaddr_start / page_size in
    assert (own_pool pf m1)
    >> (assert (ltb 0 bit_idx)
        >> (bitmap_set (vaddr_of pf m1).vaddr_bitmap bit_idx 1 >>= λ bitmap.
            palloc_of pf (set_bitmap pf bitmap m1) >>= install_page pf vaddr))

unfoldable pub get_a_page_without_opvaddrbitmap : PoolFlags → ℕ → Mem → Run (Option ℕ × Mem)
get_a_page_without_opvaddrbitmap pf vaddr m =
    palloc_of pf (lock_pool pf m) >>= install_page_unlocking pf vaddr

-- The pool is chosen by the address.
unfoldable pub pfree : ℕ → Mem → Run Mem
pfree pg_phy_addr m =
    if leb m.user_pool.phy_addr_start pg_phy_addr
    then (pool_free m.user_pool pg_phy_addr >>= λ p. ok (record m { user_pool = p }))
    else (pool_free m.kernel_pool pg_phy_addr >>= λ p. ok (record m { kernel_pool = p }))

unfoldable pub vaddr_remove : PoolFlags → (vaddr pg_cnt : ℕ) → Mem → Run Mem
vaddr_remove pf vaddr pg_cnt m =
    let bit_idx_start = sub32 vaddr (vaddr_of pf m).vaddr_start / page_size in
    set_bits (vaddr_of pf m).vaddr_bitmap bit_idx_start 0 pg_cnt >>= λ bitmap.
    ok (set_bitmap pf bitmap m)

-- The loops of `mfree_page`: `in_pool` is the assertion about the address of each page.
unfoldable pub free_pages : (ℕ → Mem → Bool) → (vaddr left : ℕ) → Mem → Run Mem
free_pages in_pool vaddr zero m = ok m
free_pages in_pool vaddr (suc left) m =
    let pg_phy_addr = addr_v2p vaddr m.words in
    assert (pg_phy_addr % page_size == 0 && in_pool pg_phy_addr m)
    >> (pfree pg_phy_addr m >>= λ m'.
        free_pages in_pool (u32 (vaddr + page_size)) left
          (record m' { words = page_table_pte_remove vaddr m'.words }))

abbrev pub in_user_pool : ℕ → Mem → Bool
in_user_pool a m = leb m.user_pool.phy_addr_start a

abbrev pub in_kernel_pool : ℕ → Mem → Bool
in_kernel_pool a m = leb m.kernel_pool.phy_addr_start a && ltb a m.user_pool.phy_addr_start

unfoldable pub mfree_page : PoolFlags → (vaddr pg_cnt : ℕ) → Mem → Run Mem
mfree_page pf vaddr pg_cnt m =
    let pg_phy_addr = addr_v2p vaddr m.words in
    assert (leb 1 pg_cnt && vaddr % page_size == 0)
    >> (assert (pg_phy_addr % page_size == 0 && leb 0x102000 pg_phy_addr)
        >> ((if leb m.user_pool.phy_addr_start pg_phy_addr
              then free_pages in_user_pool vaddr pg_cnt m
              else free_pages in_kernel_pool vaddr pg_cnt m)
            >>= vaddr_remove pf vaddr pg_cnt))
