-- ===== src/Memory/PoolLaws.antt =====
-- Allocation of physical pages, and the layout of the pools.
use zy_os.Base.{
  ℕ, ◌+◌, ◌*◌, ◌/◌, ◌^◌, ◌≤◌, ◌<◌, ◌≡◌, ◌≢◌, refl, Option, none, some, arith, ok, >>=-eq-ok,
}
use zy_os.Bitmap.{bitmap_init, bitmap_scan}
use zy_os.Bitmap.Bits.{bit, written, bit-written, written-IsValid, set-one, set-zero, bit-init}
use zy_os.Bitmap.Bits as Bits
use zy_os.Bitmap.Scan.{IsFirstFree, scan-one}
use zy_os.Memory.Pool.{Pool, palloc, pool_free, mem_pool_init, page_size, u32, sub32}

-- The bitmap is valid, and the pages that it stands for lie below 4 GB.
pub record IsValid (p : Pool) : Type 0 where
  pub bitmap : Bits.IsValid p.pool_bitmap
  pub fits : p.phy_addr_start + p.pool_bitmap.bmap_bytes_len * 8 * page_size ≤ 2 ^ 32

abbrev pub page_at : Pool → ℕ → ℕ
page_at p i = p.phy_addr_start + i * page_size

-- The pool with the page `i` marked as used, and as free.
abbrev pub taken : Pool → ℕ → Pool
taken p i = record p { pool_bitmap = written p.pool_bitmap i 1 }

palloc-some :
    (p : Pool) (i : ℕ)
    → bitmap_scan p.pool_bitmap 1 ≡ ok (some i)
    → palloc p ≡ ok (some (u32 (i * page_size + p.phy_addr_start)), taken p i)
unfolding palloc
palloc-some p i h = rw (h, set-one)

-- A page that `palloc` gives is that of the lowest free bit of a valid pool; it is marked as used and
-- nothing else changes.
pub palloc_lem :
    (p : Pool) {r : Option ℕ × Pool}
    → IsValid p
    → palloc p ≡ ok r
    → (i : ℕ) × (r ≡ (some (page_at p i), taken p i)) × IsFirstFree p.pool_bitmap i
unfolding palloc
palloc_lem p {r} v e =
    let (found, scanned, _) = >>=-eq-ok (bitmap_scan p.pool_bitmap 1) _ {b = r} e in
    let (i, same, free) = scan-one p.pool_bitmap v.bitmap scanned in
    let at : bitmap_scan p.pool_bitmap 1 ≡ ok (some i) = rw (← same) scanned in
    let addr : u32 (i * page_size + p.phy_addr_start) ≡ page_at p i = omega (arith, v.fits) in
    let step = palloc-some p i at in (i, ground arith, free)

pub taken-IsValid : (p : Pool) (i : ℕ) → IsValid p → IsValid (taken p i)
taken-IsValid p i v = record { bitmap = written-IsValid p.pool_bitmap i 1 v.bitmap; fits = v.fits }

-- `palloc` halts the machine exactly when every byte of the bitmap is 0xff; it returns no `NULL`.
pub palloc-ne-null : (p : Pool) {q : Pool} → IsValid p → palloc p ≢ ok (none, q)
palloc-ne-null p {q} v e = let (i, same, _) = palloc_lem p v e in ground arith

-- Two calls of palloc in a row that both return a page return distinct pages, which lie in the pool.
pub palloc_twice :
    (p : Pool) {a b : ℕ} {q r : Pool}
    → IsValid p
    → palloc p ≡ ok (some a, q)
    → palloc q ≡ ok (some b, r)
    → (a ≢ b)
      × (p.phy_addr_start ≤ a)
      × (a + page_size ≤ p.phy_addr_start + p.pool_bitmap.bmap_bytes_len * 8 * page_size)
      × (p.phy_addr_start ≤ b)
      × (b + page_size ≤ p.phy_addr_start + p.pool_bitmap.bmap_bytes_len * 8 * page_size)
palloc_twice p {a} {b} {q} {r} v e f =
    let (i, same, free) = palloc_lem p v e in
    let at : q ≡ taken p i = ground arith in
    let f' : palloc (taken p i) ≡ ok (some b, r) = rw (← at) f in
    let (j, same', free') = palloc_lem (taken p i) (taken-IsValid p i v) f' in
    let used = bit-written p.pool_bitmap i 1 j v.bitmap in
    let ne : i ≢ j = ground (arith, free'.1) in
    let a' : a ≡ page_at p i = ground arith in
    let b' : b ≡ page_at p j = ground arith in
    (ground arith, omega arith, omega (arith, free.0), omega arith, omega (arith, free'.0))

abbrev pub freed : Pool → ℕ → Pool
freed p i = record p { pool_bitmap = written p.pool_bitmap i 0 }

pub freed_lem :
    (p : Pool) (a i : ℕ) → sub32 a p.phy_addr_start / page_size ≡ i → pool_free p a ≡ ok (freed p i)
unfolding pool_free
freed_lem p a i h = rw (h, set-zero)

-- Freeing the page that palloc returned succeeds and restores every bit of a valid pool's map.
free-palloc :
    (p : Pool) {a : ℕ} {q : Pool}
    → IsValid p
    → palloc p ≡ ok (some a, q)
    → (r : Pool) × (pool_free q a ≡ ok r)
      × ((j : ℕ) → bit r.pool_bitmap j ≡ bit p.pool_bitmap j)
      × (r.phy_addr_start ≡ p.phy_addr_start)
free-palloc p {a} {q} v e =
    let (i, same, free) = palloc_lem p v e in
    let at : q ≡ taken p i = ground arith in
    let a' : a ≡ page_at p i = ground arith in
    let index : sub32 a p.phy_addr_start / page_size ≡ i = omega (arith, v.fits, free.0) in
    let both = written-IsValid p.pool_bitmap i 1 v.bitmap in
    (
      freed (taken p i) i,
      rw at (freed_lem (taken p i) a i index),
      λ j. ground (
        arith,
        bit-written p.pool_bitmap i 1 j v.bitmap,
        bit-written (written p.pool_bitmap i 1) i 0 j both,
        free.1,
      ),
      refl,
    )

-- For a memory of at least 2 MB and less than 4 GB, mem_pool_init starts the kernel's pool behind the
-- page tables and the user's pool directly behind the kernel's, the user's pool ends inside the memory,
-- and neither bitmap stands for more pages than its pool has.
pub layout_lem :
    (memory : ℕ → ℕ) (all_mem : ℕ)
    → 0x200000 ≤ all_mem
    → all_mem < 2 ^ 32
    → let l = mem_pool_init memory all_mem in
      (l.kernel_pool.phy_addr_start ≡ 0x200000)
      × (l.user_pool.phy_addr_start ≡ l.kernel_pool.phy_addr_start + l.kernel_pool.pool_size)
      × (l.user_pool.phy_addr_start + l.user_pool.pool_size ≤ all_mem)
      × (l.kernel_pool.pool_bitmap.bmap_bytes_len * 8 * page_size ≤ l.kernel_pool.pool_size)
      × (l.user_pool.pool_bitmap.bmap_bytes_len * 8 * page_size ≤ l.user_pool.pool_size)
unfolding mem_pool_init bitmap_init
layout_lem memory all_mem h m = (refl, omega arith, omega arith, omega arith, omega arith)

-- The three bitmaps that mem_pool_init places lie directly one behind the other and end at or before
-- the main thread's stack page at 0xc009e000.
pub bitmaps_lem :
    (memory : ℕ → ℕ) (all_mem : ℕ)
    → let l = mem_pool_init memory all_mem in
      (l.kernel_bits + l.kernel_pool.pool_bitmap.bmap_bytes_len ≡ l.user_bits)
      × (l.user_bits + l.user_pool.pool_bitmap.bmap_bytes_len ≡ l.vaddr_bits)
      × (l.vaddr_bits + l.kernel_vaddr.vaddr_bitmap.bmap_bytes_len ≤ 0xc009e000)
unfolding mem_pool_init bitmap_init
bitmaps_lem memory all_mem = (refl, refl, omega arith)
