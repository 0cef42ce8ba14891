-- ===== src/Memory/Tests.antt =====
-- A small machine, and the theorems at it.
use zy_os.Base.{ℕ, ◌^◌, ◌≤◌, ◌<◌, ◌≡◌, refl, true, some, [], ◌∷◌, arith, Run, ok, panic}
use zy_os.Base.Bytes.{memory, set_bit}
use zy_os.Bitmap.{Bitmap, bitmap_scan, bitmap_set, skip_full, skip_set, find_run, bitmap_scan_test}
use zy_os.Bitmap.Bits.{bit}
use zy_os.Bitmap.Bits as Bits
use zy_os.Memory.Pool.{Pool, palloc}
use zy_os.Memory.PoolLaws.{IsValid}
use zy_os.Memory.Paging.{Words, page_table_add, pte_ptr, pde_ptr}
use zy_os.Memory.Pages.{pf_user, Mem, set_bits, vaddr_get, map_page, map_pages, malloc_page}
use zy_os.Memory.Mapped.{IsValidMem}
use zy_os.Memory.Region.{Region}
use zy_os.Memory.Malloc.{SameMaps, Taken, malloc_page_lem}
use zy_os.Memory.Blocks.{descs_from, block_desc_init, desc}

-- Sixteen pages, of which the first is taken.
abbrev some_bits : Bitmap
some_bits = record { bmap_bytes_len = 2; bits = memory (1 ∷ 0 ∷ []) }

some_bits-IsValid : Bits.IsValid some_bits
some_bits-IsValid = record { bytes = λ i. omega arith; small = omega arith }

abbrev pool : ℕ → Pool
pool start = record {
  pool_bitmap = some_bits;
  phy_addr_start = start;
  pool_size = 0x10000;
  held = 0;
}

pool-IsValid : (start : ℕ) → start ≤ 2 ^ 31 → IsValid (pool start)
pool-IsValid start h = record { bitmap = some_bits-IsValid; fits = omega arith }

abbrev machine : Mem
machine = record {
  kernel_pool = pool 0x200000;
  user_pool = pool 0x300000;
  kernel_vaddr = record { vaddr_bitmap = some_bits; vaddr_start = 0xc0100000 };
  user_vaddr = record { vaddr_bitmap = some_bits; vaddr_start = 0x8048000 };
  is_kernel = true;
  words = λ a. 0;
}

machine-IsValidMem : IsValidMem machine
machine-IsValidMem = record {
  kernel = pool-IsValid 0x200000 (omega arith);
  user = pool-IsValid 0x300000 (omega arith);
  kernel_aligned = refl;
  user_aligned = refl;
}

-- What is left where a call succeeds.
abbrev left_of : {A S : Type 0} → Run (A × S) → S → S
left_of (ok (v, s)) d = s
left_of panic d = d

abbrev two_pages : Mem
two_pages = left_of (malloc_page pf_user 2 machine) machine

two_pages_at : malloc_page pf_user 2 machine ≡ ok (some 0x8049000, two_pages)
unfolding malloc_page vaddr_get map_pages map_page set_bits palloc page_table_add bitmap_scan
    bitmap_set skip_full skip_set find_run bitmap_scan_test pte_ptr pde_ptr set_bit
two_pages_at = refl

malloc_page_lem_example :
    (m1 : Mem) × Taken pf_user 2 0x8049000 machine m1
    × Region pf_user 0x8049000 2 m1 two_pages
    × SameMaps m1 two_pages
malloc_page_lem_example =
    malloc_page_lem pf_user 2 machine machine-IsValidMem
      (record { bitmap = some_bits-IsValid; aligned = refl; fits = omega arith }) two_pages_at

abbrev one_taken : Pool
one_taken = left_of (palloc (pool 0x200000)) (pool 0)

abbrev two_taken : Pool
two_taken = left_of (palloc one_taken) (pool 0)

palloc_once : palloc (pool 0x200000) ≡ ok (some 0x201000, one_taken)
unfolding palloc bitmap_scan bitmap_set skip_full skip_set set_bit
palloc_once = refl

palloc_again : palloc one_taken ≡ ok (some 0x202000, two_taken)
unfolding palloc bitmap_scan bitmap_set skip_full skip_set set_bit
palloc_again = refl

-- Two pages that one page table holds.
abbrev words_of : Run (Words × Pool) → Words
words_of (ok (w, p)) = w
words_of panic = λ a. 0

abbrev pool_after : Run (Words × Pool) → Pool
pool_after (ok (w, p)) = p
pool_after panic = pool 0

abbrev first_add : Run (Words × Pool)
first_add = page_table_add 0xc0101000 0x300000 (λ a. 0) (pool 0x200000)

abbrev second_add : Run (Words × Pool)
second_add = page_table_add 0xc0102000 0x301000 (words_of first_add) (pool_after first_add)

first_added : first_add ≡ ok (words_of first_add, pool_after first_add)
unfolding page_table_add palloc bitmap_scan bitmap_set skip_full skip_set pte_ptr pde_ptr set_bit
first_added = refl

second_added : second_add ≡ ok (words_of second_add, pool_after second_add)
unfolding page_table_add palloc bitmap_scan bitmap_set skip_full skip_set pte_ptr pde_ptr set_bit
second_added = refl

first_pool-IsValid : IsValid (pool_after first_add)
unfolding page_table_add palloc bitmap_scan bitmap_set skip_full skip_set pte_ptr pde_ptr set_bit
first_pool-IsValid = record {
  bitmap = record { bytes = λ i. grind arith; small = omega arith };
  fits = omega arith;
}

few_blocks : 5 < (desc 3).blocks_per_arena
unfolding block_desc_init descs_from
few_blocks = omega arith
