-- ===== src/Process/Tests.antt =====
-- A process of three pages, and the theorems at it.
use zy_os.Base.{ℕ, ◌+◌, ◌^◌, ◌<◌, ◌≤◌, Bool, ◌≡◌, refl, true, false, ◌∷◌, [], arith, Run, ok, panic}
use zy_os.Base.Bytes.{memory, set_bit, bit_on}
use zy_os.Bitmap.{Bitmap, bitmap_scan, bitmap_set, skip_full, skip_set, find_run, bitmap_scan_test}
use zy_os.Bitmap.Bits.{bit}
use zy_os.Bitmap.Bits as Bits
use zy_os.Memory.Pool.{Pool, VirtualAddr, palloc}
use zy_os.Memory.PoolLaws.{IsValid}
use zy_os.Memory.Paging.{page_table_add, pte_ptr, pde_ptr}
use zy_os.Memory.PagingLaws.{IsMapped}
use zy_os.Memory.Pages.{Mem, get_a_page, get_a_page_without_opvaddrbitmap}
use zy_os.Memory.Mapped.{IsValidMem}
use zy_os.Process.{
  occupy_pages, load_pages, segment_load, Space, copy_page, copy_bits, copy_bytes, copy_body_stack3,
}
use zy_os.Process.Segments.{Keeps, segment_load_lem}
use zy_os.Process.Copied.{Copied}
use zy_os.Process.Fork.{copy_body_stack3_lem}

-- Sixteen pages, with the bits of the first byte.
abbrev bits_of : ℕ → Bitmap
bits_of b = record { bmap_bytes_len = 2; bits = memory (b ∷ 0 ∷ []) }

bits_of-IsValid : (b : ℕ) → b < 256 → Bits.IsValid (bits_of b)
bits_of-IsValid b h = record { bytes = λ i. ground arith; small = omega arith }

abbrev pool : ℕ → Pool
pool start = record {
  pool_bitmap = bits_of 1;
  phy_addr_start = start;
  pool_size = 0x10000;
  held = 0;
}

pool-IsValid : (start : ℕ) → start ≤ 2 ^ 31 → IsValid (pool start)
pool-IsValid start h = record { bitmap = bits_of-IsValid 1 (omega arith); fits = omega arith }

abbrev machine : Mem
machine = record {
  kernel_pool = pool 0x200000;
  user_pool = pool 0x300000;
  kernel_vaddr = record { vaddr_bitmap = bits_of 1; vaddr_start = 0xc0100000 };
  user_vaddr = record { vaddr_bitmap = bits_of 0; vaddr_start = 0x8048000 };
  is_kernel = false;
  words = λ a. 0;
}

machine-IsValidMem : IsValidMem machine
machine-IsValidMem = record {
  kernel = pool-IsValid 0x200000 (omega arith);
  user = pool-IsValid 0x300000 (omega arith);
  kernel_aligned = refl;
  user_aligned = refl;
}

abbrev left_of : Run (Bool × Mem) → Mem → Mem
left_of (ok (b, m)) d = m
left_of panic d = d

-- A segment of 5000 bytes, which takes up two pages.
abbrev loaded : Mem
loaded = left_of (segment_load 5000 0x8049010 machine) machine

loaded_at : segment_load 5000 0x8049010 machine ≡ ok (true, loaded)
unfolding segment_load occupy_pages load_pages get_a_page palloc page_table_add bitmap_scan
    bitmap_set skip_full skip_set find_run bitmap_scan_test pte_ptr pde_ptr set_bit
loaded_at = refl

segment_load_lem_example :
    Keeps machine loaded
    × ((a : ℕ) → 0x8049010 ≤ a → a < 0x8049010 + 5000 → IsMapped loaded.words a)
segment_load_lem_example =
    segment_load_lem 5000 0x8049010 machine loaded machine-IsValidMem (omega arith) loaded_at

-- A parent with the second and the fourth page.
abbrev contents : ℕ → ℕ → ℕ
contents v k = v + k

abbrev child : Space
child = record { mem = machine; pages = λ v k. 0 }

abbrev space_of : Run Space → Space
space_of (ok c) = c
space_of panic = child

abbrev body : VirtualAddr
body = record { vaddr_bitmap = bits_of 10; vaddr_start = 0x8048000 }

abbrev copied : Space
copied = space_of (copy_body_stack3 body contents child)

copied_at : copy_body_stack3 body contents child ≡ ok copied
unfolding copy_body_stack3 copy_bytes copy_bits copy_page get_a_page_without_opvaddrbitmap palloc
    page_table_add bitmap_scan bitmap_set skip_full skip_set find_run bitmap_scan_test pte_ptr
    pde_ptr set_bit bit_on
copied_at = refl

copy_body_stack3_lem_example : Copied (bit (bits_of 10)) 0x8048000 contents 0 16 child copied
copy_body_stack3_lem_example =
    copy_body_stack3_lem body contents child copied machine-IsValidMem refl (omega arith) copied_at
