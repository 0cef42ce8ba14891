-- ===== src/Memory/Paging.antt =====
-- The page directory and the page tables, seen through their own last entry: `pte_ptr`, `pde_ptr`,
-- `page_table_add`, `page_table_pte_remove`, `addr_v2p` of kernel/memory.c.
-- `words` holds the 32-bit words at virtual addresses. Masks stand as arithmetic: `x & 0xfffff000` is
-- `x - x % 4096`, `x | 7` is `x - x % 8 + 7`, and `x & ~1` is `x - x % 2`.
use zy_os.Base.{
  ℕ, ◌+◌, ◌-◌, ◌*◌, ◌/◌, ◌%◌, ◌^◌, Bool, not, Option, none, some, ◌==◌, if◌then◌else◌, update, Run,
  ok, assert, ◌>>=◌, ◌>>◌,
}
use zy_os.Memory.Pool.{Pool, palloc, u32}

abbrev pub Words : Type 0
Words = ℕ → ℕ

abbrev pub pde_idx : ℕ → ℕ
pde_idx addr = addr / 2 ^ 22

abbrev pub pte_idx : ℕ → ℕ
pte_idx addr = addr / 2 ^ 12 % 2 ^ 10

unfoldable pub pte_ptr : ℕ → ℕ
pte_ptr vaddr = u32 (0xffc00000 + (vaddr - vaddr % 2 ^ 22) / 2 ^ 10 + pte_idx vaddr * 4)

unfoldable pub pde_ptr : ℕ → ℕ
pde_ptr vaddr = u32 (0xfffff000 + pde_idx vaddr * 4)

-- The P bit of an entry.
abbrev pub present : ℕ → Bool
present entry = entry % 2 == 1

-- `phyaddr | PG_US_U | PG_RW_W | PG_P_1`
abbrev pub user_page : ℕ → ℕ
user_page phyaddr = phyaddr - phyaddr % 8 + 7

-- `memset(page, 0, PAGE_SIZE)` over the page that holds `addr`
abbrev pub clear_page : ℕ → Words → Words
clear_page addr words k = if k / 4096 == addr / 4096 then 0 else words k

-- The branch of `page_table_add` where the directory entry is absent, behind `palloc`. What the window
-- of the new page table holds is cleared before it is read.
abbrev pub add_table_at : ℕ → ℕ → Words → ℕ → Pool → Run (Words × Pool)
add_table_at vaddr page_phyaddr words pde_phyaddr kernel_pool =
    let pte = pte_ptr vaddr in
    let words' = clear_page pte (update words (pde_ptr vaddr) (user_page pde_phyaddr)) in
    assert (not (present (words' pte)))
    >> ok (update words' pte (user_page page_phyaddr), kernel_pool)

abbrev pub add_table : ℕ → ℕ → Words → Option ℕ × Pool → Run (Words × Pool)
add_table vaddr page_phyaddr words (none, kernel_pool) =
    add_table_at vaddr page_phyaddr words 0 kernel_pool
add_table vaddr page_phyaddr words (some pde_phyaddr, kernel_pool) =
    add_table_at vaddr page_phyaddr words pde_phyaddr kernel_pool

-- The page table of the entry is taken from the kernel's pool; a `NULL` would stand for the address 0.
unfoldable pub page_table_add : ℕ → ℕ → Words → Pool → Run (Words × Pool)
page_table_add vaddr page_phyaddr words kernel_pool =
    let pte = pte_ptr vaddr in
    if present (words (pde_ptr vaddr))
    then (assert (not (present (words pte)))
        >> ok (update words pte (user_page page_phyaddr), kernel_pool))
    else palloc kernel_pool >>= add_table vaddr page_phyaddr words

unfoldable pub page_table_pte_remove : ℕ → Words → Words
page_table_pte_remove vaddr words =
    let pte = pte_ptr vaddr in update words pte (words pte - words pte % 2)

unfoldable pub addr_v2p : ℕ → Words → ℕ
addr_v2p vaddr words =
    let entry = words (pte_ptr vaddr) in u32 (entry - entry % 4096 + vaddr % 4096)
