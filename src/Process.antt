-- ===== src/Process.antt =====
-- user_process/: the loading of programs (exec.c), the copies that fork makes (fork.c), and the page
-- directory of a process (process.c). Other than the page tables, the contents of pages are functions
-- from an address to what stands there.
pub mod Segments
pub mod Copied
pub mod Fork
mod Tests
use zy_os.Base.{
  ℕ, zero, suc, ◌+◌, ◌-◌, ◌*◌, ◌/◌, ◌%◌, ◌^◌, Bool, true, false, not, ◌&&◌, ◌||◌, Option, none,
  some, List, [], ◌∷◌, ◌==◌, ltb, leb, if◌then◌else◌, update, Run, ok, panic, assert, ◌>>=◌, ◌>>◌,
}
use zy_os.Base.Bytes.{bit_on}
use zy_os.Memory.Pool.{VirtualAddr, u32}
use zy_os.Memory.Paging.{pde_ptr, pte_ptr, present, addr_v2p, user_page}
use zy_os.Memory.Pages.{Mem, pf_user, get_a_page, get_a_page_without_opvaddrbitmap}

abbrev pub page_size : ℕ
page_size = 4096

-- `DIV_ROUND_UP(x, step)` of a `uint32_t`.
abbrev div_round_up : (x step : ℕ) → ℕ
div_round_up x step = u32 (x + step - 1) / step

-- How many pages a segment takes up.
unfoldable pub occupy_pages : (vaddr filesz : ℕ) → ℕ
occupy_pages vaddr filesz =
    let size_in_first_page = page_size - vaddr % page_size in
    if ltb size_in_first_page filesz
    then div_round_up (filesz - size_in_first_page) page_size + 1
    else 1

-- What follows a call of `get_a_page`; the address 0 is NULL.
abbrev pub page_got : (rest : Mem → Run (Bool × Mem)) → Option ℕ × Mem → Run (Bool × Mem)
page_got rest (none, m) = ok (false, m)
page_got rest (some v, m) = let more = rest m in if v == 0 then ok (false, m) else more

-- The pages that are not there yet are taken, with the rounds that are left; `false` for a failure.
unfoldable pub load_pages : (left vaddr_page : ℕ) → Mem → Run (Bool × Mem)
load_pages zero vaddr_page m = ok (true, m)
load_pages (suc left) vaddr_page m =
    let rest = load_pages left (u32 (vaddr_page + page_size)) in
    if present (m.words (pde_ptr vaddr_page)) && present (m.words (pte_ptr vaddr_page))
    then rest m
    else get_a_page pf_user vaddr_page m >>= page_got rest

-- `segment_load` up to `sys_lseek` and `sys_read`, whose results are not looked at.
unfoldable pub segment_load : (filesz vaddr : ℕ) → Mem → Run (Bool × Mem)
segment_load filesz vaddr m = load_pages (occupy_pages vaddr filesz) (vaddr - vaddr % page_size) m

-- The fields of `struct Elf32_Ehdr` and `struct Elf32_Phdr` that `load` uses.
record Elf32Ehdr : Type 0 where
  pub e_ident : List ℕ
  pub e_type : ℕ
  pub e_machine : ℕ
  pub e_version : ℕ
  pub e_entry : ℕ
  pub e_phoff : ℕ
  pub e_phentsize : ℕ
  pub e_phnum : ℕ

record Elf32Phdr : Type 0 where
  pub p_type : ℕ
  pub p_offset : ℕ
  pub p_vaddr : ℕ
  pub p_filesz : ℕ

-- Whether the first bytes are those of "\177ELF\1\1\1".
abbrev same_bytes : (a b : List ℕ) → Bool
same_bytes a [] = true
same_bytes [] (d ∷ b) = false
same_bytes (c ∷ a) (d ∷ b) = c == d && same_bytes a b

unfoldable is_elf : Elf32Ehdr → Bool
is_elf h =
    same_bytes h.e_ident (127 ∷ 69 ∷ 76 ∷ 70 ∷ 1 ∷ 1 ∷ 1 ∷ [])
    && (h.e_type == 2
        && (h.e_machine == 3 && (h.e_version == 1 && (leb h.e_phnum 1024 && h.e_phentsize == 32))))

-- The loop over the program headers, with the rounds that are left. `header_at` gives the header that
-- `sys_read` finds at a position of the file, and `none` for a short read.
unfoldable load_segments :
    (header_at : ℕ → Option Elf32Phdr) (left prog_header_offset : ℕ) → Mem → Run (Bool × Mem)
load_segments header_at zero prog_header_offset m = ok (true, m)
load_segments header_at (suc left) prog_header_offset m =
    let rest = load_segments header_at left (u32 (prog_header_offset + 32)) in
    elim (header_at prog_header_offset) [
      | none ↦ ok (false, m)
      | some p ↦
          if p.p_type == 1
          then (segment_load p.p_filesz p.p_vaddr m >>= λ r. elim r.0 [
            | true ↦ rest r.1
            | false ↦ ok (false, r.1)
          ])
          else rest m
    ]

-- `load` for a file that is open: the header is `none` for a short read. The result is the entry point.
unfoldable load :
    (header : Option Elf32Ehdr) (header_at : ℕ → Option Elf32Phdr) → Mem → Run (Option ℕ × Mem)
load header header_at m = elim header [
  | none ↦ ok (none, m)
  | some h ↦
      if is_elf h
      then (load_segments header_at h.e_phnum h.e_phoff m >>= λ r.
          ok (if r.0 then some h.e_entry else none, r.1))
      else ok (none, m)
]

-- `create_page_dir` behind `get_kernel_pages`: the words of the new directory, by those of the current one
-- at the end of memory. What its lower part holds is cleared by `get_kernel_pages`.
unfoldable create_page_dir : (page_dir_vaddr : ℕ) → Mem → ℕ → ℕ
create_page_dir page_dir_vaddr m k =
    if k == 1023
    then user_page (addr_v2p page_dir_vaddr m.words)
    else if leb 0x300 k
    then m.words (0xfffff000 + k * 4)
    else 0

-- The value for `cr3`; `none` for a kernel thread.
unfoldable page_dir_activate : (pg_dir : Option ℕ) → Mem → ℕ
page_dir_activate none m = 0x100000
page_dir_activate (some pg_dir) m = addr_v2p pg_dir m.words

-- What a process has in its pages, by their addresses, with the page tables and pools as they are when its
-- page directory is active.
pub record Space : Type 0 where
  pub mem : Mem
  pub pages : ℕ → ℕ → ℕ

-- The copy of a page. Without a page to write to, the `memcpy` is a fault, which never returns.
abbrev pub page_copied : (vaddr : ℕ) (buf_page : ℕ → ℕ) → Space → Option ℕ × Mem → Run Space
page_copied vaddr buf_page child (none, m) = panic
page_copied vaddr buf_page child (some v, m) =
    ok (record { mem = m; pages = update child.pages vaddr buf_page })

-- The page goes through `buf_page` while the page directories of parent and child are in force in turn;
-- here the contents of a space are a function of virtual addresses.
unfoldable pub copy_page : (vaddr : ℕ) (parent : ℕ → ℕ → ℕ) → Space → Run Space
copy_page vaddr parent child =
    get_a_page_without_opvaddrbitmap pf_user vaddr child.mem
    >>= page_copied vaddr (parent vaddr) child

-- The loop over the bits of a byte, and the loop over the bytes, with the rounds that are left.
unfoldable pub copy_bits :
    (vaddr_start byte : ℕ) (parent : ℕ → ℕ → ℕ) (left idx_byte idx_bit : ℕ) → Space → Run Space
copy_bits vaddr_start byte parent zero idx_byte idx_bit child = ok child
copy_bits vaddr_start byte parent (suc left) idx_byte idx_bit child =
    let rest = copy_bits vaddr_start byte parent left idx_byte (idx_bit + 1) in
    let process_vaddr = u32 ((idx_byte * 8 + idx_bit) * page_size + vaddr_start) in
    if bit_on byte idx_bit then copy_page process_vaddr parent child >>= rest else rest child

unfoldable pub copy_bytes :
    (vaddr_start : ℕ) (vaddr_btmp : ℕ → ℕ) (parent : ℕ → ℕ → ℕ) (left idx_byte : ℕ)
    → Space
    → Run Space
copy_bytes vaddr_start vaddr_btmp parent zero idx_byte child = ok child
copy_bytes vaddr_start vaddr_btmp parent (suc left) idx_byte child =
    let rest = copy_bytes vaddr_start vaddr_btmp parent left (idx_byte + 1) in
    if vaddr_btmp idx_byte == 0
    then rest child
    else copy_bits vaddr_start (vaddr_btmp idx_byte) parent 8 idx_byte 0 child >>= rest

-- The pages of the parent, by its bitmap of virtual addresses.
unfoldable pub copy_body_stack3 : VirtualAddr → (parent : ℕ → ℕ → ℕ) → Space → Run Space
copy_body_stack3 vaddr parent child =
    copy_bytes vaddr.vaddr_start vaddr.vaddr_bitmap.bits parent vaddr.vaddr_bitmap.bmap_bytes_len 0
      child
