-- ===== src/Fs/Files.antt =====
-- fs/file.c: the tables of open files, and the allocation of inodes and blocks.
-- A file table is read by its `fd_inode` pointers, with 0 for `NULL`; -1 is the word 2^32 - 1.
use zy_os.Base.{
  ℕ, zero, suc, ◌+◌, ◌-◌, ◌%◌, ◌^◌, ◌≤◌, ◌<◌, ◌≡◌, ◌≢◌, inl, inr, Bool, true, false, Option, none,
  some, ◌==◌, if◌then◌else◌, update, arith, Bool-cases, Run, ok, ◌>>=◌,
}
use zy_os.Bitmap.{Bitmap, bitmap_scan, bitmap_set}

abbrev pub minus_one : ℕ
minus_one = 4294967295

abbrev pub max_file_open : ℕ
max_file_open = 32

abbrev pub max_files_open_per_proc : ℕ
max_files_open_per_proc = 8

-- The loops that stop at the first free slot, with the rounds left.
unfoldable pub free_from : (ℕ → Bool) → (left idx : ℕ) → ℕ
free_from is_free zero idx = idx
free_from is_free (suc left) idx =
    let rest = free_from is_free left (idx + 1) in if is_free idx then idx else rest

unfoldable pub get_free_slot_in_global : (fd_inode : ℕ → ℕ) → Option ℕ
get_free_slot_in_global fd_inode =
    let fd_idx = free_from (λ i. fd_inode i == 0) (max_file_open - 3) 3 in
    if fd_idx == max_file_open then none else some fd_idx

unfoldable pub pcb_fd_install : (globa_fd_idx : ℕ) → (fd_table : ℕ → ℕ) → Option ℕ × (ℕ → ℕ)
pcb_fd_install globa_fd_idx fd_table =
    let local_fd_idx = free_from (λ i. fd_table i == minus_one) (max_files_open_per_proc - 3) 3 in
    if local_fd_idx == max_files_open_per_proc
    then (none, fd_table)
    else (some local_fd_idx, update fd_table local_fd_idx globa_fd_idx)

abbrev pub mark : Bitmap → (ℕ → ℕ) → Option ℕ → Run (Option ℕ × Bitmap)
mark bmap result none = ok (none, bmap)
mark bmap result (some bit_idx) = bitmap_set bmap bit_idx 1 >>= λ b. ok (some (result bit_idx), b)

unfoldable pub inode_bitmap_alloc : Bitmap → Run (Option ℕ × Bitmap)
inode_bitmap_alloc inode_bitmap = bitmap_scan inode_bitmap 1 >>= mark inode_bitmap (λ i. i)

unfoldable pub block_bitmap_alloc : (data_start_lba : ℕ) → Bitmap → Run (Option ℕ × Bitmap)
block_bitmap_alloc data_start_lba block_bitmap =
    bitmap_scan block_bitmap 1 >>= mark block_bitmap (λ i. (data_start_lba + i) % 2 ^ 32)

-- The first free slot from `idx` on, or the end.
record FirstSlot (is_free : ℕ → Bool) (left idx r : ℕ) : Type 0 where
  low : idx ≤ r
  high : r ≤ idx + left
  free : r < idx + left → is_free r ≡ true
  before : (k : ℕ) → idx ≤ k → k < r → is_free k ≡ false

free_from-FirstSlot :
    (is_free : ℕ → Bool) (left idx : ℕ) → FirstSlot is_free left idx (free_from is_free left idx)
unfolding free_from
free_from-FirstSlot is_free zero idx = record {
  low = omega arith;
  high = omega arith;
  free = λ h. absurd (omega arith);
  before = λ k l h. absurd (omega arith);
}
free_from-FirstSlot is_free (suc left) idx =
    let ih = free_from-FirstSlot is_free left (idx + 1) in
    elim (Bool-cases (is_free idx)) [
      | inl y ↦ rw y record {
        low = omega arith;
        high = omega arith;
        free = λ h. y;
        before = λ k l h. absurd (omega arith);
      }
      | inr n ↦ rw n record {
        low = omega (arith, ih.low);
        high = omega (arith, ih.high);
        free = λ h. ih.free (omega arith);
        before = λ k l h. elim (Bool-cases (k == idx)) [
          | inl e ↦ ground (arith, n)
          | inr ne ↦ ih.before k (ground arith) h
        ];
      }
    ]

-- The slot that is given is free.
pub get_free_slot_in_global-free :
    (fd_inode : ℕ → ℕ) (g : ℕ)
    → get_free_slot_in_global fd_inode ≡ some g
    → (g < max_file_open) × (fd_inode g ≡ 0)
unfolding get_free_slot_in_global
get_free_slot_in_global-free fd_inode g h =
    let f = free_from-FirstSlot (λ i. fd_inode i == 0) 29 3 in
    (ground (arith, f.high), ground (arith, f.high, f.free))

-- The two ways in which a descriptor is installed.
pub data Installed (g : ℕ) (t : ℕ → ℕ) : Option ℕ × (ℕ → ℕ) → Type 0 where
  full : ((k : ℕ) → 3 ≤ k → k < 8 → t k ≢ minus_one) → Installed g t (none, t)
  slot :
      (i : ℕ)
      → 3 ≤ i
      → i < 8
      → t i ≡ minus_one
      → ((k : ℕ) → 3 ≤ k → k < i → t k ≢ minus_one)
      → Installed g t (some i, update t i g)

-- pcb_fd_install puts the global index into the lowest free slot from 3 on and returns that slot,
-- changing no other, or returns -1 and changes nothing when the slots 3 to 7 are all taken.
pub pcb_fd_install-Installed : (g : ℕ) (t : ℕ → ℕ) → Installed g t (pcb_fd_install g t)
unfolding pcb_fd_install
pcb_fd_install-Installed g t =
    let r = free_from (λ i. t i == minus_one) 5 3 in
    let f = free_from-FirstSlot (λ i. t i == minus_one) 5 3 in
    elim (Bool-cases (r == 8)) [
      | inl y ↦ rw y (full (λ k l h. ground (arith, f.before k)))
      | inr n ↦ rw n (
          slot r (omega (arith, f.low)) (ground (arith, f.high)) (ground (arith, f.free, f.high))
            (λ k l h. ground (arith, f.before k)))
    ]
