-- ===== src/Fs/Cwd.antt =====
-- `sys_getcwd` of fs/fs.c with `get_parent_dir_inode_nr` and `get_child_dir_name`.
-- `inode_of` gives the inode that `inode_open` finds for a number; `io_buf` says whether `sys_malloc`
-- returns the buffer. What happens when `full_path_reverse`, of 512 bytes, is overrun, or when `buf` is filled
-- without a NUL, is not described.
pub mod Climb
mod Tests
use zy_os.Base.{
  ℕ, zero, suc, ◌+◌, ◌*◌, ◌≤◌, Bool, true, false, not, ◌&&◌, Option, none, some, List, [], ◌∷◌,
  ◌++◌, ◌==◌, ltb, leb, if◌then◌else◌, length, Run, ok, assert, ◌>>=◌, ◌>>◌,
}
use zy_os.Fs.Inode.{Disk}
use zy_os.Fs.File.{Inode}
use zy_os.Fs.Dir.{dir_blocks, dir_entry_size, dir_entrys_per_sec, entry_i_no, entry_f_type}
use zy_os.Shell.{Str, slash}

-- The second entry of the first block.
unfoldable pub get_parent_dir_inode_nr :
    Disk → (inode_of : ℕ → Inode) → (data_start_lba child_inode_nr : ℕ) → Run ℕ
get_parent_dir_inode_nr disk inode_of data_start_lba child_inode_nr =
    let block_lba = (inode_of child_inode_nr).i_sectors 0 in
    let sector = disk block_lba in
    assert (leb data_start_lba block_lba)
    >> (assert (ltb (entry_i_no sector 1) 4096 && entry_f_type sector 1 == 2)
        >> ok (entry_i_no sector 1))

-- The bytes before the NUL, of at most `left`.
unfoldable pub bytes_to_nul : (sector : ℕ → ℕ) (left off : ℕ) → Str
bytes_to_nul sector zero off = []
bytes_to_nul sector (suc left) off =
    let rest = bytes_to_nul sector left (off + 1) in
    if sector off == 0 then [] else sector off ∷ rest

-- The loops over the entries of a sector and over the blocks, with the rounds that are left. The name of
-- an entry is read up to its NUL, in the sector.
unfoldable pub name_in_sector : (sector : ℕ → ℕ) (c_inode_nr left idx : ℕ) → Option Str
name_in_sector sector c_inode_nr zero idx = none
name_in_sector sector c_inode_nr (suc left) idx =
    let rest = name_in_sector sector c_inode_nr left (idx + 1) in
    if entry_i_no sector idx == c_inode_nr
    then some (bytes_to_nul sector 512 (idx * dir_entry_size))
    else rest

abbrev or_else : Option Str → Option Str → Option Str
or_else none rest = rest
or_else (some name) rest = some name

unfoldable pub name_in_blocks :
    Disk → (all_blocks : ℕ → ℕ) (c_inode_nr left block_idx : ℕ) → Option Str
name_in_blocks disk all_blocks c_inode_nr zero block_idx = none
name_in_blocks disk all_blocks c_inode_nr (suc left) block_idx =
    let rest = name_in_blocks disk all_blocks c_inode_nr left (block_idx + 1) in
    let here = name_in_sector (disk (all_blocks block_idx)) c_inode_nr dir_entrys_per_sec 0 in
    if all_blocks block_idx == 0 then rest else or_else here rest

-- The name that is appended to `path`, or `none` for -1.
unfoldable pub get_child_dir_name :
    Disk → (inode_of : ℕ → Inode) → (p_inode_nr c_inode_nr : ℕ) → Option Str
get_child_dir_name disk inode_of p_inode_nr c_inode_nr =
    let i_sectors = (inode_of p_inode_nr).i_sectors in
    name_in_blocks disk (dir_blocks disk i_sectors) c_inode_nr
      (if i_sectors 12 == 0 then 12 else 140) 0

-- The loop up to the root. The outer `none` means that the fuel ran out or that the path does not fit; the
-- inner one is a failure.
unfoldable pub climb :
    (parent_of : ℕ → Run ℕ) (name_of : ℕ → ℕ → Option Str) (fuel child_inode_nr : ℕ)
    (full_path_reverse : Str)
    → Run (Option (Option Str))
climb parent_of name_of zero child_inode_nr full_path_reverse = ok none
climb parent_of name_of (suc fuel) child_inode_nr full_path_reverse =
    if child_inode_nr == 0
    then ok (some (some full_path_reverse))
    else parent_of child_inode_nr >>= λ parent_inode_nr.
        elim (name_of parent_inode_nr child_inode_nr) [
          | none ↦ ok (some none)
          | some name ↦
              let path = full_path_reverse ++ (slash ∷ name) in
              if ltb 511 (length path)
              then ok none
              else climb parent_of name_of fuel parent_inode_nr path
        ]

-- A string in front of its last '/', and from there on.
unfoldable pub split_last : Str → Option (Str × Str)
split_last [] = none
split_last (c ∷ s) = elim (split_last s) [
  | some (front, piece) ↦ some (c ∷ front, piece)
  | none ↦ if c == slash then some ([], c ∷ s) else none
]

-- The loop that appends the pieces to `buf`, the last one first.
unfoldable pub turn_round : (fuel : ℕ) (full_path_reverse buf : Str) → Option Str
turn_round zero full_path_reverse buf = none
turn_round (suc fuel) full_path_reverse buf = elim (split_last full_path_reverse) [
  | none ↦ some buf
  | some (front, piece) ↦ turn_round fuel front (buf ++ piece)
]

abbrev cwd_climbed : (size : ℕ) → Option (Option Str) → Run (Option (Option Str))
cwd_climbed size none = ok none
cwd_climbed size (some none) = ok (some none)
cwd_climbed size (some (some full_path_reverse)) =
    assert (leb (length full_path_reverse) size)
    >> ok (
        if length full_path_reverse == size
        then none
        else elim (turn_round (length full_path_reverse + 1) full_path_reverse []) [
          | none ↦ none
          | some buf ↦ some (some buf)
        ])

-- The string in `buf`, or `none` for `NULL`; the fuel is a bound on the depth of the directory.
unfoldable pub sys_getcwd :
    Disk
    → (inode_of : ℕ → Inode) → (io_buf : Bool) (data_start_lba fuel cwd_inode_nr size : ℕ)
    → Run (Option (Option Str))
sys_getcwd disk inode_of io_buf data_start_lba fuel cwd_inode_nr size =
    let parent_of = get_parent_dir_inode_nr disk inode_of data_start_lba in
    let name_of = get_child_dir_name disk inode_of in
    if not io_buf
    then ok (some none)
    else assert (ltb cwd_inode_nr 4096)
      >> (if cwd_inode_nr == 0
          then ok (some (some (slash ∷ [])))
          else climb parent_of name_of fuel cwd_inode_nr [] >>= cwd_climbed size)
