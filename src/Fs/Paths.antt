-- ===== src/Fs/Paths.antt =====
-- `search_file` of fs/fs.c, with the directories that it opens and closes, and the system calls that use it.
-- `inode_of` gives the inode that `inode_open` finds for a number, and `held` lists the numbers of the
-- inodes of the directories that are open, less the root directory, which stays open.
-- A name that is parsed into the array `name`, of 16 bytes, and does not fit is written behind it; what
-- happens then is not described.
pub mod Resolve
pub mod Calls
pub mod Names
pub mod Opening
mod Tests
use zy_os.Base.{
  ℕ, zero, suc, ◌+◌, ◌≡◌, Bool, true, false, not, ◌&&◌, ◌||◌, Option, none, some, List, [], ◌∷◌,
  ◌++◌, ◌==◌, ltb, if◌then◌else◌, length, Run, ok, assert, ◌>>=◌, ◌>>◌,
}
use zy_os.Fs.Inode.{Disk}
use zy_os.Fs.File.{Inode}
use zy_os.Fs.Dir.{dir_blocks, search_dir_entry, entry_i_no, entry_f_type}
use zy_os.Fs.Opened.{list_without}
use zy_os.Shell.{Str, slash, dot, path_parse, parse_on, is_empty, same_upto, starts_with}

abbrev pub ft_regular : ℕ
ft_regular = 1

abbrev pub ft_directory : ℕ
ft_directory = 2

-- A pointer to `root_dir`, or to a directory that `dir_open` made.
pub data Dir : Type 0 where
  root_dir : Dir
  opened : (i_no : ℕ) → Dir

abbrev pub dir_i_no : Dir → ℕ
dir_i_no root_dir = 0
dir_i_no (opened i_no) = i_no

abbrev pub dir_close : Dir → List ℕ → List ℕ
dir_close root_dir held = held
dir_close (opened i_no) held = list_without i_no held

pub record FoundEntry : Type 0 where
  pub i_no : ℕ
  pub f_type : ℕ

-- The entry that `search_dir_entry` copies.
abbrev entry_copied : Disk → (i_sectors : ℕ → ℕ) → Option (ℕ × ℕ) → Option FoundEntry
entry_copied disk i_sectors none = none
entry_copied disk i_sectors (some (block, idx)) =
    let sector = disk (dir_blocks disk i_sectors block) in
    some (record { i_no = entry_i_no sector idx; f_type = entry_f_type sector idx })

unfoldable look_up : Disk → (inode_of : ℕ → Inode) → (dir : ℕ) (name : Str) → Option FoundEntry
look_up disk inode_of dir name =
    let i_sectors = (inode_of dir).i_sectors in
    entry_copied disk i_sectors (search_dir_entry disk i_sectors name)

-- `struct path_search_record`, and the variables of the loop.
pub record Searched : Type 0 where
  pub searched_path : Str
  pub parent_dir : Dir
  pub file_type : ℕ
  pub parent_inode_no : ℕ
  pub dir_e : ℕ
  pub held : List ℕ

-- What is returned, with `none` for -1, and the record.
abbrev pub Found : Type 0
Found = Option ℕ × Searched

abbrev pub go_into : FoundEntry → Searched → Searched
go_into e s = record s {
  parent_inode_no = dir_i_no s.parent_dir;
  parent_dir = opened e.i_no;
  dir_e = e.i_no;
  held = e.i_no ∷ dir_close s.parent_dir s.held;
}

-- The end behind the loop.
abbrev pub whole_path : Searched → Found
whole_path s = (
  some s.dir_e,
  record s {
    parent_dir = opened s.parent_inode_no;
    file_type = ft_directory;
    held = s.parent_inode_no ∷ dir_close s.parent_dir s.held;
  },
)

-- `none` means that the fuel ran out or that a name did not fit. An entry of another type is passed over.
unfoldable pub search_loop :
    (look : ℕ → Str → Option FoundEntry) (fuel : ℕ)
    → Searched
    → (name : Str) → Option Str
    → Run (Option Found)
search_loop look zero s name sub_path = ok none
search_loop look (suc fuel) s name sub_path =
    let (name', sub_path') = parse_on sub_path in
    let s1 = record s { searched_path = s.searched_path ++ (slash ∷ name) } in
    let on = λ (s' : Searched). search_loop look fuel s' name' sub_path' in
    if is_empty name
    then ok (some (whole_path s))
    else assert (ltb (length s.searched_path) 512) >> elim (look (dir_i_no s.parent_dir) name) [
      | none ↦ ok (some (none, s1))
      | some e ↦
          if ltb 15 (length name')
          then ok none
          else if e.f_type == ft_regular
          then ok (some (some e.i_no, record s1 { file_type = ft_regular; dir_e = e.i_no }))
          else on (if e.f_type == ft_directory then go_into e s1 else record s1 { dir_e = e.i_no })
    ]

abbrev pub is_root : Str → Bool
is_root pathname =
    same_upto 1 pathname (slash ∷ [])
    || (same_upto 2 pathname (slash ∷ dot ∷ []) || same_upto 3 pathname (slash ∷ dot ∷ dot ∷ []))

-- The record as the callers clear it. `junk` is what the stack holds at `dir_e`.
abbrev pub cleared : (junk : ℕ) → List ℕ → Searched
cleared junk held = record {
  searched_path = [];
  parent_dir = root_dir;
  file_type = 0;
  parent_inode_no = 0;
  dir_e = junk;
  held = held;
}

unfoldable pub search_file :
    (look : ℕ → Str → Option FoundEntry) (junk : ℕ) → List ℕ → Str → Run (Option Found)
search_file look junk held pathname =
    let s = cleared junk held in
    let (name, sub_path) = path_parse pathname in
    if is_root pathname
    then ok (some (some 0, record s { file_type = ft_directory }))
    else assert
        (starts_with slash pathname && (ltb 1 (length pathname) && ltb (length pathname) 512))
      >> (if ltb 15 (length name)
          then ok none
          else search_loop look (length pathname + 2) s name sub_path)
