-- ===== src/Fs/Paths/Calls.antt =====
-- The system calls of fs/fs.c that search for a path: what they answer from the search, up to the change
-- of the disk that they ask for then, and which directories they leave open.
use zy_os.Base.{
  ℕ, zero, suc, ◌+◌, Bool, true, false, not, ◌&&◌, ◌||◌, Option, none, some, List, [], ◌∷◌, ◌==◌,
  ltb, leb, if◌then◌else◌, length, bit_and, Run, ok, assert, ◌>>=◌, ◌>>◌,
}
use zy_os.Fs.File.{Inode}
use zy_os.Fs.Files.{max_file_open}
use zy_os.Fs.Opened.{Opened}
use zy_os.Fs.Paths.{
  dir_i_no, dir_close, FoundEntry, Searched, Found, search_file, is_root, ft_directory,
}
use zy_os.Shell.{Str, slash, dot, path_depth_cnt}

abbrev pub o_creat : ℕ
o_creat = 4

-- Whether the last byte is a '/'; for an empty string the byte before it is read, here as another one.
unfoldable pub ends_in_slash : Str → Bool
ends_in_slash [] = false
ends_in_slash (c ∷ []) = c == slash
ends_in_slash (c ∷ d ∷ s) = ends_in_slash (d ∷ s)

-- What follows the last '/', `strrchr(s, '/') + 1`.
unfoldable pub behind_last : Str → Option Str
behind_last [] = none
behind_last (c ∷ s) = elim (behind_last s) [
  | some name ↦ some name
  | none ↦ if c == slash then some s else none
]

-- What a call asks for behind the search.
pub data Asked : Type 0 where
  refused : Asked
  create : (parent_dir : ℕ) (filename : Option Str) → Asked
  open_inode : (i_no : ℕ) → Asked

-- The end of a call that has failed: its directory is closed.
abbrev refuse : Searched → Option (Asked × List ℕ)
refuse s = some (refused, dir_close s.parent_dir s.held)

-- The depths that are compared may run out of fuel, which is `none`.
abbrev same_depth : Option ℕ → Option ℕ → Option Bool
same_depth none b = none
same_depth (some a) none = none
same_depth (some a) (some b) = some (a == b)

abbrev open_reached :
    (pathname : Str) (flags : ℕ) (s : Searched) (inode_no : Option ℕ) → Option (Asked × List ℕ)
open_reached pathname flags s none =
    if bit_and flags o_creat == 0
    then refuse s
    else some (create (dir_i_no s.parent_dir) (behind_last pathname), dir_close s.parent_dir s.held)
open_reached pathname flags s (some inode_no) =
    if bit_and flags o_creat == 0 then some (open_inode inode_no, s.held) else refuse s

abbrev pub open_searched :
    (junk : Bool) (pathname : Str) (flags : ℕ) → Option Found → Option (Asked × List ℕ)
open_searched junk pathname flags none = none
open_searched junk pathname flags (some (inode_no, s)) =
    let depths = same_depth (path_depth_cnt junk pathname) (path_depth_cnt junk s.searched_path) in
    if s.file_type == ft_directory then refuse s else elim depths [
      | none ↦ none
      | some reached ↦ if reached then open_reached pathname flags s inode_no else refuse s
    ]

-- `sys_open` up to the call of `file_create` or `file_open`. `junk` tells what the stack holds at the
-- names, as in `path_depth_cnt`, and `dir_e` at the entry.
unfoldable pub sys_open :
    (look : ℕ → Str → Option FoundEntry) (junk : Bool) (dir_e : ℕ)
    → List ℕ
    → Str
    → (flags : ℕ) → Run (Option (Asked × List ℕ))
sys_open look junk dir_e held pathname flags =
    if ends_in_slash pathname
    then ok (some (refused, held))
    else assert (leb flags 7)
      >> (search_file look dir_e held pathname >>= λ found.
          ok (open_searched junk pathname flags found))

-- The new working directory, with `none` for -1.
abbrev chdir_searched : Option Found → Option (Option ℕ × List ℕ)
chdir_searched none = none
chdir_searched (some (none, s)) = some (none, dir_close s.parent_dir s.held)
chdir_searched (some (some inode_no, s)) =
    some
      (if s.file_type == ft_directory then some inode_no else none, dir_close s.parent_dir s.held)

unfoldable sys_chdir :
    (look : ℕ → Str → Option FoundEntry) (dir_e : ℕ)
    → List ℕ
    → Str
    → Run (Option (Option ℕ × List ℕ))
sys_chdir look dir_e held path =
    search_file look dir_e held path >>= λ found. ok (chdir_searched found)

-- The loop over the file table, with the rounds that are left: whether an inode with that number is open.
unfoldable pub file_in_use : Opened → (left file_idx inode_no : ℕ) → Bool
file_in_use s zero file_idx inode_no = false
file_in_use s (suc left) file_idx inode_no =
    let p = (s.file_table file_idx).fd_inode in
    let rest = file_in_use s left (file_idx + 1) inode_no in
    if not (p == 0) && inode_no == (s.inode p).i_no then true else rest

unfoldable pub in_use : Opened → (inode_no : ℕ) → Bool
in_use s inode_no = file_in_use s max_file_open 0 inode_no

-- `sys_unlink` up to `delete_dir_entry` and `inode_release`: the directory and the number of the inode.
abbrev pub unlink_searched : Opened → Option Found → Run (Option (Option (ℕ × ℕ) × List ℕ))
unlink_searched opens none = ok none
unlink_searched opens (some (none, s)) = ok (some (none, dir_close s.parent_dir s.held))
unlink_searched opens (some (some inode_no, s)) =
    assert (not (inode_no == 0))
    >> ok (
        some (
          if s.file_type == ft_directory || in_use opens inode_no
              then none
              else some (dir_i_no s.parent_dir, inode_no),
          dir_close s.parent_dir s.held,
        ))

unfoldable pub sys_unlink :
    (look : ℕ → Str → Option FoundEntry) (dir_e : ℕ)
    → Opened
    → List ℕ
    → Str
    → Run (Option (Option (ℕ × ℕ) × List ℕ))
sys_unlink look dir_e opens held pathname =
    assert (ltb (length pathname) 512)
    >> (search_file look dir_e held pathname >>= unlink_searched opens)

-- `struct stat`: number, size and type.
record Stat : Type 0 where
  pub st_ino : ℕ
  pub st_size : ℕ
  pub st_filetype : ℕ

abbrev stat_searched : (inode_of : ℕ → Inode) → Option Found → Option (Option Stat × List ℕ)
stat_searched inode_of none = none
stat_searched inode_of (some (none, s)) = some (none, dir_close s.parent_dir s.held)
stat_searched inode_of (some (some inode_no, s)) = some (
  some (record {
    st_ino = inode_no;
    st_size = (inode_of inode_no).i_size;
    st_filetype = s.file_type;
  }),
  dir_close s.parent_dir s.held,
)

unfoldable sys_stat :
    (look : ℕ → Str → Option FoundEntry) (inode_of : ℕ → Inode) (dir_e : ℕ)
    → List ℕ
    → Str
    → Run (Option (Option Stat × List ℕ))
sys_stat look inode_of dir_e held path =
    if is_root path
    then ok (
        some (
          some (record { st_ino = 0; st_size = (inode_of 0).i_size; st_filetype = ft_directory }),
          held,
        ))
    else search_file look dir_e held path >>= λ found. ok (stat_searched inode_of found)

-- `sys_opendir`: the root directory, which is `some none`, a directory that is opened, or `NULL`.
abbrev opendir_searched : Option Found → Option (Option (Option ℕ) × List ℕ)
opendir_searched none = none
opendir_searched (some (none, s)) = some (none, dir_close s.parent_dir s.held)
opendir_searched (some (some inode_no, s)) =
    if s.file_type == ft_directory
    then some (some (some inode_no), dir_close s.parent_dir (inode_no ∷ s.held))
    else some (none, dir_close s.parent_dir s.held)

-- The test is that of the source: `name[0]` is compared with '.', which cannot be where it is '/'.
unfoldable names_root : Str → Bool
names_root [] = false
names_root (c ∷ []) = c == slash
names_root (c ∷ d ∷ s) = c == slash && c == dot

unfoldable sys_opendir :
    (look : ℕ → Str → Option FoundEntry) (dir_e : ℕ)
    → List ℕ
    → Str
    → Run (Option (Option (Option ℕ) × List ℕ))
sys_opendir look dir_e held name =
    assert (ltb (length name) 512)
    >> (if names_root name
        then ok (some (some none, held))
        else search_file look dir_e held name >>= λ found. ok (opendir_searched found))
