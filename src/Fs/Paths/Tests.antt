-- ===== src/Fs/Paths/Tests.antt =====
-- A tree of two directories: the root with the file "f" and the directory "d", and "d" with the file "x".
use zy_os.Base.{
  ℕ, ◌≡◌, refl, true, false, ◌&&◌, Option, none, some, List, [], ◌∷◌, ◌==◌, if◌then◌else◌, arith,
  ok,
}
use zy_os.Fs.Paths.{FoundEntry, Found, search_file, search_loop}
use zy_os.Fs.Opened.{Opened}
use zy_os.Fs.Paths.Calls.{in_use, file_in_use, open_inode, sys_open, sys_unlink, ends_in_slash}
use zy_os.Fs.Paths.Resolve.{walk, file, Typed, Resolved, search_file_lem}
use zy_os.Fs.Paths.Opening.{LeftOpen, sys_open_lem, sys_unlink_lem}
use zy_os.Shell.{
  fits_from, Str, slash, same_upto, path_parse, skip_char, take_word, drop_word, path_depth_cnt,
  depth_loop,
}
use zy_os.Fs.Opened.{list_without}
use zy_os.Shell.Components.{same, split}

abbrev tree : ℕ → Str → Option FoundEntry
tree dir name =
    if dir == 0 && same name (102 ∷ [])
    then some (record { i_no = 7; f_type = 1 })
    else if dir == 0 && same name (100 ∷ [])
    then some (record { i_no = 3; f_type = 2 })
    else if dir == 3 && same name (120 ∷ [])
    then some (record { i_no = 8; f_type = 1 })
    else none

tree-Typed : Typed tree
tree-Typed dir name e h = ground arith

-- "/d//x", and "/f/x", which goes through a file.
abbrev d_x : Str
d_x = slash ∷ 100 ∷ slash ∷ slash ∷ 120 ∷ []

abbrev f_x : Str
f_x = slash ∷ 102 ∷ slash ∷ 120 ∷ []

search_file_lem_example :
    (f : Found) × (search_file tree 0 [] d_x ≡ ok (some f))
    × Resolved [] [] (file 3 8, (100 ∷ []) ∷ (120 ∷ []) ∷ []) f
unfolding same_upto fits_from split walk
search_file_lem_example =
    search_file_lem tree tree-Typed [] 0 d_x refl refl (omega arith) refl (λ e. cc)

sys_open_lem_example :
    (after : List ℕ) × (sys_open tree true 0 [] d_x 0 ≡ ok (some (open_inode 8, after)))
    × LeftOpen (open_inode 8) 3 [] after
unfolding same_upto fits_from split walk ends_in_slash
sys_open_lem_example =
    sys_open_lem tree tree-Typed [] 0 d_x refl refl (omega arith) refl (λ e. cc) true 0 refl
      (omega arith)

-- The directory "/d" is still open.
leaves_parent_open : sys_open tree true 0 [] d_x 0 ≡ ok (some (open_inode 8, 3 ∷ []))
unfolding sys_open search_file search_loop ends_in_slash same_upto fits_from path_parse skip_char
    take_word drop_word path_depth_cnt depth_loop list_without
leaves_parent_open = refl

abbrev nothing_open : Opened
nothing_open = record {
  file_table = λ g. record { fd_pos = 0; fd_flag = 0; fd_inode = 0 };
  inode =
      λ p. record { i_no = 0; i_size = 0; i_open_cnts = 0; write_deny = false; i_sectors = λ k. 0 };
  open_inodes = [];
}

-- The file "/f" goes.
sys_unlink_lem_example : sys_unlink tree 0 nothing_open [] f_x ≡ ok (some (some (0, 7), []))
unfolding same_upto fits_from split walk in_use file_in_use
sys_unlink_lem_example =
    sys_unlink_lem tree tree-Typed [] 0 f_x refl refl (omega arith) refl (λ e. cc) nothing_open
      (λ e. cc)
