-- ===== src/Fs/Cwd/Tests.antt =====
-- The directory "/d", whose inode is 3.
use zy_os.Base.{true, ℕ, ◌≡◌, refl, some, [], ◌∷◌, ◌==◌, if◌then◌else◌, false, arith, ok}
use zy_os.Fs.Inode.{Disk}
use zy_os.Fs.File.{Inode, word_at}
use zy_os.Fs.Dir.{dir_blocks}
use zy_os.Fs.Cwd.{
  get_parent_dir_inode_nr, get_child_dir_name, name_in_blocks, name_in_sector, bytes_to_nul,
  sys_getcwd,
}
use zy_os.Fs.Cwd.Climb.{Climbs, at_root, step_up, sys_getcwd_lem}
use zy_os.Fs.Paths.Resolve.{joined}

abbrev inodes : ℕ → Inode
inodes n = record {
  i_no = n;
  i_size = 72;
  i_open_cnts = 1;
  write_deny = false;
  i_sectors = λ k. if k == 0 then (if n == 0 then 200 else 203) else 0;
}

-- The sector 200 begins with the entry of "d", and the second entry of the sector 203 is that of "..".
abbrev two_dirs : Disk
two_dirs l i =
    if l == 200
    then (if i == 0 then 100 else if i == 16 then 3 else if i == 20 then 2 else 0)
    else if i == 44
    then 2
    else 0

climbs :
    Climbs
      (get_parent_dir_inode_nr two_dirs inodes 100)
      (get_child_dir_name two_dirs inodes)
      1
      3
      []
      ((100 ∷ []) ∷ [])
unfolding get_parent_dir_inode_nr get_child_dir_name name_in_blocks name_in_sector bytes_to_nul
    word_at dir_blocks
climbs =
    step_up 0 3 0 (100 ∷ []) [] ((100 ∷ []) ∷ []) (omega arith) refl refl (omega arith, tt)
      (at_root ((100 ∷ []) ∷ []))

sys_getcwd_lem_example :
    sys_getcwd two_dirs inodes true 100 10 3 32 ≡ ok (some (some (47 ∷ 100 ∷ [])))
unfolding joined
sys_getcwd_lem_example =
    sys_getcwd_lem two_dirs inodes 100 10 3 32 1 ((100 ∷ []) ∷ []) climbs (omega arith)
      (omega arith) (omega arith) (omega arith) (omega arith)
