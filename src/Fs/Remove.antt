-- ===== src/Fs/Remove.antt =====
-- The removal of files and directories behind the search for them: the end of `sys_unlink` and `sys_rmdir`
-- of fs/fs.c and `dir_remove` of fs/dir.c; and where `sys_read` and `sys_write` of fs/fs.c go.
use zy_os.Base.{
  ℕ, zero, suc, ◌+◌, Bool, true, false, ◌||◌, Option, none, some, ◌==◌, if◌then◌else◌, update, Run,
  ok, assert, ◌>>=◌, ◌>>◌,
}
use zy_os.Fs.Dir.{dir_is_empty}
use zy_os.Fs.Dir.Delete.{Deletion, absent, deleted, unfinished, delete_dir_entry}
use zy_os.Fs.Opened.{Opened, inode_open, inode_close, writes, fd_local_to_global}
use zy_os.Fs.Release.{Mounted, inode_release}

-- Whether it is removed, and what is left; `none` where the deletion of the entry does not end.
abbrev Removal : Type 0
Removal = Option (Bool × Mounted × Opened)

-- Whether the entry was found is not looked at.
abbrev entry_deleted : (fresh inode_no dir : ℕ) → Mounted → Opened → Deletion → Run Removal
entry_deleted fresh inode_no dir m s absent =
    inode_release fresh inode_no m s >>= λ r. ok (some (true, r.0, r.1))
entry_deleted fresh inode_no dir m s (deleted v parent) =
    inode_release fresh inode_no (record m { volume = v })
      (record s { inode = update s.inode dir parent })
    >>= λ r. ok (some (true, r.0, r.1))
entry_deleted fresh inode_no dir m s unfinished = ok none

-- `sys_unlink` once it has found the directory, at the address `dir`, and the file. `io_buf` tells whether
-- there is memory for the buffer, `fuel` is for the deletion of the entry.
unfoldable remove_entry :
    (io_buf : Bool) (fuel fresh inode_no dir : ℕ) → Mounted → Opened → Run Removal
remove_entry false fuel fresh inode_no dir m s = ok (some (false, m, s))
remove_entry true fuel fresh inode_no dir m s =
    delete_dir_entry fuel inode_no (s.inode dir) m.volume >>= entry_deleted fresh inode_no dir m s

-- The loop over the blocks but the first, with the rounds that are left.
unfoldable no_blocks : (i_sectors : ℕ → ℕ) (left block_idx : ℕ) → Bool
no_blocks i_sectors zero block_idx = true
no_blocks i_sectors (suc left) block_idx =
    let rest = no_blocks i_sectors left (block_idx + 1) in
    if i_sectors block_idx == 0 then rest else false

-- `false` is -1.
unfoldable dir_remove : (io_buf : Bool) (fuel fresh dir child : ℕ) → Mounted → Opened → Run Removal
dir_remove io_buf fuel fresh dir child m s =
    assert (no_blocks (s.inode child).i_sectors 12 1)
    >> remove_entry io_buf fuel fresh (s.inode child).i_no dir m s

-- The child is closed.
abbrev child_closed : (child : ℕ) → Removal → Removal
child_closed child none = none
child_closed child (some (removed, m, s)) = some (removed, m, inode_close child s)

abbrev rmdir_opened : (io_buf : Bool) (fuel fresh dir : ℕ) → Mounted → ℕ × Opened → Run Removal
rmdir_opened io_buf fuel fresh dir m (child, s) =
    if dir_is_empty (s.inode child)
    then (dir_remove io_buf fuel fresh dir child m s >>= λ r. ok (child_closed child r))
    else ok (some (false, m, inode_close child s))

-- `sys_rmdir` once it has found the directory and its parent; `false` is -1.
unfoldable rmdir_reached :
    (io_buf : Bool) (fuel fresh inode_no dir : ℕ) → Mounted → Opened → Run Removal
rmdir_reached io_buf fuel fresh inode_no dir m s =
    inode_open fresh m.volume.part inode_no m.volume.disk s >>= rmdir_opened io_buf fuel fresh dir m

-- Where a descriptor leads that is not negative.
data Stream : Type 0 where
  fd_error : Stream
  keyboard : Stream
  screen : Stream
  file : (g : ℕ) → Stream

unfoldable sys_write : (fd : ℕ) → Opened → (fd_table : ℕ → ℕ) → Run Stream
sys_write fd s fd_table =
    if fd == 1
    then ok screen
    else fd_local_to_global fd_table fd >>= λ g.
        ok (if writes (s.file_table g).fd_flag then file g else fd_error)

unfoldable sys_read : (fd : ℕ) → (fd_table : ℕ → ℕ) → Run Stream
sys_read fd fd_table =
    if fd == 1 || fd == 2
    then ok fd_error
    else if fd == 0
    then ok keyboard
    else fd_local_to_global fd_table fd >>= λ g. ok (file g)
