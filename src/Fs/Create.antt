-- ===== src/Fs/Create.antt =====
-- `file_create` of fs/file.c and the creation of a directory by `sys_mkdir` of fs/fs.c, with what they undo
-- when a step fails. A failing `sys_malloc` for the inode is `fresh = none`; `io_buf` tells whether
-- `file_create` gets memory for its buffer; the buffer of `sys_mkdir` is taken to be there. `dir` is the address of the inode of the parent directory.
pub mod Rollback
mod Tests
use zy_os.Base.{
  ℕ, zero, suc, ◌+◌, ◌-◌, ◌*◌, ◌%◌, ◌^◌, Bool, true, false, not, ◌&&◌, Option, none, some, List, [],
  ◌∷◌, ◌==◌, ltb, if◌then◌else◌, update, Run, ok, assert, ◌>>=◌, ◌>>◌,
}
use zy_os.Bitmap.{Bitmap, bitmap_set}
use zy_os.Fs.Inode.{inode_sync}
use zy_os.Fs.File.{Inode, Volume, words_sector}
use zy_os.Fs.File.Write.{bitmap_sync, inode_words}
use zy_os.Fs.Files.{get_free_slot_in_global, pcb_fd_install, inode_bitmap_alloc, block_bitmap_alloc}
use zy_os.Fs.Dir.{dir_entry_size, Putting, put_entry, sync_dir_entry}
use zy_os.Fs.Dir.Delete.{create_dir_entry}
use zy_os.Fs.Opened.{Slot, Opened, put_cnt, put_slot}
use zy_os.Fs.Release.{Mounted, inode_init, sync_inode_bit}
use zy_os.Fs.Paths.{ft_regular, ft_directory}

-- How a creation ends: undone, or done; a file with what is returned, and the table of the process.
pub data Creation : Type 0 where
  undone : Mounted → Opened → Creation
  made_file : (fd : Option ℕ) → Mounted → Opened → (fd_table : ℕ → ℕ) → Creation
  made_dir : Mounted → Opened → Creation

-- The bit of the inode is cleared again.
abbrev pub roll_back : (inode_no : ℕ) → Mounted → Opened → Run Creation
roll_back inode_no m s = bitmap_set m.inode_bitmap inode_no 0 >>= λ bitmap.
    ok (undone (record m { inode_bitmap = bitmap }) s)

abbrev pub sync_of : Inode → Mounted → Run Mounted
sync_of inode m =
    inode_sync m.volume.part inode.i_no (words_sector (inode_words inode)) m.volume.disk >>= λ disk.
    ok (record m { volume = record m.volume { disk = disk } })

-- The parent's inode in memory, as `sync_dir_entry` leaves it.
abbrev pub put_parent : (dir : ℕ) → Putting → Opened → Opened
put_parent dir p s = record s {
  inode = update s.inode dir (record (s.inode dir) { i_size = p.i_size; i_sectors = p.i_sectors });
}

-- The steps b to e.
unfoldable pub commit_file :
    (g inode_no fresh dir : ℕ) (fd_table : ℕ → ℕ) → Opened → Mounted → Run Creation
commit_file g inode_no fresh dir fd_table s m = sync_of (s.inode dir) m >>= λ m1.
    sync_of (s.inode fresh) m1 >>= λ m2.
    let s' = record (put_cnt fresh 1 s) { open_inodes = fresh ∷ s.open_inodes } in
    let r = pcb_fd_install g fd_table in ok (made_file r.0 (sync_inode_bit inode_no m2) s' r.1)

abbrev pub file_entered :
    (g inode_no fresh dir : ℕ) (fd_table : ℕ → ℕ) → Mounted → Opened → Putting → Run Creation
file_entered g inode_no fresh dir fd_table m s p =
    let m' = record m { volume = p.volume } in
    let s' = put_parent dir p s in
    if p.done
    then commit_file g inode_no fresh dir fd_table s' m'
    else roll_back inode_no m' (put_slot g (record { fd_pos = 0; fd_flag = 0; fd_inode = 0 }) s')

-- The new file in its slot of the file table, and its entry.
abbrev pub file_in_slot :
    (inode_no fresh dir : ℕ) (filename : List ℕ) (flag : ℕ) (fd_table : ℕ → ℕ)
    → Mounted
    → Opened
    → Option ℕ
    → Run Creation
file_in_slot inode_no fresh dir filename flag fd_table m s none = roll_back inode_no m s
file_in_slot inode_no fresh dir filename flag fd_table m s (some g) =
    let s' = put_slot g (record { fd_pos = 0; fd_flag = flag; fd_inode = fresh }) s in
    create_dir_entry filename inode_no ft_regular >>= λ e.
    sync_dir_entry (s'.inode dir) e m.volume >>= file_entered g inode_no fresh dir fd_table m s'

abbrev pub file_allocated :
    (fresh : Option ℕ) (dir : ℕ) (filename : List ℕ) (flag : ℕ) (fd_table : ℕ → ℕ)
    → Mounted
    → Opened
    → Option ℕ × Bitmap
    → Run Creation
file_allocated fresh dir filename flag fd_table m s (none, bitmap) =
    ok (undone (record m { inode_bitmap = bitmap }) s)
file_allocated none dir filename flag fd_table m s (some inode_no, bitmap) =
    roll_back inode_no (record m { inode_bitmap = bitmap }) s
file_allocated (some fresh) dir filename flag fd_table m s (some inode_no, bitmap) =
    let s' = record s { inode = update s.inode fresh (inode_init inode_no) } in
    file_in_slot inode_no fresh dir filename flag fd_table (record m { inode_bitmap = bitmap }) s'
      (get_free_slot_in_global (λ g. (s.file_table g).fd_inode))

unfoldable pub file_create :
    (io_buf : Bool) (fresh : Option ℕ) (dir : ℕ) (filename : List ℕ) (flag : ℕ) (fd_table : ℕ → ℕ)
    → Mounted
    → Opened
    → Run Creation
file_create false fresh dir filename flag fd_table m s = ok (undone m s)
file_create true fresh dir filename flag fd_table m s =
    inode_bitmap_alloc m.inode_bitmap >>= file_allocated fresh dir filename flag fd_table m s

-- The sector with the entries "." and "..".
abbrev dot_entries : (inode_no parent_no : ℕ) → Run (ℕ → ℕ)
dot_entries inode_no parent_no = create_dir_entry (46 ∷ []) inode_no ft_directory >>= λ e.
    create_dir_entry (46 ∷ 46 ∷ []) parent_no ft_directory >>= λ f.
    ok (put_entry (put_entry (λ k. 0) 0 e) 1 f)

unfoldable commit_dir : (inode_no : ℕ) → (parent new_dir_inode : Inode) → Mounted → Run Mounted
commit_dir inode_no parent new_dir_inode m =
    sync_of parent m >>= λ m1. sync_of new_dir_inode m1 >>= λ m2. ok (sync_inode_bit inode_no m2)

abbrev dir_entered :
    (inode_no dir : ℕ) (new_dir_inode : Inode) → Mounted → Opened → Putting → Run Creation
dir_entered inode_no dir new_dir_inode m s p =
    let m' = record m { volume = p.volume } in
    let s' = put_parent dir p s in
    if p.done
    then (commit_dir inode_no (s'.inode dir) new_dir_inode m' >>= λ m''. ok (made_dir m'' s'))
    else roll_back inode_no m' s'

-- The first block of the directory, on the disk with its entries.
abbrev dir_in_block :
    (inode_no dir : ℕ) (dirname : List ℕ) → Mounted → Opened → Option ℕ × Bitmap → Run Creation
dir_in_block inode_no dir dirname m s (none, bitmap) =
    roll_back inode_no (record m { volume = record m.volume { block_bitmap = bitmap } }) s
dir_in_block inode_no dir dirname m s (some block_lba, bitmap) =
    let bit = (block_lba + 2 ^ 32 - m.volume.data_start_lba) % 2 ^ 32 in
    let v = bitmap_sync bit (record m.volume { block_bitmap = bitmap }) in
    let inode : Inode = record (inode_init inode_no) {
      i_sectors = update (λ k. 0) 0 block_lba;
      i_size = 2 * dir_entry_size;
    } in
    assert (not (bit == 0))
    >> (dot_entries inode_no (s.inode dir).i_no >>= λ sector.
        let v' = record v { disk = update v.disk block_lba sector } in
        create_dir_entry dirname inode_no ft_directory >>= λ e.
        sync_dir_entry (s.inode dir) e v'
        >>= dir_entered inode_no dir inode (record m { volume = v' }) s)

abbrev dir_allocated :
    (dir : ℕ) (dirname : List ℕ) → Mounted → Opened → Option ℕ × Bitmap → Run Creation
dir_allocated dir dirname m s (none, bitmap) = ok (undone (record m { inode_bitmap = bitmap }) s)
dir_allocated dir dirname m s (some inode_no, bitmap) =
    block_bitmap_alloc m.volume.data_start_lba m.volume.block_bitmap
    >>= dir_in_block inode_no dir dirname (record m { inode_bitmap = bitmap }) s

-- `sys_mkdir` behind its search, which finds `dir` and the name.
unfoldable make_dir : (dir : ℕ) (dirname : List ℕ) → Mounted → Opened → Run Creation
make_dir dir dirname m s = inode_bitmap_alloc m.inode_bitmap >>= dir_allocated dir dirname m s
