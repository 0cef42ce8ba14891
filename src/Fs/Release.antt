-- ===== src/Fs/Release.antt =====
-- The life of an inode on the disk: `inode_init`, `inode_delete` and `inode_release` of fs/inode.c.
pub mod Blocks
mod Tests
use zy_os.Base.{
  ℕ, zero, suc, ◌+◌, ◌-◌, ◌/◌, ◌*◌, ◌%◌, ◌^◌, Bool, true, false, Option, none, some, ◌==◌, ltb,
  if◌then◌else◌, update, Run, ok, assert, ◌>>=◌, ◌>>◌,
}
use zy_os.Bitmap.{Bitmap, bitmap_set}
use zy_os.Fs.Inode.{Disk, Part, inode_locate, sync_at}
use zy_os.Fs.File.{Inode, Volume, read_table, copy_direct}
use zy_os.Fs.File.Write.{bitmap_sync}
use zy_os.Fs.Opened.{Opened, inode_open, inode_close}

unfoldable pub inode_init : (inode_no : ℕ) → Inode
inode_init inode_no = record {
  i_no = inode_no;
  i_size = 0;
  i_open_cnts = 0;
  write_deny = false;
  i_sectors = λ k. 0;
}

-- The bytes of the inode are cleared in the table.
unfoldable pub inode_delete : Part → (inode_no : ℕ) → Disk → Run Disk
inode_delete part inode_no disk =
    assert (ltb inode_no 4096) >> (inode_locate part inode_no >>= sync_at part (λ k. 0) disk)

-- The mounted partition with its bitmap of inodes.
pub record Mounted : Type 0 where
  pub volume : Volume
  pub inode_bitmap : Bitmap
  pub inode_bitmap_lba : ℕ

-- A block is given back, in memory and on the disk.
unfoldable pub release_block : (lba : ℕ) → Volume → Run Volume
release_block lba v =
    let bit = (lba + 2 ^ 32 - v.data_start_lba) % 2 ^ 32 in
    assert (ltb 0 bit)
    >> (bitmap_set v.block_bitmap bit 0 >>= λ bitmap.
        ok (bitmap_sync bit (record v { block_bitmap = bitmap })))

-- The loop over the addresses, with the rounds that are left.
unfoldable pub free_blocks : (all_blocks : ℕ → ℕ) (left block_idx : ℕ) → Volume → Run Volume
free_blocks all_blocks zero block_idx v = ok v
free_blocks all_blocks (suc left) block_idx v =
    let rest = free_blocks all_blocks left (block_idx + 1) in
    if all_blocks block_idx == 0 then rest v else release_block (all_blocks block_idx) v >>= rest

-- The blocks of a file, and the table of addresses, which is read before it is given back.
unfoldable pub release_blocks : (i_sectors : ℕ → ℕ) → Volume → Run Volume
release_blocks i_sectors v =
    let direct = copy_direct i_sectors 12 0 (λ k. 0) in
    let all_blocks = read_table v.disk (i_sectors 12) direct in
    if i_sectors 12 == 0
    then free_blocks direct 12 0 v
    else release_block (i_sectors 12) v >>= free_blocks all_blocks 140 0

-- `bitmap_sync(cur_part, bit_idx, INODE_BITMAP)`
abbrev pub sync_inode_bit : (bit_idx : ℕ) → Mounted → Mounted
sync_inode_bit bit_idx m =
    let off_sec = bit_idx / 4096 in
    record m {
      volume = record m.volume {
        disk =
            update m.volume.disk (m.inode_bitmap_lba + off_sec)
              (λ i. m.inode_bitmap.bits (off_sec * 512 + i));
      };
    }

-- The inode that is given back, in memory and on the disk.
unfoldable pub free_inode : (inode_no : ℕ) → Mounted → Run Mounted
free_inode inode_no m = bitmap_set m.inode_bitmap inode_no 0 >>= λ bitmap.
    let m1 = sync_inode_bit inode_no (record m { inode_bitmap = bitmap }) in
    inode_delete m1.volume.part inode_no m1.volume.disk >>= λ disk.
    ok (record m1 { volume = record m1.volume { disk = disk } })

unfoldable pub inode_release : (fresh inode_no : ℕ) → Mounted → Opened → Run (Mounted × Opened)
inode_release fresh inode_no m s = inode_open fresh m.volume.part inode_no m.volume.disk s >>= λ r.
    let inode_to_del = r.1.inode r.0 in
    assert (inode_to_del.i_no == inode_no)
    >> (release_blocks inode_to_del.i_sectors m.volume >>= λ v.
        free_inode inode_no (record m { volume = v }) >>= λ m'. ok (m', inode_close r.0 r.1))
