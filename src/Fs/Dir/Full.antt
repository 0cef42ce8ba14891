-- ===== src/Fs/Dir/Full.antt =====
-- `sync_dir_entry` of fs/dir.c in a directory whose direct blocks are full.
use zy_os.Base.{ℕ, ◌+◌, ◌-◌, ◌%◌, ◌^◌, ◌<◌, ◌≡◌, true, false}
use zy_os.Fs.File.{Inode, Volume}
use zy_os.Bitmap.Bits.{bit, written}
use zy_os.Bitmap.Bits as Bits
use zy_os.Fs.File.Write.{bitmap_sync}
use zy_os.Fs.Dir.{Putting, dir_entry_size}

-- The state behind an allocation of the bit `i` that is synced.
abbrev taken_at : (i : ℕ) → Putting → Putting
taken_at i p =
    let d = p.volume.data_start_lba in
    record p {
      volume =
          bitmap_sync (((d + i) % 2 ^ 32 + 2 ^ 32 - d) % 2 ^ 32)
            (record p.volume { block_bitmap = written p.volume.block_bitmap i 1 });
    }

-- What a directory gets when its direct blocks are full: a first table of addresses in a free block.
pub record NewTable (dir_inode : Inode) (v : Volume) (p : Putting) : Type 0 where
  pub put : p.done ≡ true
  pub size : p.i_size ≡ dir_inode.i_size + dir_entry_size
  pub direct : (k : ℕ) → k < 12 → p.i_sectors k ≡ dir_inode.i_sectors k
  pub block : ℕ
  pub was_free : bit v.block_bitmap block ≡ false
  pub table : p.i_sectors 12 ≡ (v.data_start_lba + block) % 2 ^ 32
