-- ===== src/Fs/Release/Tests.antt =====
-- A file of one block, in a bitmap of 16 bits that are all set.
use zy_os.Base.{ℕ, ◌≡◌, ◌==◌, if◌then◌else◌, arith, ok}
use zy_os.Fs.Dir.{dir_blocks}
use zy_os.Fs.File.{Volume}
use zy_os.Fs.Release.{release_blocks}
use zy_os.Fs.Release.Blocks.{Freed, released, release_blocks_lem}

abbrev small : Volume
small = record {
  disk = λ l i. 255;
  block_bitmap = record { bmap_bytes_len = 2; bits = λ i. 255 };
  part = record { start_lba = 63; sec_cnt = 16384; inode_table_lba = 70 };
  block_bitmap_lba = 65;
  data_start_lba = 100;
}

abbrev one_block : ℕ → ℕ
one_block k = if k == 0 then 105 else 0

release_blocks_lem_example :
    (v' : Volume) × (release_blocks one_block small ≡ ok v')
    × Freed (released small one_block) small v'
unfolding dir_blocks
release_blocks_lem_example =
    release_blocks_lem one_block small (record { bytes = λ i. omega arith; small = omega arith })
      (λ k nz. ground arith) (λ k nz. ground arith)
