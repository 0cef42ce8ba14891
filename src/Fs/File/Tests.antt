-- ===== src/Fs/File/Tests.antt =====
-- A file of 1000 bytes in two blocks, and one at its largest.
use zy_os.Base.{
  ℕ, ◌+◌, ◌-◌, ◌*◌, ◌%◌, ◌≡◌, inl, refl, true, false, some, [], ◌∷◌, arith, min, update, Run, ok,
  panic, ltb, ◌==◌, if◌then◌else◌,
}
use zy_os.Base.Bytes.{memory, set_bit}
use zy_os.Bitmap.{Bitmap, bitmap_scan, bitmap_set, skip_full, skip_set}
use zy_os.Bitmap.Bits as Bits
use zy_os.Fs.Inode.{Disk}
use zy_os.Fs.Files.{block_bitmap_alloc}
use zy_os.Fs.File.{Inode, File, Volume, file_read}
use zy_os.Fs.File.ReadLaws.{ReadDone, file_read_lem}
use zy_os.Fs.File.Write.{
  Growth, Writing, bitmap_sync, with_block, first_block, grow_round, grow, same_blocks, collect,
  collect_blocks, write_done, start_writing, file_write,
}
use zy_os.Fs.File.WriteLaws.{Written, file_write_lem, file_write-full}
use zy_os.Fs.File.GrowLaws.{Grown, grow-Grown}

abbrev inode_of : (size : ℕ) → Inode
inode_of size = record {
  i_no = 5;
  i_size = size;
  i_open_cnts = 1;
  write_deny = false;
  i_sectors = λ k. if ltb k 12 then k + 100 else 0;
}

abbrev file_at : (pos size : ℕ) → File
file_at pos size = record { fd_pos = pos; fd_flag = 2; fd_inode = inode_of size }

abbrev bytes : Disk
bytes = λ l i. (l * 7 + i) % 256

-- Twenty bytes over the end of the first block.
file_read_lem_example :
    ReadDone
      (file_at 500 1000)
      (λ k. 0)
      bytes
      (min 20 (1000 - 500))
      (file_read true (file_at 500 1000) (λ k. 0) 20 bytes)
file_read_lem_example =
    file_read_lem (file_at 500 1000) (λ k. 0) 20 bytes (omega arith) (omega arith) (omega arith)
      (omega arith) (inl (omega arith))

-- The bits 0 and 1 are taken.
abbrev some_bits : Bitmap
some_bits = record { bmap_bytes_len = 2; bits = memory (3 ∷ 0 ∷ []) }

some_bits-IsValid : Bits.IsValid some_bits
some_bits-IsValid = record { bytes = λ i. omega arith; small = omega arith }

abbrev volume : Volume
volume = record {
  disk = bytes;
  block_bitmap = some_bits;
  part = record { start_lba = 63; sec_cnt = 16384; inode_table_lba = 70 };
  block_bitmap_lba = 65;
  data_start_lba = 99;
}

abbrev same_block : Growth
same_block = record {
  failed = false;
  volume = volume;
  i_sectors = (inode_of 10).i_sectors;
  all_blocks = update (λ k. 0) 0 100;
}

same_block_at : collect_blocks (file_at 0 10) 20 volume ≡ ok same_block
unfolding collect_blocks first_block collect same_blocks
same_block_at = refl

file_write_lem_example :
    (t : Writing) × (file_write true true (file_at 0 10) (λ k. 9) 20 volume
      ≡ write_done same_block.i_sectors (file_at 0 10) same_block.volume (some t))
    × Written (λ k. k + 100) (λ k. 9) 10 20 (start_writing 10 bytes) t
file_write_lem_example =
    file_write_lem (file_at 0 10) (λ k. 9) (λ k. k + 100) 20 volume same_block (omega arith)
      same_block_at refl (λ j k l m e. omega arith) (λ k l m. ground arith)

file_write-full_example : file_write true true (file_at 0 71000) (λ k. 9) 680 volume ≡ panic
file_write-full_example =
    file_write-full (file_at 0 71000) (λ k. 9) 680 volume refl (λ e. absurd (omega arith))

abbrev grown_of : Run Growth → Growth
grown_of (ok g) = g
grown_of panic = same_block

abbrev empty_file : Growth
empty_file = record same_block { i_sectors = λ k. if k == 0 then 100 else 0 }

grows : grow 2 1 empty_file ≡ ok (grown_of (grow 2 1 empty_file))
unfolding grow grow_round with_block block_bitmap_alloc bitmap_scan bitmap_set bitmap_sync skip_full
    skip_set set_bit
grows = refl

grow-Grown_example : Grown 1 (1 + 2) empty_file (grown_of (grow 2 1 empty_file))
grow-Grown_example = grow-Grown 2 1 empty_file some_bits-IsValid (omega arith) refl grows
