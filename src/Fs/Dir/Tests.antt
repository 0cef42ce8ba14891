-- ===== src/Fs/Dir/Tests.antt =====
-- Directories on disks that are all alike.
use zy_os.Base.{
  ◌*◌, ◌+◌, ◌≡◌, refl, false, some, ltb, if◌then◌else◌, arith, ◌==◌, Run, ok, panic, Option, none,
}
use zy_os.Fs.File.{Inode, Volume, word_at}
use zy_os.Fs.Dir.{Putting, dir_blocks, named, sync_dir_entry}
use zy_os.Fs.Dir.Delete.{delete_dir_entry, delete_dir_entry-endless, unfinished, scan_sector}

-- A directory of 252 entries with a table at 400.
abbrev full_dir : Inode
full_dir = record {
  i_no = 0;
  i_size = 252 * 24;
  i_open_cnts = 1;
  write_deny = false;
  i_sectors = λ k. if ltb k 12 then k + 100 else 400;
}

abbrev ones : Volume
ones = record {
  disk = λ l i. 1;
  block_bitmap = record { bmap_bytes_len = 2; bits = λ i. 0 };
  part = record { start_lba = 63; sec_cnt = 16384; inode_table_lba = 70 };
  block_bitmap_lba = 65;
  data_start_lba = 99;
}

abbrev put_of : Run Putting → Option Putting
put_of (ok p) = some p
put_of panic = none

abbrev in_table : Putting
in_table = elim (put_of (sync_dir_entry full_dir (λ k. 7) ones)) [
  | some p ↦ p
  | none ↦ record {
    done = false;
    volume = ones;
    i_sectors = λ k. 0;
    i_size = 0;
    all_blocks = λ k. 0;
  }
]

-- A directory whose only entry, of the file 7, stands in the block 500, which a table at 400 lists.
abbrev far_dir : Inode
far_dir = record {
  i_no = 0;
  i_size = 24;
  i_open_cnts = 1;
  write_deny = false;
  i_sectors = λ k. if k == 12 then 400 else 0;
}

abbrev far : Volume
far = record ones {
  disk = λ l i.
      if l == 400
      then (if i == 0 then 244 else if i == 1 then 1 else 0)
      else if l == 500
      then (if i == 0 then 97 else if i == 16 then 7 else if i == 20 then 1 else 0)
      else 0;
}

delete_dir_entry-endless_example : delete_dir_entry 1000 7 far_dir far ≡ ok unfinished
unfolding dir_blocks word_at scan_sector named
delete_dir_entry-endless_example =
    delete_dir_entry-endless 1000 7 far_dir far 12 0
      (record { is_dir_first_block = false; dir_entry_cnt = 1; dir_entry_found = some 0 })
      (omega arith) (omega arith) (omega arith) (λ b l nz. absurd (ground (arith, nz))) refl refl
      refl refl
