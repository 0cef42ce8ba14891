-- ===== src/Fs/Create/Tests.antt =====
-- The creation of the file "a" in a directory with free entries on a disk of zeros.
use zy_os.Base.{true, ◌≡◌, ◌==◌, refl, false, some, [], ◌∷◌, if◌then◌else◌, arith, Run, ok, panic}
use zy_os.Base.Bytes.{set_bit}
use zy_os.Bitmap.{bitmap_scan, bitmap_set, skip_full, skip_set}
use zy_os.Fs.Inode.{inode_sync, inode_locate}
use zy_os.Fs.File.{word_at}
use zy_os.Fs.Files.{inode_bitmap_alloc, get_free_slot_in_global, free_from, minus_one}
use zy_os.Fs.Dir.{sync_dir_entry, put_blocks, free_entry}
use zy_os.Fs.Dir.Delete.{create_dir_entry}
use zy_os.Fs.Opened.{Opened}
use zy_os.Fs.Release.{Mounted, inode_init}
use zy_os.Fs.Create.{Creation, undone, file_create, commit_file}
use zy_os.Fs.Create.Rollback.{Outcome, file_create_lem}

abbrev mounted : Mounted
mounted = record {
  volume = record {
    disk = λ l i. 0;
    block_bitmap = record { bmap_bytes_len = 2; bits = λ i. 0 };
    part = record { start_lba = 63; sec_cnt = 16384; inode_table_lba = 70 };
    block_bitmap_lba = 65;
    data_start_lba = 99;
  };
  inode_bitmap = record { bmap_bytes_len = 2; bits = λ i. 1 };
  inode_bitmap_lba = 67;
}

-- The root directory is open at 4096, and no file.
abbrev root_open : Opened
root_open = record {
  file_table = λ g. record { fd_pos = 0; fd_flag = 0; fd_inode = 0 };
  inode = λ p. record {
    i_no = 0;
    i_size = 48;
    i_open_cnts = 1;
    write_deny = false;
    i_sectors = λ k. if k == 0 then 100 else 0;
  };
  open_inodes = 4096 ∷ [];
}

abbrev creation_of : Run Creation → Creation
creation_of (ok c) = c
creation_of panic = undone mounted root_open

abbrev created : Creation
created =
    creation_of (file_create true (some 8192) 4096 (97 ∷ []) 4 (λ k. minus_one) mounted root_open)

created_at :
    file_create true (some 8192) 4096 (97 ∷ []) 4 (λ k. minus_one) mounted root_open ≡ ok created
unfolding file_create inode_bitmap_alloc bitmap_scan bitmap_set skip_full skip_set
    get_free_slot_in_global free_from create_dir_entry sync_dir_entry put_blocks free_entry
    commit_file inode_sync inode_locate inode_init set_bit word_at
created_at = refl

file_create_lem_example : Outcome (some 8192) mounted root_open created
file_create_lem_example =
    file_create_lem true (some 8192) 4096 (97 ∷ []) 4 (λ k. minus_one) mounted root_open created
      (record { bytes = λ i. omega arith; small = omega arith }) created_at
