-- ===== src/Fs/Tests.antt =====
-- A partition of 8 MB, and a disk of zeros.
use zy_os.Base.{ℕ, ◌+◌, ◌*◌, ◌≤◌, ◌<◌, ◌≡◌, refl, ◌||◌, ◌==◌, if◌then◌else◌, arith, some, ok}
use zy_os.Fs.Format.{partition_format, super_block_of, bitmap_bit_len, inode_size}
use zy_os.Fs.Layout.{Ordered, format_lem}
use zy_os.Fs.Files.{minus_one, pcb_fd_install, free_from}
use zy_os.Fs.Inode.{Part, Disk, inode_sync, inode_load}
use zy_os.Fs.InodeLaws.{inode_byte, inode_sync_lem}

format_lem_example :
    let sb = super_block_of 63 16384 in
    Ordered (partition_format 63 16384)
    × (bitmap_bit_len 16384 ≤ sb.block_bitmap_sects * 4096)
    × (sb.data_start_lba + bitmap_bit_len 16384 ≤ 63 + 16384)
format_lem_example = format_lem 63 16384 (omega arith) (omega arith)

bits_of_part : bitmap_bit_len 16384 ≡ 15769
unfolding bitmap_bit_len
bits_of_part = refl

abbrev part : Part
part = record { start_lba = 63; sec_cnt = 16384; inode_table_lba = 70 }

abbrev zeros : Disk
zeros = λ l i. 0

inode_sync_lem_example :
    (d' : Disk) × (inode_sync part 6 (λ k. 9) zeros ≡ ok d')
    × (b : ℕ → ℕ) × (inode_load part 6 d' ≡ ok b)
    × ((k : ℕ) → k < inode_size → b k ≡ (if 6 == 6 then 9 else inode_byte part zeros 6 k))
inode_sync_lem_example =
    inode_sync_lem part 6 6 (λ k. 9) zeros (record { inside = omega arith; small = omega arith })
      (omega arith) (omega arith)

-- Slots 3 and 5 are taken.
abbrev fds : ℕ → ℕ
fds i = if i == 3 || i == 5 then i else minus_one

installs_at_four : (pcb_fd_install 9 fds).0 ≡ some 4
unfolding pcb_fd_install free_from
installs_at_four = refl
