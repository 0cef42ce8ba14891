-- ===== src/Fs/File.antt =====
-- `file_read` and `file_write` of fs/file.c, over a disk of sectors.
-- A sector is a function from the index of a byte. `io_buf` and `table` say whether the two calls of
-- `sys_malloc` return memory, which is cleared then. A result of -1 is `none`; `all_blocks` gives the
-- 140 words of that array.
pub mod Content
pub mod ReadLaws
pub mod Write
pub mod GrowLaws
mod Tests
pub mod WriteLaws
use zy_os.Base.{
  ℕ, zero, suc, ◌+◌, ◌-◌, ◌*◌, ◌/◌, ◌%◌, ◌^◌, Bool, true, false, not, ◌&&◌, Option, none, some,
  ◌==◌, ltb, leb, if◌then◌else◌, update, min, Run, ok, assert, ◌>>=◌, ◌>>◌,
}
use zy_os.Bitmap.{Bitmap}
use zy_os.Fs.Inode.{Disk, Part, inode_sync}
use zy_os.Fs.Files.{block_bitmap_alloc}

-- `struct inode`, less its tag, and `struct file` with the inode that it points to.
pub record Inode : Type 0 where
  pub i_no : ℕ
  pub i_size : ℕ
  pub i_open_cnts : ℕ
  pub write_deny : Bool
  pub i_sectors : ℕ → ℕ

pub record File : Type 0 where
  pub fd_pos : ℕ
  pub fd_flag : ℕ
  pub fd_inode : Inode

-- The mounted partition: its disk, its bitmap of blocks in memory, and where the parts lie.
pub record Volume : Type 0 where
  pub disk : Disk
  pub block_bitmap : Bitmap
  pub part : Part
  pub block_bitmap_lba : ℕ
  pub data_start_lba : ℕ

-- The word `k` of a sector, and the sector that holds words.
unfoldable pub word_at : (ℕ → ℕ) → ℕ → ℕ
word_at sector k =
    sector (k * 4)
    + 2 ^ 8 * sector (k * 4 + 1)
    + 2 ^ 16 * sector (k * 4 + 2)
    + 2 ^ 24 * sector (k * 4 + 3)

abbrev pub byte_of : ℕ → ℕ → ℕ
byte_of w zero = w % 256
byte_of w (suc n) = byte_of (w / 256) n

abbrev pub words_sector : (ℕ → ℕ) → ℕ → ℕ
words_sector words i = byte_of (words (i / 4)) (i % 4)

-- `ide_read(disk, lba, all_blocks + 12, 1)`, and the writing of the same words.
abbrev pub read_table : Disk → (lba : ℕ) → (ℕ → ℕ) → ℕ → ℕ
read_table disk lba all_blocks k = if leb 12 k then word_at (disk lba) (k - 12) else all_blocks k

abbrev pub write_table : (lba : ℕ) → (ℕ → ℕ) → Volume → Volume
write_table lba all_blocks v = record v {
  disk = update v.disk lba (words_sector (λ k. all_blocks (k + 12)));
}

-- The direct blocks of an index from `idx` on, with the rounds left.
unfoldable pub copy_direct : (i_sectors : ℕ → ℕ) (left idx : ℕ) → (ℕ → ℕ) → ℕ → ℕ
copy_direct i_sectors zero idx all_blocks = all_blocks
copy_direct i_sectors (suc left) idx all_blocks =
    copy_direct i_sectors left (idx + 1) (update all_blocks idx (i_sectors idx))

-- The addresses that `file_read` collects for the blocks from `start` to `end`.
unfoldable pub read_blocks : (start end : ℕ) → Inode → Disk → Run (ℕ → ℕ)
read_blocks start end inode disk =
    let none_yet : ℕ → ℕ = λ k. 0 in
    let i_sectors = inode.i_sectors in
    let table = i_sectors 12 in
    let direct = copy_direct i_sectors (12 - start) start none_yet in
    if start == end
    then (if ltb end 12
        then ok (update none_yet end (i_sectors end))
        else ok (read_table disk table none_yet))
    else if ltb end 12
    then ok (copy_direct i_sectors (end + 1 - start) start none_yet)
    else if ltb start 12
    then assert (not (table == 0)) >> ok (read_table disk table direct)
    else assert (not (table == 0)) >> ok (read_table disk table none_yet)

-- The loop that reads: what lies in the buffer and the position, by the bytes read so far. `none` means
-- that the fuel ran out.
unfoldable pub read_loop :
    (fuel : ℕ) (all_blocks : ℕ → ℕ)
    → Disk
    → (size fd_pos bytes_read : ℕ) (buf : ℕ → ℕ) → Option (ℕ × (ℕ → ℕ))
read_loop zero all_blocks disk size fd_pos bytes_read buf = none
read_loop (suc fuel) all_blocks disk size fd_pos bytes_read buf =
    let io_buf = disk (all_blocks (fd_pos / 512)) in
    let sec_off_bytes = fd_pos % 512 in
    let chunk_size = min (size - bytes_read) (512 - sec_off_bytes) in
    let buf' = λ (k : ℕ).
      if leb bytes_read k && ltb k (bytes_read + chunk_size)
      then io_buf (sec_off_bytes + (k - bytes_read))
      else buf k in
    let rest =
      read_loop fuel all_blocks disk size ((fd_pos + chunk_size) % 2 ^ 32) (bytes_read + chunk_size)
        buf' in
    if ltb bytes_read size then rest else some (fd_pos, buf)

-- How many bytes are read: `none` at the end of the file.
unfoldable pub read_size : (fd_pos i_size count : ℕ) → Option ℕ
read_size fd_pos i_size count =
    let left = (i_size + 2 ^ 32 - fd_pos) % 2 ^ 32 in
    if ltb i_size ((fd_pos + count) % 2 ^ 32)
    then (if left == 0 then none else some left)
    else some count

-- What a call leaves: the result, the position and the buffer. The inner `none` of the loop cannot come.
abbrev pub read_done :
    File → (buf : ℕ → ℕ) (size : ℕ) → Option (ℕ × (ℕ → ℕ)) → Option ℕ × File × (ℕ → ℕ)
read_done file buf size none = (none, file, buf)
read_done file buf size (some (fd_pos, buf')) = (some size, record file { fd_pos = fd_pos }, buf')

abbrev pub read_sized :
    (table : Bool) → File → (buf : ℕ → ℕ) → Disk → Option ℕ → Run (Option ℕ × File × (ℕ → ℕ))
read_sized table file buf disk none = ok (none, file, buf)
read_sized table file buf disk (some size) =
    let start = file.fd_pos / 512 in
    let end = (file.fd_pos + size) % 2 ^ 32 / 512 in
    if table
    then (assert (ltb start 139 && ltb end 139)
        >> (read_blocks start end file.fd_inode disk >>= λ all_blocks. ok (
            read_done file buf size (read_loop (size + 1) all_blocks disk size file.fd_pos 0 buf))))
    else ok (none, file, buf)

-- A `NULL` for `io_buf` is not tested, and is not covered here.
unfoldable pub file_read :
    (table : Bool) → File → (buf : ℕ → ℕ) (count : ℕ) → Disk → Run (Option ℕ × File × (ℕ → ℕ))
file_read table file buf count disk =
    read_sized table file buf disk (read_size file.fd_pos file.fd_inode.i_size count)
