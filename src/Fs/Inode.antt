-- ===== src/Fs/Inode.antt =====
-- `inode_locate`, `inode_sync` and the reading of `inode_open` of fs/inode.c, and `sys_lseek` of fs/fs.c.
-- A disk gives the byte `i` of the sector `lba`; `ide_read` and `ide_write` move whole sectors. An inode is
-- its 76 bytes, those that `inode_sync` clears already cleared.
use zy_os.Base.{
  ℕ, ◌+◌, ◌-◌, ◌*◌, ◌/◌, ◌%◌, ◌^◌, Bool, ◌&&◌, ◌||◌, Option, none, some, ◌==◌, ltb, leb,
  if◌then◌else◌, Run, ok, assert, ◌>>=◌, ◌>>◌,
}
use zy_os.Fs.Format.{inode_size}

pub record Part : Type 0 where
  pub start_lba : ℕ
  pub sec_cnt : ℕ
  pub inode_table_lba : ℕ

pub record InodePosition : Type 0 where
  pub two_sec : Bool
  pub sec_lba : ℕ
  pub off_size : ℕ

abbrev pub Disk : Type 0
Disk = ℕ → ℕ → ℕ

unfoldable pub inode_locate : Part → ℕ → Run InodePosition
inode_locate part inode_no =
    let off_size = inode_no * inode_size in
    let off_sec = off_size / 512 in
    let off_size_in_sec = off_size % 512 in
    let left_in_sec = 512 - off_size_in_sec in
    assert (ltb inode_no 4096)
    >> ok (record {
      two_sec = ltb left_in_sec inode_size;
      sec_lba = (part.inode_table_lba + off_sec) % 2 ^ 32;
      off_size = off_size_in_sec;
    })

-- A buffer of sectors from `lba` on, and a disk with `n` sectors written from a buffer.
abbrev pub ide_read : Disk → (lba : ℕ) → ℕ → ℕ
ide_read disk lba i = disk (lba + i / 512) (i % 512)

abbrev pub ide_write : Disk → (lba : ℕ) → (ℕ → ℕ) → (n : ℕ) → Disk
ide_write disk lba buf n l i =
    if leb lba l && ltb l (lba + n) then buf ((l - lba) * 512 + i) else disk l i

abbrev pub put_inode : (buf : ℕ → ℕ) (off_size : ℕ) (pure_inode : ℕ → ℕ) → ℕ → ℕ
put_inode buf off_size pure_inode i =
    if leb off_size i && ltb i (off_size + inode_size) then pure_inode (i - off_size) else buf i

abbrev pub sync_at : Part → (ℕ → ℕ) → Disk → InodePosition → Run Disk
sync_at part pure_inode disk pos =
    let buf = put_inode (ide_read disk pos.sec_lba) pos.off_size pure_inode in
    assert (leb pos.sec_lba ((part.start_lba + part.sec_cnt) % 2 ^ 32))
    >> ok (ide_write disk pos.sec_lba buf (if pos.two_sec then 2 else 1))

-- `inode_no` is a `uint8_t`.
unfoldable pub inode_sync : Part → (i_no : ℕ) (pure_inode : ℕ → ℕ) → Disk → Run Disk
inode_sync part i_no pure_inode disk =
    inode_locate part (i_no % 256) >>= sync_at part pure_inode disk

abbrev pub load_at : Disk → InodePosition → Run (ℕ → ℕ)
load_at disk pos = ok (λ k. ide_read disk pos.sec_lba (pos.off_size + k))

-- What `inode_open` reads for an inode that is not open.
unfoldable pub inode_load : Part → ℕ → Disk → Run (ℕ → ℕ)
inode_load part inode_no disk = inode_locate part inode_no >>= load_at disk

-- `int32_t` arithmetic is on words: a word from 2^31 on is negative.
abbrev pub is_negative : ℕ → Bool
is_negative w = leb (2 ^ 31) w

-- `new_pos > file_size - 1` of two words that are not negative, or of a size of 0.
abbrev pub new_pos_of : (fd_pos file_size offset whence : ℕ) → ℕ
new_pos_of fd_pos file_size offset whence =
    if whence == 1
    then offset
    else if whence == 2
    then (fd_pos + offset) % 2 ^ 32
    else (file_size + offset) % 2 ^ 32

-- The position of the file behind the call, or `none` for -1, by the file's position and size.
unfoldable pub sys_lseek : (fd_pos file_size offset whence : ℕ) → Run (Option ℕ)
sys_lseek fd_pos file_size offset whence =
    let new_pos = new_pos_of fd_pos file_size offset whence in
    assert (ltb 0 whence && ltb whence 4)
    >> (if is_negative new_pos || (is_negative file_size || leb file_size new_pos)
        then ok none
        else ok (some new_pos))
