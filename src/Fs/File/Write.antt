-- ===== src/Fs/File/Write.antt =====
-- `file_write` and `bitmap_sync` of fs/file.c.
-- The blocks are collected, then written. An array of addresses that `sys_malloc` returns is cleared. The
-- buffer `io_buf` is taken to hold the two sectors that `inode_sync` may read, and `printk` is left out.
use zy_os.Base.{
  ℕ, zero, suc, ◌+◌, ◌-◌, ◌*◌, ◌/◌, ◌%◌, ◌^◌, Bool, true, false, not, ◌&&◌, Option, none, some,
  ◌==◌, ltb, leb, if◌then◌else◌, update, min, Run, ok, assert, ◌>>=◌, ◌>>◌,
}
use zy_os.Bitmap.{Bitmap}
use zy_os.Fs.Inode.{Disk, inode_sync}
use zy_os.Fs.Files.{block_bitmap_alloc}
use zy_os.Fs.File.{Inode, File, Volume, read_table, write_table, words_sector}

-- What collecting the blocks changes. `failed` is set by a `return -1`.
pub record Growth : Type 0 where
  pub failed : Bool
  pub volume : Volume
  pub i_sectors : ℕ → ℕ
  pub all_blocks : ℕ → ℕ

-- `bitmap_sync(cur_part, bit_idx, BLOCK_BITMAP)`
unfoldable pub bitmap_sync : (bit_idx : ℕ) → Volume → Volume
bitmap_sync bit_idx v =
    let off_sec = bit_idx / 4096 in
    let sec_lba = v.block_bitmap_lba + off_sec in
    record v { disk = update v.disk sec_lba (λ i. v.block_bitmap.bits (off_sec * 512 + i)) }

-- A call of `block_bitmap_alloc`, and the test of its result: `next` is what follows a success.
abbrev pub allocated : Growth → (ℕ → Growth → Run Growth) → Option ℕ × Bitmap → Run Growth
allocated g next (none, bitmap) =
    ok (record g { failed = true; volume = record g.volume { block_bitmap = bitmap } })
allocated g next (some block_lba, bitmap) =
    next block_lba (record g { volume = record g.volume { block_bitmap = bitmap } })

unfoldable pub with_block : Growth → (ℕ → Growth → Run Growth) → Run Growth
with_block g next =
    block_bitmap_alloc g.volume.data_start_lba g.volume.block_bitmap >>= allocated g next

abbrev pub sync_block : (block_lba : ℕ) → Growth → Growth
sync_block block_lba g =
    let bit = (block_lba + 2 ^ 32 - g.volume.data_start_lba) % 2 ^ 32 in
    record g { volume = bitmap_sync bit g.volume }

-- The block of a file that is written for the first time.
unfoldable pub first_block : Growth → Run Growth
first_block g =
    if g.i_sectors 0 == 0
    then with_block g (λ block_lba g'.
      let bit = (block_lba + 2 ^ 32 - g'.volume.data_start_lba) % 2 ^ 32 in
      let taken = record g' { i_sectors = update g'.i_sectors 0 block_lba } in
      assert (not (bit == 0)) >> ok (sync_block block_lba taken))
    else ok g

-- One round of the loops that allocate. Those of the three situations differ in the range of the
-- indices only: the first has those below 12, and the third those above 11.
unfoldable pub grow_round : (block_idx : ℕ) → Growth → Run Growth
grow_round block_idx g = with_block g (λ block_lba g'.
    let listed = record g' { all_blocks = update g'.all_blocks block_idx block_lba } in
    let direct = record listed { i_sectors = update g'.i_sectors block_idx block_lba } in
    if ltb block_idx 12
    then assert (g'.i_sectors block_idx == 0) >> ok (sync_block block_lba direct)
    else ok (sync_block block_lba listed))

-- The rounds left, from `block_idx` on.
unfoldable pub grow : (left block_idx : ℕ) → Growth → Run Growth
grow zero block_idx g = ok g
grow (suc left) block_idx g = grow_round block_idx g >>= λ g'.
    let rest = grow left (block_idx + 1) g' in if g'.failed then ok g' else rest

abbrev pub list_direct : (block_idx : ℕ) → Growth → Growth
list_direct block_idx g = record g {
  all_blocks = update g.all_blocks block_idx (g.i_sectors block_idx);
}

-- `ide_read` and `ide_write` of `all_blocks + 12` at the table of the file.
abbrev pub load_table : Growth → Growth
load_table g = record g { all_blocks = read_table g.volume.disk (g.i_sectors 12) g.all_blocks }

abbrev pub store_table : (lba : ℕ) → Growth → Growth
store_table lba g =
    if g.failed then g else record g { volume = write_table lba g.all_blocks g.volume }

-- No new block is needed.
unfoldable pub same_blocks : (used : ℕ) → Growth → Run Growth
same_blocks used g =
    if leb used 12
    then ok (list_direct (used - 1) g)
    else assert (not (g.i_sectors 12 == 0)) >> ok (load_table g)

-- The three situations in which the file grows.
unfoldable pub situation_1 : (used will_use : ℕ) → Growth → Run Growth
situation_1 used will_use g =
    assert (not (g.i_sectors (used - 1) == 0))
    >> grow (will_use - used) used (list_direct (used - 1) g)

unfoldable pub situation_2 : (used will_use : ℕ) → Growth → Run Growth
situation_2 used will_use g = with_block (list_direct (used - 1) g) (λ table g'.
    assert (g'.i_sectors 12 == 0)
    >> (grow (will_use - used) used (record g' { i_sectors = update g'.i_sectors 12 table })
        >>= λ h. ok (store_table table h)))

unfoldable pub situation_3 : (used will_use : ℕ) → Growth → Run Growth
situation_3 used will_use g =
    assert (not (g.i_sectors 12 == 0))
    >> (grow (will_use - used) used (load_table g) >>= λ h. ok (store_table (g.i_sectors 12) h))

unfoldable pub collect : (i_size count : ℕ) → Growth → Run Growth
collect i_size count g =
    let used = i_size / 512 + 1 in
    let will_use = (i_size + count) % 2 ^ 32 / 512 + 1 in
    assert (leb will_use 140)
    >> (if will_use == used
        then same_blocks used g
        else if leb will_use 12
        then situation_1 used will_use g
        else if leb used 12
        then situation_2 used will_use g
        else situation_3 used will_use g)

-- What the loop that writes changes.
pub record Writing : Type 0 where
  pub disk : Disk
  pub i_size : ℕ
  pub fd_pos : ℕ
  pub bytes_written : ℕ
  pub first_write_block : Bool

unfoldable pub write_round : (all_blocks src : ℕ → ℕ) (count : ℕ) → Writing → Writing
write_round all_blocks src count s =
    let sec_lba = all_blocks (s.i_size / 512) in
    let sec_off_bytes = s.i_size % 512 in
    let chunk_size = min (count - s.bytes_written) (512 - sec_off_bytes) in
    let io_buf = λ (k : ℕ). if s.first_write_block then s.disk sec_lba k else 0 in
    let filled = λ (k : ℕ).
      if leb sec_off_bytes k && ltb k (sec_off_bytes + chunk_size)
      then src (s.bytes_written + (k - sec_off_bytes))
      else io_buf k in
    record {
      disk = update s.disk sec_lba filled;
      i_size = s.i_size + chunk_size;
      fd_pos = (s.fd_pos + chunk_size) % 2 ^ 32;
      bytes_written = s.bytes_written + chunk_size;
      first_write_block = false;
    }

-- `none` means that the fuel ran out.
unfoldable pub write_loop :
    (fuel : ℕ) (all_blocks src : ℕ → ℕ) (count : ℕ) → Writing → Option Writing
write_loop zero all_blocks src count s = none
write_loop (suc fuel) all_blocks src count s =
    let rest = write_loop fuel all_blocks src count (write_round all_blocks src count s) in
    if ltb s.bytes_written count then rest else some s

-- The words of an inode as `inode_sync` writes them, with the padding of `write_deny` as 0.
abbrev pub inode_words : Inode → ℕ → ℕ
inode_words n k =
    if k == 0
    then n.i_no
    else if k == 1
    then n.i_size
    else if leb 4 k && ltb k 17
    then n.i_sectors (k - 4)
    else 0

-- `inode_sync`, and the state that the call leaves.
abbrev pub write_done :
    (i_sectors : ℕ → ℕ) → File → Volume → Option Writing → Run (Option ℕ × Volume × File)
write_done i_sectors f v none = ok (none, v, f)
write_done i_sectors f v (some s) =
    let inode = record f.fd_inode { i_size = s.i_size; i_sectors = i_sectors } in
    inode_sync v.part inode.i_no (words_sector (inode_words inode)) s.disk >>= λ disk. ok (
      some s.bytes_written,
      record v { disk = disk },
      record f { fd_pos = s.fd_pos; fd_inode = inode },
    )

-- The state before the loop.
abbrev pub start_writing : (i_size : ℕ) → Disk → Writing
start_writing i_size disk = record {
  disk = disk;
  i_size = i_size;
  fd_pos = (i_size + 2 ^ 32 - 1) % 2 ^ 32;
  bytes_written = 0;
  first_write_block = true;
}

unfoldable pub write_blocks :
    File → (src : ℕ → ℕ) (count : ℕ) → Growth → Run (Option ℕ × Volume × File)
write_blocks f src count g =
    let start = start_writing f.fd_inode.i_size g.volume.disk in
    let grown = record f { fd_inode = record f.fd_inode { i_sectors = g.i_sectors } } in
    if g.failed
    then ok (none, g.volume, grown)
    else write_done g.i_sectors f g.volume (write_loop (count + 1) g.all_blocks src count start)

-- The first block of the file, and the others.
unfoldable pub collect_blocks : File → (count : ℕ) → Volume → Run Growth
collect_blocks f count v =
    let start : Growth = record {
      failed = false;
      volume = v;
      i_sectors = f.fd_inode.i_sectors;
      all_blocks = λ k. 0;
    } in
    first_block start >>= λ g. if g.failed then ok g else collect f.fd_inode.i_size count g

-- `io_buf` and `table` say whether the two calls of `sys_malloc` return memory.
unfoldable pub file_write :
    (io_buf table : Bool)
    → File
    → (src : ℕ → ℕ) (count : ℕ) → Volume
    → Run (Option ℕ × Volume × File)
file_write io_buf table f src count v =
    if ltb (512 * 140) ((f.fd_inode.i_size + count) % 2 ^ 32)
    then ok (none, v, f)
    else if io_buf && table
    then (collect_blocks f count v >>= write_blocks f src count)
    else ok (none, v, f)
