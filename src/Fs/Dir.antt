-- ===== src/Fs/Dir.antt =====
-- `search_dir_entry`, `sync_dir_entry`, `dir_read` and `dir_is_empty` of fs/dir.c.
-- An entry is its 24 bytes: 16 of the name, the number of the inode and the type; 21 of them stand in a
-- sector. `sys_malloc` is taken to return memory.
pub mod Delete
pub mod Full
pub mod Search
mod Tests
use zy_os.Base.{
  ℕ, zero, suc, ◌+◌, ◌-◌, ◌*◌, ◌/◌, ◌%◌, ◌^◌, Bool, true, false, not, ◌&&◌, Option, none, some,
  List, [], ◌∷◌, ◌==◌, ltb, leb, if◌then◌else◌, update, Run, ok, assert, ◌>>=◌, ◌>>◌,
}
use zy_os.Bitmap.{Bitmap, bitmap_set}
use zy_os.Fs.Inode.{Disk}
use zy_os.Fs.Files.{block_bitmap_alloc}
use zy_os.Fs.File.{Inode, Volume, word_at, read_table, write_table}
use zy_os.Fs.File.Write.{bitmap_sync}

abbrev pub dir_entry_size : ℕ
dir_entry_size = 24

abbrev pub dir_entrys_per_sec : ℕ
dir_entrys_per_sec = 512 / dir_entry_size

abbrev pub entry_i_no : (sector : ℕ → ℕ) (idx : ℕ) → ℕ
entry_i_no sector idx = word_at sector (idx * 6 + 4)

abbrev pub entry_f_type : (sector : ℕ → ℕ) (idx : ℕ) → ℕ
entry_f_type sector idx = word_at sector (idx * 6 + 5)

-- The addresses of the 140 blocks; the table is read if it is there.
unfoldable pub dir_blocks : Disk → (i_sectors : ℕ → ℕ) → ℕ → ℕ
dir_blocks disk i_sectors =
    let direct = λ (k : ℕ). if ltb k 12 then i_sectors k else 0 in
    if i_sectors 12 == 0 then direct else read_table disk (i_sectors 12) direct

-- `strncmp(p_de->filename, name, strlen(name))` is 0.
unfoldable pub named : (sector : ℕ → ℕ) (off : ℕ) (name : List ℕ) → Bool
named sector off [] = sector off == 0
named sector off (c ∷ name) =
    let rest = named sector (off + 1) name in if sector off == c then rest else false

-- The entries of a sector, and the blocks, with the rounds left. A block with the address 0 is empty.
unfoldable pub search_sector : (sector : ℕ → ℕ) (name : List ℕ) (left idx : ℕ) → Option ℕ
search_sector sector name zero idx = none
search_sector sector name (suc left) idx =
    let rest = search_sector sector name left (idx + 1) in
    if named sector (idx * dir_entry_size) name then some idx else rest

abbrev pub at_block : (block_idx : ℕ) → Option ℕ → Option (ℕ × ℕ) → Option (ℕ × ℕ)
at_block block_idx none rest = rest
at_block block_idx (some idx) rest = some (block_idx, idx)

unfoldable pub search_blocks :
    Disk → (all_blocks : ℕ → ℕ) (name : List ℕ) (left block_idx : ℕ) → Option (ℕ × ℕ)
search_blocks disk all_blocks name zero block_idx = none
search_blocks disk all_blocks name (suc left) block_idx =
    let rest = search_blocks disk all_blocks name left (block_idx + 1) in
    let here = search_sector (disk (all_blocks block_idx)) name dir_entrys_per_sec 0 in
    if all_blocks block_idx == 0 then rest else at_block block_idx here rest

-- The block and the place in it of the entry that is copied into `dir_e`; `none` for `false`.
unfoldable pub search_dir_entry : Disk → (i_sectors : ℕ → ℕ) (name : List ℕ) → Option (ℕ × ℕ)
search_dir_entry disk i_sectors name = search_blocks disk (dir_blocks disk i_sectors) name 140 0

-- The directory while an entry is put: `done` for `true`.
pub record Putting : Type 0 where
  pub done : Bool
  pub volume : Volume
  pub i_sectors : ℕ → ℕ
  pub i_size : ℕ
  pub all_blocks : ℕ → ℕ

-- A sector with the bytes of an entry at the place `idx`.
abbrev pub put_entry : (sector : ℕ → ℕ) (idx : ℕ) (p_de : ℕ → ℕ) → ℕ → ℕ
put_entry sector idx p_de k =
    if leb (idx * dir_entry_size) k && ltb k (idx * dir_entry_size + dir_entry_size)
    then p_de (k - idx * dir_entry_size)
    else sector k

abbrev pub entry_written : (block_idx : ℕ) (sector : ℕ → ℕ) → Putting → Putting
entry_written block_idx sector p = record p {
  done = true;
  volume = record p.volume { disk = update p.volume.disk (p.all_blocks block_idx) sector };
  i_size = p.i_size + dir_entry_size;
}

-- `block_bitmap_alloc`, and `bitmap_sync` behind a success.
abbrev pub block_synced :
    Putting → (Option ℕ → Putting → Run Putting) → Option ℕ × Bitmap → Run Putting
block_synced p next (none, bitmap) =
    next none (record p { volume = record p.volume { block_bitmap = bitmap } })
block_synced p next (some block_lba, bitmap) =
    let v = record p.volume { block_bitmap = bitmap } in
    let bit = (block_lba + 2 ^ 32 - v.data_start_lba) % 2 ^ 32 in
    assert (not (bit == 2 ^ 32 - 1))
    >> next (some block_lba) (record p { volume = bitmap_sync bit v })

abbrev pub alloc_synced : Putting → (Option ℕ → Putting → Run Putting) → Run Putting
alloc_synced p next =
    block_bitmap_alloc p.volume.data_start_lba p.volume.block_bitmap >>= block_synced p next

abbrev pub table_written : Putting → Putting
table_written p = record p { volume = write_table (p.i_sectors 12) p.all_blocks p.volume }

-- The first block that a new table lists; without one the table is given back.
abbrev pub first_listed :
    (p_de : ℕ → ℕ) (table : ℕ) (block_lba : Option ℕ) (q : Putting) → Run Putting
first_listed p_de table none q =
    let bit = (table + 2 ^ 32 - q.volume.data_start_lba) % 2 ^ 32 in
    bitmap_set q.volume.block_bitmap bit 0 >>= λ bitmap. ok (record q {
      volume = record q.volume { block_bitmap = bitmap };
      i_sectors = update q.i_sectors 12 0;
    })
first_listed p_de table (some block_lba) q =
    let q' = table_written (record q { all_blocks = update q.all_blocks 12 block_lba }) in
    ok (entry_written 12 (put_entry (λ k. 0) 0 p_de) q')

-- The table of addresses and its first block.
unfoldable pub add_index_table : (p_de : ℕ → ℕ) → Putting → (table : ℕ) → Run Putting
add_index_table p_de p table =
    alloc_synced (record p { i_sectors = update p.i_sectors 12 table }) (first_listed p_de table)

abbrev pub block_added :
    (block_idx : ℕ) (p_de : ℕ → ℕ) (block_lba : Option ℕ) (q : Putting) → Run Putting
block_added block_idx p_de none q = ok q
block_added block_idx p_de (some block_lba) q =
    let listed = record q { all_blocks = update q.all_blocks block_idx block_lba } in
    if ltb block_idx 12
    then ok (
        entry_written block_idx (put_entry (λ k. 0) 0 p_de)
          (record listed { i_sectors = update q.i_sectors block_idx block_lba }))
    else if block_idx == 12
    then add_index_table p_de q block_lba
    else ok (entry_written block_idx (put_entry (λ k. 0) 0 p_de) (table_written listed))

-- A block that is not there yet, with the entry as its first one.
unfoldable pub add_block : (block_idx : ℕ) (p_de : ℕ → ℕ) → Putting → Run Putting
add_block block_idx p_de p = alloc_synced p (block_added block_idx p_de)

-- The first free entry of a sector.
unfoldable pub free_entry : (sector : ℕ → ℕ) (left idx : ℕ) → Option ℕ
free_entry sector zero idx = none
free_entry sector (suc left) idx =
    let rest = free_entry sector left (idx + 1) in
    if entry_f_type sector idx == 0 then some idx else rest

abbrev pub put_in :
    (block_idx : ℕ) (p_de : ℕ → ℕ) → Putting → Option ℕ → (rest : Run Putting) → Run Putting
put_in block_idx p_de p none rest = rest
put_in block_idx p_de p (some idx) rest =
    ok (entry_written block_idx (put_entry (p.volume.disk (p.all_blocks block_idx)) idx p_de) p)

unfoldable pub put_blocks : (p_de : ℕ → ℕ) (left block_idx : ℕ) → Putting → Run Putting
put_blocks p_de zero block_idx p = ok p
put_blocks p_de (suc left) block_idx p =
    let rest = put_blocks p_de left (block_idx + 1) p in
    let free = free_entry (p.volume.disk (p.all_blocks block_idx)) dir_entrys_per_sec 0 in
    if p.all_blocks block_idx == 0
    then add_block block_idx p_de p
    else put_in block_idx p_de p free rest

-- The addresses in the table of the directory are not read.
unfoldable pub sync_dir_entry : Inode → (p_de : ℕ → ℕ) → Volume → Run Putting
sync_dir_entry dir_inode p_de v =
    let start : Putting = record {
      done = false;
      volume = v;
      i_sectors = dir_inode.i_sectors;
      i_size = dir_inode.i_size;
      all_blocks = λ k. if ltb k 12 then dir_inode.i_sectors k else 0;
    } in
    assert (dir_inode.i_size % dir_entry_size == 0) >> put_blocks p_de 140 0 start

-- The loops of `dir_read`: the entries of a sector, counted by `pos`, up to the one at `dir_pos`.
unfoldable pub read_entries : (sector : ℕ → ℕ) (dir_pos left idx pos : ℕ) → Run (Option ℕ × ℕ)
read_entries sector dir_pos zero idx pos = ok (none, pos)
read_entries sector dir_pos (suc left) idx pos =
    let skip = read_entries sector dir_pos left (idx + 1) pos in
    let next = read_entries sector dir_pos left (idx + 1) (pos + dir_entry_size) in
    if entry_f_type sector idx == 0
    then skip
    else if ltb pos dir_pos
    then next
    else assert (pos == dir_pos) >> ok (some idx, pos)

unfoldable pub read_dir_blocks :
    Disk → (all_blocks : ℕ → ℕ) (dir_pos left block_idx pos : ℕ) → Run (Option (ℕ × ℕ))
read_dir_blocks disk all_blocks dir_pos zero block_idx pos = ok none
read_dir_blocks disk all_blocks dir_pos (suc left) block_idx pos =
    let rest = λ (pos' : ℕ). read_dir_blocks disk all_blocks dir_pos left (block_idx + 1) pos' in
    if all_blocks block_idx == 0
    then rest pos
    else read_entries (disk (all_blocks block_idx)) dir_pos dir_entrys_per_sec 0 pos >>= λ r.
        elim r.0 [ none ↦ rest r.1 | some idx ↦ ok (some (block_idx, idx)) ]

-- The entry and the new `dir_pos`.
abbrev pub read_step : (dir_pos : ℕ) → Option (ℕ × ℕ) → Option (ℕ × ℕ) × ℕ
read_step dir_pos none = (none, dir_pos)
read_step dir_pos (some e) = (some e, dir_pos + dir_entry_size)

unfoldable pub dir_read : Disk → Inode → (dir_pos : ℕ) → Run (Option (ℕ × ℕ) × ℕ)
dir_read disk dir_inode dir_pos =
    let block_cnt = if dir_inode.i_sectors 12 == 0 then 12 else 140 in
    let found = read_dir_blocks disk (dir_blocks disk dir_inode.i_sectors) dir_pos block_cnt 0 0 in
    if leb dir_inode.i_size dir_pos
    then ok (none, dir_pos)
    else found >>= λ r. ok (read_step dir_pos r)

unfoldable pub dir_is_empty : Inode → Bool
dir_is_empty dir_inode = dir_inode.i_size == dir_entry_size * 2
