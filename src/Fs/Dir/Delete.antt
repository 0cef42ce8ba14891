-- ===== src/Fs/Dir/Delete.antt =====
-- `delete_dir_entry` and `create_dir_entry` of fs/dir.c.
use zy_os.Base.{
  ℕ, zero, suc, ◌+◌, ◌-◌, ◌*◌, ◌%◌, ◌^◌, ◌≤◌, ◌<◌, ◌≡◌, ◌≢◌, inl, inr, refl, Bool, true, false, not,
  ◌&&◌, Option, none, some, List, [], ◌∷◌, ◌==◌, ltb, leb, if◌then◌else◌, length, get_or, update,
  arith, Bool-cases, Run, ok, assert, ◌>>=◌, ◌>>◌,
}
use zy_os.Bitmap.{bitmap_set}
use zy_os.Bitmap.Bits.{set-zero}
use zy_os.Fs.Inode.{inode_sync}
use zy_os.Fs.File.Write.{bitmap_sync, inode_words}
use zy_os.Fs.File.{Inode, Volume, byte_of, words_sector, write_table}
use zy_os.Fs.Dir.{
  dir_entry_size, dir_entrys_per_sec, entry_i_no, entry_f_type, dir_blocks, named, put_entry,
}

-- The bytes of a new entry in cleared memory, with a name that fits.
unfoldable pub create_dir_entry : (filename : List ℕ) (inode_no file_type : ℕ) → Run (ℕ → ℕ)
create_dir_entry filename inode_no file_type =
    assert (leb (length filename) 16)
    >> ok (λ k.
      if ltb k 16
      then get_or filename k 0
      else if ltb k 20
      then byte_of inode_no (k - 16)
      else byte_of file_type (k - 20))

-- What the pass over a sector finds.
pub record SectorScan : Type 0 where
  pub is_dir_first_block : Bool
  pub dir_entry_cnt : ℕ
  pub dir_entry_found : Option ℕ

abbrev unfound : Option ℕ → Bool
unfound none = true
unfound (some idx) = false

abbrev scan_entry : (sector : ℕ → ℕ) (inode_no idx : ℕ) → SectorScan → Run SectorScan
scan_entry sector inode_no idx s =
    let s1 = record s { dir_entry_cnt = (s.dir_entry_cnt + 1) % 256 } in
    if entry_f_type sector idx == 0
    then ok s
    else if named sector (idx * dir_entry_size) (46 ∷ [])
    then ok (record s { is_dir_first_block = true })
    else if named sector (idx * dir_entry_size) (46 ∷ 46 ∷ [])
    then ok s
    else if entry_i_no sector idx == inode_no
    then assert (unfound s.dir_entry_found) >> ok (record s1 { dir_entry_found = some idx })
    else ok s1

unfoldable pub scan_sector : (sector : ℕ → ℕ) (inode_no left idx : ℕ) → SectorScan → Run SectorScan
scan_sector sector inode_no zero idx s = ok s
scan_sector sector inode_no (suc left) idx s =
    scan_entry sector inode_no idx s >>= scan_sector sector inode_no left (idx + 1)

-- How a call ends: `false`, `true` with what it leaves; or not within the rounds that a loop is given.
pub data Deletion : Type 0 where
  absent : Deletion
  deleted : Volume → Inode → Deletion
  unfinished : Deletion

-- The directory's inode is synced.
abbrev deletion_done : Inode → Volume → Run Deletion
deletion_done inode v =
    let shorter = record inode { i_size = inode.i_size - dir_entry_size } in
    assert (leb dir_entry_size inode.i_size)
    >> (inode_sync v.part inode.i_no (words_sector (inode_words shorter)) v.disk >>= λ disk.
        ok (deleted (record v { disk = disk }) shorter))

-- The loop that counts the blocks in the table, with the rounds it is given; `none` when they are used up.
unfoldable pub count_indirect :
    (fuel : ℕ) (all_blocks : ℕ → ℕ) (indirect_block_idx indirect_blocks : ℕ) → Option ℕ
count_indirect zero all_blocks indirect_block_idx indirect_blocks = none
count_indirect (suc fuel) all_blocks indirect_block_idx indirect_blocks =
    let counted =
      if all_blocks indirect_block_idx == 0
      then indirect_blocks
      else (indirect_blocks + 1) % 2 ^ 32 in
    let rest = count_indirect fuel all_blocks indirect_block_idx counted in
    if ltb indirect_block_idx 140 then rest else some indirect_blocks

-- The address is taken from the table, or the table is given back.
abbrev erase_indirect :
    (all_blocks : ℕ → ℕ) (block_idx : ℕ) → Inode → Volume → Option ℕ → Run Deletion
erase_indirect all_blocks block_idx inode v none = ok unfinished
erase_indirect all_blocks block_idx inode v (some indirect_blocks) =
    let table = inode.i_sectors 12 in
    let bit = (table + 2 ^ 32 - v.data_start_lba) % 2 ^ 32 in
    assert (leb 1 indirect_blocks)
    >> (if ltb 1 indirect_blocks
        then deletion_done inode (write_table table (update all_blocks block_idx 0) v)
        else bitmap_set v.block_bitmap bit 0 >>= λ bitmap.
            deletion_done (record inode { i_sectors = update inode.i_sectors 12 0 })
              (bitmap_sync bit (record v { block_bitmap = bitmap })))

-- A block that held this entry only, and is not the first one, is given back.
unfoldable pub free_dir_block :
    (fuel : ℕ) (all_blocks : ℕ → ℕ) (block_idx : ℕ) → Inode → Volume → Run Deletion
free_dir_block fuel all_blocks block_idx inode v =
    let bit = (all_blocks block_idx + 2 ^ 32 - v.data_start_lba) % 2 ^ 32 in
    bitmap_set v.block_bitmap bit 0 >>= λ bitmap.
    let v' = bitmap_sync bit (record v { block_bitmap = bitmap }) in
    if ltb block_idx 12
    then deletion_done (record inode { i_sectors = update inode.i_sectors block_idx 0 }) v'
    else erase_indirect all_blocks block_idx inode v' (count_indirect fuel all_blocks 12 0)

unfoldable pub clear_entry : (lba idx : ℕ) → Inode → Volume → Run Deletion
clear_entry lba idx inode v =
    deletion_done inode
      (record v { disk = update v.disk lba (put_entry (v.disk lba) idx (λ k. 0)) })

abbrev delete_found :
    (fuel : ℕ) (all_blocks : ℕ → ℕ) (block_idx : ℕ)
    → Inode
    → Volume
    → (rest : Run Deletion) → SectorScan
    → Option ℕ
    → Run Deletion
delete_found fuel all_blocks block_idx inode v rest s none = rest
delete_found fuel all_blocks block_idx inode v rest s (some idx) =
    assert (leb 1 s.dir_entry_cnt)
    >> (if s.dir_entry_cnt == 1 && not s.is_dir_first_block
        then free_dir_block fuel all_blocks block_idx inode v
        else clear_entry (all_blocks block_idx) idx inode v)

-- The loop over the blocks, with the rounds that are left.
unfoldable pub delete_in :
    (fuel : ℕ) (all_blocks : ℕ → ℕ) (inode_no : ℕ)
    → Inode
    → Volume
    → (left block_idx : ℕ) → Run Deletion
delete_in fuel all_blocks inode_no inode v zero block_idx = ok absent
delete_in fuel all_blocks inode_no inode v (suc left) block_idx =
    let rest = delete_in fuel all_blocks inode_no inode v left (block_idx + 1) in
    let start : SectorScan = record {
      is_dir_first_block = false;
      dir_entry_cnt = 0;
      dir_entry_found = none;
    } in
    let sector = v.disk (all_blocks block_idx) in
    if all_blocks block_idx == 0
    then rest
    else scan_sector sector inode_no dir_entrys_per_sec 0 start >>= λ s.
        delete_found fuel all_blocks block_idx inode v rest s s.dir_entry_found

unfoldable pub delete_dir_entry : (fuel inode_no : ℕ) → Inode → Volume → Run Deletion
delete_dir_entry fuel inode_no dir_inode v =
    delete_in fuel (dir_blocks v.disk dir_inode.i_sectors) inode_no dir_inode v 140 0

abbrev fresh_scan : SectorScan
fresh_scan = record { is_dir_first_block = false; dir_entry_cnt = 0; dir_entry_found = none }

-- The pass over a block with entries ends without the number.
abbrev Passed : (v : Volume) (all_blocks : ℕ → ℕ) (inode_no block_idx : ℕ) → Type 0
Passed v all_blocks inode_no block_idx =
    (s : SectorScan) × (scan_sector (v.disk (all_blocks block_idx)) inode_no dir_entrys_per_sec 0
        fresh_scan
      ≡ ok s)
    × (s.dir_entry_found ≡ none)

-- Below 140, the loop uses up any number of rounds.
count_indirect-none :
    (fuel : ℕ) (all_blocks : ℕ → ℕ) (indirect_block_idx indirect_blocks : ℕ)
    → indirect_block_idx < 140
    → count_indirect fuel all_blocks indirect_block_idx indirect_blocks ≡ none
unfolding count_indirect
count_indirect-none zero all_blocks indirect_block_idx indirect_blocks lt = refl
count_indirect-none (suc fuel) all_blocks indirect_block_idx indirect_blocks lt =
    let below : ltb indirect_block_idx 140 ≡ true = ground arith in
    rw below (count_indirect-none fuel all_blocks indirect_block_idx _ lt)

module _ (fuel : ℕ) (all_blocks : ℕ → ℕ) (inode_no : ℕ) (inode : Inode) (v : Volume) (k idx : ℕ)
    (s : SectorScan) (indirect : 12 ≤ k) (there : all_blocks k ≢ 0)
    (before : (b : ℕ) → b < k → all_blocks b ≢ 0 → Passed v all_blocks inode_no b)
    (scanned : scan_sector (v.disk (all_blocks k)) inode_no dir_entrys_per_sec 0 fresh_scan ≡ ok s)
    (found : s.dir_entry_found ≡ some idx) (alone : s.dir_entry_cnt ≡ 1)
    (later : s.is_dir_first_block ≡ false) where
  delete_in-endless :
      (left block_idx : ℕ)
      → block_idx ≤ k
      → k < block_idx + left
      → delete_in fuel all_blocks inode_no inode v left block_idx ≡ ok unfinished
  unfolding delete_in free_dir_block
  delete_in-endless zero block_idx lo hi = absurd (omega arith)
  delete_in-endless (suc left) block_idx lo hi = elim (Bool-cases (block_idx == k)) [
    | inl e ↦
        let at : block_idx ≡ k = ground arith in
        let full : (all_blocks k == 0) ≡ false = ground arith in
        let one : (s.dir_entry_cnt == 1) ≡ true = ground arith in
        let some_entry : leb 1 s.dir_entry_cnt ≡ true = ground arith in
        let past : ltb k 12 ≡ false = ground arith in
        rw
          (
            at,
            full,
            scanned,
            found,
            some_entry,
            one,
            later,
            set-zero,
            past,
            count_indirect-none fuel all_blocks 12 0 (omega arith),
          )
          refl
    | inr ne ↦
        let ih = delete_in-endless left (block_idx + 1) (ground arith) (ground arith) in
        elim (Bool-cases (all_blocks block_idx == 0)) [
          | inl z ↦ rw z ih
          | inr nz ↦
              let (t, run, missing) = before block_idx (ground arith) (ground arith) in
              rw (nz, run, missing) ih
        ]
  ]

-- When the entry to be deleted is the only one of an indirect block of the directory, and the blocks
-- before pass without it, delete_dir_entry does not end: the loop that counts the blocks in the table
-- uses up any number of rounds it is given.
pub delete_dir_entry-endless :
    (fuel inode_no : ℕ) (dir_inode : Inode) (v : Volume) (k idx : ℕ) (s : SectorScan)
    → let all_blocks = dir_blocks v.disk dir_inode.i_sectors in
      12 ≤ k
      → k < 140
      → all_blocks k ≢ 0
      → ((b : ℕ) → b < k → all_blocks b ≢ 0 → Passed v all_blocks inode_no b)
      → scan_sector (v.disk (all_blocks k)) inode_no dir_entrys_per_sec 0 fresh_scan ≡ ok s
      → s.dir_entry_found ≡ some idx
      → s.dir_entry_cnt ≡ 1
      → s.is_dir_first_block ≡ false
      → delete_dir_entry fuel inode_no dir_inode v ≡ ok unfinished
unfolding delete_dir_entry
delete_dir_entry-endless fuel inode_no dir_inode v k idx s lo hi there before scanned found alone
      later =
    delete_in-endless fuel (dir_blocks v.disk dir_inode.i_sectors) inode_no dir_inode v k idx s lo
      there before scanned found alone later 140 0 (omega arith) (omega arith)
