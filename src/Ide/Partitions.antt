-- ===== src/Ide/Partitions.antt =====
-- `partition_scan` of device/ide.c: the partition tables of a disk.
-- The parts of a disk are numbered as in their names. Recursion into extended partitions takes fuel, since a
-- table may name itself. The inner `none` means that it ran out, or that a part is to be stored behind the
-- 8 of `logic_parts`: the return at the eighth leaves one table only, and the scan of the table before goes
-- on.
use zy_os.Base.{
  ◌≤◌, Bool, ℕ, zero, suc, ◌+◌, ◌*◌, ◌^◌, ◌%◌, ◌<◌, ◌≡◌, Option, none, some, List, [], ◌∷◌, ◌++◌,
  ◌==◌, ltb, leb, if◌then◌else◌, update, Run, ok, panic, assert, ◌>>=◌, ◌>>◌,
}
use zy_os.Fs.Inode.{Disk}

-- The fields of a `struct partition_table_entry` that are read.
pub record TableEntry : Type 0 where
  pub fs_type : ℕ
  pub start_lba : ℕ
  pub sec_cnt : ℕ

abbrev pub word_from : (ℕ → ℕ) → ℕ → ℕ
word_from sector off =
    sector off + 2 ^ 8 * sector (off + 1) + 2 ^ 16 * sector (off + 2) + 2 ^ 24 * sector (off + 3)

abbrev pub entry_at : (sector : ℕ → ℕ) (part_idx : ℕ) → TableEntry
entry_at sector part_idx =
    let off = 446 + part_idx * 16 in
    record {
      fs_type = sector (off + 4);
      start_lba = word_from sector (off + 8);
      sec_cnt = word_from sector (off + 12);
    }

unfoldable pub partition_table : Disk → (lba : ℕ) → List TableEntry
partition_table disk lba =
    let sector = disk lba in
    entry_at sector 0 ∷ entry_at sector 1 ∷ entry_at sector 2 ∷ entry_at sector 3 ∷ []

-- A part of the disk, with the number in its name.
pub record DiskPart : Type 0 where
  pub no : ℕ
  pub start_lba : ℕ
  pub sec_cnt : ℕ

pub record Scan : Type 0 where
  pub ext_lba_base : ℕ
  pub p_no : ℕ
  pub l_no : ℕ
  pub prim_parts : ℕ → DiskPart
  pub logic_parts : ℕ → DiskPart
  pub partition_list : List DiskPart

abbrev pub add_primary : (ext_lba : ℕ) → TableEntry → Scan → Run Scan
add_primary ext_lba p s =
    let part : DiskPart = record {
      no = s.p_no + 1;
      start_lba = (ext_lba + p.start_lba) % 2 ^ 32;
      sec_cnt = p.sec_cnt;
    } in
    assert (ltb (s.p_no + 1) 4)
    >> ok (record s {
      prim_parts = update s.prim_parts s.p_no part;
      p_no = s.p_no + 1;
      partition_list = s.partition_list ++ (part ∷ []);
    })

abbrev pub add_logical : (ext_lba : ℕ) → TableEntry → Scan → Scan
add_logical ext_lba p s =
    let part : DiskPart = record {
      no = s.l_no + 5;
      start_lba = (ext_lba + p.start_lba) % 2 ^ 32;
      sec_cnt = p.sec_cnt;
    } in
    record s {
      logic_parts = update s.logic_parts s.l_no part;
      l_no = s.l_no + 1;
      partition_list = s.partition_list ++ (part ∷ []);
    }

-- The table that an extended entry names.
abbrev pub extended : (scan : ℕ → Scan → Run (Option Scan)) → TableEntry → Scan → Run (Option Scan)
extended scan p s =
    if s.ext_lba_base == 0
    then scan p.start_lba (record s { ext_lba_base = p.start_lba })
    else scan ((p.start_lba + s.ext_lba_base) % 2 ^ 32) s

abbrev pub and_then : Run (Option Scan) → (Scan → Run (Option Scan)) → Run (Option Scan)
and_then panic next = panic
and_then (ok none) next = ok none
and_then (ok (some s)) next = next s

-- The loop over the entries, where `scan` is the recursive call.
unfoldable pub scan_entries :
    (scan : ℕ → Scan → Run (Option Scan)) (ext_lba : ℕ) → List TableEntry → Scan → Run (Option Scan)
scan_entries scan ext_lba [] s = ok (some s)
scan_entries scan ext_lba (p ∷ ps) s =
    let rest = λ (s' : Scan). scan_entries scan ext_lba ps s' in
    let s' = add_logical ext_lba p s in
    if p.fs_type == 0x5
    then and_then (extended scan p s) rest
    else if p.fs_type == 0
    then rest s
    else if ext_lba == 0
    then (add_primary ext_lba p s >>= rest)
    else if leb 8 s.l_no
    then ok none
    else if leb 8 s'.l_no
    then ok (some s')
    else rest s'

unfoldable pub partition_scan : (fuel : ℕ) → Disk → (ext_lba : ℕ) → Scan → Run (Option Scan)
partition_scan zero disk ext_lba s = ok none
partition_scan (suc fuel) disk ext_lba s =
    scan_entries (partition_scan fuel disk) ext_lba (partition_table disk ext_lba) s

-- How many parts of a list, and of the first `n` of an array, pass a test.
unfoldable pub count : (DiskPart → Bool) → List DiskPart → ℕ
count t [] = 0
count t (p ∷ ps) = (if t p then 1 else 0) + count t ps

unfoldable pub count_first : (DiskPart → Bool) → (ℕ → DiskPart) → ℕ → ℕ
count_first t parts zero = 0
count_first t parts (suc n) = count_first t parts n + (if t (parts n) then 1 else 0)

-- The arrays are not overrun, and the list has, besides the parts that it had before, those of the arrays
-- and each of them once: whatever is asked of parts, as many in the list pass it as of those.
pub record IsScanned (before : List DiskPart) (s : Scan) : Type 0 where
  pub primaries : s.p_no < 4
  pub logicals : s.l_no ≤ 8
  pub listed :
      (t : DiskPart → Bool)
      → count t s.partition_list
        ≡ count t before + count_first t s.prim_parts s.p_no + count_first t s.logic_parts s.l_no

abbrev pub Keeps : (before : List DiskPart) → Run (Option Scan) → Type 0
Keeps before panic = Unit {0}
Keeps before (ok none) = Unit {0}
Keeps before (ok (some s)) = IsScanned before s
