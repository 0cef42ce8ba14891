-- ===== src/Fs/Opened.antt =====
-- The inodes in memory and the global file table: `inode_open` and `inode_close` of fs/inode.c, `file_open`
-- and `file_close` of fs/file.c, `sys_close` and `fd_local_to_global` of fs/fs.c, and
-- `update_inode_open_cnts` of user_process/fork.c.
-- A pointer to an inode is its address, with 0 for `NULL`. What `sys_malloc` returns for an inode is the
-- parameter `fresh`; an inode that is freed leaves the list and keeps its bytes. The interrupt flag around
-- a change is left out: each function is one step.
pub mod Counts
pub mod Shared
pub mod Steps
mod Tests
use zy_os.Base.{
  ℕ, zero, suc, ◌+◌, ◌-◌, ◌%◌, ◌^◌, Bool, true, false, not, ◌&&◌, ◌||◌, Option, none, some, List,
  [], ◌∷◌, ◌==◌, ltb, if◌then◌else◌, update, bit_and, Run, ok, assert, ◌>>=◌, ◌>>◌,
}
use zy_os.Fs.Inode.{Disk, Part, inode_load}
use zy_os.Fs.File.{Inode, word_at}
use zy_os.Fs.Files.{
  minus_one, max_file_open, max_files_open_per_proc, get_free_slot_in_global, pcb_fd_install,
}

pub record Slot : Type 0 where
  pub fd_pos : ℕ
  pub fd_flag : ℕ
  pub fd_inode : ℕ

pub record Opened : Type 0 where
  pub file_table : ℕ → Slot
  pub inode : ℕ → Inode
  pub open_inodes : List ℕ

abbrev pub o_wronly : ℕ
o_wronly = 1

abbrev o_rdwr : ℕ
o_rdwr = 2

-- The fields of `struct inode` in its bytes.
abbrev pub inode_of_bytes : (ℕ → ℕ) → Inode
inode_of_bytes b = record {
  i_no = word_at b 0;
  i_size = word_at b 1;
  i_open_cnts = word_at b 2;
  write_deny = not (word_at b 3 == 0);
  i_sectors = λ k. word_at b (k + 4);
}

-- The loop over `open_inodes`.
unfoldable pub find_open : (ℕ → Inode) → (inode_no : ℕ) → List ℕ → Option ℕ
find_open inode inode_no [] = none
find_open inode inode_no (p ∷ ps) =
    let rest = find_open inode inode_no ps in if (inode p).i_no == inode_no then some p else rest

abbrev pub put_cnt : (p cnt : ℕ) → Opened → Opened
put_cnt p cnt s = record s { inode = update s.inode p (record (s.inode p) { i_open_cnts = cnt }) }

abbrev pub open_found :
    (fresh : ℕ) → Part → (inode_no : ℕ) → Disk → Opened → Option ℕ → Run (ℕ × Opened)
open_found fresh part inode_no disk s (some p) =
    ok (p, put_cnt p (((s.inode p).i_open_cnts + 1) % 2 ^ 32) s)
open_found fresh part inode_no disk s none = inode_load part inode_no disk >>= λ b. ok (
  fresh,
  record s {
    inode = update s.inode fresh (record (inode_of_bytes b) { i_open_cnts = 1 });
    open_inodes = fresh ∷ s.open_inodes;
  },
)

unfoldable pub inode_open : (fresh : ℕ) → Part → (inode_no : ℕ) → Disk → Opened → Run (ℕ × Opened)
inode_open fresh part inode_no disk s =
    open_found fresh part inode_no disk s (find_open s.inode inode_no s.open_inodes)

unfoldable pub list_without : ℕ → List ℕ → List ℕ
list_without p [] = []
list_without p (q ∷ qs) = let rest = list_without p qs in if q == p then qs else q ∷ rest

unfoldable pub inode_close : ℕ → Opened → Opened
inode_close p s =
    let cnt = ((s.inode p).i_open_cnts + 2 ^ 32 - 1) % 2 ^ 32 in
    let s' = put_cnt p cnt s in
    if cnt == 0 then record s' { open_inodes = list_without p s.open_inodes } else s'

abbrev pub put_slot : (g : ℕ) → Slot → Opened → Opened
put_slot g slot s = record s { file_table = update s.file_table g slot }

abbrev pub deny_writes : (p : ℕ) (b : Bool) → Opened → Opened
deny_writes p b s = record s { inode = update s.inode p (record (s.inode p) { write_deny = b }) }

abbrev pub writes : (flag : ℕ) → Bool
writes flag = not (bit_and flag o_wronly == 0) || not (bit_and flag o_rdwr == 0)

-- The end of `file_open`: the descriptor, the tables and those of the process.
abbrev install : (g : ℕ) → Opened → (fd_table : ℕ → ℕ) → Run (Option ℕ × Opened × (ℕ → ℕ))
install g s fd_table = let r = pcb_fd_install g fd_table in ok (r.0, s, r.1)

abbrev pub opened_in :
    (flag g : ℕ) (fd_table : ℕ → ℕ) → ℕ × Opened → Run (Option ℕ × Opened × (ℕ → ℕ))
opened_in flag g fd_table (p, s) =
    let s1 = put_slot g (record { fd_pos = 0; fd_flag = flag; fd_inode = p }) s in
    if writes flag
    then (if (s.inode p).write_deny
        then ok (none, s1, fd_table)
        else install g (deny_writes p true s1) fd_table)
    else install g s1 fd_table

abbrev pub open_slot :
    (fresh : ℕ)
    → Part
    → (inode_no flag : ℕ) → Disk
    → Opened
    → (fd_table : ℕ → ℕ) → Option ℕ
    → Run (Option ℕ × Opened × (ℕ → ℕ))
open_slot fresh part inode_no flag disk s fd_table none = ok (none, s, fd_table)
open_slot fresh part inode_no flag disk s fd_table (some g) =
    inode_open fresh part inode_no disk s >>= opened_in flag g fd_table

unfoldable pub file_open :
    (fresh : ℕ)
    → Part
    → (inode_no flag : ℕ) → Disk
    → Opened
    → (fd_table : ℕ → ℕ) → Run (Option ℕ × Opened × (ℕ → ℕ))
file_open fresh part inode_no flag disk s fd_table =
    open_slot fresh part inode_no flag disk s fd_table
      (get_free_slot_in_global (λ g. (s.file_table g).fd_inode))

-- `file_close(&file_table[g])`.
unfoldable pub file_close : (g : ℕ) → Opened → Opened
file_close g s =
    let p = (s.file_table g).fd_inode in
    let s1 = inode_close p (deny_writes p false s) in
    put_slot g (record (s1.file_table g) { fd_inode = 0 }) s1

-- `global_fd` is an `int32_t`, so that -1 is refused.
unfoldable pub fd_local_to_global : (fd_table : ℕ → ℕ) (local_fd : ℕ) → Run ℕ
fd_local_to_global fd_table local_fd =
    let global_fd = fd_table local_fd in assert (ltb global_fd max_file_open) >> ok global_fd

-- For a descriptor that is not negative; `false` for -1.
unfoldable pub sys_close : (fd : ℕ) → Opened → (fd_table : ℕ → ℕ) → Run (Bool × Opened × (ℕ → ℕ))
sys_close fd s fd_table =
    if ltb 2 fd
    then (fd_local_to_global fd_table fd >>= λ g.
        ok (true, file_close g s, update fd_table fd minus_one))
    else ok (false, s, fd_table)

-- The loop of `update_inode_open_cnts`, with the rounds that are left. The index is signed: -1 passes the
-- assertion.
unfoldable pub count_fds : (fd_table : ℕ → ℕ) (left local_fd : ℕ) → Opened → Run Opened
count_fds fd_table zero local_fd s = ok s
count_fds fd_table (suc left) local_fd s =
    let g = fd_table local_fd in
    let p = (s.file_table g).fd_inode in
    let counted =
      count_fds fd_table left (local_fd + 1)
        (put_cnt p (((s.inode p).i_open_cnts + 1) % 2 ^ 32) s) in
    let skipped = count_fds fd_table left (local_fd + 1) s in
    if g == minus_one then skipped else (assert (ltb g max_file_open) >> counted)

unfoldable pub update_inode_open_cnts : (fd_table : ℕ → ℕ) → Opened → Run Opened
update_inode_open_cnts fd_table s = count_fds fd_table (max_files_open_per_proc - 3) 3 s
