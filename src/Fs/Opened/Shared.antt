-- ===== src/Fs/Opened/Shared.antt =====
-- Files that two processes or two descriptors share: `sys_close` (fs/fs.c) behind `update_inode_open_cnts`
-- (user_process/fork.c), and `file_close` (fs/file.c) beside a writer.
use zy_os.Base.{
  ◌==◌, inl, inr, Bool-cases, ℕ, ◌+◌, ◌%◌, ◌^◌, ◌<◌, ◌≡◌, ◌≢◌, refl, ◌∙◌, ap, true, false, Option,
  some, List, [], ◌∷◌, update, arith, ==_iff, ok, ◌>>=◌,
}
use zy_os.Fs.Inode.{Disk, Part}
use zy_os.Fs.File.{Inode}
use zy_os.Fs.Files.{
  free_from, pcb_fd_install, minus_one, get_free_slot_in_global, get_free_slot_in_global-free,
}
use zy_os.Fs.Opened.{
  o_wronly, Slot, Opened, find_open, inode_open, put_cnt, inode_close, file_open, file_close,
  fd_local_to_global, sys_close, count_fds, update_inode_open_cnts,
}

-- After fork has counted the open file of a process with one descriptor above the standard ones,
-- closing it in one of the two processes frees the slot of the file table that the other still refers
-- to, while the inode stays counted as often as before fork and stays listed as open.
pub fork-sys_close :
    (s : Opened) (fd_table : ℕ → ℕ) (g : ℕ)
    → fd_table 3 ≡ g
    → g < 32
    → ((k : ℕ) → 3 < k → k < 8 → fd_table k ≡ minus_one)
    → let p = (s.file_table g).fd_inode in
      0 < (s.inode p).i_open_cnts
      → (s.inode p).i_open_cnts + 1 < 2 ^ 32
      → (s' : Opened) × ((update_inode_open_cnts fd_table s >>= λ forked.
            sys_close 3 forked fd_table)
          ≡ ok (true, s', update fd_table 3 minus_one))
        × (fd_local_to_global fd_table 3 ≡ ok g)
        × ((s'.file_table g).fd_inode ≡ 0)
        × ((s'.inode p).i_open_cnts ≡ (s.inode p).i_open_cnts)
        × (s'.open_inodes ≡ s.open_inodes)
unfolding update_inode_open_cnts count_fds sys_close fd_local_to_global file_close inode_close
fork-sys_close s fd_table g at small only pos bound =
    let p = (s.file_table g).fd_inode in
    let forked = put_cnt p (((s.inode p).i_open_cnts + 1) % 2 ^ 32) s in
    (
      file_close g forked,
      ground (arith, only 4, only 5, only 6, only 7),
      ground arith,
      ground arith,
      ground arith,
      ground arith,
    )

find_open_ext :
    (f h : ℕ → Inode) (inode_no : ℕ) (xs : List ℕ)
    → ((q : ℕ) → (h q).i_no ≡ (f q).i_no)
    → find_open h inode_no xs ≡ find_open f inode_no xs
unfolding find_open
find_open_ext f h inode_no [] same = refl
find_open_ext f h inode_no (x ∷ xs) same =
    ground (arith, find_open_ext f h inode_no xs same, same x)

-- A closing that is not the last one.
file_close-kept :
    (s : Opened) (g : ℕ)
    → let p = (s.file_table g).fd_inode in
      1 < (s.inode p).i_open_cnts
      → (s.inode p).i_open_cnts < 2 ^ 32
      → ((file_close g s).open_inodes ≡ s.open_inodes)
        × (((file_close g s).inode p).write_deny ≡ false)
        × ((q : ℕ) → ((file_close g s).inode q).i_no ≡ (s.inode q).i_no)
        × ((h : ℕ) → h ≢ g → (file_close g s).file_table h ≡ s.file_table h)
unfolding file_close inode_close
file_close-kept s g pos bound =
    (ground arith, ground arith, λ q. ground arith, λ h ne. ground arith)

-- The opening of an inode that is open and not denied, for writing.
open_denied :
    (fresh : ℕ) (part : Part) (inode_no g p : ℕ) (disk : Disk) (s : Opened) (fd_table : ℕ → ℕ)
    → get_free_slot_in_global (λ k. (s.file_table k).fd_inode) ≡ some g
    → find_open s.inode inode_no s.open_inodes ≡ some p
    → (s.inode p).write_deny ≡ false
    → (d : Option ℕ × Opened × (ℕ → ℕ)) × (file_open fresh part inode_no o_wronly disk s fd_table
        ≡ ok d)
      × (d.1.file_table
          ≡ update s.file_table g (record { fd_pos = 0; fd_flag = o_wronly; fd_inode = p }))
      × (d.0 ≡ (pcb_fd_install g fd_table).0)
      × (d.2 ≡ (pcb_fd_install g fd_table).1)
unfolding file_open inode_open
open_denied fresh part inode_no g p disk s fd_table free at allowed =
    rw (free, at, (==_iff p p).1 refl, allowed) (_, refl, refl, refl, refl)

update_self : (t : ℕ → Slot) (g : ℕ) (slot : Slot) → update t g slot g ≡ slot
update_self t g slot = ground arith

update_ne : (t : ℕ → Slot) (g h : ℕ) (slot : Slot) → h ≢ g → update t g slot h ≡ t h
update_ne t g h slot ne = ground arith

installed :
    (g fd : ℕ) (t : ℕ → ℕ)
    → (pcb_fd_install g t).0 ≡ some fd
    → (pcb_fd_install g t).1 ≡ update t fd g
unfolding pcb_fd_install
installed g fd t h =
    let r = free_from (λ i. t i == minus_one) 5 3 in
    elim (Bool-cases (r == 8)) [ inl y ↦ absurd (ground arith) | inr n ↦ ground arith ]

-- When two slots of the file table refer to an inode that is counted more than once and that is found
-- under its number, one of the slots is closed, whatever it was open for, and there are a free slot and
-- a descriptor left, opening the file for writing is not denied: file_open returns the descriptor,
-- under which the process has the free slot now, which is a writer of the inode, and the other slot
-- stays as it is, a writer if it was one.
pub second_writer :
    (fresh : ℕ) (part : Part) (inode_no g h g' : ℕ) (disk : Disk) (s : Opened) (fd_table : ℕ → ℕ)
    → let p = (s.file_table g).fd_inode in
      p ≢ 0
      → h ≢ g
      → (s.file_table h).fd_inode ≡ p
      → 1 < (s.inode p).i_open_cnts
      → (s.inode p).i_open_cnts < 2 ^ 32
      → find_open s.inode inode_no s.open_inodes ≡ some p
      → get_free_slot_in_global (λ k. ((file_close g s).file_table k).fd_inode) ≡ some g'
      → (fd : ℕ) → (pcb_fd_install g' fd_table).0 ≡ some fd
      → (d : Option ℕ × Opened × (ℕ → ℕ)) × (file_open fresh part inode_no o_wronly disk
            (file_close g s)
            fd_table
          ≡ ok d)
        × (d.1.file_table h ≡ s.file_table h)
        × (h ≢ g')
        × (d.1.file_table g' ≡ record { fd_pos = 0; fd_flag = o_wronly; fd_inode = p })
        × (d.0 ≡ some fd)
        × (d.2 ≡ update fd_table fd g')
second_writer fresh part inode_no g h g' disk s fd_table used ne same pos bound at free fd room =
    let p = (s.file_table g).fd_inode in
    let (list, allowed, numbers, others) = file_close-kept s g pos bound in
    let found = find_open_ext s.inode (file_close g s).inode inode_no s.open_inodes numbers ∙ at in
    let found' : find_open (file_close g s).inode inode_no (file_close g s).open_inodes ≡ some p =
      rw list found in
    let (d, opening, table, answer, put) =
      open_denied fresh part inode_no g' p disk (file_close g s) fd_table free found' allowed in
    let (small, empty) = get_free_slot_in_global-free _ g' free in
    let kept = others h ne in
    let other : h ≢ g' = λ e. ground arith in
    let slot : Slot = record { fd_pos = 0; fd_flag = o_wronly; fd_inode = p } in
    let t = (file_close g s).file_table in
    (
      d,
      opening,
      ap (λ (u : ℕ → Slot). u h) table ∙ update_ne t g' h slot other ∙ kept,
      other,
      ap (λ (u : ℕ → Slot). u g') table ∙ update_self t g' slot,
      answer ∙ room,
      put ∙ installed g' fd fd_table room,
    )
