-- ===== src/Fs/Opened/Steps.antt =====
-- What threads do with the file table, as steps: directories and files are opened and closed.
use zy_os.Base.{
  ℕ, zero, suc, ◌+◌, ◌^◌, ◌≤◌, ◌<◌, ◌≡◌, ◌≢◌, inl, inr, refl, sym, subst, Bool, true, false, Option,
  none, some, List, [], ◌∷◌, length, arith, Bool-cases, ok, >>=-eq-ok,
}
use zy_os.Fs.Inode.{Disk, Part}
use zy_os.Fs.Files.{get_free_slot_in_global-free}
use zy_os.Fs.Opened.{
  Slot, Opened, inode_open, inode_close, list_without, put_slot, deny_writes, writes, opened_in,
  open_slot, file_open, file_close,
}
use zy_os.Fs.Opened.Counts.{
  count, slots, refs, Counted, Holds, slots-update, slots_pos, count-list_without, inode_open-Holds,
  inode_close-Counted,
}

deny_writes-Counted :
    (held : List ℕ) (s : Opened) (p : ℕ) (b : Bool)
    → Counted held s
    → Counted held (deny_writes p b s)
deny_writes-Counted held s p b c = record {
  nonnull = c.nonnull;
  listed = c.listed;
  counted = λ q qz pos. ground (arith, c.counted q qz);
}

-- A slot takes over the reference of a holder.
put_slot-Counted :
    (held : List ℕ) (s : Opened) (g p : ℕ) (slot : Slot)
    → Counted (p ∷ held) s
    → g < 32
    → (s.file_table g).fd_inode ≡ 0
    → slot.fd_inode ≡ p
    → Counted held (put_slot g slot s)
unfolding count
put_slot-Counted held s g p slot c small free to = record {
  nonnull = c.nonnull;
  listed = λ q qz. ground (arith, c.listed q qz, slots-update s.file_table g slot q 32);
  counted = λ q qz pos. ground (arith, c.counted q qz, slots-update s.file_table g slot q 32);
}

-- A slot that is cleared leaves its reference to a holder.
clear_slot-Counted :
    (held : List ℕ) (s : Opened) (g : ℕ) (slot : Slot)
    → Counted held s
    → g < 32
    → slot.fd_inode ≡ 0
    → Counted ((s.file_table g).fd_inode ∷ held) (put_slot g slot s)
unfolding count
clear_slot-Counted held s g slot c small to = record {
  nonnull = c.nonnull;
  listed = λ q qz. ground (arith, c.listed q qz, slots-update s.file_table g slot q 32);
  counted = λ q qz pos. ground (arith, c.counted q qz, slots-update s.file_table g slot q 32);
}

-- The order of the two writes of `file_close` does not matter.
inode_close-put_slot :
    (p g : ℕ) (slot : Slot) (s : Opened)
    → put_slot g slot (inode_close p s) ≡ inode_close p (put_slot g slot s)
unfolding inode_close
inode_close-put_slot p g slot s = ground arith

inode_close-file_table : (p : ℕ) (s : Opened) → (inode_close p s).file_table ≡ s.file_table
unfolding inode_close
inode_close-file_table p s = ground arith

file_close-Counted :
    (held : List ℕ) (s : Opened) (g : ℕ)
    → Counted held s
    → g < 32
    → (s.file_table g).fd_inode ≢ 0
    → length held + 33 < 2 ^ 32
    → Counted held (file_close g s)
unfolding file_close
file_close-Counted held s g c small used few =
    let p = (s.file_table g).fd_inode in
    let s0 = deny_writes p false s in
    let slot = record ((inode_close p s0).file_table g) { fd_inode = 0 } in
    let cleared : Counted (p ∷ held) (put_slot g slot s0) =
      clear_slot-Counted held s0 g slot (deny_writes-Counted held s p false c) small refl in
    subst (Counted held) (sym (inode_close-put_slot p g slot s0))
      (inode_close-Counted held (put_slot g slot s0) p cleared used few)

-- What `file_open` leaves in the tables, also where it fails behind the opening of the inode.
opened_in-Counted :
    (held : List ℕ) (s : Opened) (flag g : ℕ) (fd_table : ℕ → ℕ) (r : ℕ × Opened)
    → Holds held s r
    → g < 32
    → (s.file_table g).fd_inode ≡ 0
    → (d : Option ℕ × Opened × (ℕ → ℕ)) → opened_in flag g fd_table r ≡ ok d
    → Counted held d.1
opened_in-Counted held s flag g fd_table (p, s1) hold small free d h =
    let slot : Slot = record { fd_pos = 0; fd_flag = flag; fd_inode = p } in
    let free1 : (s1.file_table g).fd_inode ≡ 0 = rw hold.same_table free in
    let c1 = put_slot-Counted held s1 g p slot hold.counts small free1 refl in
    let c2 = deny_writes-Counted held (put_slot g slot s1) p true c1 in
    elim (Bool-cases (writes flag)) [
      | inl w ↦ elim (Bool-cases (s1.inode p).write_deny) [
        | inl y ↦ let e : put_slot g slot s1 ≡ d.1 = ground arith in subst (Counted held) e c1
        | inr n ↦
            let e : deny_writes p true (put_slot g slot s1) ≡ d.1 = ground arith in
            subst (Counted held) e c2
      ]
      | inr r ↦ let e : put_slot g slot s1 ≡ d.1 = ground arith in subst (Counted held) e c1
    ]

module _ (held : List ℕ) (s : Opened) (fresh : ℕ) (part : Part) (inode_no flag : ℕ) (disk : Disk)
    (fd_table : ℕ → ℕ) (c : Counted held s) (nz : fresh ≢ 0) (new : count fresh s.open_inodes ≡ 0)
    (few : length held + 33 < 2 ^ 32) where
  open_slot-Counted :
      (o : Option ℕ)
      → ((g : ℕ) → o ≡ some g → (g < 32) × ((s.file_table g).fd_inode ≡ 0))
      → (d : Option ℕ × Opened × (ℕ → ℕ))
      → open_slot fresh part inode_no flag disk s fd_table o ≡ ok d
      → Counted held d.1
  open_slot-Counted none free d h = let e : s ≡ d.1 = ground arith in subst (Counted held) e c
  open_slot-Counted (some g) free d h =
      let (r, opening, rest) = >>=-eq-ok (inode_open fresh part inode_no disk s) _ h in
      let hold = inode_open-Holds fresh part inode_no disk held s c nz new few r opening in
      opened_in-Counted held s flag g fd_table r hold (free g refl).0 (free g refl).1 d rest

  pub file_open-Counted :
      (d : Option ℕ × Opened × (ℕ → ℕ))
      → file_open fresh part inode_no flag disk s fd_table ≡ ok d
      → Counted held d.1
  unfolding file_open
  file_open-Counted d h =
      open_slot-Counted _ (get_free_slot_in_global-free (λ g. (s.file_table g).fd_inode)) d h

-- The tables and who holds an inode besides them.
pub record World : Type 0 where
  pub held : List ℕ
  pub opened : Opened

-- The steps. A directory holds its inode, also while a path is searched; `fresh` is an address that
-- `sys_malloc` gives, at which no open inode stands.
pub data Step : World → World → Type 0 where
  open_dir :
      (w : World) (fresh : ℕ) (part : Part) (inode_no : ℕ) (disk : Disk) (p : ℕ) (s : Opened)
      → fresh ≢ 0
      → count fresh w.opened.open_inodes ≡ 0
      → length w.held + 34 < 2 ^ 32
      → inode_open fresh part inode_no disk w.opened ≡ ok (p, s)
      → Step w (record { held = p ∷ w.held; opened = s })
  close_dir :
      (w : World) (p : ℕ)
      → p ≢ 0
      → 0 < count p w.held
      → Step w (record { held = list_without p w.held; opened = inode_close p w.opened })
  open_file :
      (w : World) (fresh : ℕ) (part : Part) (inode_no flag : ℕ) (disk : Disk) (fd_table : ℕ → ℕ)
      (d : Option ℕ × Opened × (ℕ → ℕ))
      → fresh ≢ 0
      → count fresh w.opened.open_inodes ≡ 0
      → file_open fresh part inode_no flag disk w.opened fd_table ≡ ok d
      → Step w (record { held = w.held; opened = d.1 })
  close_file :
      (w : World) (g : ℕ)
      → g < 32
      → (w.opened.file_table g).fd_inode ≢ 0
      → Step w (record { held = w.held; opened = file_close g w.opened })
  use_file :
      (w : World) (s : Opened)
      → s.open_inodes ≡ w.opened.open_inodes
      → ((p : ℕ) → (s.inode p).i_open_cnts ≡ (w.opened.inode p).i_open_cnts)
      → ((g : ℕ) → (s.file_table g).fd_inode ≡ (w.opened.file_table g).fd_inode)
      → Step w (record { held = w.held; opened = s })

pub data Reach (w : World) : World → Type 0 where
  here : Reach w w
  next : {u v : World} → Reach w u → Step u v → Reach w v

pub record Sound (w : World) : Type 0 where
  pub counts : Counted w.held w.opened
  pub few : length w.held + 33 < 2 ^ 32

-- A holder may be named first.
first-Counted :
    (held : List ℕ) (s : Opened) (p : ℕ)
    → 0 < count p held
    → Counted held s
    → Counted (p ∷ list_without p held) s
unfolding count
first-Counted held s p at c = record {
  nonnull = c.nonnull;
  listed = λ q qz. ground (arith, c.listed q qz, count-list_without p q held);
  counted = λ q qz pos. ground (arith, c.counted q qz, count-list_without p q held);
}

length-list_without : (p : ℕ) (xs : List ℕ) → length (list_without p xs) ≤ length xs
unfolding list_without
length-list_without p [] = omega arith
length-list_without p (x ∷ xs) = ground (arith, length-list_without p xs)

same_slots :
    (t u : ℕ → Slot) (p n : ℕ)
    → ((g : ℕ) → (u g).fd_inode ≡ (t g).fd_inode)
    → slots u p n ≡ slots t p n
unfolding slots
same_slots t u p zero h = refl
same_slots t u p (suc n) h = ground (arith, same_slots t u p n h, h n)

Step-Sound : {w v : World} → Step w v → Sound w → Sound v
Step-Sound (open_dir w fresh part inode_no disk p s nz new few opening) c = record {
  counts =
      (inode_open-Holds fresh part inode_no disk w.held w.opened c.counts nz new c.few (p, s)
        opening).counts;
  few = omega arith;
}
Step-Sound (close_dir w p nz at) c =
    let shorter : length (list_without p w.held) + 33 < 2 ^ 32 =
      omega (arith, c.few, length-list_without p w.held) in
    record {
      counts =
          inode_close-Counted (list_without p w.held) w.opened p
            (first-Counted w.held w.opened p at c.counts) nz shorter;
      few = shorter;
    }
Step-Sound (open_file w fresh part inode_no flag disk fd_table d nz new opening) c = record {
  counts =
      file_open-Counted w.held w.opened fresh part inode_no flag disk fd_table c.counts nz new c.few
        d opening;
  few = c.few;
}
Step-Sound (close_file w g small used) c = record {
  counts = file_close-Counted w.held w.opened g c.counts small used c.few;
  few = c.few;
}
Step-Sound (use_file w s list cnts tables) c = record {
  counts = record {
    nonnull = rw list c.counts.nonnull;
    listed = λ q qz.
        ground
          (arith, c.counts.listed q qz, same_slots w.opened.file_table s.file_table q 32 tables);
    counted = λ q qz pos. ground (
      arith,
      c.counts.counted q qz,
      cnts q,
      same_slots w.opened.file_table s.file_table q 32 tables,
    );
  };
  few = c.few;
}

Reach-Sound : {w v : World} → Sound w → Reach w v → Sound v
Reach-Sound c here = c
Reach-Sound c (next r st) = Step-Sound st (Reach-Sound c r)

-- From tables in which every inode that a file or a directory refers to is listed once and counts its
-- references, whatever sequence of opening and closing of files and directories and of changes to open
-- files follows, new inodes being put at addresses other than NULL where none is listed, the inode of
-- every file in the table is listed as open exactly once, so it is not freed, and its count is the
-- number of the files in the table and of the directories that refer to it.
pub no_dangling_file :
    (w v : World)
    → Sound w
    → Reach w v
    → (g : ℕ) → g < 32
    → let p = (v.opened.file_table g).fd_inode in
      p ≢ 0
      → (count p v.opened.open_inodes ≡ 1)
        × ((v.opened.inode p).i_open_cnts ≡ refs v.held v.opened p)
no_dangling_file w v c r g small used =
    let e = Reach-Sound c r in
    let p = (v.opened.file_table g).fd_inode in
    let pos = slots_pos v.opened.file_table g 32 small in
    let some_refs : refs v.held v.opened p ≢ 0 = ground arith in
    (ground (arith, e.counts.listed p used), e.counts.counted p used some_refs)
