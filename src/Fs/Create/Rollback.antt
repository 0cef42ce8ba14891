-- ===== src/Fs/Create/Rollback.antt =====
-- What a creation that fails leaves: `file_create` of fs/file.c and `sys_mkdir` of fs/fs.c.
use zy_os.Base.{
  Bool, ℕ, ◌≡◌, inl, inr, refl, sym, ap, ◌∙◌, subst, true, false, Option, none, some, List, ◌∷◌,
  ◌==◌, if◌then◌else◌, update, arith, Bool-cases, ok, >>=-eq-ok, ◌>>=◌,
}
use zy_os.Bitmap.{Bitmap, bitmap_scan}
use zy_os.Bitmap.Bits.{bit, written, bit-written, written-IsValid, set-one, set-zero}
use zy_os.Bitmap.Bits as Bits
use zy_os.Bitmap.Scan.{scan-one, IsFirstFree}
use zy_os.Fs.Files.{
  pcb_fd_install, inode_bitmap_alloc, mark, get_free_slot_in_global, get_free_slot_in_global-free,
}
use zy_os.Fs.Inode.{Disk, inode_sync}
use zy_os.Fs.File.{Inode, words_sector}
use zy_os.Fs.File.Write.{inode_words}
use zy_os.Fs.Dir.{Putting, sync_dir_entry}
use zy_os.Fs.Dir.Delete.{create_dir_entry}
use zy_os.Fs.Opened.{Slot, Opened, put_slot, put_cnt}
use zy_os.Fs.Release.{Mounted, inode_init, sync_inode_bit}
use zy_os.Fs.Paths.{ft_regular}
use zy_os.Fs.Create.{
  Creation, undone, made_file, made_dir, roll_back, put_parent, sync_of, file_entered, file_in_slot,
  file_allocated, file_create, commit_file,
}

-- Nothing is left of the inode: its number is free, no slot refers to it, and it is not listed.
pub record Undone (m : Mounted) (s : Opened) (m' : Mounted) (s' : Opened) : Type 0 where
  pub numbers : (j : ℕ) → bit m'.inode_bitmap j ≡ bit m.inode_bitmap j
  pub slots : (h : ℕ) → (s'.file_table h).fd_inode ≡ (s.file_table h).fd_inode
  pub list : s'.open_inodes ≡ s.open_inodes

pair_injective : {x y : Option ℕ × Bitmap} → ok x ≡ ok y → x ≡ y
pair_injective e = cc

creation_injective : {x y : Creation} → ok x ≡ ok y → x ≡ y
creation_injective e = cc

inode_allocated :
    (b : Bitmap) (r : Option ℕ × Bitmap)
    → Bits.IsValid b
    → inode_bitmap_alloc b ≡ ok r
    → (i : ℕ) × (r ≡ (some i, written b i 1)) × IsFirstFree b i
unfolding inode_bitmap_alloc
inode_allocated b r v e =
    let mark_at = mark b (λ i. i) in
    let (s, scanned, marked) = >>=-eq-ok (bitmap_scan b 1) mark_at {b = r} e in
    let (i, at, first) = scan-one b v scanned in
    let here = subst (λ z. mark_at z ≡ ok r) at marked in
    let done : mark_at (some i) ≡ ok (some i, written b i 1) = rw (set-one b i) refl in
    (i, pair_injective (sym here ∙ done), first)

-- A bit that was free is set and cleared again.
set_and_cleared :
    (b : Bitmap) (i j : ℕ)
    → Bits.IsValid b
    → bit b i ≡ false
    → bit (written (written b i 1) i 0) j ≡ bit b j
set_and_cleared b i j v free =
    bit-written (written b i 1) i 0 j (written-IsValid b i 1 v)
    ∙ ground (arith, bit-written b i 1 j v)

-- The inode `i` is taken by `fresh`, which is open once, listed, and in a slot that was free.
pub record Made (fresh : ℕ) (m : Mounted) (s : Opened) (m' : Mounted) (s' : Opened) : Type 0 where
  pub inode_no : ℕ
  pub g : ℕ
  pub was_free : bit m.inode_bitmap inode_no ≡ false
  pub numbers :
      (j : ℕ) → bit m'.inode_bitmap j ≡ (if inode_no == j then true else bit m.inode_bitmap j)
  pub number : (s'.inode fresh).i_no ≡ inode_no
  pub once : (s'.inode fresh).i_open_cnts ≡ 1
  pub list : s'.open_inodes ≡ fresh ∷ s.open_inodes
  pub was_null : (s.file_table g).fd_inode ≡ 0
  pub slots :
      (h : ℕ) → (s'.file_table h).fd_inode ≡ (if h == g then fresh else (s.file_table h).fd_inode)

-- What a creation comes to.
abbrev pub Outcome : (fresh : Option ℕ) → Mounted → Opened → Creation → Type 0
Outcome fresh m s (undone m' s') = Undone m s m' s'
Outcome none m s (made_file fd m' s' fd_table) = ⊥
Outcome (some fresh) m s (made_file fd m' s' fd_table) = Made fresh m s m' s'
Outcome fresh m s (made_dir m' s') = ⊥

roll_back_lem :
    (i : ℕ) (m : Mounted) (s : Opened)
    → roll_back i m s ≡ ok (undone (record m { inode_bitmap = written m.inode_bitmap i 0 }) s)
roll_back_lem i m s = rw (set-zero m.inode_bitmap i) refl

-- A bit was taken from `m`, and anything but the tables of inodes may have changed.
undone-Outcome :
    (fresh : Option ℕ) (i : ℕ) (m m1 : Mounted) (s s1 : Opened) (c : Creation)
    → Bits.IsValid m.inode_bitmap
    → bit m.inode_bitmap i ≡ false
    → m1.inode_bitmap ≡ written m.inode_bitmap i 1
    → ((h : ℕ) → (s1.file_table h).fd_inode ≡ (s.file_table h).fd_inode)
    → s1.open_inodes ≡ s.open_inodes
    → roll_back i m1 s1 ≡ ok c
    → Outcome fresh m s c
undone-Outcome fresh i m m1 s s1 c v free taken slots list h =
    subst (Outcome fresh m s) (creation_injective (sym (roll_back_lem i m1 s1) ∙ h)) (record {
      numbers = λ j.
          ap (λ (b : Bitmap). bit (written b i 0) j) taken
          ∙ set_and_cleared m.inode_bitmap i j v free;
      slots = slots;
      list = list;
    })

sync_of_lem :
    (inode : Inode) (m m' : Mounted) → sync_of inode m ≡ ok m' → m'.inode_bitmap ≡ m.inode_bitmap
sync_of_lem inode m m' h =
    let (disk, run, rest) =
      >>=-eq-ok
        (inode_sync m.volume.part inode.i_no (words_sector (inode_words inode)) m.volume.disk)
        (λ (d : Disk). ok (record m { volume = record m.volume { disk = d } })) {b = m'} h in
    ground (arith, rest)

-- The state in front of the entry: the inode `i` is taken by `fresh` in the slot `g`.
record Begun (fresh i g : ℕ) (m m1 : Mounted) (s s1 : Opened) : Type 0 where
  valid : Bits.IsValid m.inode_bitmap
  was_free : bit m.inode_bitmap i ≡ false
  taken : m1.inode_bitmap ≡ written m.inode_bitmap i 1
  number : (s1.inode fresh).i_no ≡ i
  list : s1.open_inodes ≡ s.open_inodes
  was_null : (s.file_table g).fd_inode ≡ 0
  slots :
      (h : ℕ) → (s1.file_table h).fd_inode ≡ (if h == g then fresh else (s.file_table h).fd_inode)

commit_file-Outcome :
    (fresh i g dir : ℕ) (fd_table : ℕ → ℕ) (m m1 : Mounted) (s s1 : Opened) (c : Creation)
    → Begun fresh i g m m1 s s1
    → commit_file g i fresh dir fd_table s1 m1 ≡ ok c
    → Outcome (some fresh) m s c
unfolding commit_file
commit_file-Outcome fresh i g dir fd_table m m1 s s1 c b h =
    let s2 = record (put_cnt fresh 1 s1) { open_inodes = fresh ∷ s1.open_inodes } in
    let end = λ (m3 : Mounted). ok (
      made_file (pcb_fd_install g fd_table).0 (sync_inode_bit i m3) s2
        (pcb_fd_install g fd_table).1) in
    let (m2, run, rest) =
      >>=-eq-ok (sync_of (s1.inode dir) m1) (λ (m2 : Mounted). sync_of (s1.inode fresh) m2 >>= end)
        {b = c} h in
    let (m3, run', rest') = >>=-eq-ok (sync_of (s1.inode fresh) m2) end {b = c} rest in
    let same =
      sync_of_lem (s1.inode fresh) m2 m3 run' ∙ (sync_of_lem (s1.inode dir) m1 m2 run ∙ b.taken) in
    subst (Outcome (some fresh) m s) (creation_injective rest') (record {
      inode_no = i;
      g = g;
      was_free = b.was_free;
      numbers = λ j.
          ap (λ (x : Bitmap). bit x j) same
          ∙ ground (arith, bit-written m.inode_bitmap i 1 j b.valid);
      number = ground (arith, b.number);
      once = ground arith;
      list = ap (λ (ps : List ℕ). fresh ∷ ps) b.list;
      was_null = b.was_null;
      slots = b.slots;
    })

file_entered-Outcome :
    (fresh i g dir : ℕ) (fd_table : ℕ → ℕ) (m m1 : Mounted) (s s1 : Opened) (p : Putting)
    (c : Creation)
    → Begun fresh i g m m1 s s1
    → file_entered g i fresh dir fd_table m1 s1 p ≡ ok c
    → Outcome (some fresh) m s c
file_entered-Outcome fresh i g dir fd_table m m1 s s1 p c b h =
    let m2 = record m1 { volume = p.volume } in
    let s2 = put_parent dir p s1 in
    elim (Bool-cases p.done) [
      | inl y ↦
          let on : file_entered g i fresh dir fd_table m1 s1 p
              ≡ commit_file g i fresh dir fd_table s2 m2 =
            rw y refl in
          let parent : (s2.inode fresh).i_no ≡ (s1.inode fresh).i_no = ground arith in
          commit_file-Outcome fresh i g dir fd_table m m2 s s2 c
            (record {
              valid = b.valid;
              was_free = b.was_free;
              taken = b.taken;
              number = parent ∙ b.number;
              list = b.list;
              was_null = b.was_null;
              slots = b.slots;
            })
            (sym on ∙ h)
      | inr n ↦
          let s3 = put_slot g (record { fd_pos = 0; fd_flag = 0; fd_inode = 0 }) s2 in
          let on : file_entered g i fresh dir fd_table m1 s1 p ≡ roll_back i m2 s3 = rw n refl in
          undone-Outcome (some fresh) i m m2 s s3 c b.valid b.was_free b.taken
            (λ k. ground (arith, b.slots k, b.was_null)) b.list (sym on ∙ h)
    ]

file_in_slot-Outcome :
    (fresh i dir : ℕ) (filename : List ℕ) (flag : ℕ) (fd_table : ℕ → ℕ) (m m1 : Mounted)
    (s s1 : Opened) (o : Option ℕ) (c : Creation)
    → Bits.IsValid m.inode_bitmap
    → bit m.inode_bitmap i ≡ false
    → m1.inode_bitmap ≡ written m.inode_bitmap i 1
    → s1.file_table ≡ s.file_table
    → s1.open_inodes ≡ s.open_inodes
    → (s1.inode fresh).i_no ≡ i
    → ((g : ℕ) → o ≡ some g → (s.file_table g).fd_inode ≡ 0)
    → file_in_slot i fresh dir filename flag fd_table m1 s1 o ≡ ok c
    → Outcome (some fresh) m s c
file_in_slot-Outcome fresh i dir filename flag fd_table m m1 s s1 none c v free taken table list
      number null h =
    undone-Outcome (some fresh) i m m1 s s1 c v free taken
      (λ k. ap (λ (t : ℕ → Slot). (t k).fd_inode) table) list h
file_in_slot-Outcome fresh i dir filename flag fd_table m m1 s s1 (some g) c v free taken table list
      number null h =
    let s2 = put_slot g (record { fd_pos = 0; fd_flag = flag; fd_inode = fresh }) s1 in
    let (e, naming, rest) =
      >>=-eq-ok (create_dir_entry filename i ft_regular)
        (λ (e : ℕ → ℕ).
          sync_dir_entry (s2.inode dir) e m1.volume >>= file_entered g i fresh dir fd_table m1 s2)
        {b = c} h in
    let (p, run, last) =
      >>=-eq-ok (sync_dir_entry (s2.inode dir) e m1.volume)
        (file_entered g i fresh dir fd_table m1 s2) {b = c} rest in
    file_entered-Outcome fresh i g dir fd_table m m1 s s2 p c
      (record {
        valid = v;
        was_free = free;
        taken = taken;
        number = number;
        list = list;
        was_null = null g refl;
        slots = λ k. ground (arith, ap (λ (t : ℕ → Slot). (t k).fd_inode) table);
      })
      last

file_allocated-Outcome :
    (fresh : Option ℕ) (i dir : ℕ) (filename : List ℕ) (flag : ℕ) (fd_table : ℕ → ℕ) (m : Mounted)
    (s : Opened) (c : Creation)
    → Bits.IsValid m.inode_bitmap
    → bit m.inode_bitmap i ≡ false
    → file_allocated fresh dir filename flag fd_table m s (some i, written m.inode_bitmap i 1)
      ≡ ok c
    → Outcome fresh m s c
unfolding inode_init
file_allocated-Outcome none i dir filename flag fd_table m s c v free h =
    undone-Outcome none i m (record m { inode_bitmap = written m.inode_bitmap i 1 }) s s c v free
      refl (λ k. refl) refl h
file_allocated-Outcome (some p) i dir filename flag fd_table m s c v free h =
    let s1 = record s { inode = update s.inode p (inode_init i) } in
    file_in_slot-Outcome p i dir filename flag fd_table m
      (record m { inode_bitmap = written m.inode_bitmap i 1 }) s s1
      (get_free_slot_in_global (λ g. (s.file_table g).fd_inode)) c v free refl refl refl
      (ground arith) (λ g e. (get_free_slot_in_global-free (λ g. (s.file_table g).fd_inode) g e).1)
      h

untouched-Outcome :
    (fresh : Option ℕ) (m : Mounted) (s : Opened) (c : Creation)
    → ok (undone m s) ≡ ok c
    → Outcome fresh m s c
untouched-Outcome fresh m s c h =
    subst (Outcome fresh m s) (creation_injective h)
      (record { numbers = λ j. refl; slots = λ k. refl; list = refl })

-- In a valid bitmap of inodes, when file_create returns, it has either failed at some step and left the
-- bitmap, the inodes of the file table and the list of open inodes as they were, or taken a free inode
-- number, and no other, for the new inode, which is open once, is in front of the list, and stands in a
-- slot of the file table that was free.
pub file_create_lem :
    (io_buf : Bool) (fresh : Option ℕ) (dir : ℕ) (filename : List ℕ) (flag : ℕ) (fd_table : ℕ → ℕ)
    (m : Mounted) (s : Opened) (c : Creation)
    → Bits.IsValid m.inode_bitmap
    → file_create io_buf fresh dir filename flag fd_table m s ≡ ok c
    → Outcome fresh m s c
unfolding file_create
file_create_lem false fresh dir filename flag fd_table m s c v h = untouched-Outcome fresh m s c h
file_create_lem true fresh dir filename flag fd_table m s c v h =
    let (r, run, rest) =
      >>=-eq-ok (inode_bitmap_alloc m.inode_bitmap)
        (file_allocated fresh dir filename flag fd_table m s) {b = c} h in
    let (i, at, first) = inode_allocated m.inode_bitmap r v run in
    let here = subst (λ z. file_allocated fresh dir filename flag fd_table m s z ≡ ok c) at rest in
    file_allocated-Outcome fresh i dir filename flag fd_table m s c v first.1 here
