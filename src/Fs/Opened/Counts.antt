-- ===== src/Fs/Opened/Counts.antt =====
-- The counts of open inodes (fs/inode.c, fs/file.c): who holds which inode, and what an opening and a
-- closing do to that.
use zy_os.Base.{
  ℕ, zero, suc, ◌+◌, ◌-◌, ◌%◌, ◌^◌, ◌≤◌, ◌<◌, ◌≡◌, ◌≢◌, inl, inr, refl, subst, Bool, true, false,
  Option, none, some, List, [], ◌∷◌, ◌==◌, if◌then◌else◌, update, length, arith, Bool-cases, ok,
  >>=-eq-ok,
}
use zy_os.Fs.Inode.{Disk, Part, inode_load}
use zy_os.Fs.File.{Inode}
use zy_os.Fs.Opened.{
  Slot, Opened, find_open, inode_open, open_found, put_cnt, inode_close, list_without,
  inode_of_bytes,
}

abbrev one_if : Bool → ℕ
one_if true = 1
one_if false = 0

unfoldable pub count : ℕ → List ℕ → ℕ
count p [] = 0
count p (q ∷ qs) = one_if (q == p) + count p qs

-- How many of the first `n` slots of the file table refer to `p`.
unfoldable pub slots : (ℕ → Slot) → (p n : ℕ) → ℕ
slots t p zero = 0
slots t p (suc n) = one_if ((t n).fd_inode == p) + slots t p n

-- The references to `p`: those of the file table, and those of the open directories.
abbrev pub refs : (held : List ℕ) → Opened → ℕ → ℕ
refs held s p = slots s.file_table p 32 + count p held

-- An inode is in the list of open inodes, once, exactly if something refers to it, and counts these.
pub record Counted (held : List ℕ) (s : Opened) : Type 0 where
  pub nonnull : count 0 s.open_inodes ≡ 0
  pub listed : (p : ℕ) → p ≢ 0 → count p s.open_inodes ≡ (if refs held s p == 0 then 0 else 1)
  pub counted : (p : ℕ) → p ≢ 0 → refs held s p ≢ 0 → (s.inode p).i_open_cnts ≡ refs held s p

slots-update_out :
    (t : ℕ → Slot) (g : ℕ) (slot : Slot) (p n : ℕ)
    → n ≤ g
    → slots (update t g slot) p n ≡ slots t p n
unfolding slots
slots-update_out t g slot p zero h = refl
slots-update_out t g slot p (suc n) h = ground (arith, slots-update_out t g slot p n)

pub slots-update :
    (t : ℕ → Slot) (g : ℕ) (slot : Slot) (p n : ℕ)
    → g < n
    → slots (update t g slot) p n + one_if ((t g).fd_inode == p)
      ≡ slots t p n + one_if (slot.fd_inode == p)
unfolding slots
slots-update t g slot p zero h = absurd (omega arith)
slots-update t g slot p (suc n) h = elim (Bool-cases (n == g)) [
  | inl e ↦ ground (arith, slots-update_out t g slot p n)
  | inr ne ↦ ground (arith, slots-update t g slot p n)
]

slots-le : (t : ℕ → Slot) (p n : ℕ) → slots t p n ≤ n
unfolding slots
slots-le t p zero = omega arith
slots-le t p (suc n) = ground (arith, slots-le t p n)

count-le : (p : ℕ) (xs : List ℕ) → count p xs ≤ length xs
unfolding count
count-le p [] = omega arith
count-le p (q ∷ qs) = ground (arith, count-le p qs)

pub count-list_without :
    (p q : ℕ) (xs : List ℕ)
    → 0 < count p xs
    → count q (list_without p xs) + one_if (q == p) ≡ count q xs
unfolding count list_without
count-list_without p q [] h = absurd (omega arith)
count-list_without p q (x ∷ xs) h = elim (Bool-cases (x == p)) [
  | inl e ↦ ground arith
  | inr ne ↦ ground (arith, count-list_without p q xs)
]

pub slots_pos : (t : ℕ → Slot) (g n : ℕ) → g < n → 0 < slots t (t g).fd_inode n
unfolding slots
slots_pos t g zero h = absurd (omega arith)
slots_pos t g (suc n) h = elim (Bool-cases (n == g)) [
  | inl e ↦ ground arith
  | inr ne ↦ ground (arith, slots_pos t g n)
]

find_open-count :
    (inode : ℕ → Inode) (inode_no : ℕ) (xs : List ℕ) (p : ℕ)
    → find_open inode inode_no xs ≡ some p
    → 0 < count p xs
unfolding find_open count
find_open-count inode inode_no [] p h = cc
find_open-count inode inode_no (x ∷ xs) p h = ground (arith, find_open-count inode inode_no xs p)

-- What an opening gives: a pointer with one holder more, and the file table as it was.
pub record Holds (held : List ℕ) (s : Opened) (r : ℕ × Opened) : Type 0 where
  pub pointer : r.0 ≢ 0
  pub counts : Counted (r.0 ∷ held) r.1
  pub same_table : r.1.file_table ≡ s.file_table

-- One more reference to an inode that is open.
put_cnt-Counted :
    (held : List ℕ) (s : Opened) (p : ℕ)
    → Counted held s
    → 0 < count p s.open_inodes
    → length held + 33 < 2 ^ 32
    → Counted (p ∷ held) (put_cnt p (((s.inode p).i_open_cnts + 1) % 2 ^ 32) s)
unfolding count
put_cnt-Counted held s p c h few = record {
  nonnull = c.nonnull;
  listed = λ q nz. elim (Bool-cases (p == q)) [
    | inl e ↦ ground (arith, c.listed q nz)
    | inr ne ↦ ground (arith, c.listed q nz)
  ];
  counted = λ q nz pos. elim (Bool-cases (p == q)) [
    | inl e ↦
        ground (arith, c.counted q nz, c.listed q nz, slots-le s.file_table q 32, count-le q held)
    | inr ne ↦ ground (arith, c.counted q nz)
  ];
}

abbrev loaded : (fresh : ℕ) → Inode → Opened → Opened
loaded fresh i s = record s {
  inode = update s.inode fresh (record i { i_open_cnts = 1 });
  open_inodes = fresh ∷ s.open_inodes;
}

-- The first reference to an inode that was not open.
loaded-Counted :
    (held : List ℕ) (s : Opened) (fresh : ℕ) (i : Inode)
    → Counted held s
    → fresh ≢ 0
    → count fresh s.open_inodes ≡ 0
    → Counted (fresh ∷ held) (loaded fresh i s)
unfolding count
loaded-Counted held s fresh i c nz new = record {
  nonnull = ground (arith, c.nonnull);
  listed = λ q qz. elim (Bool-cases (fresh == q)) [
    | inl e ↦ ground (arith, c.listed q qz)
    | inr ne ↦ ground (arith, c.listed q qz)
  ];
  counted = λ q qz pos. elim (Bool-cases (fresh == q)) [
    | inl e ↦ ground (arith, c.listed q qz)
    | inr ne ↦ ground (arith, c.counted q qz)
  ];
}

open_found-Holds :
    (fresh : ℕ) (part : Part) (inode_no : ℕ) (disk : Disk) (held : List ℕ) (s : Opened)
    → Counted held s
    → fresh ≢ 0
    → count fresh s.open_inodes ≡ 0
    → length held + 33 < 2 ^ 32
    → (o : Option ℕ) → ((p : ℕ) → o ≡ some p → 0 < count p s.open_inodes)
    → (r : ℕ × Opened) → open_found fresh part inode_no disk s o ≡ ok r
    → Holds held s r
open_found-Holds fresh part inode_no disk held s c nz new few (some p) at r h =
    let in_list = at p refl in
    let e : (p, put_cnt p (((s.inode p).i_open_cnts + 1) % 2 ^ 32) s) ≡ r = cc in
    subst (Holds held s) e record {
      pointer = λ z. ground (arith, c.nonnull);
      counts = put_cnt-Counted held s p c in_list few;
      same_table = refl;
    }
open_found-Holds fresh part inode_no disk held s c nz new few none at r h =
    let (b, read, done) = >>=-eq-ok (inode_load part inode_no disk) _ h in
    let e : (fresh, loaded fresh (inode_of_bytes b) s) ≡ r = cc in
    subst (Holds held s) e record {
      pointer = nz;
      counts = loaded-Counted held s fresh (inode_of_bytes b) c nz new;
      same_table = refl;
    }

pub inode_open-Holds :
    (fresh : ℕ) (part : Part) (inode_no : ℕ) (disk : Disk) (held : List ℕ) (s : Opened)
    → Counted held s
    → fresh ≢ 0
    → count fresh s.open_inodes ≡ 0
    → length held + 33 < 2 ^ 32
    → (r : ℕ × Opened) → inode_open fresh part inode_no disk s ≡ ok r
    → Holds held s r
unfolding inode_open
inode_open-Holds fresh part inode_no disk held s c nz new few r h =
    open_found-Holds fresh part inode_no disk held s c nz new few _
      (find_open-count s.inode inode_no s.open_inodes) r h

-- A closing by one of the holders takes that reference away.
pub inode_close-Counted :
    (held : List ℕ) (s : Opened) (p : ℕ)
    → Counted (p ∷ held) s
    → p ≢ 0
    → length held + 33 < 2 ^ 32
    → Counted held (inode_close p s)
unfolding inode_close count
inode_close-Counted held s p c nz few =
    let some_refs : refs (p ∷ held) s p ≢ 0 = ground arith in
    let cnt = c.counted p nz some_refs in
    let one : count p s.open_inodes ≡ 1 = ground (arith, c.listed p nz) in
    let left : ((s.inode p).i_open_cnts + 2 ^ 32 - 1) % 2 ^ 32 ≡ refs held s p =
      ground (arith, slots-le s.file_table p 32, count-le p held) in
    elim (Bool-cases (refs held s p == 0)) [
      | inl last ↦
          let zero_left : ((s.inode p).i_open_cnts + 2 ^ 32 - 1) % 2 ^ 32 ≡ 0 = ground arith in
          rw zero_left record {
            nonnull = ground (arith, c.nonnull, count-list_without p 0 s.open_inodes);
            listed = λ q qz. elim (Bool-cases (q == p)) [
              | inl e ↦ ground (arith, c.listed q qz, count-list_without p q s.open_inodes)
              | inr ne ↦ ground (arith, c.listed q qz, count-list_without p q s.open_inodes)
            ];
            counted = λ q qz pos. elim (Bool-cases (q == p)) [
              | inl e ↦ ground arith
              | inr ne ↦ ground (arith, c.counted q qz)
            ];
          }
      | inr more ↦
          rw (left, more)
            record {
              nonnull = c.nonnull;
              listed = λ q qz. elim (Bool-cases (q == p)) [
                | inl e ↦ ground (arith, c.listed q qz)
                | inr ne ↦ ground (arith, c.listed q qz)
              ];
              counted = λ q qz pos. elim (Bool-cases (q == p)) [
                | inl e ↦ ground (arith, left)
                | inr ne ↦ ground (arith, c.counted q qz)
              ];
            }
    ]
