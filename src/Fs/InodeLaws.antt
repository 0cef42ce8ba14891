-- ===== src/Fs/InodeLaws.antt =====
-- Writing an inode and reading inodes back.
use zy_os.Base.{
  ℕ, ◌+◌, ◌-◌, ◌*◌, ◌/◌, ◌%◌, ◌^◌, ◌≤◌, ◌<◌, ◌≡◌, ◌⊎◌, inl, inr, refl, sym, ap, ap₂, ◌∙◌, true,
  false, ◌&&◌, ◌==◌, ltb, leb, if◌then◌else◌, arith, Bool-cases, ok, ◌>>=◌,
}
use zy_os.Fs.Format.{inode_size}
use zy_os.Fs.Inode.{
  Part, InodePosition, Disk, inode_locate, ide_read, ide_write, put_inode, sync_at, inode_sync,
  load_at, inode_load,
}

-- The table of inodes lies in the partition.
pub record IsValid (p : Part) : Type 0 where
  pub inside : p.inode_table_lba + 608 ≤ p.start_lba + p.sec_cnt
  pub small : p.start_lba + p.sec_cnt < 2 ^ 32

abbrev position : Part → ℕ → InodePosition
position p n = record {
  two_sec = ltb (512 - n * inode_size % 512) inode_size;
  sec_lba = p.inode_table_lba + n * inode_size / 512;
  off_size = n * inode_size % 512;
}

locate-position : (p : Part) (n : ℕ) → IsValid p → n < 4096 → inode_locate p n ≡ ok (position p n)
unfolding inode_locate
locate-position p n v h =
    let at : (p.inode_table_lba + n * inode_size / 512) % 2 ^ 32
        ≡ p.inode_table_lba + n * inode_size / 512 =
      omega (arith, v.inside, v.small) in
    ground (arith, at)

-- The byte `k` of the inode `n` on the disk.
abbrev pub inode_byte : Part → Disk → ℕ → ℕ → ℕ
inode_byte p d n k = d (p.inode_table_lba + (n * inode_size + k) / 512) ((n * inode_size + k) % 512)

pub load_lem :
    (p : Part) (n : ℕ) (d : Disk)
    → IsValid p
    → n < 4096
    → (b : ℕ → ℕ) × (inode_load p n d ≡ ok b) × ((k : ℕ) → b k ≡ inode_byte p d n k)
unfolding inode_load
load_lem p n d v h =
    let pos = position p n in
    (
      λ k. ide_read d pos.sec_lba (pos.off_size + k),
      ap (λ r. r >>= load_at d) (locate-position p n v h),
      λ k. ap₂ d (omega arith) (omega arith),
    )

-- inode_sync writes an inode as if its number were the number modulo 256.
pub inode_sync-low :
    (p : Part) (n : ℕ) (bytes : ℕ → ℕ) (d : Disk)
    → inode_sync p n bytes d ≡ inode_sync p (n % 256) bytes d
unfolding inode_sync
inode_sync-low p n bytes d =
    let same : n % 256 % 256 ≡ n % 256 = omega arith in
    sym (ap (λ z. inode_locate p z >>= sync_at p bytes d) same)

abbrev synced : Part → ℕ → (ℕ → ℕ) → Disk → Disk
synced p n bytes d =
    let pos = position p n in
    ide_write d pos.sec_lba (put_inode (ide_read d pos.sec_lba) pos.off_size bytes)
      (if pos.two_sec then 2 else 1)

inside_of : (a b c : ℕ) → (leb a b && ltb b c) ≡ true → (a ≤ b) × (b < c)
inside_of a b c h = ground arith

outside_of : (a b c : ℕ) → (leb a b && ltb b c) ≡ false → (b < a) ⊎ (c ≤ b)
outside_of a b c h = ground arith

not_inside : (a b c : ℕ) → (b < a) ⊎ (c ≤ b) → (leb a b && ltb b c) ≡ false
not_inside a b c h = ground arith

is_inside : (a b c : ℕ) → a ≤ b → b < c → (leb a b && ltb b c) ≡ true
is_inside a b c h k = ground arith

sector_count :
    (off : ℕ)
    → off < 512
    → let n : ℕ = if ltb (512 - off) inode_size then 2 else 1 in
      ((n ≡ 1) × (off + inode_size ≤ 512)) ⊎ (n ≡ 2)
sector_count off h = ground arith

out_of_place :
    (t o x : ℕ)
    → t + o / 512 ≤ t + x / 512
    → (x < o) ⊎ (o + inode_size ≤ x)
    → let i = (t + x / 512 - (t + o / 512)) * 512 + x % 512 in
      (i < o % 512) ⊎ (o % 512 + inode_size ≤ i)
out_of_place t o x h (inl l) = inl (omega arith)
out_of_place t o x h (inr r) = inr (omega arith)

not_own :
    (t o c x : ℕ)
    → ((c ≡ 1) × (o % 512 + inode_size ≤ 512)) ⊎ (c ≡ 2)
    → (t + x / 512 < t + o / 512) ⊎ (t + o / 512 + c ≤ t + x / 512)
    → (x < o) ⊎ (o + inode_size ≤ x)
not_own t o c x (inl one) (inl l) = inl (omega arith)
not_own t o c x (inl one) (inr r) = inr (omega arith)
not_own t o c x (inr two) (inl l) = inl (omega arith)
not_own t o c x (inr two) (inr r) = inr (omega arith)

-- Seen through the table's bytes, the write touches the inode's own bytes and no other: `o` is where they
-- start, and `c` how many sectors are written.
write_byte :
    (t o c : ℕ) (bytes : ℕ → ℕ) (d : Disk) (x : ℕ)
    → ((c ≡ 1) × (o % 512 + inode_size ≤ 512)) ⊎ (c ≡ 2)
    → ide_write d
        (t + o / 512)
        (put_inode (ide_read d (t + o / 512)) (o % 512) bytes)
        c
        (t + x / 512)
        (x % 512)
      ≡ (if leb o x && ltb x (o + inode_size) then bytes (x - o) else d (t + x / 512) (x % 512))
write_byte t o c bytes d x h =
    let a = t + o / 512 in
    let i = (t + x / 512 - a) * 512 + x % 512 in
    elim (Bool-cases (leb a (t + x / 512) && ltb (t + x / 512) (a + c))) [
      | inl written ↦
          let (low, high) = inside_of a (t + x / 512) (a + c) written in
          elim (Bool-cases (leb o x && ltb x (o + inode_size))) [
            | inl own ↦
                let (l, r) = inside_of o x (o + inode_size) own in
                let here : (leb (o % 512) i && ltb i (o % 512 + inode_size)) ≡ true =
                  is_inside (o % 512) i (o % 512 + inode_size) (omega arith) (omega arith) in
                let at : i - o % 512 ≡ x - o = omega arith in rw (written, own, here) (ap bytes at)
            | inr other ↦
                let out = outside_of o x (o + inode_size) other in
                let here : (leb (o % 512) i && ltb i (o % 512 + inode_size)) ≡ false =
                  not_inside (o % 512) i (o % 512 + inode_size) (out_of_place t o x low out) in
                rw (written, other, here) (ap₂ d (omega arith) (omega arith))
          ]
      | inr left ↦
          let out = outside_of a (t + x / 512) (a + c) left in
          let other : (leb o x && ltb x (o + inode_size)) ≡ false =
            not_inside o x (o + inode_size) (not_own t o c x h out) in
          rw (left, other) refl
    ]

synced-byte :
    (p : Part) (n : ℕ) (bytes : ℕ → ℕ) (d : Disk) (x : ℕ)
    → synced p n bytes d (p.inode_table_lba + x / 512) (x % 512) ≡ (
        if leb (n * inode_size) x && ltb x (n * inode_size + inode_size)
        then bytes (x - n * inode_size)
        else d (p.inode_table_lba + x / 512) (x % 512))
synced-byte p n bytes d x =
    write_byte p.inode_table_lba (n * inode_size)
      (if ltb (512 - n * inode_size % 512) inode_size then 2 else 1) bytes d x
      (sector_count (n * inode_size % 512) (omega arith))

-- In a valid partition, inode_sync of an inode below 256 succeeds, after which reading that inode gives
-- the bytes written, and reading any other inode of the table gives the bytes from before.
pub inode_sync_lem :
    (p : Part) (n j : ℕ) (bytes : ℕ → ℕ) (d : Disk)
    → IsValid p
    → n < 256
    → j < 4096
    → (d' : Disk) × (inode_sync p n bytes d ≡ ok d')
      × (b : ℕ → ℕ) × (inode_load p j d' ≡ ok b)
      × ((k : ℕ) → k < inode_size → b k ≡ (if j == n then bytes k else inode_byte p d j k))
unfolding inode_sync
inode_sync_lem p n j bytes d v h l =
    let d' = synced p n bytes d in
    let (b, loaded, same) = load_lem p j d' v l in
    let small : n % 256 ≡ n = omega arith in
    let inside : leb (position p n).sec_lba ((p.start_lba + p.sec_cnt) % 2 ^ 32) ≡ true =
      ground (arith, v.inside, v.small) in
    let step : sync_at p bytes d (position p n) ≡ ok d' = ground arith in
    let run : inode_sync p n bytes d ≡ ok d' =
      ap (λ z. inode_locate p z >>= sync_at p bytes d) small
      ∙ ap (λ r. r >>= sync_at p bytes d) (locate-position p n v (omega arith))
      ∙ step in
    (
      d',
      run,
      b,
      loaded,
      λ k g.
          let byte = synced-byte p n bytes d (j * inode_size + k) in
          elim (Bool-cases (j == n)) [
            | inl own ↦
                let at : j * inode_size + k - n * inode_size ≡ k = ground arith in
                let bytes_at = ap bytes at in same k ∙ byte ∙ ground (arith, bytes_at)
            | inr other ↦ same k ∙ byte ∙ ground arith
          ],
    )
