-- ===== src/Fs/File/Content.antt =====
-- The contents of a file on the disk, whatever the size says, for fs/file.c.
use zy_os.Base.{
  ℕ, zero, suc, ◌+◌, ◌-◌, ◌/◌, ◌%◌, ◌≤◌, ◌<◌, ◌≡◌, ◌≢◌, ◌⊎◌, inl, inr, false, ◌==◌, ltb, ◌&&◌, leb,
  if◌then◌else◌, update, arith, Bool-cases, ok,
}
use zy_os.Fs.Inode.{Disk}
use zy_os.Fs.File.{Inode, word_at, read_table, copy_direct, read_blocks}

-- The address of the block `k` of a file, and the byte `i` of the file.
abbrev pub block_of : Disk → (i_sectors : ℕ → ℕ) → ℕ → ℕ
block_of disk i_sectors k = if ltb k 12 then i_sectors k else word_at (disk (i_sectors 12)) (k - 12)

abbrev pub content : Disk → (i_sectors : ℕ → ℕ) → ℕ → ℕ
content disk i_sectors i = disk (block_of disk i_sectors (i / 512)) (i % 512)

pub copy_direct_lem :
    (w : ℕ → ℕ) (left idx k : ℕ) (all : ℕ → ℕ)
    → copy_direct w left idx all k ≡ (if leb idx k && ltb k (idx + left) then w k else all k)
unfolding copy_direct
copy_direct_lem w zero idx k all = ground arith
copy_direct_lem w (suc left) idx k all = elim (Bool-cases (k == idx)) [
  | inl e ↦ ground (arith, copy_direct_lem w left (idx + 1) k (update all idx (w idx)))
  | inr n ↦ ground (arith, copy_direct_lem w left (idx + 1) k (update all idx (w idx)))
]

-- Whatever of the branches collects the addresses, they are those of the file's blocks.
pub read_blocks_lem :
    (start end : ℕ) (n : Inode) (disk : Disk)
    → start ≤ end
    → (end < 12) ⊎ (n.i_sectors 12 ≢ 0)
    → (all : ℕ → ℕ) × (read_blocks start end n disk ≡ ok all)
      × ((k : ℕ) → start ≤ k → k ≤ end → all k ≡ block_of disk n.i_sectors k)
unfolding read_blocks
read_blocks_lem start end n disk le has =
    let w = n.i_sectors in
    let none_yet : ℕ → ℕ = λ k. 0 in
    let direct = copy_direct w (12 - start) start none_yet in
    let table = w 12 in
    elim (Bool-cases (start == end)) [
      | inl one ↦ elim (Bool-cases (ltb end 12)) [
        | inl low ↦ (update none_yet end (w end), rw (one, low), λ k g h. ground arith)
        | inr high ↦ (read_table disk table none_yet, rw (one, high), λ k g h. ground arith)
      ]
      | inr many ↦ elim (Bool-cases (ltb end 12)) [
        | inl low ↦ (
          copy_direct w (end + 1 - start) start none_yet,
          rw (many, low),
          λ k g h. ground (arith, copy_direct_lem w (end + 1 - start) start k none_yet),
        )
        | inr high ↦
            let there : (table == 0) ≡ false = ground arith in
            elim (Bool-cases (ltb start 12)) [
              | inl low ↦ (
                read_table disk table direct,
                rw (many, high, low, there),
                λ k g h. ground (arith, copy_direct_lem w (12 - start) start k none_yet),
              )
              | inr above ↦ (
                read_table disk table none_yet,
                rw (many, high, above, there),
                λ k g h. ground arith,
              )
            ]
      ]
    ]
