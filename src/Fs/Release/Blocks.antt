-- ===== src/Fs/Release/Blocks.antt =====
-- What `inode_release` of fs/inode.c gives back.
use zy_os.Base.{
  ℕ, zero, suc, ◌+◌, ◌-◌, ◌*◌, ◌/◌, ◌%◌, ◌^◌, ◌<◌, ◌≡◌, ◌≢◌, inl, inr, refl, ◌∙◌, subst, sym, ap,
  fun_ext, lt→ltb, Bool, true, false, ◌&&◌, ◌||◌, not, ◌==◌, ltb, if◌then◌else◌, arith, Bool-cases,
  ok,
}
use zy_os.Bitmap.Bits.{bit, IsValid, written, bit-written, written-IsValid, set-zero}
use zy_os.Fs.File.{Volume, read_table, copy_direct}
use zy_os.Fs.Inode.{Disk}
use zy_os.Fs.Dir.{dir_blocks}
use zy_os.Fs.File.Content.{copy_direct_lem}
use zy_os.Fs.File.Write.{bitmap_sync}
use zy_os.Fs.Release.{release_block, free_blocks, release_blocks}

-- The bit of a block.
abbrev bit_of : (data_start_lba lba : ℕ) → ℕ
bit_of data_start_lba lba = (lba + 2 ^ 32 - data_start_lba) % 2 ^ 32

-- The bytes of the bitmap on the disk are those in memory.
abbrev Synced : Volume → Type 0
Synced v =
    (i : ℕ)
    → i < v.block_bitmap.bmap_bytes_len
    → v.disk (v.block_bitmap_lba + i / 512) (i % 512) ≡ v.block_bitmap.bits i

-- The bits of `freed` are cleared, the others stay, and so do the two invariants and the places.
pub record Freed (freed : ℕ → Bool) (v v' : Volume) : Type 0 where
  pub bits : (j : ℕ) → bit v'.block_bitmap j ≡ (if freed j then false else bit v.block_bitmap j)
  pub valid : IsValid v'.block_bitmap
  pub synced : Synced v → Synced v'
  pub start : v'.data_start_lba ≡ v.data_start_lba

bitmap_sync-Synced :
    (v : Volume) (k : ℕ)
    → Synced v
    → Synced (bitmap_sync k (record v { block_bitmap = written v.block_bitmap k 0 }))
unfolding bitmap_sync
bitmap_sync-Synced v k h i inside = elim (Bool-cases (i / 512 == k / 4096)) [
  | inl e ↦
      let place : (v.block_bitmap_lba + i / 512 == v.block_bitmap_lba + k / 4096) ≡ true =
        ground arith in
      let at : k / 4096 * 512 + i % 512 ≡ i = ground arith in rw (place, at) refl
  | inr ne ↦
      let place : (v.block_bitmap_lba + i / 512 == v.block_bitmap_lba + k / 4096) ≡ false =
        ground arith in
      let away : (i == k / 8) ≡ false = ground arith in rw (place, away) (h i inside)
]

free_block_lem :
    (lba : ℕ) (v : Volume)
    → IsValid v.block_bitmap
    → 0 < bit_of v.data_start_lba lba
    → (v' : Volume) × (release_block lba v ≡ ok v')
      × Freed (λ j. bit_of v.data_start_lba lba == j) v v'
unfolding release_block bitmap_sync
free_block_lem lba v valid pos =
    let k = bit_of v.data_start_lba lba in
    rw (lt→ltb 0 k pos, set-zero v.block_bitmap k)
      (
        _,
        refl,
        record {
          bits = λ j. bit-written v.block_bitmap k 0 j valid;
          valid = written-IsValid v.block_bitmap k 0 valid;
          synced = bitmap_sync-Synced v k;
          start = refl;
        },
      )

-- One freeing after another.
Freed-trans :
    (f g : ℕ → Bool) (v u w : Volume) → Freed f v u → Freed g u w → Freed (λ j. f j || g j) v w
Freed-trans f g v u w a b = record {
  bits = λ j. ground (arith, a.bits j, b.bits j);
  valid = b.valid;
  synced = λ h. b.synced (a.synced h);
  start = b.start ∙ a.start;
}

-- Whether `j` is the bit of one of the blocks from `idx` on.
unfoldable pub one_of : (data_start_lba : ℕ) (all_blocks : ℕ → ℕ) (left idx j : ℕ) → Bool
one_of data_start_lba all_blocks zero idx j = false
one_of data_start_lba all_blocks (suc left) idx j =
    let rest = one_of data_start_lba all_blocks left (idx + 1) j in
    (not (all_blocks idx == 0) && bit_of data_start_lba (all_blocks idx) == j) || rest

-- Each address is 0 or one of a block behind the first.
abbrev Proper : (data_start_lba : ℕ) (all_blocks : ℕ → ℕ) → Type 0
Proper data_start_lba all_blocks =
    (idx : ℕ) → all_blocks idx ≢ 0 → 0 < bit_of data_start_lba (all_blocks idx)

one_of_step :
    (start : ℕ) (all_blocks : ℕ → ℕ) (left idx : ℕ) (here : Bool)
    → (all_blocks idx == 0) ≡ here
    → one_of start all_blocks (suc left) idx ≡ (λ j.
      (not here && bit_of start (all_blocks idx) == j) || one_of start all_blocks left (idx + 1) j)
unfolding one_of
one_of_step start all_blocks left idx here e = fun_ext (λ j. rw e refl)

free_blocks_lem :
    (all_blocks : ℕ → ℕ) (left idx : ℕ) (v : Volume)
    → IsValid v.block_bitmap
    → Proper v.data_start_lba all_blocks
    → (v' : Volume) × (free_blocks all_blocks left idx v ≡ ok v')
      × Freed (one_of v.data_start_lba all_blocks left idx) v v'
unfolding free_blocks
free_blocks_lem all_blocks zero idx v valid proper = (
  v,
  refl,
  record { bits = λ j. unfold one_of in refl; valid = valid; synced = λ h. h; start = refl },
)
free_blocks_lem all_blocks (suc left) idx v valid proper =
    let step = one_of_step v.data_start_lba all_blocks left idx in
    elim (Bool-cases (all_blocks idx == 0)) [
      | inl e ↦
          let (w, run, g) = free_blocks_lem all_blocks left (idx + 1) v valid proper in
          rw e (w, run, subst (λ f. Freed f v w) (sym (step true e)) g)
      | inr ne ↦
          let (u, run, f) = free_block_lem (all_blocks idx) v valid (proper idx (ground arith)) in
          let proper' : Proper u.data_start_lba all_blocks = rw f.start proper in
          let (w, more, g) = free_blocks_lem all_blocks left (idx + 1) u f.valid proper' in
          let g' = subst (λ start. Freed (one_of start all_blocks left (idx + 1)) u w) f.start g in
          rw (ne, run)
            (w, more, subst (λ f. Freed f v w) (sym (step false ne)) (Freed-trans _ _ v u w f g'))
    ]

-- The addresses that are collected are those of the inode, as a directory's are.
direct_lem :
    (i_sectors : ℕ → ℕ)
    → copy_direct i_sectors 12 0 (λ k. 0) ≡ (λ k. if ltb k 12 then i_sectors k else 0)
direct_lem i_sectors =
    fun_ext (λ k. ground (arith, copy_direct_lem i_sectors 12 0 k (λ (j : ℕ). 0)))

-- The bits that a release clears: that of the table, and those of the blocks.
abbrev pub released : Volume → (i_sectors : ℕ → ℕ) → ℕ → Bool
released v i_sectors j =
    (not (i_sectors 12 == 0) && bit_of v.data_start_lba (i_sectors 12) == j)
    || one_of v.data_start_lba (dir_blocks v.disk i_sectors) (if i_sectors 12 == 0 then 12 else 140)
        0 j

blocks_direct :
    (disk : Disk) (i_sectors : ℕ → ℕ)
    → (i_sectors 12 == 0) ≡ true
    → dir_blocks disk i_sectors ≡ copy_direct i_sectors 12 0 (λ k. 0)
unfolding dir_blocks
blocks_direct disk i_sectors e = rw e (sym (direct_lem i_sectors))

blocks_table :
    (disk : Disk) (i_sectors : ℕ → ℕ)
    → (i_sectors 12 == 0) ≡ false
    → dir_blocks disk i_sectors
      ≡ read_table disk (i_sectors 12) (copy_direct i_sectors 12 0 (λ k. 0))
unfolding dir_blocks
blocks_table disk i_sectors e =
    rw e (ap (λ (all : ℕ → ℕ). read_table disk (i_sectors 12) all) (sym (direct_lem i_sectors)))

-- In a valid bitmap, for addresses that are 0 or those of blocks of the partition other than the first
-- one, the release of an inode's blocks returns: the bits of its blocks and of its table of addresses
-- are clear, every other bit is as before, and if the bytes of the bitmap on the disk were those in
-- memory before, they are after.
pub release_blocks_lem :
    (i_sectors : ℕ → ℕ) (v : Volume)
    → IsValid v.block_bitmap
    → Proper v.data_start_lba i_sectors
    → Proper v.data_start_lba (dir_blocks v.disk i_sectors)
    → (v' : Volume) × (release_blocks i_sectors v ≡ ok v') × Freed (released v i_sectors) v v'
unfolding release_blocks
release_blocks_lem i_sectors v valid proper blocks =
    let all = dir_blocks v.disk i_sectors in
    elim (Bool-cases (i_sectors 12 == 0)) [
      | inl e ↦
          let (w, run, g) = free_blocks_lem all 12 0 v valid blocks in
          let run' =
            subst (λ a. free_blocks a 12 0 v ≡ ok w) (blocks_direct v.disk i_sectors e) run in
          let same : one_of v.data_start_lba all 12 0 ≡ released v i_sectors =
            fun_ext (λ j. rw e refl) in
          rw e (w, run', subst (λ h. Freed h v w) same g)
      | inr ne ↦
          let (u, run, f) = free_block_lem (i_sectors 12) v valid (proper 12 (ground arith)) in
          let blocks' : Proper u.data_start_lba all = rw f.start blocks in
          let (w, more, g) = free_blocks_lem all 140 0 u f.valid blocks' in
          let more' =
            subst (λ a. free_blocks a 140 0 u ≡ ok w) (blocks_table v.disk i_sectors ne) more in
          let g' = subst (λ start. Freed (one_of start all 140 0) u w) f.start g in
          let both = Freed-trans _ _ v u w f g' in
          let same : (λ j.
            bit_of v.data_start_lba (i_sectors 12) == j || one_of v.data_start_lba all 140 0 j)
              ≡ released v i_sectors =
            fun_ext (λ j. rw ne refl) in
          rw (ne, run) (w, more', subst (λ h. Freed h v w) same both)
    ]
