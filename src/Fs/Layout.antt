-- ===== src/Fs/Layout.antt =====
-- Where the parts of a formatted partition lie, and what its bitmap of blocks says.
use zy_os.Base.{
  ℕ, ◌+◌, ◌*◌, ◌/◌, ◌%◌, ◌^◌, ◌≤◌, ◌<◌, ◌≡◌, inl, inr, refl, ap, Bool, true, false, not, ◌||◌, List,
  [], ◌∷◌, ◌==◌, ltb, leb, if◌then◌else◌, arith, Bool-cases,
}
use zy_os.Base.Bytes.{
  set_bit, clear_bit, bit_on, every_below, every_below_sound, zero_byte, full_byte,
}
use zy_os.Fs.Format.{
  Write, partition_format, super_block_of, bitmap_bit_len, block_bitmap, clear_bits,
}

-- Each write ends before the next one starts.
abbrev pub Ordered : List Write → Type 0
Ordered [] = Unit {0}
Ordered (w ∷ []) = Unit {0}
Ordered (w ∷ v ∷ ws) = (w.lba + w.sects ≤ v.lba) × Ordered (v ∷ ws)

-- For a partition of more than 613 sectors that ends at least 4096 sectors below 2^32, the parts that
-- partition_format writes lie one behind the other without overlap, the bitmap has a bit for every
-- block, and the blocks end inside the partition.
pub format_lem :
    (start sec_cnt : ℕ)
    → 613 < sec_cnt
    → start + sec_cnt + 4096 ≤ 2 ^ 32
    → let sb = super_block_of start sec_cnt in
      Ordered (partition_format start sec_cnt)
      × (bitmap_bit_len sec_cnt ≤ sb.block_bitmap_sects * 4096)
      × (sb.data_start_lba + bitmap_bit_len sec_cnt ≤ start + sec_cnt)
unfolding partition_format super_block_of bitmap_bit_len
format_lem start sec_cnt h k =
    ((omega arith, (omega arith, (omega arith, (omega arith, tt)))), omega arith, omega arith)

eqb : Bool → Bool → Bool
eqb true b = b
eqb false b = not b

eqb_sound : (a b : Bool) → eqb a b ≡ true → a ≡ b
unfolding eqb
eqb_sound a b h = ground arith

cleared_table :
    every_below 8
      (λ k. every_below 8 (λ j. eqb (bit_on (clear_bits 255 0 (k + 1)) j) (not (leb j k))))
    ≡ true
unfolding every_below eqb bit_on clear_bits clear_bit
cleared_table = refl

cleared_bit : (k j : ℕ) → k < 8 → j < 8 → bit_on (clear_bits 255 0 (k + 1)) j ≡ not (leb j k)
cleared_bit k j hk hj =
    let row =
      every_below_sound 8
        (λ k. every_below 8 (λ j. eqb (bit_on (clear_bits 255 0 (k + 1)) j) (not (leb j k)))) k
        cleared_table hk in
    eqb_sound _ _ (
      every_below_sound 8 (λ j. eqb (bit_on (clear_bits 255 0 (k + 1)) j) (not (leb j k))) j row hj)

first_table : every_below 8 (λ j. eqb (bit_on 1 j) (j == 0)) ≡ true
unfolding every_below eqb bit_on
first_table = refl

first_bit : (j : ℕ) → j < 8 → bit_on 1 j ≡ (j == 0)
first_bit j h = eqb_sound _ _ (every_below_sound 8 (λ j. eqb (bit_on 1 j) (j == 0)) j first_table h)

-- The bytes of the bitmap, by where they stand.
bitmap_byte :
    (len i : ℕ)
    → 8 ≤ len
    → i * 8 < (len / 4096 + 1) * 4096
    → block_bitmap len i ≡ (
        if ltb (len / 8) i
        then 255
        else if i == len / 8
        then clear_bits 255 0 (len % 8 + 1)
        else if i == 0
        then 1
        else 0)
unfolding block_bitmap set_bit
bitmap_byte len i h k = ground arith

-- For at least 8 blocks, in the sectors up to the one where the number of blocks falls, the bitmap that
-- partition_format writes has bit 0 set and every bit above the number of blocks set, and the other
-- bits clear, the bit at the number of blocks included, which stands for no block.
block_bitmap_lem :
    (len j : ℕ)
    → 8 ≤ len
    → j < (len / 4096 + 1) * 4096
    → bit_on (block_bitmap len (j / 8)) (j % 8) ≡ (j == 0 || ltb len j)
block_bitmap_lem len j h k =
    let byte = bitmap_byte len (j / 8) h (omega arith) in
    let at = ap (λ b. bit_on b (j % 8)) byte in
    let cleared = cleared_bit (len % 8) (j % 8) (omega arith) (omega arith) in
    let ones = full_byte (j % 8) (omega arith) in
    let zeros = zero_byte (j % 8) (omega arith) in
    let one = first_bit (j % 8) (omega arith) in
    elim (Bool-cases (ltb (len / 8) (j / 8))) [
      | inl behind ↦ ground arith
      | inr before ↦ elim (Bool-cases (j / 8 == len / 8)) [
        | inl here ↦ ground arith
        | inr front ↦ elim (Bool-cases (j / 8 == 0)) [ inl z ↦ ground arith | inr p ↦ ground arith ]
      ]
    ]
