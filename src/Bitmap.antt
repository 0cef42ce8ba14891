-- ===== src/Bitmap.antt =====
-- lib/kernel/bitmap.c and bitmap.h: a map of bits over memory.
-- `bits` is the memory from the pointer of that name on, so a read past `bmap_bytes_len` bytes gives
-- what lies there. A result of -1 is `none`.
pub mod Bits
pub mod Runs
pub mod Scan
mod Tests
use zy_os.Base.{
  ℕ, zero, suc, ◌+◌, ◌-◌, ◌*◌, ◌/◌, ◌%◌, ◌^◌, ◌≤◌, ◌<◌, bit_and, Bool, true, false, ◌||◌, Option,
  none, some, ltb, ◌==◌, if◌then◌else◌, Run, ok, assert, ◌>>◌,
}
use zy_os.Base.Bytes.{set_bit, clear_bit}

pub record Bitmap : Type 0 where
  pub bmap_bytes_len : ℕ
  pub bits : ℕ → ℕ

-- `memset(bits, 0, bmap_bytes_len)`
unfoldable pub bitmap_init : Bitmap → Bitmap
bitmap_init b = record b { bits = λ i. if ltb i b.bmap_bytes_len then 0 else b.bits i }

-- Not 0 if bit `bit_idx` is set.
unfoldable pub bitmap_scan_test : Bitmap → ℕ → ℕ
bitmap_scan_test bmap bit_idx = bit_and (bmap.bits (bit_idx / 8)) (2 ^ (bit_idx % 8))

-- The first loop of `bitmap_scan`, which reads `bits[idx_byte]` before it compares `idx_byte` with
-- the length. The first argument is `bmap_bytes_len - idx_byte`.
unfoldable pub skip_full : (ℕ → ℕ) → ℕ → ℕ → ℕ
skip_full bits zero idx_byte = idx_byte
skip_full bits (suc left) idx_byte = elim (bits idx_byte == 255) [
  | true ↦ skip_full bits left (idx_byte + 1)
  | false ↦ idx_byte
]

-- The second loop, over the bits of a byte. The first argument is `8 - idx_bit`: at 8 the mask
-- `(uint8_t)(1 << idx_bit)` is 0, which ends the loop.
unfoldable pub skip_set : ℕ → ℕ → ℕ → ℕ
skip_set zero byte idx_bit = idx_bit
skip_set (suc left) byte idx_bit = elim (bit_and (2 ^ idx_bit % 256) byte == 0) [
  | true ↦ idx_bit
  | false ↦ skip_set left byte (idx_bit + 1)
]

-- The third loop, `while (bit_left-- > 0)`.
unfoldable pub find_run : Bitmap → ℕ → (bit_left next_bit count : ℕ) → Option ℕ
find_run bmap cnt zero next_bit count = none
find_run bmap cnt (suc bit_left) next_bit count =
    let count' = if bitmap_scan_test bmap next_bit == 0 then count + 1 else 0 in
    elim (count' == cnt) [
      | true ↦ some ((next_bit + 1 + 2 ^ 32 - cnt) % 2 ^ 32)
      | false ↦ find_run bmap cnt bit_left (next_bit + 1) count'
    ]

unfoldable pub bitmap_scan : Bitmap → ℕ → Run (Option ℕ)
bitmap_scan bmap cnt =
    let idx_byte = skip_full bmap.bits bmap.bmap_bytes_len 0 in
    let bit_idx_start = idx_byte * 8 + skip_set 8 (bmap.bits idx_byte) 0 in
    let bit_left = (bmap.bmap_bytes_len * 8 + 2 ^ 32 - bit_idx_start) % 2 ^ 32 in
    let run = find_run bmap cnt bit_left (bit_idx_start + 1) 1 in
    assert (ltb idx_byte bmap.bmap_bytes_len)
    >> (if idx_byte == bmap.bmap_bytes_len
        then ok none
        else if cnt == 1
        then ok (some bit_idx_start)
        else ok run)

-- `int8_t value`
unfoldable pub bitmap_set : Bitmap → ℕ → ℕ → Run Bitmap
bitmap_set bmap bit_idx value =
    let byte = bmap.bits (bit_idx / 8) in
    let byte' = if value == 0 then clear_bit byte (bit_idx % 8) else set_bit byte (bit_idx % 8) in
    assert (value == 0 || value == 1)
    >> ok (record bmap { bits = λ i. if i == bit_idx / 8 then byte' else bmap.bits i })
