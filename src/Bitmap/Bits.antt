-- ===== src/Bitmap/Bits.antt =====
-- Single bits of a bitmap: what `bitmap_init` and `bitmap_set` make of each.
use zy_os.Base.{
  ℕ, ◌*◌, ◌/◌, ◌%◌, ◌^◌, ◌<◌, ◌≤◌, ◌≡◌, refl, Bool, true, false, arith, ◌==◌, if◌then◌else◌, ok,
}
use zy_os.Base.Bytes.{
  bit_on, set_bit, clear_bit, bit_on-set_bit, bit_on-clear_bit, set_bit-lt, clear_bit-lt, zero_byte,
}
use zy_os.Bitmap.{Bitmap, bitmap_init, bitmap_scan_test, bitmap_set}

-- Whether bit `i` is set.
unfoldable pub bit : Bitmap → ℕ → Bool
bit b i = bit_on (b.bits (i / 8)) (i % 8)

-- The memory holds bytes, and every index of a bit is an `int`.
pub record IsValid (b : Bitmap) : Type 0 where
  pub bytes : (i : ℕ) → b.bits i < 256
  pub small : b.bmap_bytes_len * 8 < 2 ^ 31

pub scan_test-bit :
    (b : Bitmap) (i : ℕ) → (bitmap_scan_test b i == 0) ≡ (if bit b i then false else true)
unfolding bitmap_scan_test bit bit_on
scan_test-bit b i = ground arith

pub bit-init : (b : Bitmap) (i : ℕ) → i < b.bmap_bytes_len * 8 → bit (bitmap_init b) i ≡ false
unfolding bit bitmap_init
bit-init b i h = ground (arith, zero_byte (i % 8))

-- The value that `bitmap_set` writes.
abbrev pub written : Bitmap → ℕ → ℕ → Bitmap
written b i v = record b {
  bits = λ k.
      if k == i / 8
      then (if v == 0 then clear_bit (b.bits (i / 8)) (i % 8) else set_bit (b.bits (i / 8)) (i % 8))
      else b.bits k;
}

pub bit-written :
    (b : Bitmap) (i v j : ℕ)
    → IsValid b
    → bit (written b i v) j ≡ (if i == j then (if v == 0 then false else true) else bit b j)
unfolding bit
bit-written b i v j val = ground (
  arith,
  val.bytes (i / 8),
  bit_on-set_bit (b.bits (i / 8)) (i % 8) (j % 8),
  bit_on-clear_bit (b.bits (i / 8)) (i % 8) (j % 8),
)

-- In a valid map, after bitmap_set the bit that was named has the value that was given, and every other
-- bit is as before.
pub bit-set :
    (b : Bitmap) (i v j : ℕ) {c : Bitmap}
    → IsValid b
    → bitmap_set b i v ≡ ok c
    → bit c j ≡ (if i == j then (v == 1) else bit b j)
unfolding bitmap_set
bit-set b i v j val e = ground (arith, bit-written b i v j val)

pub written-IsValid : (b : Bitmap) (i v : ℕ) → IsValid b → IsValid (written b i v)
written-IsValid b i v val = record {
  bytes = λ k. ground (
    arith,
    val.bytes k,
    set_bit-lt (b.bits (i / 8)) (i % 8),
    clear_bit-lt (b.bits (i / 8)) (i % 8),
  );
  small = val.small;
}

pub set-one : (b : Bitmap) (i : ℕ) → bitmap_set b i 1 ≡ ok (written b i 1)
unfolding bitmap_set
set-one b i = refl

pub set-zero : (b : Bitmap) (i : ℕ) → bitmap_set b i 0 ≡ ok (written b i 0)
unfolding bitmap_set
set-zero b i = refl

pub set-written : (b : Bitmap) (i v : ℕ) → v ≤ 1 → bitmap_set b i v ≡ ok (written b i v)
unfolding bitmap_set
set-written b i v h = ground arith
