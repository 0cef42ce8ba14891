-- ===== src/Bitmap/Tests.antt =====
-- Runs of the bitmap's operations, and the theorems at concrete maps.
use zy_os.Base.{
  ℕ, ◌+◌, ◌≤◌, ◌<◌, ◌*◌, ◌≡◌, refl, inl, inr, Bool-cases, true, false, none, some, [], ◌∷◌, arith,
  ◌==◌, ok,
}
use zy_os.Base.Bytes.{memory, bit_on, every_below, every_below_sound}
use zy_os.Bitmap.{Bitmap, bitmap_scan, skip_full, skip_set, find_run, bitmap_scan_test}
use zy_os.Bitmap.Bits.{bit, IsValid}
use zy_os.Bitmap.Runs.{IsFreeRun, scan-IsFreeRun}

-- Of 16 bits 9, 10 and 15 are free.
abbrev sample : Bitmap
sample = record { bmap_bytes_len = 2; bits = memory (0xff ∷ 0x79 ∷ []) }

sample-IsValid : IsValid sample
sample-IsValid = record { bytes = λ i. omega arith; small = omega arith }

scan_sample : bitmap_scan sample 1 ≡ ok (some 9)
unfolding bitmap_scan skip_full skip_set
scan_sample = refl

scan_sample_two : bitmap_scan sample 2 ≡ ok (some 9)
unfolding bitmap_scan skip_full skip_set find_run bitmap_scan_test
scan_sample_two = refl

scan_sample_three : bitmap_scan sample 4 ≡ ok none
unfolding bitmap_scan skip_full skip_set find_run bitmap_scan_test
scan_sample_three = refl

-- Two neighbouring bits, each by evaluation.
two_free : (b : Bitmap) (s : ℕ) → bit b s ≡ false → bit b (s + 1) ≡ false → IsFreeRun b s 2
two_free b s e f k l u = elim (Bool-cases (k == s)) [
  | inl y ↦ ground arith
  | inr n ↦ let at : k ≡ s + 1 = ground arith in rw at f
]

sample_run : IsFreeRun sample 9 2
unfolding bit bit_on
sample_run = two_free sample 9 refl refl

scan-IsFreeRun_example : (9 + 2 ≤ 2 * 8 + 1) × IsFreeRun sample 9 2
scan-IsFreeRun_example = scan-IsFreeRun sample 2 sample-IsValid (omega arith) scan_sample_two

-- The last bit is free, and the byte behind the map is 0.
abbrev last_free : Bitmap
last_free = record { bmap_bytes_len = 1; bits = memory (0x7f ∷ []) }

last_free_set : (j : ℕ) → j < 7 → bit last_free j ≡ true
unfolding bit bit_on every_below
last_free_set j h = every_below_sound 7 (bit last_free) j refl h

last_free_run : IsFreeRun last_free 7 2
unfolding bit bit_on
last_free_run = two_free last_free 7 refl refl
