-- ===== src/Bitmap/Scan.antt =====
-- `bitmap_scan`: the first free bit, and the first run of free bits.
use zy_os.Base.{
  ℕ, zero, suc, ◌+◌, ◌*◌, ◌/◌, ◌%◌, ◌≤◌, ◌<◌, ◌≡◌, ◌≢◌, ◌↔◌, ◌⊎◌, refl, ◌∙◌, true, false, Option,
  some, arith, ◌==◌, ltb, ok, panic, Bool-cases, ==_iff, inl, inr,
}
use zy_os.Base.Bytes.{bit_on, mask-bit_on, not_full, every_below_upto, full_byte}
use zy_os.Bitmap.{Bitmap, skip_full, skip_set, bitmap_scan}
use zy_os.Bitmap.Bits.{bit, IsValid}

-- What the first loop finds from byte `i` on.
record FirstByte (bits : ℕ → ℕ) (left i r : ℕ) : Type 0 where
  above : i ≤ r
  within : r ≤ i + left
  full : (k : ℕ) → i ≤ k → k < r → bits k ≡ 255
  stopped : r < i + left → bits r ≢ 255

skip_full-FirstByte : (bits : ℕ → ℕ) (left i : ℕ) → FirstByte bits left i (skip_full bits left i)
unfolding skip_full
skip_full-FirstByte bits zero i = record {
  above = omega arith;
  within = omega arith;
  full = λ k a b. absurd (omega arith);
  stopped = λ h. absurd (omega arith);
}
skip_full-FirstByte bits (suc left) i = elim (Bool-cases (bits i == 255)) [
  | inl e ↦
      let ih = skip_full-FirstByte bits left (i + 1) in
      rw (e, skip_full)
        (record {
          above = omega arith;
          within = omega arith;
          full = λ k a b. elim (Bool-cases (k == i)) [
            | inl s ↦ ground arith
            | inr n ↦ ih.full k (ground arith) b
          ];
          stopped = λ h. ih.stopped (omega arith);
        })
  | inr e ↦
      rw (e, skip_full)
        (record {
          above = omega arith;
          within = omega arith;
          full = λ k a b. absurd (omega arith);
          stopped = λ h. ground arith;
        })
]

-- What the second loop finds from bit `i` on.
record FirstBit (byte i r : ℕ) : Type 0 where
  above : i ≤ r
  within : r ≤ 8
  full : (k : ℕ) → i ≤ k → k < r → bit_on byte k ≡ true
  stopped : r < 8 → bit_on byte r ≡ false

skip_set-FirstBit :
    (left byte i : ℕ) → byte < 256 → left + i ≡ 8 → FirstBit byte i (skip_set left byte i)
unfolding skip_set
skip_set-FirstBit zero byte i h e = record {
  above = omega arith;
  within = omega arith;
  full = λ k a b. absurd (omega arith);
  stopped = λ h. absurd (omega arith);
}
skip_set-FirstBit (suc left) byte i h e = elim (Bool-cases (bit_on byte i)) [
  | inl t ↦
      let ih = skip_set-FirstBit left byte (i + 1) h (omega arith) in
      rw (mask-bit_on byte i h (omega arith), t, skip_set)
        (record {
          above = omega arith;
          within = omega arith;
          full = λ k a b. elim (Bool-cases (k == i)) [
            | inl s ↦ rw ((==_iff k i).0 s) t
            | inr n ↦ ih.full k (ground arith) b
          ];
          stopped = λ l. ih.stopped l;
        })
  | inr t ↦
      rw (mask-bit_on byte i h (omega arith), t, skip_set)
        (record {
          above = omega arith;
          within = omega arith;
          full = λ k a b. absurd (omega arith);
          stopped = λ l. t;
        })
]

abbrev pub first_byte : Bitmap → ℕ
first_byte b = skip_full b.bits b.bmap_bytes_len 0

abbrev pub first_bit : Bitmap → ℕ
first_bit b = first_byte b * 8 + skip_set 8 (b.bits (first_byte b)) 0

abbrev pub IsFirstFree : Bitmap → ℕ → Type 0
IsFirstFree b i =
    (i < b.bmap_bytes_len * 8) × (bit b i ≡ false) × ((j : ℕ) → j < i → bit b j ≡ true)

bit_at : (b : Bitmap) (q r : ℕ) → r < 8 → bit b (q * 8 + r) ≡ bit_on (b.bits q) r
unfolding bit
bit_at b q r h = ground arith

clear_in_byte : {byte r : ℕ} → byte < 256 → byte ≢ 255 → FirstBit byte 0 r → r < 8
clear_in_byte {byte} {r} h ne f = elim (Bool-cases (r == 8)) [
  | inl e ↦
      let all = every_below_upto 8 (bit_on byte) (λ k l. f.full k (omega arith) (ground arith)) in
      ground (arith, not_full byte h ne)
  | inr n ↦ ground (arith, f.within)
]

bit-div-mod : (b : Bitmap) (j : ℕ) → bit b j ≡ bit_on (b.bits (j / 8)) (j % 8)
unfolding bit
bit-div-mod b j = refl

set_below :
    (b : Bitmap) (q r : ℕ)
    → ((k : ℕ) → 0 ≤ k → k < q → b.bits k ≡ 255)
    → ((k : ℕ) → 0 ≤ k → k < r → bit_on (b.bits q) k ≡ true)
    → r < 8
    → (j : ℕ) → j < q * 8 + r
    → bit b j ≡ true
set_below b q r bytes bits h j l = elim (Bool-cases (ltb (j / 8) q)) [
  | inl below ↦
      rw (bit-div-mod, bytes (j / 8) (omega arith) (ground arith)) (full_byte (j % 8) (omega arith))
  | inr at ↦
      let e : j / 8 ≡ q = ground arith in
      rw (bit-div-mod, e) (bits (j % 8) (omega arith) (omega arith))
]

pub first_bit-IsFirstFree :
    (b : Bitmap) → IsValid b → first_byte b < b.bmap_bytes_len → IsFirstFree b (first_bit b)
first_bit-IsFirstFree b v h =
    let q = first_byte b in
    let r = skip_set 8 (b.bits q) 0 in
    let B = skip_full-FirstByte b.bits b.bmap_bytes_len 0 in
    let C = skip_set-FirstBit 8 (b.bits q) 0 (v.bytes q) (omega arith) in
    let small : r < 8 = clear_in_byte (v.bytes q) (B.stopped (omega arith)) C in
    (omega arith, bit_at b q r small ∙ C.stopped small, set_below b q r B.full C.full small)

-- Whether the first loop ends inside the map.
pub first_byte_cases :
    (b : Bitmap)
    → (first_byte b < b.bmap_bytes_len)
      ⊎ ((first_byte b ≡ b.bmap_bytes_len) × ((i : ℕ) → i < b.bmap_bytes_len → b.bits i ≡ 255))
first_byte_cases b =
    let B = skip_full-FirstByte b.bits b.bmap_bytes_len 0 in
    elim (Bool-cases (ltb (first_byte b) b.bmap_bytes_len)) [
      | inl l ↦ inl (ground arith)
      | inr e ↦
          let at_end : first_byte b ≡ b.bmap_bytes_len = ground (arith, B.within) in
          inr (at_end, λ i l. B.full i (omega arith) (omega arith))
    ]

-- In a valid map, a scan for one bit that returns a value returns the index of the lowest bit that is
-- 0.
pub scan-one :
    (b : Bitmap) {r : Option ℕ}
    → IsValid b
    → bitmap_scan b 1 ≡ ok r
    → (i : ℕ) × (r ≡ some i) × IsFirstFree b i
unfolding bitmap_scan
scan-one b {r} v e = elim (first_byte_cases b) [
  | inl l ↦ (first_bit b, ground arith, first_bit-IsFirstFree b v l)
  | inr (at_end, _) ↦ absurd (ground arith)
]

-- A scan halts the machine exactly when every byte of the map is 0xff.
scan-panic_iff :
    (b : Bitmap) (cnt : ℕ)
    → (bitmap_scan b cnt ≡ panic) ↔ ((i : ℕ) → i < b.bmap_bytes_len → b.bits i ≡ 255)
unfolding bitmap_scan
scan-panic_iff b cnt = (
  λ e. elim (first_byte_cases b) [ inl l ↦ absurd (ground arith) | inr (_, full) ↦ full ],
  λ full. elim (first_byte_cases b) [
    | inl l ↦ absurd (
        (skip_full-FirstByte b.bits b.bmap_bytes_len 0).stopped (omega arith)
          (full (first_byte b) l))
    | inr (at_end, _) ↦ ground arith
  ],
)

pub bit_of_full : (b : Bitmap) (j : ℕ) → b.bits (j / 8) ≡ 255 → bit b j ≡ true
bit_of_full b j e = rw (bit-div-mod, e) (full_byte (j % 8) (omega arith))
