-- ===== src/Stdio/Digits.antt =====
-- The digits of a number, read back.
use zy_os.Base.{
  ℕ, zero, suc, ◌+◌, ◌-◌, ◌*◌, ◌/◌, ◌%◌, ◌^◌, ◌<◌, ◌≡◌, ◌⊎◌, refl, ap, inl, inr, List, [], ◌∷◌,
  ◌++◌, ◌==◌, ltb, if◌then◌else◌, arith, Bool-cases,
}
use zy_os.Stdio.{itoa, digit_char}

abbrev pub digit_value : ℕ → ℕ
digit_value c = if ltb c 58 then c - 48 else c - 65 + 10

-- The number that a list of digits stands for, behind the number `acc` of those before.
abbrev pub read_digits : (base acc : ℕ) → List ℕ → ℕ
read_digits base acc [] = acc
read_digits base acc (c ∷ cs) = read_digits base (acc * base + digit_value c) cs

read_digits-append :
    (base acc : ℕ) (xs : List ℕ) (c : ℕ)
    → read_digits base acc (xs ++ c ∷ []) ≡ read_digits base acc xs * base + digit_value c
read_digits-append base acc [] c = refl
read_digits-append base acc (x ∷ xs) c = read_digits-append base (acc * base + digit_value x) xs c

digit_back : (m : ℕ) → m < 36 → digit_value (digit_char m) ≡ m
digit_back m h = ground arith

record Divided (value base k : ℕ) : Type 0 where
  whole : value / base * base + value % base ≡ value
  digit : value % base < 36
  smaller : value < 2 ^ suc k → value / base < 2 ^ k

divided : (value base k : ℕ) → (base ≡ 10) ⊎ (base ≡ 16) → Divided value base k
divided value base k (inl ten) = record {
  whole = rw ten (omega arith);
  digit = rw ten (omega arith);
  smaller = rw ten (λ h. omega arith);
}
divided value base k (inr sixteen) = record {
  whole = rw sixteen (omega arith);
  digit = rw sixteen (omega arith);
  smaller = rw sixteen (λ h. omega arith);
}

read-digit :
    (value base : ℕ) (front : List ℕ)
    → value / base * base + value % base ≡ value
    → value % base < 36
    → read_digits base 0 front ≡ value / base
    → read_digits base 0 (
        if value / base == 0
        then digit_char (value % base) ∷ []
        else front ++ digit_char (value % base) ∷ [])
      ≡ value
read-digit value base front whole small ih =
    let back = digit_back (value % base) small in
    let last = read_digits-append base 0 front (digit_char (value % base)) in
    let times : read_digits base 0 front * base ≡ value / base * base = ap (λ z. z * base) ih in
    elim (Bool-cases (value / base == 0)) [
      | inl z ↦
          let empty : value / base ≡ 0 = ground arith in
          let none_left : value / base * base ≡ 0 * base = ap (λ q. q * base) empty in ground arith
      | inr p ↦ ground arith
    ]

-- In base 10 or 16, with k calls allowed where k is not 0 and the value is below 2^k, the digits that
-- itoa writes read back as the value.
pub itoa-read :
    (k value base : ℕ)
    → (base ≡ 10) ⊎ (base ≡ 16)
    → value < 2 ^ k
    → 0 < k
    → read_digits base 0 (itoa k value base) ≡ value
unfolding itoa
itoa-read zero value base b h p = absurd (omega arith)
itoa-read (suc zero) value base b h p =
    let d = divided value base 0 b in
    read-digit value base [] d.whole d.digit (omega (arith, d.smaller h))
itoa-read (suc (suc k)) value base b h p =
    let d = divided value base (suc k) b in
    read-digit value base (itoa (suc k) (value / base) base) d.whole d.digit
      (itoa-read (suc k) (value / base) base b (d.smaller h) (omega arith))
