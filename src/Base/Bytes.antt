-- ===== src/Base/Bytes.antt =====
-- Bits of a byte under `&`, `|` and `~`, by evaluation of every value.
use Prim.Native.Nat.{ℕ, zero, suc, ◌-◌, ◌%◌, ◌^◌, ◌<◌, bit_and, bit_or}
use mathlib.Core.Path.{◌≡◌, refl}
use mathlib.Core.Logic.{◌≢◌}
use mathlib.Core.Bool.{Bool, true, false, not, ◌&&◌}
use native.Mathlib.Omega.{arith}
use mathlib.Core.List.{List}
use zy_os.Base.Lists.{get_or}
use zy_os.Base.Tests.{◌==◌, if◌then◌else◌}

unfoldable pub every_below : ℕ → (ℕ → Bool) → Bool
every_below zero f = true
every_below (suc bound) f = f bound && every_below bound f

pub every_below_sound :
    (bound : ℕ) (f : ℕ → Bool) (i : ℕ) → every_below bound f ≡ true → i < bound → f i ≡ true
unfolding every_below
every_below_sound zero f i all small = absurd (omega arith)
every_below_sound (suc bound) f i all small = ground (arith, every_below_sound bound f i)

-- Whether bit `k` of `b` is set.
unfoldable pub bit_on : ℕ → ℕ → Bool
bit_on b k = not (bit_and b (2 ^ k) == 0)

-- The byte with bit `k` set, and with bit `k` cleared (`~` is that of a 32-bit word).
unfoldable pub set_bit : ℕ → ℕ → ℕ
set_bit b k = bit_or b (2 ^ k) % 256

unfoldable pub clear_bit : ℕ → ℕ → ℕ
clear_bit b k = bit_and b (2 ^ 32 - 1 - 2 ^ k) % 256

eqb : Bool → Bool → Bool
eqb true b = b
eqb false b = not b

eqb_sound : (a b : Bool) → eqb a b ≡ true → a ≡ b
unfolding eqb
eqb_sound a b h = ground arith

over_byte : (ℕ → ℕ → ℕ → Bool) → Bool
unfolding every_below
over_byte p = every_below 256 (λ b. every_below 8 (λ k. every_below 8 (p b k)))

over_byte_sound :
    (p : ℕ → ℕ → ℕ → Bool) (b k j : ℕ)
    → over_byte p ≡ true
    → b < 256
    → k < 8
    → j < 8
    → p b k j ≡ true
unfolding over_byte
over_byte_sound p b k j t hb hk hj =
    let whole = every_below_sound 256 (λ c. every_below 8 (λ l. every_below 8 (p c l))) b t hb in
    let row = every_below_sound 8 (λ l. every_below 8 (p b l)) k whole hk in
    every_below_sound 8 (p b k) j row hj

set_table :
    over_byte (λ b k j. eqb (bit_on (set_bit b k) j) (if k == j then true else bit_on b j)) ≡ true
unfolding over_byte eqb bit_on set_bit
set_table = refl

clear_table :
    over_byte (λ b k j. eqb (bit_on (clear_bit b k) j) (if k == j then false else bit_on b j))
    ≡ true
unfolding over_byte eqb bit_on clear_bit
clear_table = refl

pub bit_on-set_bit :
    (b k j : ℕ)
    → b < 256
    → k < 8
    → j < 8
    → bit_on (set_bit b k) j ≡ (if k == j then true else bit_on b j)
bit_on-set_bit b k j hb hk hj = eqb_sound _ _ (over_byte_sound _ b k j set_table hb hk hj)

pub bit_on-clear_bit :
    (b k j : ℕ)
    → b < 256
    → k < 8
    → j < 8
    → bit_on (clear_bit b k) j ≡ (if k == j then false else bit_on b j)
bit_on-clear_bit b k j hb hk hj = eqb_sound _ _ (over_byte_sound _ b k j clear_table hb hk hj)

pub set_bit-lt : (b k : ℕ) → set_bit b k < 256
unfolding set_bit
set_bit-lt b k = omega arith

pub clear_bit-lt : (b k : ℕ) → clear_bit b k < 256
unfolding clear_bit
clear_bit-lt b k = omega arith

-- A byte other than 0xff has a bit that is clear.
full_table : every_below 255 (λ b. not (every_below 8 (bit_on b))) ≡ true
unfolding every_below bit_on
full_table = refl

pub not_full : (b : ℕ) → b < 256 → b ≢ 255 → every_below 8 (bit_on b) ≡ false
not_full b h ne =
    ground (arith, every_below_sound 255 (λ b. not (every_below 8 (bit_on b))) b full_table)

-- Every bit of the byte 0xff is set.
pub full_byte : (k : ℕ) → k < 8 → bit_on 255 k ≡ true
unfolding bit_on every_below
full_byte k h = every_below_sound 8 (bit_on 255) k refl h

-- Every bit of the byte 0 is clear.
pub zero_byte : (k : ℕ) → k < 8 → bit_on 0 k ≡ false
unfolding bit_on every_below
zero_byte k h = ground (arith, every_below_sound 8 (λ j. not (bit_on 0 j)) k refl)

mask_table :
    every_below 256
      (λ b. every_below 8 (λ k. eqb (bit_and (2 ^ k % 256) b == 0) (not (bit_on b k))))
    ≡ true
unfolding every_below eqb bit_on
mask_table = refl

-- The mask `(uint8_t)(1 << k)` on the left.
pub mask-bit_on : (b k : ℕ) → b < 256 → k < 8 → (bit_and (2 ^ k % 256) b == 0) ≡ not (bit_on b k)
mask-bit_on b k hb hk =
    let row =
      every_below_sound 256
        (λ c. every_below 8 (λ l. eqb (bit_and (2 ^ l % 256) c == 0) (not (bit_on c l)))) b
        mask_table hb in
    eqb_sound _ _
      (every_below_sound 8 (λ l. eqb (bit_and (2 ^ l % 256) b == 0) (not (bit_on b l))) k row hk)

pub every_below_upto :
    (n : ℕ) (p : ℕ → Bool) → ((k : ℕ) → k < n → p k ≡ true) → every_below n p ≡ true
unfolding every_below
every_below_upto zero p h = refl
every_below_upto (suc n) p h = ground (arith, h n, every_below_upto n p (λ k l. h k (omega arith)))

-- Memory that holds the bytes of a list, and 0 behind them.
abbrev pub memory : List ℕ → ℕ → ℕ
memory xs i = get_or xs i 0 % 256
