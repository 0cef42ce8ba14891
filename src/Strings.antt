-- ===== src/Strings.antt =====
-- lib/string.c: bytes and C strings in memory.
-- `m a` is the byte at the address `a`, and 0 is `NULL`. A `char` is signed. Loops that end at a NUL run on
-- fuel, and `none` means that it ran out.
pub mod Blocks
pub mod Compare
mod Tests
use zy_os.Base.{
  ℕ, zero, suc, ◌+◌, ◌%◌, ◌^◌, Bool, true, false, not, ◌&&◌, ◌||◌, Option, none, some, ◌==◌, ltb,
  if◌then◌else◌, update, Run, ok, assert, ◌>>=◌, ◌>>◌,
}

abbrev pub Bytes : Type 0
Bytes = ℕ → ℕ

-- The results -1, 0 and 1.
pub data Sign : Type 0 where
  less same more : Sign

-- `x < y` for two bytes read as `char`.
abbrev pub char_lt : ℕ → ℕ → Bool
char_lt x y = ltb ((x + 128) % 256) ((y + 128) % 256)

-- `*str == ch` for a `char` and a `uint8_t`, which the promotion to `int` makes unequal from 128 on.
abbrev pub is_char : (byte ch : ℕ) → Bool
is_char byte ch = ltb byte 128 && byte == ch

unfoldable pub fill : (dst value size : ℕ) → Bytes → Bytes
fill dst value zero m = m
fill dst value (suc size) m = fill (dst + 1) value size (update m dst value)

unfoldable pub memset : (dst value size : ℕ) → Bytes → Run Bytes
memset dst value size m = assert (not (dst == 0)) >> ok (fill dst value size m)

unfoldable pub copy : (dst src size : ℕ) → Bytes → Bytes
copy dst src zero m = m
copy dst src (suc size) m = copy (dst + 1) (src + 1) size (update m dst (m src))

unfoldable pub memcpy : (dst src size : ℕ) → Bytes → Run Bytes
memcpy dst src size m = assert (not (dst == 0) && not (src == 0)) >> ok (copy dst src size m)

unfoldable pub cmp_from : (a b size : ℕ) → Bytes → Sign
cmp_from a b zero m = same
cmp_from a b (suc size) m =
    let rest = cmp_from (a + 1) (b + 1) size m in
    if m a == m b then rest else if char_lt (m b) (m a) then more else less

unfoldable pub memcmp : (a b size : ℕ) → Bytes → Run Sign
memcmp a b size m = assert (not (a == 0) || not (b == 0)) >> ok (cmp_from a b size m)

unfoldable pub ncopy : (dst src size : ℕ) → Bytes → Bytes
ncopy dst src zero m = m
ncopy dst src (suc size) m =
    let m' = update m dst (m src) in
    let rest = ncopy (dst + 1) (src + 1) size m' in if m src == 0 then m' else rest

unfoldable pub strncpy : (dst src size : ℕ) → Bytes → Run Bytes
strncpy dst src size m = assert (not (dst == 0) && not (src == 0)) >> ok (ncopy dst src size m)

-- `p - str` behind the loop is one more than the number of characters, which is given back.
unfoldable pub len_from : (fuel p count : ℕ) → Bytes → Option ℕ
len_from zero p count m = none
len_from (suc fuel) p count m =
    let rest = len_from fuel (p + 1) (count + 1) m in if m p == 0 then some count else rest

unfoldable pub strlen : (fuel str : ℕ) → Bytes → Run (Option ℕ)
strlen fuel str m = assert (not (str == 0)) >> ok (len_from fuel str 0 m)

-- The comparison behind the loop of `strncmp`.
abbrev pub last_sign : (x y : ℕ) → Sign
last_sign x y = if char_lt x y then less else if char_lt y x then more else same

unfoldable pub ncmp_from : (a b size : ℕ) → Bytes → Sign
ncmp_from a b zero m = last_sign (m a) (m b)
ncmp_from a b (suc size) m =
    let rest = ncmp_from (a + 1) (b + 1) size m in
    if not (m a == 0) && m a == m b then rest else last_sign (m a) (m b)

unfoldable pub strncmp : (a b size : ℕ) → Bytes → Run Sign
strncmp a b size m = assert (not (a == 0) && not (b == 0)) >> ok (ncmp_from a b size m)

unfoldable pub chr_from : (fuel str ch : ℕ) → Bytes → Option (Option ℕ)
chr_from zero str ch m = none
chr_from (suc fuel) str ch m =
    let rest = chr_from fuel (str + 1) ch m in
    if m str == 0 then some none else if is_char (m str) ch then some (some str) else rest

-- The inner option is the pointer, `none` for `NULL`.
unfoldable pub strchr : (fuel str ch : ℕ) → Bytes → Run (Option (Option ℕ))
strchr fuel str ch m = assert (not (str == 0)) >> ok (chr_from fuel str ch m)

unfoldable pub rchr_from : (fuel str ch : ℕ) (last_char : Option ℕ) → Bytes → Option (Option ℕ)
rchr_from zero str ch last_char m = none
rchr_from (suc fuel) str ch last_char m =
    let last_char' = if is_char (m str) ch then some str else last_char in
    let rest = rchr_from fuel (str + 1) ch last_char' m in
    if m str == 0 then some last_char else rest

unfoldable pub strrchr : (fuel str ch : ℕ) → Bytes → Run (Option (Option ℕ))
strrchr fuel str ch m = assert (not (str == 0)) >> ok (rchr_from fuel str ch none m)

-- The second loop of `strcat`.
unfoldable pub cat_from : (fuel dst src : ℕ) → Bytes → Option Bytes
cat_from zero dst src m = none
cat_from (suc fuel) dst src m =
    let m' = update m dst (m src) in
    let rest = cat_from fuel (dst + 1) (src + 1) m' in if m src == 0 then some m' else rest

abbrev pub cat_at : (fuel dst src : ℕ) → Bytes → Option ℕ → Option Bytes
cat_at fuel dst src m none = none
cat_at fuel dst src m (some count) = cat_from fuel (dst + count) src m

unfoldable pub strcat : (fuel dst src : ℕ) → Bytes → Run (Option Bytes)
strcat fuel dst src m =
    assert (not (dst == 0) && not (src == 0)) >> ok (cat_at fuel dst src m (len_from fuel dst 0 m))

unfoldable pub chrs_from : (fuel p ch ch_cnt : ℕ) → Bytes → Option ℕ
chrs_from zero p ch ch_cnt m = none
chrs_from (suc fuel) p ch ch_cnt m =
    let ch_cnt' = if is_char (m p) ch then (ch_cnt + 1) % 2 ^ 32 else ch_cnt in
    let rest = chrs_from fuel (p + 1) ch ch_cnt' m in if m p == 0 then some ch_cnt else rest

unfoldable pub strchrs : (fuel str ch : ℕ) → Bytes → Run (Option ℕ)
strchrs fuel str ch m = assert (not (str == 0)) >> ok (chrs_from fuel str ch 0 m)
