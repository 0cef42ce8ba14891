-- ===== src/Stdio.antt =====
-- lib/stdio.c: numbers and formats. Output is the list of the characters written through `buf_ptr`, in
-- order; a format and a string argument are lists of their characters before the NUL.
pub mod Digits
pub mod Formats
mod Tests
use zy_os.Base.{
  ℕ, zero, suc, ◌+◌, ◌-◌, ◌/◌, ◌%◌, ◌^◌, Bool, true, false, Option, none, some, List, [], ◌∷◌, ◌++◌,
  ◌==◌, ltb, leb, if◌then◌else◌,
}

abbrev pub digit_char : ℕ → ℕ
digit_char m = if ltb m 10 then m + 48 else m - 10 + 65

-- The recursion divides the value, so it ends after at most as many calls as the fuel that 2^32 needs.
unfoldable pub itoa : (fuel value base : ℕ) → List ℕ
itoa zero value base = []
itoa (suc fuel) value base =
    let m = value % base in
    let i = value / base in
    let front = itoa fuel i base in if i == 0 then digit_char m ∷ [] else front ++ digit_char m ∷ []

-- A variadic argument, as the conversion reads it.
pub data Arg : Type 0 where
  arg_str : List ℕ → Arg
  arg_word : ℕ → Arg

abbrev pub prepend : List ℕ → Option (List ℕ) → Option (List ℕ)
prepend front none = none
prepend front (some back) = some (front ++ back)

-- `arg_int < 0`, and its negation, for a 32-bit `int`.
abbrev pub signed_chars : ℕ → List ℕ
signed_chars arg_int =
    let negated = (2 ^ 32 - arg_int) % 2 ^ 32 in
    if leb (2 ^ 31) arg_int then 45 ∷ itoa 32 negated 10 else itoa 32 arg_int 10

abbrev pub char_arg : List Arg → Option (ℕ × List Arg)
char_arg [] = none
char_arg (arg_str s ∷ args) = none
char_arg (arg_word w ∷ args) = some (w, args)

abbrev pub str_arg : List Arg → Option (List ℕ × List Arg)
str_arg [] = none
str_arg (arg_str s ∷ args) = some (s, args)
str_arg (arg_word w ∷ args) = none

abbrev pub then_str : Option (List ℕ × List Arg) → (List Arg → Option (List ℕ)) → Option (List ℕ)
then_str none rest = none
then_str (some (s, args)) rest = prepend s (rest args)

abbrev pub then_word :
    Option (ℕ × List Arg) → (ℕ → List ℕ) → (List Arg → Option (List ℕ)) → Option (List ℕ)
then_word none show rest = none
then_word (some (w, args)) show rest = prepend (show w) (rest args)

-- The `switch` over the letter behind `%`: `rest` is the loop behind the letter, and `again` the loop at
-- it, where a letter without a case leaves it. An argument that is missing gives `none`.
abbrev pub convert :
    (index_char : ℕ) → List Arg → (List Arg → Option (List ℕ)) → Option (List ℕ) → Option (List ℕ)
convert index_char args rest again =
    if index_char == 115
    then then_str (str_arg args) rest
    else if index_char == 99
    then then_word (char_arg args) (λ w. w % 256 ∷ []) rest
    else if index_char == 100
    then then_word (char_arg args) signed_chars rest
    else if index_char == 120
    then then_word (char_arg args) (λ w. itoa 32 w 16) rest
    else again

-- The loop of `vsprintf`. The length that it returns is that of the string in `str`, which it does not
-- terminate.
unfoldable pub vsprintf : (format : List ℕ) → List Arg → Option (List ℕ)
vsprintf [] args = some []
vsprintf (c ∷ []) args = if c == 37 then some [] else some (c ∷ [])
vsprintf (c ∷ d ∷ format) args =
    let again = vsprintf (d ∷ format) args in
    if c == 37 then convert d args (vsprintf format) again else prepend (c ∷ []) again
