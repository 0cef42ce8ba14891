-- ===== src/Stdio/Formats.antt =====
-- What a format of known conversions writes.
use zy_os.Base.{ℕ, ◌%◌, ◌≡◌, ◌≢◌, refl, ap, ◌∙◌, some, List, [], ◌∷◌, ◌++◌, arith}
use zy_os.Stdio.{itoa, Arg, arg_str, arg_word, signed_chars, vsprintf, prepend}

-- A piece of a format: a character other than `%`, or a conversion with its argument.
pub data Piece : Type 0 where
  plain : (c : ℕ) → c ≢ 37 → Piece
  string : List ℕ → Piece
  char dec hex : ℕ → Piece

abbrev format_of : List Piece → List ℕ
format_of [] = []
format_of (plain c h ∷ ps) = c ∷ format_of ps
format_of (string s ∷ ps) = 37 ∷ 115 ∷ format_of ps
format_of (char w ∷ ps) = 37 ∷ 99 ∷ format_of ps
format_of (dec w ∷ ps) = 37 ∷ 100 ∷ format_of ps
format_of (hex w ∷ ps) = 37 ∷ 120 ∷ format_of ps

abbrev args_of : List Piece → List Arg
args_of [] = []
args_of (plain c h ∷ ps) = args_of ps
args_of (string s ∷ ps) = arg_str s ∷ args_of ps
args_of (char w ∷ ps) = arg_word w ∷ args_of ps
args_of (dec w ∷ ps) = arg_word w ∷ args_of ps
args_of (hex w ∷ ps) = arg_word w ∷ args_of ps

abbrev pub shown : Piece → List ℕ
shown (plain c h) = c ∷ []
shown (string s) = s
shown (char w) = w % 256 ∷ []
shown (dec w) = signed_chars w
shown (hex w) = itoa 32 w 16

abbrev pub all_shown : List Piece → List ℕ
all_shown [] = []
all_shown (p ∷ ps) = shown p ++ all_shown ps

plain_char :
    (c : ℕ) (f : List ℕ) (args : List Arg)
    → c ≢ 37
    → vsprintf (c ∷ f) args ≡ prepend (c ∷ []) (vsprintf f args)
unfolding vsprintf
plain_char c [] args h = ground arith
plain_char c (d ∷ f) args h = ground arith

-- For a format of characters other than % and of the conversions s, c, d and x, with arguments that fit
-- them, vsprintf writes the characters and the arguments' texts in order.
vsprintf_lem : (ps : List Piece) → vsprintf (format_of ps) (args_of ps) ≡ some (all_shown ps)
unfolding vsprintf
vsprintf_lem [] = refl
vsprintf_lem (plain c h ∷ ps) =
    plain_char c (format_of ps) (args_of ps) h ∙ ap (prepend (c ∷ [])) (vsprintf_lem ps)
vsprintf_lem (string s ∷ ps) = ap (prepend s) (vsprintf_lem ps)
vsprintf_lem (char w ∷ ps) = ap (prepend (w % 256 ∷ [])) (vsprintf_lem ps)
vsprintf_lem (dec w ∷ ps) = ap (prepend (signed_chars w)) (vsprintf_lem ps)
vsprintf_lem (hex w ∷ ps) = ap (prepend (itoa 32 w 16)) (vsprintf_lem ps)
