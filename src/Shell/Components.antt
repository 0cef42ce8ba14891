-- ===== src/Shell/Components.antt =====
-- The names of a path and the words of a command line, and what `path_parse` of fs/fs.c takes from a path.
use zy_os.Base.{
  ℕ, ◌+◌, ◌≤◌, ◌≡◌, ◌≢◌, inl, inr, refl, sym, ap, ◌∙◌, Bool, true, false, Option, none, some, List,
  [], ◌∷◌, ◌++◌, ◌==◌, ◌&&◌, if◌then◌else◌, length, arith, Bool-cases,
}
use mathlib.Core.List.{append_assoc, append-nil}
use zy_os.Shell.{
  Str, slash, skip_char, take_word, drop_word, path_parse, parse_on, or_null, starts_with, is_empty,
  same_upto,
}

-- A name is kept unless it is empty.
abbrev pub flush : Str → List Str
flush [] = []
flush (c ∷ name) = (c ∷ name) ∷ []

-- The names between the separators, with the characters of the current one.
unfoldable pub split : (sep : ℕ) (cur s : Str) → List Str
split sep cur [] = flush cur
split sep cur (c ∷ s) =
    let next = flush cur ++ split sep [] s in
    let more = split sep (cur ++ c ∷ []) s in if c == sep then next else more

abbrev pub components : Str → List Str
components s = split slash [] s

-- No character is NUL, and none is a slash either.
abbrev pub Chars : Str → Type 0
Chars [] = Unit {0}
Chars (c ∷ s) = (c ≢ 0) × Chars s

abbrev pub Name : Str → Type 0
Name [] = Unit {0}
Name (c ∷ s) = (c ≢ 0) × (c ≢ slash) × Name s

abbrev pub or_nil : Option Str → Str
or_nil none = []
or_nil (some s) = s

-- What is left to do behind a name that has been parsed.
abbrev pub todo : Str × Option Str → List Str
todo ([], rest) = []
todo (c ∷ name, rest) = (c ∷ name) ∷ components (or_nil rest)

pub split-skip_char : (sep : ℕ) (s : Str) → split sep [] (skip_char sep s) ≡ split sep [] s
unfolding split skip_char
split-skip_char sep [] = refl
split-skip_char sep (c ∷ s) = ground (arith, split-skip_char sep s)

split-take_word :
    (sep : ℕ) (s cur : Str)
    → split sep cur s ≡ flush (cur ++ take_word sep s) ++ split sep [] (drop_word sep s)
unfolding split take_word drop_word
split-take_word sep [] cur = rw (append-nil cur, append-nil (flush cur)) refl
split-take_word sep (c ∷ s) cur = elim (Bool-cases (c == sep)) [
  | inl y ↦ rw (y, append-nil cur) (rw y refl)
  | inr n ↦ rw n (
      split-take_word sep s (cur ++ c ∷ [])
      ∙ ap (λ x. flush x ++ split sep [] (drop_word sep s))
          (append_assoc cur (c ∷ []) (take_word sep s)))
]

pub skip_char-sep : (sep : ℕ) (s : Str) → starts_with sep (skip_char sep s) ≡ false
unfolding skip_char
skip_char-sep sep [] = refl
skip_char-sep sep (c ∷ s) = ground (arith, skip_char-sep sep s)

pub or_nil-or_null : (s : Str) → or_nil (or_null s) ≡ s
or_nil-or_null [] = refl
or_nil-or_null (c ∷ s) = refl

-- What is left is the string behind the first name.
todo_of :
    (s : Str)
    → starts_with slash s ≡ false
    → todo (take_word slash s, or_null (drop_word slash s))
      ≡ flush (take_word slash s) ++ split slash [] (drop_word slash s)
unfolding take_word drop_word slash split
todo_of [] h = refl
todo_of (c ∷ s) h =
    rw h (ap (λ x. (c ∷ take_word slash s) ∷ split slash [] x) (or_nil-or_null (drop_word slash s)))

-- The first word of a string, and what stands behind it.
pub split-first :
    (sep : ℕ) (p : Str)
    → let s = skip_char sep p in
      split sep [] p ≡ flush (take_word sep s) ++ split sep [] (drop_word sep s)
split-first sep p = sym (split-skip_char sep p) ∙ split-take_word sep (skip_char sep p) []

pub todo-path_parse : (p : Str) → todo (path_parse p) ≡ components p
unfolding path_parse
todo-path_parse p =
    let s = skip_char slash p in todo_of s (skip_char-sep slash p) ∙ sym (split-first slash p)

pub todo-parse_on : (p : Option Str) → todo (parse_on p) ≡ components (or_nil p)
unfolding split
todo-parse_on none = refl
todo-parse_on (some p) = todo-path_parse p

pub length-skip_char : (sep : ℕ) (s : Str) → length (skip_char sep s) ≤ length s
unfolding skip_char
length-skip_char sep [] = omega arith
length-skip_char sep (c ∷ s) = ground (arith, length-skip_char sep s)

pub length-drop_word :
    (sep : ℕ) (s : Str) → length (drop_word sep s) + length (take_word sep s) ≡ length s
unfolding drop_word take_word
length-drop_word sep [] = refl
length-drop_word sep (c ∷ s) = ground (arith, length-drop_word sep s)

-- A name that is not empty shortens the rest.
pub length-parse_on :
    (p : Option Str) → length (or_nil (parse_on p).1) + length (parse_on p).0 ≤ length (or_nil p)
unfolding path_parse
length-parse_on none = omega arith
length-parse_on (some p) =
    let s = skip_char slash p in
    let e = ap (λ (x : Str). length x) (or_nil-or_null (drop_word slash s)) in
    omega (arith, length-drop_word slash s, length-skip_char slash p, e)

-- The names hold no slash, and no NUL if the path holds none.
take_word-Name : (s : Str) → Chars s → Name (take_word slash s)
unfolding take_word
take_word-Name [] h = tt
take_word-Name (c ∷ s) h = elim (Bool-cases (c == slash)) [
  | inl y ↦ rw y tt
  | inr n ↦ rw n (h.0, ground arith, take_word-Name s h.1)
]

drop_word-Chars : (sep : ℕ) (s : Str) → Chars s → Chars (drop_word sep s)
unfolding drop_word
drop_word-Chars sep [] h = tt
drop_word-Chars sep (c ∷ s) h = elim (Bool-cases (c == sep)) [
  | inl y ↦ rw y h
  | inr n ↦ rw n (drop_word-Chars sep s h.1)
]

skip_char-Chars : (sep : ℕ) (s : Str) → Chars s → Chars (skip_char sep s)
unfolding skip_char
skip_char-Chars sep [] h = tt
skip_char-Chars sep (c ∷ s) h = elim (Bool-cases (c == sep)) [
  | inl y ↦ rw y (skip_char-Chars sep s h.1)
  | inr n ↦ rw n h
]

or_null-Chars : (s : Str) → Chars s → Chars (or_nil (or_null s))
or_null-Chars [] h = tt
or_null-Chars (c ∷ s) h = h

pub parse_on-Name :
    (p : Option Str) → Chars (or_nil p) → Name (parse_on p).0 × Chars (or_nil (parse_on p).1)
unfolding path_parse
parse_on-Name none h = (tt, tt)
parse_on-Name (some p) h =
    let s = skip_char slash p in
    let k = skip_char-Chars slash p h in
    (take_word-Name s k, or_null-Chars (drop_word slash s) (drop_word-Chars slash s k))

rest_of_empty :
    (sep : ℕ) (s : Str)
    → starts_with sep s ≡ false
    → is_empty (take_word sep s) ≡ true
    → or_nil (or_null (drop_word sep s)) ≡ []
unfolding take_word drop_word
rest_of_empty sep [] h e = refl
rest_of_empty sep (c ∷ s) h e = ground arith

pub path_parse-empty : (p : Str) → is_empty (path_parse p).0 ≡ true → or_nil (path_parse p).1 ≡ []
unfolding path_parse
path_parse-empty p e = rest_of_empty slash (skip_char slash p) (skip_char-sep slash p) e

abbrev pub same : Str → Str → Bool
same [] [] = true
same [] (d ∷ b) = false
same (c ∷ a) [] = false
same (c ∷ a) (d ∷ b) = c == d && same a b

-- A comparison of one character more than the first string has is one of whole strings.
pub same_upto-same : (a b : Str) → Chars a → Chars b → same_upto (length a) a b ≡ same a b
unfolding same_upto
same_upto-same [] [] h k = refl
same_upto-same [] (d ∷ b) h k = ground arith
same_upto-same (c ∷ a) [] h k = ground arith
same_upto-same (c ∷ a) (d ∷ b) h k = ground (arith, same_upto-same a b h.1 k.1)

pub same_sound : (a b : Str) → same a b ≡ true → a ≡ b
same_sound [] [] h = refl
same_sound [] (d ∷ b) h = cc
same_sound (c ∷ a) [] h = cc
same_sound (c ∷ a) (d ∷ b) h = ground (arith, same_sound a b)

pub same_refl : (a : Str) → same a a ≡ true
same_refl [] = refl
same_refl (c ∷ a) = ground (arith, same_refl a)

pub Name-Chars : (s : Str) → Name s → Chars s
Name-Chars [] h = tt
Name-Chars (c ∷ s) h = (h.0, Name-Chars s h.2)
