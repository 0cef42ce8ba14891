-- ===== src/Shell/LineLaws.antt =====
-- What `readline` of shell/shell.c leaves in its buffer.
use zy_os.Base.{
  ℕ, ◌-◌, ◌≤◌, ◌<◌, ◌≡◌, ◌≢◌, inl, inr, refl, true, false, ◌||◌, Option, none, some, List, [], ◌∷◌,
  ◌==◌, ltb, if◌then◌else◌, length, update, arith, Bool-cases, ok,
}
use zy_os.Shell.Command.{
  newline, carriage_return, backspace, ctrl_l, ctrl_u, Line, read_char, read_chars, readline,
}

-- The line as a list, the last character first, and what a character does to it.
abbrev pub drop_last : List ℕ → List ℕ
drop_last [] = []
drop_last (c ∷ line) = line

unfoldable pub typed : (line : List ℕ) (c : ℕ) → List ℕ
typed line c =
    if c == backspace
    then drop_last line
    else if c == ctrl_l
    then line
    else if c == ctrl_u
    then []
    else c ∷ line

-- The line at its end and what is not read yet, as long as the line stays shorter than the buffer.
unfoldable pub edit : (count : ℕ) (input line : List ℕ) → Option (List ℕ × List ℕ)
edit count [] line = none
edit count (c ∷ input) line =
    let rest = edit count input (typed line c) in
    if ltb (length line) count
    then (if c == newline || c == carriage_return then some (line, input) else rest)
    else none

-- The buffer holds the line, and no character of the line is a backspace.
abbrev pub Holds : (buf : ℕ → ℕ) → List ℕ → Type 0
Holds buf [] = Unit {0}
Holds buf (c ∷ line) = (buf (length line) ≡ c) × Holds buf line

abbrev pub Typed : List ℕ → Type 0
Typed [] = Unit {0}
Typed (c ∷ line) = (c ≢ backspace) × Typed line

Holds-update :
    (buf : ℕ → ℕ) (line : List ℕ) (k v : ℕ)
    → length line ≤ k
    → Holds buf line
    → Holds (update buf k v) line
Holds-update buf [] k v le h = tt
Holds-update buf (c ∷ line) k v le h =
    (ground (arith, h.0), Holds-update buf line k v (omega arith) h.1)

first_char :
    (buf : ℕ → ℕ) (c : ℕ) (line : List ℕ)
    → Holds buf (c ∷ line)
    → Typed (c ∷ line)
    → buf 0 ≢ backspace
first_char buf c [] h t = ground arith
first_char buf c (d ∷ line) h t = first_char buf d line h.1 t.1

Typed-drop_last : (line : List ℕ) → Typed line → Typed (drop_last line)
Typed-drop_last [] t = tt
Typed-drop_last (d ∷ line) t = t.1

Typed-typed : (line : List ℕ) (c : ℕ) → Typed line → Typed (typed line c)
unfolding typed
Typed-typed line c t = elim (Bool-cases (c == backspace)) [
  | inl b ↦ rw b (Typed-drop_last line t)
  | inr nb ↦ elim (Bool-cases (c == ctrl_l)) [
    | inl l ↦ rw (nb, l) t
    | inr nl ↦ elim (Bool-cases (c == ctrl_u)) [
      | inl u ↦ rw (nb, nl, u) tt
      | inr nu ↦ rw (nb, nl, nu) (ground arith, t)
    ]
  ]
]

-- The key for deleting: it finds itself at the start of the buffer when there is nothing to delete.
erase :
    (buf : ℕ → ℕ) (line : List ℕ) (c : ℕ)
    → Holds buf line
    → Typed line
    → c ≡ backspace
    → let buf' = update buf (length line) c in
      let r : (ℕ → ℕ) × ℕ =
        if buf' 0 == backspace then (buf', length line) else (buf', (length line - 1)) in
      (r.1 ≡ length (drop_last line)) × Holds r.0 (drop_last line)
erase buf [] c h t e = (ground arith, tt)
erase buf (d ∷ line) c h t e =
    let first = first_char buf d line h t in
    let start : (update buf (length (d ∷ line)) c 0 == backspace) ≡ false = ground arith in
    rw start (omega arith, Holds-update buf line (length (d ∷ line)) c (omega arith) h.1)

-- One character.
read_char-Holds :
    (buf : ℕ → ℕ) (line : List ℕ) (c : ℕ)
    → Holds buf line
    → Typed line
    → let r = read_char buf (length line) c in
      (r.1 ≡ length (typed line c)) × Holds r.0 (typed line c)
unfolding read_char typed
read_char-Holds buf line c h t = elim (Bool-cases (c == backspace)) [
  | inl b ↦ rw b (erase buf line c h t (ground arith))
  | inr nb ↦ elim (Bool-cases (c == ctrl_l)) [
    | inl l ↦
        let stored = Holds-update buf line (length line) c (omega arith) h in
        rw (nb, l)
          (
            refl,
            Holds-update (update buf (length line) c) line (length line) 0 (omega arith) stored,
          )
    | inr nl ↦ elim (Bool-cases (c == ctrl_u)) [
      | inl u ↦ rw (nb, nl, u) (refl, tt)
      | inr nu ↦
          rw (nb, nl, nu)
            (omega arith, (ground arith, Holds-update buf line (length line) c (omega arith) h))
    ]
  ]
]

-- The buffer ends with the line and a NUL, or the line was not ended in time.
abbrev pub Gives : Option (List ℕ × List ℕ) → Line → Type 0
Gives none r = r.ended ≡ false
Gives (some (line, input)) r =
    (r.ended ≡ true) × Holds r.buf line × (r.buf (length line) ≡ 0) × (r.unread ≡ input)

read_chars-Gives :
    (count : ℕ) (input : List ℕ) (buf : ℕ → ℕ) (line : List ℕ)
    → Holds buf line
    → Typed line
    → Gives (edit count input line) (read_chars count input buf (length line))
unfolding edit read_chars
read_chars-Gives count [] buf line h t = refl
read_chars-Gives count (c ∷ input) buf line h t = elim (Bool-cases (ltb (length line) count)) [
  | inl room ↦ elim (Bool-cases (c == newline || c == carriage_return)) [
    | inl e ↦
        let zeroed = Holds-update buf line (length line) 0 (omega arith) h in
        rw (room, e) (refl, zeroed, ground arith, refl)
    | inr n ↦
        let (moved, held) = read_char-Holds buf line c h t in
        let next =
          read_chars-Gives count input (read_char buf (length line) c).0 (typed line c) held
            (Typed-typed line c t) in
        rw (room, n, moved) next
  ]
  | inr full ↦ rw full refl
]

-- For a buffer of at least one byte, readline agrees with an editor of lists: where that ends a line,
-- which it does only while the line is shorter than the buffer, readline ends too, leaves the line as
-- it stands after the deletions, followed by NUL, and has read no further; otherwise readline does not
-- end a line.
pub readline_lem :
    (count : ℕ) (input : List ℕ) (buf : ℕ → ℕ)
    → 0 < count
    → (r : Line) × (readline count input buf ≡ ok r) × Gives (edit count input []) r
unfolding readline
readline_lem count input buf h =
    let some_place : ltb 0 count ≡ true = ground arith in
    (read_chars count input buf 0, rw some_place refl, read_chars-Gives count input buf [] tt tt)
