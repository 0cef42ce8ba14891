-- ===== src/Shell/CommandLaws.antt =====
-- What `cmd_parse`, `readline` and the choice of the command in shell/shell.c come to.
use zy_os.Base.{
  ℕ, zero, suc, ◌+◌, ◌≤◌, ◌<◌, ◌≡◌, ◌≢◌, ◌↔◌, inl, inr, refl, sym, ap, ◌∙◌, subst, Bool, true,
  false, not, ◌&&◌, Option, none, some, List, [], ◌∷◌, ◌++◌, ◌==◌, ltb, if◌then◌else◌, length,
  arith, Bool-cases, length-append,
}
use mathlib.Core.List.{append_assoc, append-nil}
use zy_os.Shell.{Str, same_upto, skip_char, take_word, drop_word, is_empty, starts_with}
use zy_os.Shell.Components.{
  split, flush, split-first, skip_char-sep, split-skip_char, length-skip_char, length-drop_word,
  Chars, same, same_upto-same, same_sound,
}
use zy_os.Shell.Command.{
  max_arg_nr, behind_token, cmd_loop, cmd_parse, Command, name_of, is, command,
}

-- Behind a word stands a separator or the end.
split-behind :
    (sep : ℕ) (s : Str)
    → split sep [] (behind_token (drop_word sep s)) ≡ split sep [] (drop_word sep s)
unfolding drop_word split
split-behind sep [] = refl
split-behind sep (c ∷ s) = elim (Bool-cases (c == sep)) [
  | inl y ↦ rw y (rw y refl)
  | inr n ↦ rw n (split-behind sep s)
]

length-behind : (s : Str) → length (behind_token s) ≤ length s
length-behind [] = omega arith
length-behind (c ∷ s) = omega arith

take_word-ne :
    (sep : ℕ) (s : Str)
    → starts_with sep s ≡ false
    → is_empty s ≡ false
    → (0 < length (take_word sep s)) × (flush (take_word sep s) ≡ take_word sep s ∷ [])
unfolding take_word
take_word-ne sep [] h e = cc
take_word-ne sep (c ∷ s) h e = rw h (omega arith, refl)

split-empty : (sep : ℕ) (s : Str) → is_empty s ≡ true → split sep [] s ≡ []
unfolding split
split-empty sep [] e = refl
split-empty sep (c ∷ s) e = cc

next_word :
    (sep : ℕ) (p : Str)
    → let s = skip_char sep p in
      is_empty s ≡ false
      → (split sep [] p ≡ take_word sep s ∷ split sep [] (behind_token (drop_word sep s)))
        × (length (behind_token (drop_word sep s)) < length p)
next_word sep p more =
    let s = skip_char sep p in
    let (long, one) = take_word-ne sep s (skip_char-sep sep p) more in
    (
      split-first sep p ∙ rw (one, split-behind sep s) refl,
      omega
          (arith, length-behind (drop_word sep s), length-drop_word sep s, length-skip_char sep p),
    )

no_word : (sep : ℕ) (p : Str) → is_empty (skip_char sep p) ≡ true → split sep [] p ≡ []
no_word sep p e = sym (split-skip_char sep p) ∙ split-empty sep (skip_char sep p) e

abbrev pub checked : List Str → Option (List Str)
checked words = if ltb (max_arg_nr + 1) (length words) then none else some words

cmd_loop_lem :
    (fuel token : ℕ) (next : Str) (argv : List Str)
    → length next < fuel
    → length argv ≤ max_arg_nr + 1
    → cmd_loop fuel token next argv ≡ some (checked (argv ++ split token [] next))
unfolding cmd_loop
cmd_loop_lem zero token next argv enough few = absurd (omega arith)
cmd_loop_lem (suc fuel) token next argv enough few =
    let s = skip_char token next in
    let word = take_word token s in
    let behind = behind_token (drop_word token s) in
    elim (Bool-cases (is_empty s)) [
      | inl e ↦
          let words = no_word token next e in
          rw (e, words, append-nil argv)
            (let room : ltb 17 (length argv) ≡ false = ground arith in rw room refl)
      | inr n ↦
          let (words, shorter) = next_word token next n in
          elim (Bool-cases (ltb max_arg_nr (length argv))) [
            | inl full ↦
                let over : ltb 17 (length (argv ++ word ∷ split token [] behind)) ≡ true =
                  ground (arith, length-append argv (word ∷ split token [] behind)) in
                rw (n, full, words, over) refl
            | inr room ↦
                rw (n, room, words)
                  (cmd_loop_lem fuel token behind (argv ++ word ∷ []) (omega arith)
                      (ground (arith, length-append argv (word ∷ [])))
                    ∙ ap (λ x. some (checked x))
                        (append_assoc argv (word ∷ []) (split token [] behind)))
          ]
    ]

-- cmd_parse returns, with the words between the separators, as long as there are at most 17 of them,
-- and with -1 for more.
pub cmd_parse_lem :
    (cmd_str : Str) (token : ℕ)
    → cmd_parse cmd_str token
      ≡ some
          (if ltb 17 (length (split token [] cmd_str)) then none else some (split token [] cmd_str))
unfolding cmd_parse
cmd_parse_lem cmd_str token =
    cmd_loop_lem (length cmd_str + 1) token cmd_str [] (omega arith) (omega arith)

all_chars : Str → Bool
all_chars [] = true
all_chars (c ∷ s) = not (c == 0) && all_chars s

all_chars_sound : (s : Str) → all_chars s ≡ true → Chars s
unfolding all_chars
all_chars_sound [] h = tt
all_chars_sound (c ∷ s) h = (ground arith, all_chars_sound s (ground arith))

all_chars-name_of : (c : Command) → all_chars (name_of c) ≡ true
unfolding all_chars
all_chars-name_of Command.ls = refl
all_chars-name_of c = refl

is-same : (c : Command) (word : Str) → Chars word → is c word ≡ same (name_of c) word
unfolding is
is-same c word h =
    same_upto-same (name_of c) word (all_chars_sound (name_of c) (all_chars-name_of c)) h

-- The test of the command that is chosen was true.
chosen : (word : Str) → command word ≢ Command.external → is (command word) word ≡ true
unfolding command
chosen word ne = ground arith

command-name_of : (c : Command) → c ≢ Command.external → command (name_of c) ≡ c
unfolding command is same_upto
command-name_of Command.external ne = absurd (ne refl)
command-name_of Command.ls ne = refl
command-name_of c ne = refl

-- For a word without NUL, my_shell chooses a built-in command exactly if the word is the whole name of
-- that command.
command_lem :
    (c : Command) (word : Str)
    → Chars word
    → c ≢ Command.external
    → (command word ≡ c) ↔ (word ≡ name_of c)
command_lem c word h ne = (
  λ e.
      let here : is c word ≡ true =
        subst (λ x. is x word ≡ true) e (chosen word (λ f. ne (sym e ∙ f))) in
      sym (same_sound (name_of c) word (sym (is-same c word h) ∙ here)),
  λ e. subst (λ x. command x ≡ c) (sym e) (command-name_of c ne),
)
