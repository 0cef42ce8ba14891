-- ===== src/Shell/Tests.antt =====
-- Paths and command lines at concrete texts, given by their bytes.
use zy_os.Base.{◌≡◌, refl, none, some, [], ◌∷◌, ◌++◌, ltb, if◌then◌else◌, length, arith, ok}
use zy_os.Shell.{
  fits_from, slash, dot, skip_char, take_word, drop_word, path_parse, wash_name, wash_loop,
  wash_path, same_upto, cut_last, make_clear_abs_path, starts_with,
}
use zy_os.Shell.Components.{Chars, split, components}
use zy_os.Shell.WashLaws.{shown, resolve, make_clear_abs_path_lem}
use zy_os.Shell.Command.{Line, cmd_parse, readline, newline, backspace}
use zy_os.Shell.CommandLaws.{cmd_parse_lem}
use zy_os.Shell.LineLaws.{Gives, edit, typed, readline_lem}

two_names : length (components (slash ∷ 97 ∷ slash ∷ slash ∷ 98 ∷ slash ∷ [])) ≡ 2
unfolding split
two_names = refl

-- The name "b" and the path "../c".
b-Chars : Chars (98 ∷ [])
b-Chars = (λ e. absurd (omega arith), tt)

up_c-Chars : Chars (dot ∷ dot ∷ slash ∷ 99 ∷ [])
up_c-Chars = (
  λ e. absurd (omega arith),
  (λ e. absurd (omega arith), (λ e. absurd (omega arith), (λ e. absurd (omega arith), tt))),
)

make_clear_abs_path_lem_example :
    make_clear_abs_path (some (slash ∷ 98 ∷ [])) (dot ∷ dot ∷ slash ∷ 99 ∷ [])
    ≡ ok (
        some (
          shown (
            resolve [] (
              if starts_with slash (dot ∷ dot ∷ slash ∷ 99 ∷ [])
              then components (dot ∷ dot ∷ slash ∷ 99 ∷ [])
              else components (98 ∷ []) ++ components (dot ∷ dot ∷ slash ∷ 99 ∷ [])))))
unfolding fits_from
make_clear_abs_path_lem_example =
    make_clear_abs_path_lem (98 ∷ []) (dot ∷ dot ∷ slash ∷ 99 ∷ []) b-Chars up_c-Chars refl refl
      (omega arith)

-- From "/b" the path "../c" is "/c".
washes_up :
    make_clear_abs_path (some (slash ∷ 98 ∷ [])) (dot ∷ dot ∷ slash ∷ 99 ∷ [])
    ≡ ok (some (slash ∷ 99 ∷ []))
unfolding make_clear_abs_path fits_from wash_path wash_loop wash_name path_parse skip_char take_word
    drop_word same_upto cut_last
washes_up = refl

-- "ls  -l"
cmd_parse_lem_example :
    cmd_parse (108 ∷ 115 ∷ 32 ∷ 32 ∷ 45 ∷ 108 ∷ []) 32
    ≡ some (
        if ltb 17 (length (split 32 [] (108 ∷ 115 ∷ 32 ∷ 32 ∷ 45 ∷ 108 ∷ [])))
        then none
        else some (split 32 [] (108 ∷ 115 ∷ 32 ∷ 32 ∷ 45 ∷ 108 ∷ [])))
cmd_parse_lem_example = cmd_parse_lem (108 ∷ 115 ∷ 32 ∷ 32 ∷ 45 ∷ 108 ∷ []) 32

-- "lx", a deletion, "s" and the end of the line.
readline_lem_example :
    (r : Line) × (readline 128 (108 ∷ 120 ∷ backspace ∷ 115 ∷ newline ∷ []) (λ k. 0) ≡ ok r)
    × Gives (edit 128 (108 ∷ 120 ∷ backspace ∷ 115 ∷ newline ∷ []) []) r
readline_lem_example =
    readline_lem 128 (108 ∷ 120 ∷ backspace ∷ 115 ∷ newline ∷ []) (λ k. 0) (omega arith)

deletes : edit 128 (108 ∷ 120 ∷ backspace ∷ 115 ∷ newline ∷ []) [] ≡ some (115 ∷ 108 ∷ [], [])
unfolding edit typed
deletes = refl
