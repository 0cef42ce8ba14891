-- ===== src/Shell.antt =====
-- The paths of fs/fs.c (`path_parse`, `path_depth_cnt`) and of shell/buildin_cmd.c.
-- A string is the list of its bytes before the NUL, and a pointer into it is what follows there, with
-- `none` for `NULL`. A name that does not fit into the array of 16 bytes, or a path into one of 512, is
-- written behind it; what happens then is not described, and the result is `none`.
pub mod Command
pub mod CommandLaws
pub mod Components
pub mod Depth
pub mod LineLaws
pub mod WashLaws
mod Tests
use zy_os.Base.{
  ℕ, zero, suc, ◌+◌, ◌≡◌, refl, Bool, true, false, not, ◌&&◌, ◌||◌, Option, none, some, List, [],
  ◌∷◌, ◌++◌, ◌==◌, ltb, if◌then◌else◌, length, Run, ok, assert, ◌>>◌,
}

abbrev pub slash : ℕ
slash = 47

abbrev pub dot : ℕ
dot = 46

abbrev pub Str : Type 0
Str = List ℕ

-- The loops that step over separators, that store the characters up to the next separator, and that step
-- over these.
unfoldable pub skip_char : (token : ℕ) → Str → Str
skip_char token [] = []
skip_char token (c ∷ s) = let rest = skip_char token s in if c == token then rest else c ∷ s

unfoldable pub take_word : (token : ℕ) → Str → Str
take_word token [] = []
take_word token (c ∷ s) = let rest = take_word token s in if c == token then [] else c ∷ rest

unfoldable pub drop_word : (token : ℕ) → Str → Str
drop_word token [] = []
drop_word token (c ∷ s) = let rest = drop_word token s in if c == token then c ∷ s else rest

abbrev pub or_null : Str → Option Str
or_null [] = none
or_null (c ∷ s) = some (c ∷ s)

-- The name that is stored, and the pointer that is returned.
unfoldable pub path_parse : Str → Str × Option Str
path_parse pathname =
    let s = skip_char slash pathname in (take_word slash s, or_null (drop_word slash s))

-- `if (p) { p = path_parse(p, name); }` behind the clearing of `name`.
abbrev pub parse_on : Option Str → Str × Option Str
parse_on none = ([], none)
parse_on (some p) = path_parse p

-- Whether every name of a path fits into an array of 16 bytes with its NUL, behind `n` characters of a name.
unfoldable pub fits_from : (n : ℕ) → Str → Bool
fits_from n [] = true
fits_from n (c ∷ s) =
    let name = fits_from (n + 1) s in
    let next = fits_from 0 s in if c == slash then next else if ltb n 15 then name else false

abbrev pub names_fit : Str → Bool
names_fit s = fits_from 0 s

-- `path_depth_cnt` does not clear `name` before the first call: `junk` tells whether what its first
-- byte holds is other than NUL, which the loop tests if the first name is empty. `none` where a name is
-- written behind the array.
abbrev pub is_empty : Str → Bool
is_empty [] = true
is_empty (c ∷ s) = false

unfoldable pub depth_loop : (fuel : ℕ) (stop : Bool) → Option Str → (depth : ℕ) → Option ℕ
depth_loop zero stop p depth = none
depth_loop (suc fuel) stop p depth =
    let (name, p') = parse_on p in
    let rest = depth_loop fuel (is_empty name) p' (depth + 1) in if stop then some depth else rest

unfoldable pub path_depth_cnt : (junk : Bool) → Str → Option ℕ
path_depth_cnt junk pathname =
    let (name, p) = path_parse pathname in
    if names_fit pathname
    then depth_loop (length pathname + 2) (is_empty name && not junk) p 0
    else none

-- Whether `strncmp(a, b, n)` is 0, which compares the characters at the indices up to `n`.
unfoldable pub same_upto : (n : ℕ) → Str → Str → Bool
same_upto n [] [] = true
same_upto n [] (d ∷ b) = d == 0
same_upto n (c ∷ a) [] = c == 0
same_upto zero (c ∷ a) (d ∷ b) = c == d
same_upto (suc n) (c ∷ a) (d ∷ b) = c == d && (c == 0 || same_upto n a b)

-- The string up to its last '/', that one excluded: the one in front and whether there is any before.
unfoldable pub cut_last : Str → Option Str
cut_last [] = none
cut_last (c ∷ s) = elim (cut_last s) [
  | some front ↦ some (c ∷ front)
  | none ↦ if c == slash then some [] else none
]

-- The three cases of the loop: "..", "." and another name.
abbrev pub go_up : Str → Option Str → Str
go_up new_abs_path none = new_abs_path
go_up new_abs_path (some []) = slash ∷ []
go_up new_abs_path (some (c ∷ front)) = c ∷ front

unfoldable pub wash_name : (new_abs_path name : Str) → Str
wash_name new_abs_path name =
    if same_upto 2 (dot ∷ dot ∷ []) name
    then go_up new_abs_path (cut_last new_abs_path)
    else if same_upto 1 (dot ∷ []) name
    then new_abs_path
    else if same_upto 1 new_abs_path (slash ∷ [])
    then new_abs_path ++ name
    else new_abs_path ++ (slash ∷ name)

-- `none` means that the fuel ran out.
unfoldable pub wash_loop : (fuel : ℕ) (new_abs_path name : Str) → Option Str → Option Str
wash_loop zero new_abs_path name sub_path = none
wash_loop (suc fuel) new_abs_path name sub_path =
    let (name', sub_path') = parse_on sub_path in
    let rest = wash_loop fuel (wash_name new_abs_path name) name' sub_path' in
    if is_empty name then some new_abs_path else rest

abbrev pub starts_with : (token : ℕ) → Str → Bool
starts_with token [] = false
starts_with token (c ∷ s) = c == token

unfoldable pub wash_path : Str → Run (Option Str)
wash_path old_abs_path =
    let (name, sub_path) = path_parse old_abs_path in
    assert (starts_with slash old_abs_path)
    >> ok (
        if names_fit old_abs_path
        then (if is_empty name
            then some (slash ∷ [])
            else wash_loop (length old_abs_path + 2) (slash ∷ []) name sub_path)
        else none)

-- `getcwd` is a system call: `cwd` is what it stores, with `none` for `NULL`.
abbrev pub cwd_prefix : Option Str → Str
cwd_prefix none = []
cwd_prefix (some []) = slash ∷ []
cwd_prefix (some (c ∷ [])) = if c == slash then c ∷ [] else c ∷ slash ∷ []
cwd_prefix (some (c ∷ d ∷ s)) = (c ∷ d ∷ s) ++ (slash ∷ [])

-- `none` where a string is written behind its array. The array `abs_path` has 512 bytes; what `wash_path`
-- stores is never longer.
abbrev pub wash_in_array : (abs_path : Str) → Run (Option Str)
wash_in_array abs_path = if ltb (length abs_path) 512 then wash_path abs_path else ok none

unfoldable pub make_clear_abs_path : (cwd : Option Str) → Str → Run (Option Str)
make_clear_abs_path cwd path =
    if starts_with slash path then wash_in_array path else wash_in_array (cwd_prefix cwd ++ path)
