-- ===== src/Shell/Depth.antt =====
-- What `path_depth_cnt` of fs/fs.c counts.
use zy_os.Base.{
  ℕ, zero, suc, ◌+◌, ◌<◌, ◌≡◌, ◌↔◌, inl, inr, refl, ap, ◌∙◌, Bool, true, false, ◌&&◌, Option, some,
  List, [], ◌∷◌, if◌then◌else◌, length, arith, Bool-cases,
}
use zy_os.Shell.{Str, path_parse, parse_on, is_empty, names_fit, depth_loop, path_depth_cnt}
use zy_os.Shell.Components.{
  components, split, or_nil, todo, todo-parse_on, todo-path_parse, length-parse_on,
  path_parse-empty,
}

-- The names that are left once the current one is counted.
length-todo :
    (name : Str) (rest : Option Str)
    → length (todo (name, rest))
      ≡ (if is_empty name then 0 else length (components (or_nil rest)) + 1)
length-todo [] rest = refl
length-todo (c ∷ name) rest = omega arith

depth_loop_stop :
    (fuel : ℕ) (p : Option Str) (depth : ℕ) → depth_loop (suc fuel) true p depth ≡ some depth
unfolding depth_loop
depth_loop_stop fuel p depth = refl

stopped :
    (fuel : ℕ) (p : Option Str) (depth : ℕ) → 0 < fuel → depth_loop fuel true p depth ≡ some depth
stopped zero p depth h = absurd (omega arith)
stopped (suc fuel) p depth h = depth_loop_stop fuel p depth

nonempty : (name : Str) → is_empty name ≡ false → 0 < length name
nonempty [] h = cc
nonempty (c ∷ name) h = omega arith

abbrev pub is_empty_list : List Str → Bool
is_empty_list [] = true
is_empty_list (n ∷ ns) = false

empty-length : (ns : List Str) → (is_empty_list ns ≡ true) ↔ (length ns ≡ 0)
empty-length [] = (λ h. refl, λ h. refl)
empty-length (n ∷ ns) = (λ h. cc, λ h. absurd (omega arith))

depth_loop_lem :
    (fuel : ℕ) (p : Option Str) (depth : ℕ)
    → length (or_nil p) + 1 < fuel
    → depth_loop fuel false p depth ≡ some (depth + 1 + length (components (or_nil p)))
unfolding depth_loop
depth_loop_lem zero p depth enough = absurd (omega arith)
depth_loop_lem (suc fuel) p depth enough =
    let count = ap (λ (x : List Str). length x) (todo-parse_on p) in
    let left = length-todo (parse_on p).0 (parse_on p).1 in
    let shorter = length-parse_on p in
    elim (Bool-cases (is_empty (parse_on p).0)) [
      | inl done ↦
          let one : depth + 1 ≡ depth + 1 + length (components (or_nil p)) = ground arith in
          rw done (stopped fuel (parse_on p).1 (depth + 1) (omega arith) ∙ ap some one)
      | inr more ↦
          let name = nonempty (parse_on p).0 more in
          let one : depth + 1 + 1 + length (components (or_nil (parse_on p).1))
              ≡ depth + 1 + length (components (or_nil p)) =
            ground arith in
          rw more (depth_loop_lem fuel (parse_on p).1 (depth + 1) (omega arith) ∙ ap some one)
    ]

-- For a path whose names have at most 15 characters path_depth_cnt returns, and the depth is the number of names of the path, except that a path without
-- any name has the depth 1 where the first byte of the buffer, which is not cleared, is not 0.
pub path_depth_cnt_lem :
    (junk : Bool) (p : Str)
    → names_fit p ≡ true
    → path_depth_cnt junk p
      ≡ some (if is_empty_list (components p) && junk then 1 else length (components p))
unfolding path_depth_cnt split
path_depth_cnt_lem junk p fits =
    let count = ap (λ (x : List Str). length x) (todo-path_parse p) in
    let left = length-todo (path_parse p).0 (path_parse p).1 in
    let shorter = length-parse_on (some p) in
    let list = empty-length (components p) in
    elim (Bool-cases (is_empty (path_parse p).0)) [
      | inl e ↦
          let rest = path_parse-empty p e in
          let none_left : length (components p) ≡ 0 = ground arith in
          elim (Bool-cases junk) [
            | inl j ↦
                rw (fits, e, j, list.1 none_left)
                  (depth_loop_lem (length p + 2) (path_parse p).1 0
                      (omega (arith, ap (λ (x : Str). length x) rest))
                    ∙ ap (λ x. some (1 + length (components x))) rest)
            | inr j ↦
                rw (fits, e, j, list.1 none_left, none_left)
                  (stopped (length p + 2) (path_parse p).1 0 (omega arith))
          ]
      | inr n ↦
          let name = nonempty (path_parse p).0 n in
          let some_left : is_empty_list (components p) ≡ false = ground arith in
          rw (fits, n, some_left)
            (depth_loop_lem (length p + 2) (path_parse p).1 0 (omega arith)
              ∙ ap some (ground arith))
    ]
