-- ===== src/Shell/WashLaws.antt =====
-- `wash_path` of shell/buildin_cmd.c against a reference that resolves the names of a path on a stack.
use zy_os.Base.{
  subst, length-append, ltb, lt→ltb, ◌≤◌, ℕ, zero, suc, ◌+◌, ◌<◌, ◌≡◌, ◌≢◌, inl, inr, refl, sym, ap,
  ◌∙◌, true, false, Option, none, some, List, [], ◌∷◌, ◌++◌, ◌==◌, if◌then◌else◌, length, arith,
  Bool-cases, ok,
}
use mathlib.Core.List.{append_assoc}
use zy_os.Shell.{
  Str, slash, dot, path_parse, parse_on, is_empty, same_upto, cut_last, go_up, wash_name, wash_loop,
  wash_path, names_fit, fits_from, starts_with, cwd_prefix, make_clear_abs_path,
}
use zy_os.Shell.Components.{
  components, split, flush, same, same_upto-same, Name-Chars, Chars, Name, or_nil, todo,
  todo-parse_on, todo-path_parse, length-parse_on, parse_on-Name,
}

-- The reference: the names so far, the last one first.
abbrev pub drop_last : List Str → List Str
drop_last [] = []
drop_last (n ∷ ns) = ns

abbrev pub enter : List Str → Str → List Str
enter ns name =
    if same (dot ∷ dot ∷ []) name
    then drop_last ns
    else if same (dot ∷ []) name
    then ns
    else name ∷ ns

abbrev pub resolve : List Str → List Str → List Str
resolve ns [] = ns
resolve ns (name ∷ names) = resolve (enter ns name) names

abbrev pub path_of : List Str → Str
path_of [] = []
path_of (n ∷ ns) = path_of ns ++ slash ∷ n

abbrev pub shown : List Str → Str
shown [] = slash ∷ []
shown (n ∷ ns) = path_of (n ∷ ns)

abbrev pub Names : List Str → Type 0
Names [] = Unit {0}
Names (n ∷ ns) = Name n × (is_empty n ≡ false) × Names ns

cut_last-Name : (n : Str) → Name n → cut_last n ≡ none
unfolding cut_last
cut_last-Name [] h = refl
cut_last-Name (c ∷ n) h = rw (cut_last-Name n h.2) (ground arith)

cut_last-append : (front n : Str) → Name n → cut_last (front ++ slash ∷ n) ≡ some front
unfolding cut_last
cut_last-append [] n h = rw (cut_last-Name n h) refl
cut_last-append (c ∷ front) n h = rw (cut_last-append front n h) refl

-- A path of at least one name starts with '/' and another character.
path_of-long :
    (n : Str) (ns : List Str)
    → Names (n ∷ ns)
    → (d : ℕ) × (rest : Str) × (d ≢ 0) × (path_of (n ∷ ns) ≡ slash ∷ d ∷ rest)
path_of-long [] ns h = absurd (ground (arith, h.1))
path_of-long (d ∷ n) [] h = (d, n, h.0.0, refl)
path_of-long n (m ∷ ns) h =
    let (d, rest, ne, e) = path_of-long m ns h.2 in
    (d, rest ++ slash ∷ n, ne, ap (λ p. p ++ slash ∷ n) e)

path_of-ne : (n : Str) (ns : List Str) (front : Str) → front ++ slash ∷ n ≢ []
path_of-ne n ns [] = λ e. cc
path_of-ne n ns (c ∷ front) = λ e. cc

go_up-some : (s front : Str) → front ≢ [] → go_up s (some front) ≡ front
go_up-some s [] ne = absurd (ne refl)
go_up-some s (c ∷ front) ne = refl

go_up-shown :
    (ns : List Str) → Names ns → go_up (shown ns) (cut_last (shown ns)) ≡ shown (drop_last ns)
unfolding cut_last
go_up-shown [] h = refl
go_up-shown (n ∷ []) h = rw (cut_last-append [] n h.0) refl
go_up-shown (n ∷ m ∷ ns) h =
    rw (cut_last-append (path_of (m ∷ ns)) n h.0)
      (go_up-some (path_of (n ∷ m ∷ ns)) (path_of (m ∷ ns)) (path_of-ne m ns (path_of ns)))

-- Only the path "/" compares equal to it.
same_upto-shown :
    (n : Str) (ns : List Str) → Names (n ∷ ns) → same_upto 1 (path_of (n ∷ ns)) (slash ∷ []) ≡ false
unfolding same_upto
same_upto-shown n ns h = let (d, rest, ne, e) = path_of-long n ns h in rw e (ground arith)

append-shown :
    (ns : List Str) (name : Str)
    → Names ns
    → (if same_upto 1 (shown ns) (slash ∷ []) then shown ns ++ name else shown ns ++ slash ∷ name)
      ≡ path_of (name ∷ ns)
append-shown [] name h = unfold same_upto in refl
append-shown (n ∷ ns) name h = rw (same_upto-shown n ns h) refl

dots : Chars (dot ∷ dot ∷ [])
dots = ((λ e. absurd (omega arith)), ((λ e. absurd (omega arith)), tt))

-- One round of the loop enters one name.
wash_name-shown :
    (ns : List Str) (name : Str)
    → Names ns
    → Name name
    → wash_name (shown ns) name ≡ shown (enter ns name)
unfolding wash_name
wash_name-shown ns name h k =
    let two = same_upto-same (dot ∷ dot ∷ []) name dots (Name-Chars name k) in
    let one = same_upto-same (dot ∷ []) name dots.1 (Name-Chars name k) in
    elim (Bool-cases (same (dot ∷ dot ∷ []) name)) [
      | inl up ↦ rw (two, up) (go_up-shown ns h)
      | inr n ↦ elim (Bool-cases (same (dot ∷ []) name)) [
        | inl here ↦ rw (two, n, one, here) refl
        | inr m ↦ rw (two, n, one, m) (append-shown ns name h)
      ]
    ]

drop_last-Names : (ns : List Str) → Names ns → Names (drop_last ns)
drop_last-Names [] h = tt
drop_last-Names (n ∷ ns) h = h.2

enter-Names :
    (ns : List Str) (name : Str)
    → Names ns
    → Name name
    → is_empty name ≡ false
    → Names (enter ns name)
enter-Names ns name h k e = elim (Bool-cases (same (dot ∷ dot ∷ []) name)) [
  | inl up ↦ rw up (drop_last-Names ns h)
  | inr n ↦ elim (Bool-cases (same (dot ∷ []) name)) [
    | inl here ↦ rw (n, here) h
    | inr m ↦ rw (n, m) (k, e, h)
  ]
]

todo_cons :
    (name : Str) (rest : Option Str)
    → is_empty name ≡ false
    → todo (name, rest) ≡ name ∷ components (or_nil rest)
todo_cons [] rest e = cc
todo_cons (c ∷ name) rest e = refl

todo_nil : (name : Str) (rest : Option Str) → is_empty name ≡ true → todo (name, rest) ≡ []
todo_nil [] rest e = refl
todo_nil (c ∷ name) rest e = cc

nonempty : (name : Str) → is_empty name ≡ false → 0 < length name
nonempty [] h = cc
nonempty (c ∷ name) h = omega arith

wash_loop_lem :
    (fuel : ℕ) (ns : List Str) (name : Str) (rest : Option Str)
    → Names ns
    → Name name
    → Chars (or_nil rest)
    → (if is_empty name then 0 else length (or_nil rest) + 1) < fuel
    → wash_loop fuel (shown ns) name rest ≡ some (shown (resolve ns (todo (name, rest))))
unfolding wash_loop
wash_loop_lem zero ns name rest h k chars enough = absurd (omega arith)
wash_loop_lem (suc fuel) ns name rest h k chars enough = elim (Bool-cases (is_empty name)) [
  | inl done ↦ rw (done, todo_nil name rest done) refl
  | inr more ↦
      let (k', chars') = parse_on-Name rest chars in
      let shorter = length-parse_on rest in
      let name' = (parse_on rest).0 in
      let enough' : (if is_empty name' then 0 else length (or_nil (parse_on rest).1) + 1) < fuel =
        elim (Bool-cases (is_empty name')) [
          | inl e ↦ rw e (ground arith)
          | inr n ↦ rw n (let some_name = nonempty name' n in ground arith)
        ] in
      rw (more, wash_name-shown ns name h k, todo_cons name rest more)
        (wash_loop_lem fuel (enter ns name) name' (parse_on rest).1 (enter-Names ns name h k more)
            k' chars' enough'
          ∙ ap (λ x. some (shown (resolve (enter ns name) x))) (todo-parse_on rest))
]

wash_start :
    (fuel : ℕ) (p : Str)
    → Chars p
    → length p + 1 < fuel
    → (if is_empty (path_parse p).0
        then some (slash ∷ [])
        else wash_loop fuel (slash ∷ []) (path_parse p).0 (path_parse p).1)
      ≡ some (shown (resolve [] (components p)))
wash_start fuel p chars enough =
    let (name, chars') = parse_on-Name (some p) chars in
    let shorter = length-parse_on (some p) in
    let first = todo-path_parse p in
    elim (Bool-cases (is_empty (path_parse p).0)) [
      | inl e ↦ rw (e, ← first, todo_nil (path_parse p).0 (path_parse p).1 e) refl
      | inr n ↦
          rw (n, ← first)
            (wash_loop_lem fuel [] (path_parse p).0 (path_parse p).1 tt name chars' (ground arith))
    ]

-- For an absolute path wash_path gives what resolving its names one by one on a stack gives, a name ".."
-- dropping the last one, "." none, shown with one '/' in front of each name, or as "/" where none is left.
pub wash_path_lem :
    (s : Str)
    → Chars s
    → names_fit (slash ∷ s) ≡ true
    → wash_path (slash ∷ s) ≡ ok (some (shown (resolve [] (components s))))
unfolding wash_path split
wash_path_lem s chars fits = rw fits (
    ap ok (
      wash_start (length (slash ∷ s) + 2) (slash ∷ s) ((λ e. absurd (omega arith)), chars)
        (omega arith)))

-- A path behind another one and a '/' adds its names.
split-append :
    (cur a b : Str) → split slash cur (a ++ slash ∷ b) ≡ split slash cur a ++ split slash [] b
unfolding split
split-append cur [] b = refl
split-append cur (c ∷ a) b = elim (Bool-cases (c == slash)) [
  | inl y ↦ rw y (
      ap (λ x. flush cur ++ x) (split-append [] a b)
      ∙ sym (append_assoc (flush cur) (split slash [] a) (split slash [] b)))
  | inr n ↦ rw n (split-append (cur ++ c ∷ []) a b)
]

Chars-append : (a b : Str) → Chars a → Chars b → Chars (a ++ slash ∷ b)
Chars-append [] b h k = ((λ e. absurd (omega arith)), k)
Chars-append (c ∷ a) b h k = (h.0, Chars-append a b h.1 k)

pub fits_from-join :
    (n : ℕ) (a b : Str)
    → fits_from n a ≡ true
    → names_fit b ≡ true
    → fits_from n (a ++ slash ∷ b) ≡ true
unfolding fits_from
fits_from-join n [] b h k = k
fits_from-join n (c ∷ a) b h k = elim (Bool-cases (c == slash)) [
  | inl y ↦ rw y (fits_from-join 0 a b (ground arith) k)
  | inr ne ↦ elim (Bool-cases (ltb n 15)) [
    | inl room ↦ rw (ne, room) (fits_from-join (n + 1) a b (ground arith) k)
    | inr full ↦ absurd (ground arith)
  ]
]

components-cwd :
    (c path : Str)
    → Chars c
    → Chars path
    → (s : Str) × (cwd_prefix (some (slash ∷ c)) ++ path ≡ slash ∷ s)
      × Chars s
      × (components s ≡ components c ++ components path)
      × (names_fit c ≡ true → names_fit path ≡ true → names_fit (slash ∷ s) ≡ true)
      × (length (slash ∷ s) ≤ length c + length path + 2)
unfolding split fits_from
components-cwd [] path h k = (path, refl, k, refl, (λ a b. b), omega arith)
components-cwd (d ∷ c) path h k = (
  (d ∷ c) ++ slash ∷ path,
  ap (λ x. slash ∷ d ∷ x) (append_assoc c (slash ∷ []) path),
  Chars-append (d ∷ c) path h k,
  split-append [] (d ∷ c) path,
  fits_from-join 0 (d ∷ c) path,
  omega (arith, length-append (d ∷ c) (slash ∷ path)),
)

wash_absolute :
    (path : Str)
    → Chars path
    → starts_with slash path ≡ true
    → names_fit path ≡ true
    → wash_path path ≡ ok (some (shown (resolve [] (components path))))
unfolding split
wash_absolute [] h y fits = cc
wash_absolute (c ∷ s) h y fits =
    let e : c ≡ slash = ground arith in
    rw e (wash_path_lem s h.1 (subst (λ d. names_fit (d ∷ s) ≡ true) e fits))

-- For an absolute current directory and a path, both without NUL, whose names have at most 15
-- characters, and with fewer than 510 characters together, the leading / of the directory not counted,
-- make_clear_abs_path gives what resolving the names one by one on a stack gives, a name ".." dropping
-- the last one and "." none: the names of an absolute path alone, and those of a relative path behind
-- the names of the current directory.
pub make_clear_abs_path_lem :
    (c path : Str)
    → Chars c
    → Chars path
    → names_fit c ≡ true
    → names_fit path ≡ true
    → length c + length path + 2 < 512
    → make_clear_abs_path (some (slash ∷ c)) path
      ≡ ok (
          some (
            shown (
              resolve [] (
                if starts_with slash path
                then components path
                else components c ++ components path))))
unfolding make_clear_abs_path
make_clear_abs_path_lem c path h k fits fits' room = elim (Bool-cases (starts_with slash path)) [
  | inl y ↦
      let short : ltb (length path) 512 ≡ true = ground arith in
      rw (y, short) (wash_absolute path k y fits')
  | inr n ↦
      let (s, e, chars, names, fit, len) = components-cwd c path h k in
      let short : ltb (length (slash ∷ s)) 512 ≡ true =
        lt→ltb (length (slash ∷ s)) 512 (omega (arith, len)) in
      rw (n, e, short)
        (wash_path_lem s chars (fit fits fits') ∙ ap (λ x. ok (some (shown (resolve [] x)))) names)
]
