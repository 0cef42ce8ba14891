-- ===== src/Fs/Paths/Resolve.antt =====
-- What `search_file` of fs/fs.c finds: the names of the path resolved one by one.
use zy_os.Base.{
  ℕ, zero, suc, ◌+◌, ◌≤◌, ◌<◌, ◌≡◌, ◌≢◌, ◌⊎◌, inl, inr, refl, sym, ap, ◌∙◌, subst, Bool, true,
  false, ◌||◌, Option, none, some, List, [], ◌∷◌, ◌++◌, ◌==◌, ltb, if◌then◌else◌, length,
  length-append, arith, Bool-cases, lt→ltb, ok,
}
use mathlib.Core.List.{append_assoc, append-nil}
use zy_os.Fs.Opened.{list_without}
use zy_os.Fs.Paths.{
  Dir, root_dir, opened, dir_i_no, dir_close, FoundEntry, Searched, Found, go_into, whole_path,
  search_loop, search_file, is_root, cleared, ft_regular, ft_directory,
}
use zy_os.Shell.{
  Str, slash, same_upto, names_fit, fits_from, path_parse, parse_on, is_empty, skip_char, take_word,
  drop_word, starts_with,
}
use zy_os.Shell.WashLaws.{fits_from-join}
use zy_os.Shell.Components.{
  components, or_nil, todo, todo-parse_on, todo-path_parse, length-drop_word, length-skip_char,
  or_nil-or_null,
}

-- Where a path leads: to a name that is missing in a directory, to a file in one, or to a directory.
pub data Outcome : Type 0 where
  missing : (dir : ℕ) → Outcome
  file : (dir i_no : ℕ) → Outcome
  directory : (parent i_no : ℕ) → Outcome

abbrev pub result_of : Outcome → Option ℕ
result_of (missing dir) = none
result_of (file dir i_no) = some i_no
result_of (directory parent i_no) = some i_no

abbrev type_of : Outcome → ℕ
type_of (missing dir) = 0
type_of (file dir i_no) = 1
type_of (directory parent i_no) = 2

abbrev pub parent_of : Outcome → ℕ
parent_of (missing dir) = dir
parent_of (file dir i_no) = dir
parent_of (directory parent i_no) = parent

abbrev also : Str → Outcome × List Str → Outcome × List Str
also n (o, ns) = (o, n ∷ ns)

-- Each name is looked up in the directory before it, up to a file or a name that is missing. With the
-- outcome come the names that were looked up.
unfoldable pub walk :
    (look : ℕ → Str → Option FoundEntry) (parent dir : ℕ) → List Str → Outcome × List Str
walk look parent dir [] = (directory parent dir, [])
walk look parent dir (n ∷ ns) = elim (look dir n) [
  | none ↦ (missing dir, n ∷ [])
  | some e ↦
      if e.f_type == ft_regular then (file dir e.i_no, n ∷ []) else also n (walk look dir e.i_no ns)
]

-- The names, each behind a slash.
unfoldable pub joined : List Str → Str
joined [] = []
joined (n ∷ ns) = (slash ∷ n) ++ joined ns

-- The directories that are open when `dir` is kept.
abbrev pub with_dir : Dir → List ℕ → List ℕ
with_dir root_dir held = held
with_dir (opened i_no) held = i_no ∷ held

pub record Resolved (held : List ℕ) (path : Str) (w : Outcome × List Str) (f : Found) : Type 0 where
  pub result : f.0 ≡ result_of w.0
  pub searched : f.1.searched_path ≡ path ++ joined w.1
  pub file_type : f.1.file_type ≡ type_of w.0
  pub parent : dir_i_no f.1.parent_dir ≡ parent_of w.0
  pub holds : f.1.held ≡ with_dir f.1.parent_dir held
  pub fits : names_fit f.1.searched_path ≡ true

-- Every entry that is found is of a file or of a directory.
abbrev pub Typed : (ℕ → Str → Option FoundEntry) → Type 0
Typed look =
    (dir : ℕ) (name : Str) (e : FoundEntry)
    → look dir name ≡ some e
    → (e.f_type ≡ ft_regular) ⊎ (e.f_type ≡ ft_directory)

pub dir_close-with_dir : (d : Dir) (held : List ℕ) → dir_close d (with_dir d held) ≡ held
unfolding list_without
dir_close-with_dir root_dir held = refl
dir_close-with_dir (opened i_no) held = ground arith

-- What a name and the slash before it take from the path.
abbrev slashed : Str → Bool
slashed s = is_empty s || starts_with slash s

length-skip_slash :
    (s : Str) → starts_with slash s ≡ true → length (skip_char slash s) + 1 ≤ length s
unfolding skip_char
length-skip_slash [] h = cc
length-skip_slash (c ∷ s) h = ground (arith, length-skip_char slash s)

drop_word-slashed : (s : Str) → slashed (drop_word slash s) ≡ true
unfolding drop_word
drop_word-slashed [] = refl
drop_word-slashed (c ∷ s) = ground (arith, drop_word-slashed s)

parse_on-slashed : (p : Option Str) → slashed (or_nil (parse_on p).1) ≡ true
unfolding path_parse
parse_on-slashed none = refl
parse_on-slashed (some p) =
    let s = skip_char slash p in rw (or_nil-or_null (drop_word slash s)) (drop_word-slashed s)

length-parse_slash :
    (p : Str)
    → starts_with slash p ≡ true
    → length (or_nil (path_parse p).1) + length (path_parse p).0 + 1 ≤ length p
unfolding path_parse
length-parse_slash p h =
    let s = skip_char slash p in
    let e = ap (λ (x : Str). length x) (or_nil-or_null (drop_word slash s)) in
    omega (arith, length-drop_word slash s, length-skip_slash p h, e)

length-parse_on_slash :
    (p : Option Str)
    → slashed (or_nil p) ≡ true
    → is_empty (parse_on p).0 ≡ false
    → length (or_nil (parse_on p).1) + length (parse_on p).0 + 1 ≤ length (or_nil p)
unfolding path_parse skip_char take_word
length-parse_on_slash none h more = cc
length-parse_on_slash (some []) h more = cc
length-parse_on_slash (some (c ∷ p)) h more = length-parse_slash (c ∷ p) (ground arith)

pub option_cases {ℓ} : {A : Type ℓ} (o : Option A) → (o ≡ none) ⊎ ((a : A) × (o ≡ some a))
option_cases none = inl refl
option_cases (some a) = inr (a, refl)

-- The name that is parsed, and what is left, fit if the path does.
skip_char-fits : (s : Str) → names_fit s ≡ true → names_fit (skip_char slash s) ≡ true
unfolding fits_from skip_char
skip_char-fits [] h = refl
skip_char-fits (c ∷ s) h = elim (Bool-cases (c == slash)) [
  | inl y ↦ rw y (skip_char-fits s (ground arith))
  | inr ne ↦
      let kept : skip_char slash (c ∷ s) ≡ c ∷ s = rw ne refl in
      ap (λ (x : Str). names_fit x) kept ∙ h
]

length-take_fits :
    (n : ℕ) (s : Str) → n ≤ 15 → fits_from n s ≡ true → n + length (take_word slash s) ≤ 15
unfolding fits_from take_word
length-take_fits n [] h f = omega arith
length-take_fits n (c ∷ s) h f = elim (Bool-cases (c == slash)) [
  | inl y ↦ rw y (omega arith)
  | inr ne ↦ elim (Bool-cases (ltb n 15)) [
    | inl room ↦
        let ih = length-take_fits (n + 1) s (ground arith) (ground arith) in
        rw ne (omega (arith, ih))
    | inr full ↦ absurd (ground arith)
  ]
]

drop_word-fits : (n : ℕ) (s : Str) → fits_from n s ≡ true → names_fit (drop_word slash s) ≡ true
unfolding fits_from drop_word
drop_word-fits n [] h = refl
drop_word-fits n (c ∷ s) h = elim (Bool-cases (c == slash)) [
  | inl y ↦ rw (y, y) (ground arith)
  | inr ne ↦ elim (Bool-cases (ltb n 15)) [
    | inl room ↦ rw ne (drop_word-fits (n + 1) s (ground arith))
    | inr full ↦ absurd (ground arith)
  ]
]

parse_fits :
    (p : Option Str)
    → names_fit (or_nil p) ≡ true
    → (length (parse_on p).0 ≤ 15) × (names_fit (or_nil (parse_on p).1) ≡ true)
unfolding path_parse fits_from
parse_fits none h = (omega arith, refl)
parse_fits (some p) h =
    let s = skip_char slash p in
    let f = skip_char-fits p h in
    let short = length-take_fits 0 s (omega arith) f in
    (
      omega (arith, short),
      ap (λ (x : Str). names_fit x) (or_nil-or_null (drop_word slash s)) ∙ drop_word-fits 0 s f,
    )

-- A name behind a path that fits.
short_fits : (n : ℕ) (s : Str) → n + length s ≤ 15 → fits_from n s ≡ true
unfolding fits_from
short_fits n [] h = refl
short_fits n (c ∷ s) h = elim (Bool-cases (c == slash)) [
  | inl y ↦ rw y (short_fits 0 s (omega arith))
  | inr ne ↦
      let room : ltb n 15 ≡ true = ground arith in
      rw (ne, room) (short_fits (n + 1) s (omega arith))
]

-- The state of the loop in front of a name: what is kept open, and what is left of the path.
record Ready (held : List ℕ) (s : Searched) (name : Str) (sub_path : Option Str) : Type 0 where
  kind : s.file_type ≡ 0
  holds : s.held ≡ with_dir s.parent_dir held
  last : is_empty name ≡ true → s.dir_e ≡ dir_i_no s.parent_dir
  behind : slashed (or_nil sub_path) ≡ true
  fits : names_fit s.searched_path ≡ true
  name_fits : length name ≤ 15
  rest_fits : names_fit (or_nil sub_path) ≡ true
  short :
      is_empty name ≡ false
      → length s.searched_path + length name + length (or_nil sub_path) + 1 < 512

-- A directory is entered.
go_into-Ready :
    (held : List ℕ) (s : Searched) (name : Str) (sub_path : Option Str) (e : FoundEntry)
    → Ready held s name sub_path
    → is_empty name ≡ false
    → Ready held
        (go_into e (record s { searched_path = s.searched_path ++ (slash ∷ name) }))
        (parse_on sub_path).0
        (parse_on sub_path).1
go_into-Ready held s name sub_path e r more = record {
  kind = r.kind;
  holds =
      ap (λ (x : List ℕ). e.i_no ∷ dir_close s.parent_dir x) r.holds
      ∙ ap (λ (x : List ℕ). e.i_no ∷ x) (dir_close-with_dir s.parent_dir held);
  last = λ empty. refl;
  behind = parse_on-slashed sub_path;
  fits =
      fits_from-join 0 s.searched_path name r.fits (short_fits 0 name (omega (arith, r.name_fits)));
  name_fits = (parse_fits sub_path r.rest_fits).0;
  rest_fits = (parse_fits sub_path r.rest_fits).1;
  short = λ some_left. omega (
    arith,
    r.short more,
    length-append s.searched_path (slash ∷ name),
    length-parse_on_slash sub_path r.behind some_left,
  );
}

-- A name more in front of what the rest of the walk looked up.
also-Resolved :
    (held : List ℕ) (path n : Str) (w : Outcome × List Str) (f : Found)
    → Resolved held (path ++ (slash ∷ n)) w f
    → Resolved held path (also n w) f
unfolding joined
also-Resolved held path n (o, ns) f r = record {
  result = r.result;
  searched = r.searched ∙ append_assoc path (slash ∷ n) (joined ns);
  file_type = r.file_type;
  parent = r.parent;
  holds = r.holds;
  fits = r.fits;
}

longer : (p : Str) → starts_with slash p ≡ true → is_root p ≡ false → ltb 1 (length p) ≡ true
unfolding same_upto
longer [] h other = cc
longer (c ∷ []) h other = ground arith
longer (c ∷ d ∷ p) h other = ground arith

-- No name comes first exactly if there is none.
no_name : (name : Str) (rest : Option Str) → todo (name, rest) ≢ [] → is_empty name ≡ true → ⊥
no_name [] rest h e = h refl
no_name (c ∷ n) rest h e = cc

module _ (look : ℕ → Str → Option FoundEntry) (typed : Typed look) (held : List ℕ) where
  search_loop_lem :
      (fuel : ℕ) (s : Searched) (name : Str) (sub_path : Option Str)
      → 0 < fuel
      → (is_empty name ≡ false → length (or_nil sub_path) + 1 < fuel)
      → Ready held s name sub_path
      → (f : Found) × (search_loop look fuel s name sub_path ≡ ok (some f))
        × Resolved held s.searched_path
            (walk look s.parent_inode_no (dir_i_no s.parent_dir) (todo (name, sub_path)))
            f
  unfolding search_loop walk joined
  search_loop_lem zero s name sub_path left enough r = absurd (omega arith)
  search_loop_lem (suc fuel) s [] sub_path left enough r = (
    whole_path s,
    refl,
    record {
      result = ap some (r.last refl);
      searched = sym (append-nil s.searched_path);
      file_type = refl;
      parent = refl;
      holds =
          ap (λ (x : List ℕ). s.parent_inode_no ∷ dir_close s.parent_dir x) r.holds
          ∙ ap (λ (x : List ℕ). s.parent_inode_no ∷ x) (dir_close-with_dir s.parent_dir held);
      fits = r.fits;
    },
  )
  search_loop_lem (suc fuel) s (c ∷ n) sub_path left enough r =
      let short = lt→ltb (length s.searched_path) 512 (omega (arith, r.short refl)) in
      let path = s.searched_path ++ (slash ∷ c ∷ n) in
      let longer_fits =
        fits_from-join 0 s.searched_path (c ∷ n) r.fits
          (short_fits 0 (c ∷ n) (omega (arith, r.name_fits))) in
      let next_fits : ltb 15 (length (parse_on sub_path).0) ≡ false =
        let small = (parse_fits sub_path r.rest_fits).0 in ground arith in
      elim (option_cases (look (dir_i_no s.parent_dir) (c ∷ n))) [
        | inl absent ↦
            rw (short, absent)
              (
                (none, record s { searched_path = path }),
                refl,
                record {
                  result = refl;
                  searched =
                      ap (λ (x : Str). s.searched_path ++ x) (sym (append-nil (slash ∷ c ∷ n)));
                  file_type = r.kind;
                  parent = refl;
                  holds = r.holds;
                  fits = longer_fits;
                },
              )
        | inr (e, there) ↦ elim (Bool-cases (e.f_type == 1)) [
          | inl is_file ↦
              rw (short, there, next_fits, is_file)
                (
                  (
                    some e.i_no,
                    record s { searched_path = path; file_type = ft_regular; dir_e = e.i_no },
                  ),
                  refl,
                  record {
                    result = refl;
                    searched =
                        ap (λ (x : Str). s.searched_path ++ x) (sym (append-nil (slash ∷ c ∷ n)));
                    file_type = refl;
                    parent = refl;
                    holds = r.holds;
                    fits = longer_fits;
                  },
                )
          | inr not_file ↦
              let is_dir : (e.f_type == 2) ≡ true =
                ground (arith, typed (dir_i_no s.parent_dir) (c ∷ n) e there) in
              let s' = go_into e (record s { searched_path = path }) in
              let ready = go_into-Ready held s (c ∷ n) sub_path e r refl in
              let (f, run, res) =
                search_loop_lem fuel s' (parse_on sub_path).0 (parse_on sub_path).1
                  (omega (arith, enough refl))
                  (λ more. omega (arith, enough refl, length-parse_on_slash sub_path r.behind more))
                  ready in
              rw (short, there, next_fits, not_file, is_dir)
                (
                  f,
                  run,
                  also-Resolved held s.searched_path (c ∷ n) _ f (
                      subst
                        (λ ns. Resolved held path (walk look (dir_i_no s.parent_dir) e.i_no ns) f)
                        (todo-parse_on sub_path) res),
                )
        ]
      ]

  -- For an absolute path of fewer than 512 characters with at least one name and none of more than 15
  -- characters, which is not taken for the root, where entries are files or directories, search_file
  -- ends, and returns what following the names one by one from the root gives, a file ending the walk:
  -- the number or -1, the type, the parent directory, the names looked up as the searched path, and the
  -- directories held before together with that parent and no others left open.
  pub search_file_lem :
      (junk : ℕ) (pathname : Str)
      → starts_with slash pathname ≡ true
      → is_root pathname ≡ false
      → length pathname < 512
      → names_fit pathname ≡ true
      → components pathname ≢ []
      → (f : Found) × (search_file look junk held pathname ≡ ok (some f))
        × Resolved held [] (walk look 0 0 (components pathname)) f
  unfolding search_file fits_from
  search_file_lem junk pathname absolute other short fit some_name =
      let parsed = path_parse pathname in
      let in_bounds = lt→ltb (length pathname) 512 short in
      let named : todo parsed ≢ [] =
        subst (λ ns. ns ≢ []) (sym (todo-path_parse pathname)) some_name in
      let shorter = length-parse_slash pathname absolute in
      let ready : Ready held (cleared junk held) parsed.0 parsed.1 = record {
        kind = refl;
        holds = refl;
        last = λ empty. absurd (no_name parsed.0 parsed.1 named empty);
        behind = parse_on-slashed (some pathname);
        fits = refl;
        name_fits = (parse_fits (some pathname) fit).0;
        rest_fits = (parse_fits (some pathname) fit).1;
        short = λ more. omega (arith, shorter);
      } in
      let (f, run, res) =
        search_loop_lem (length pathname + 2) (cleared junk held) parsed.0 parsed.1 (omega arith)
          (λ more. omega (arith, shorter)) ready in
      let small = (parse_fits (some pathname) fit).0 in
      let name_small : ltb 15 (length parsed.0) ≡ false = ground arith in
      rw (other, absolute, longer pathname absolute other, in_bounds, name_small)
        (f, run, subst (λ ns. Resolved held [] (walk look 0 0 ns) f) (todo-path_parse pathname) res)
