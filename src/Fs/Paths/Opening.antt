-- ===== src/Fs/Paths/Opening.antt =====
-- `sys_open` and `sys_unlink` of fs/fs.c: what they ask for, by where the path leads.
use zy_os.Base.{
  ℕ, ◌<◌, ◌≡◌, ◌≢◌, inl, inr, refl, ap, ◌∙◌, Bool, true, false, not, ◌&&◌, Option, none, some, List,
  [], ◌∷◌, ◌==◌, leb, lt→ltb, if◌then◌else◌, length, bit_and, arith, Bool-cases, ok,
}
use zy_os.Fs.Paths.{Dir, dir_i_no, dir_close, FoundEntry, Searched, Found, is_root}
use zy_os.Fs.Paths.Calls.{
  Asked, refused, create, open_inode, o_creat, ends_in_slash, behind_last, open_searched, sys_open,
  unlink_searched, in_use, sys_unlink,
}
use zy_os.Fs.Opened.{Opened}
use zy_os.Fs.Paths.Resolve.{
  Outcome, missing, file, directory, walk, with_dir, Resolved, Typed, option_cases, search_file_lem,
  dir_close-with_dir, result_of, parent_of,
}
use zy_os.Fs.Paths.Names.{split-Plain, components-joined, walk-Plain}
use zy_os.Shell.{Str, names_fit, path_depth_cnt, starts_with, slash}
use zy_os.Shell.Components.{components}
use zy_os.Shell.Depth.{is_empty_list, path_depth_cnt_lem}

-- The answer by where the path leads, if all of its names were looked up.
abbrev open_answer : (pathname : Str) (creat whole : Bool) → Outcome → Asked
open_answer pathname creat whole (missing dir) =
    if creat && whole then create dir (behind_last pathname) else refused
open_answer pathname creat whole (file dir i_no) =
    if not creat && whole then open_inode i_no else refused
open_answer pathname creat whole (directory parent i_no) = refused

-- The directories that are left open: the parent's stays open when a file is opened.
abbrev pub LeftOpen : Asked → (parent : ℕ) (held after : List ℕ) → Type 0
LeftOpen refused parent held after = after ≡ held
LeftOpen (create dir name) parent held after = after ≡ held
LeftOpen (open_inode i_no) parent held after =
    (d : Dir) × (dir_i_no d ≡ parent) × (after ≡ with_dir d held)

depth_of :
    (junk : Bool) (p : Str) (ns : List Str)
    → names_fit p ≡ true
    → components p ≡ ns
    → is_empty_list ns ≡ false
    → path_depth_cnt junk p ≡ some (length ns)
depth_of junk p ns fits e some_name = path_depth_cnt_lem junk p fits ∙ rw (e, some_name) refl

walk_nonempty :
    (look : ℕ → Str → Option FoundEntry) (parent dir : ℕ) (ns : List Str)
    → is_empty_list ns ≡ false
    → is_empty_list (walk look parent dir ns).1 ≡ false
unfolding walk
walk_nonempty look parent dir [] h = cc
walk_nonempty look parent dir (n ∷ ns) h = elim (option_cases (look dir n)) [
  | inl absent ↦ ground arith
  | inr (entry, there) ↦ elim (Bool-cases (entry.f_type == 1)) [
    | inl y ↦ ground arith
    | inr other ↦ ground arith
  ]
]

closed :
    (s : Searched) (held : List ℕ)
    → s.held ≡ with_dir s.parent_dir held
    → dir_close s.parent_dir s.held ≡ held
closed s held e =
    ap (λ (x : List ℕ). dir_close s.parent_dir x) e ∙ dir_close-with_dir s.parent_dir held

record Answered (parent : ℕ) (held : List ℕ) (request : Asked) (o : Option (Asked × List ℕ))
    : Type 0 where
  after : List ℕ
  answer : o ≡ some (request, after)
  left : LeftOpen request parent held after

module _ (junk : Bool) (pathname : Str) (flags : ℕ) (all : List Str) (held : List ℕ) where
  open_searched_lem :
      (w : Outcome × List Str) (f : Found)
      → Resolved held [] w f
      → path_depth_cnt junk pathname ≡ some (length all)
      → path_depth_cnt junk f.1.searched_path ≡ some (length w.1)
      → Answered
          (parent_of w.0)
          held
          (open_answer pathname (not (bit_and flags o_creat == 0)) (length all == length w.1) w.0)
          (open_searched junk pathname flags (some f))
  open_searched_lem (missing dir, ns) (o, s) r whole part =
      let shut = closed s held r.holds in
      elim (Bool-cases (length all == length ns)) [
        | inl w ↦ elim (Bool-cases (bit_and flags 4 == 0)) [
          | inl c ↦
              rw (w, c) record { after = held; answer = ground (arith, r.file_type); left = refl }
          | inr c ↦
              rw (w, c) record { after = held; answer = ground (arith, r.file_type); left = refl }
        ]
        | inr w ↦ elim (Bool-cases (bit_and flags 4 == 0)) [
          | inl c ↦
              rw (w, c) record { after = held; answer = ground (arith, r.file_type); left = refl }
          | inr c ↦
              rw (w, c) record { after = held; answer = ground (arith, r.file_type); left = refl }
        ]
      ]
  open_searched_lem (file dir i_no, ns) (o, s) r whole part =
      let shut = closed s held r.holds in
      elim (Bool-cases (length all == length ns)) [
        | inl w ↦ elim (Bool-cases (bit_and flags 4 == 0)) [
          | inl c ↦
              rw (w, c)
                record {
                  after = s.held;
                  answer = ground (arith, r.file_type);
                  left = (s.parent_dir, r.parent, r.holds);
                }
          | inr c ↦
              rw (w, c) record { after = held; answer = ground (arith, r.file_type); left = refl }
        ]
        | inr w ↦ elim (Bool-cases (bit_and flags 4 == 0)) [
          | inl c ↦
              rw (w, c) record { after = held; answer = ground (arith, r.file_type); left = refl }
          | inr c ↦
              rw (w, c) record { after = held; answer = ground (arith, r.file_type); left = refl }
        ]
      ]
  open_searched_lem (directory parent i_no, ns) (o, s) r whole part =
      let shut = closed s held r.holds in
      record { after = held; answer = ground (arith, r.file_type); left = refl }

no_names : (ns : List Str) → ns ≢ [] → is_empty_list ns ≡ false
no_names [] h = absurd (h refl)
no_names (n ∷ ns) h = refl

abbrev unlink_answer : (busy : ℕ → Bool) → Outcome → Option (ℕ × ℕ)
unlink_answer busy (missing dir) = none
unlink_answer busy (file dir i_no) = if busy i_no then none else some (dir, i_no)
unlink_answer busy (directory parent i_no) = none

unlink_searched_lem :
    (opens : Opened) (held : List ℕ) (w : Outcome × List Str) (f : Found)
    → Resolved held [] w f
    → result_of w.0 ≢ some 0
    → unlink_searched opens (some f) ≡ ok (some (unlink_answer (in_use opens) w.0, held))
unlink_searched_lem opens held (missing dir, ns) (o, s) r nz =
    let shut = closed s held r.holds in ground (arith, r.result)
unlink_searched_lem opens held (file dir i_no, ns) (o, s) r nz =
    let shut = closed s held r.holds in
    let at : o ≡ some i_no = r.result in
    elim (Bool-cases (in_use opens i_no)) [
      | inl y ↦ ground (arith, r.file_type, r.parent, nz)
      | inr n ↦ ground (arith, r.file_type, r.parent, nz)
    ]
unlink_searched_lem opens held (directory parent i_no, ns) (o, s) r nz =
    let shut = closed s held r.holds in
    let at : o ≡ some i_no = r.result in ground (arith, r.file_type, nz)

module _ (look : ℕ → Str → Option FoundEntry) (typed : Typed look) (held : List ℕ) (dir_e : ℕ)
    (pathname : Str) (absolute : starts_with slash pathname ≡ true)
    (other : is_root pathname ≡ false) (short : length pathname < 512)
    (fit : names_fit pathname ≡ true) (some_name : components pathname ≢ []) where
  -- For an absolute path of fewer than 512 characters with at least one name and none of more than 15
  -- characters, which is not taken for the root, where entries are files or directories, and for flags
  -- below 8 and no / at the end of the path, sys_open asks for the opening of the file if the path leads
  -- to one by all of its names and O_CREAT is not set, for the creation in the directory reached if only
  -- the last name is missing and O_CREAT is set, and refuses otherwise; when it asks for an opening the
  -- parent directory, unless it is the root, stays open besides those from before, and otherwise none
  -- does.
  pub sys_open_lem :
      (junk : Bool) (flags : ℕ)
      → ends_in_slash pathname ≡ false
      → flags < 8
      → let w = walk look 0 0 (components pathname) in
        let creat = not (bit_and flags o_creat == 0) in
        let request = open_answer pathname creat (length (components pathname) == length w.1) w.0 in
        (after : List ℕ) × (sys_open look junk dir_e held pathname flags
          ≡ ok (some (request, after)))
        × LeftOpen request (parent_of w.0) held after
  unfolding sys_open
  sys_open_lem junk flags plain_end small =
      let ns = components pathname in
      let w = walk look 0 0 ns in
      let (f, run, r) =
        search_file_lem look typed held dir_e pathname absolute other short fit some_name in
      let plain = walk-Plain look 0 0 ns (split-Plain [] pathname tt) in
      let some_left = no_names ns some_name in
      let shown = ap components r.searched ∙ components-joined w.1 plain in
      let a =
        open_searched_lem junk pathname flags ns held w f r
          (depth_of junk pathname ns fit refl some_left)
          (depth_of junk f.1.searched_path w.1 r.fits shown
            (walk_nonempty look 0 0 ns some_left)) in
      let in_range : leb flags 7 ≡ true = ground arith in
      (a.after, rw (plain_end, in_range, run) (ap ok a.answer), a.left)

  -- For an absolute path of fewer than 512 characters with at least one name and none of more than 15
  -- characters, which is not taken for the root, where entries are files or directories, and unless it
  -- leads to the inode 0, sys_unlink goes on to delete the first file on the path if no open file has its
  -- number, whether or not the path has names behind it, refuses a directory and a missing name, and
  -- leaves no directory open.
  pub sys_unlink_lem :
      (opens : Opened)
      → let w = walk look 0 0 (components pathname) in
        result_of w.0 ≢ some 0
        → sys_unlink look dir_e opens held pathname
          ≡ ok (some (unlink_answer (in_use opens) w.0, held))
  unfolding sys_unlink
  sys_unlink_lem opens nz =
      let (f, run, r) =
        search_file_lem look typed held dir_e pathname absolute other short fit some_name in
      rw (lt→ltb (length pathname) 512 short, run)
        (unlink_searched_lem opens held (walk look 0 0 (components pathname)) f r nz)
