-- ===== src/Fs/Cwd/Climb.antt =====
-- The path that `sys_getcwd` of fs/fs.c gives: the names from the root down.
use zy_os.Base.{
  ℕ, zero, suc, ◌+◌, ◌≤◌, ◌<◌, ◌≡◌, ◌≢◌, refl, sym, ap, ◌∙◌, true, false, Option, none, some, List,
  [], ◌∷◌, ◌++◌, ◌==◌, ltb, leb, lt→ltb, length, length-append, arith, Run, ok,
}
use mathlib.Core.List.{append_assoc, append-nil}
use zy_os.Fs.Inode.{Disk}
use zy_os.Fs.File.{Inode}
use zy_os.Fs.Cwd.{
  get_parent_dir_inode_nr, get_child_dir_name, climb, split_last, turn_round, sys_getcwd,
}
use zy_os.Fs.Paths.Resolve.{joined}
use zy_os.Fs.Paths.Names.{Slashless}
use zy_os.Shell.{Str, slash}
use zy_os.Shell.WashLaws.{path_of}

-- From the directory `c` it is `height` steps up to the root, and `names` are those from there down to
-- the one of `c`, in front of `below`.
pub data Climbs (parent_of : ℕ → Run ℕ) (name_of : ℕ → ℕ → Option Str)
    : (height c : ℕ) (below names : List Str) → Type 0 where
  at_root : (names : List Str) → Climbs parent_of name_of zero zero names names
  step_up :
      (height c p : ℕ) (name : Str) (below names : List Str)
      → c ≢ 0
      → parent_of c ≡ ok p
      → name_of p c ≡ some name
      → Slashless name
      → Climbs parent_of name_of height p (name ∷ below) names
      → Climbs parent_of name_of (suc height) c below names

abbrev AllSlashless : List Str → Type 0
AllSlashless [] = Unit {0}
AllSlashless (n ∷ ns) = Slashless n × AllSlashless ns

module _ (parent_of : ℕ → Run ℕ) (name_of : ℕ → ℕ → Option Str) where
  -- The path grows on the way up.
  Climbs-longer :
      {height c : ℕ} {below names : List Str}
      → Climbs parent_of name_of height c below names
      → length (path_of below) ≤ length (path_of names)
  Climbs-longer (at_root names) = omega arith
  Climbs-longer (step_up height c p name below names nz up named plain t) =
      omega (arith, Climbs-longer t, length-append (path_of below) (slash ∷ name))

  climb_lem :
      (fuel : ℕ) {height c : ℕ} {below names : List Str}
      → Climbs parent_of name_of height c below names
      → AllSlashless below
      → length (path_of names) < 512
      → height < fuel
      → (climb parent_of name_of fuel c (path_of below) ≡ ok (some (some (path_of names))))
        × AllSlashless names
  unfolding climb
  climb_lem zero t all fits enough = absurd (omega arith)
  climb_lem (suc fuel) (at_root names) all fits enough = (refl, all)
  climb_lem (suc fuel) (step_up height c p name below names nz up named plain t) all fits enough =
      let (run, rest) = climb_lem fuel t (plain, all) fits (omega arith) in
      let grown = Climbs-longer t in
      let inside : ltb 511 (length (path_of (name ∷ below))) ≡ false = ground arith in
      let other : (c == 0) ≡ false = ground arith in (rw (other, up, named, inside) run, rest)

split_last-none : (n : Str) → Slashless n → split_last n ≡ none
unfolding split_last
split_last-none [] h = refl
split_last-none (c ∷ n) h = ground (arith, split_last-none n h.1, h.0)

split_last-append : (a n : Str) → Slashless n → split_last (a ++ (slash ∷ n)) ≡ some (a, slash ∷ n)
unfolding split_last
split_last-append [] n h = rw (split_last-none n h) refl
split_last-append (c ∷ a) n h = rw (split_last-append a n h) refl

turn_round_lem :
    (fuel : ℕ) (names : List Str) (buf : Str)
    → AllSlashless names
    → length names < fuel
    → turn_round fuel (path_of names) buf ≡ some (buf ++ joined names)
unfolding turn_round joined
turn_round_lem zero names buf h enough = absurd (omega arith)
turn_round_lem (suc fuel) [] buf h enough =
    rw (split_last-none [] tt, turn_round) (ap some (sym (append-nil buf)))
turn_round_lem (suc fuel) (n ∷ names) buf h enough =
    rw (split_last-append (path_of names) n h.0, turn_round)
      (turn_round_lem fuel names (buf ++ (slash ∷ n)) h.1 (omega arith)
        ∙ ap some (append_assoc buf (slash ∷ n) (joined names)))

length-path_of : (names : List Str) → length names ≤ length (path_of names)
length-path_of [] = omega arith
length-path_of (n ∷ names) =
    omega (arith, length-path_of names, length-append (path_of names) (slash ∷ n))

-- For a current directory below the root whose chain of parents leads to the root in fewer steps than
-- the fuel, with a name without / in each parent, sys_getcwd, when it gets memory, gives the path of
-- these names from the root down, if that is shorter than the buffer and than 512 characters.
pub sys_getcwd_lem :
    (disk : Disk) (inode_of : ℕ → Inode) (data_start_lba fuel cwd_inode_nr size height : ℕ)
    (names : List Str)
    → Climbs
        (get_parent_dir_inode_nr disk inode_of data_start_lba)
        (get_child_dir_name disk inode_of)
        height
        cwd_inode_nr
        []
        names
    → cwd_inode_nr ≢ 0
    → cwd_inode_nr < 4096
    → height < fuel
    → length (path_of names) < size
    → length (path_of names) < 512
    → sys_getcwd disk inode_of true data_start_lba fuel cwd_inode_nr size
      ≡ ok (some (some (joined names)))
unfolding sys_getcwd
sys_getcwd_lem disk inode_of data_start_lba fuel cwd_inode_nr size height names up nz small enough
      room fits =
    let (run, plain) = climb_lem _ _ fuel up tt fits enough in
    let other : (cwd_inode_nr == 0) ≡ false = ground arith in
    let inside : leb (length (path_of names)) size ≡ true = ground arith in
    let ended : (length (path_of names) == size) ≡ false = ground arith in
    let turned =
      turn_round_lem (length (path_of names) + 1) names [] plain
        (omega (arith, length-path_of names)) in
    rw (lt→ltb cwd_inode_nr 4096 small, other, run, inside, ended, turned) refl
