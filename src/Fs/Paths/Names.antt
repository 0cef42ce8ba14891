-- ===== src/Fs/Paths/Names.antt =====
-- The names that `search_file` of fs/fs.c records, and the number of names of the recorded path.
use zy_os.Base.{
  ℕ, ◌≡◌, ◌≢◌, inl, inr, refl, sym, ap, subst, ◌∙◌, false, Option, List, [], ◌∷◌, ◌++◌, ◌==◌, arith,
  Bool-cases,
}
use mathlib.Core.List.{append_assoc, append-nil}
use zy_os.Fs.Paths.{FoundEntry}
use zy_os.Fs.Paths.Resolve.{walk, joined, option_cases}
use zy_os.Shell.{Str, slash, is_empty}
use zy_os.Shell.Components.{components, split, flush}

-- A name without a slash, and a list of such names, none of them empty.
abbrev pub Slashless : Str → Type 0
Slashless [] = Unit {0}
Slashless (c ∷ s) = (c ≢ slash) × Slashless s

abbrev Plain : List Str → Type 0
Plain [] = Unit {0}
Plain (n ∷ ns) = (is_empty n ≡ false) × Slashless n × Plain ns

Slashless-append : (a : Str) (c : ℕ) → Slashless a → c ≢ slash → Slashless (a ++ c ∷ [])
Slashless-append [] c h ne = (ne, tt)
Slashless-append (d ∷ a) c h ne = (h.0, Slashless-append a c h.1 ne)

flush-Plain : (cur : Str) (ns : List Str) → Slashless cur → Plain ns → Plain (flush cur ++ ns)
flush-Plain [] ns h p = p
flush-Plain (c ∷ cur) ns h p = (refl, h, p)

pub split-Plain : (cur s : Str) → Slashless cur → Plain (split slash cur s)
unfolding split
split-Plain [] [] h = tt
split-Plain (c ∷ cur) [] h = (refl, h, tt)
split-Plain cur (c ∷ s) h = elim (Bool-cases (c == slash)) [
  | inl y ↦ rw y (flush-Plain cur (split slash [] s) h (split-Plain [] s tt))
  | inr n ↦ rw n (split-Plain (cur ++ c ∷ []) s (Slashless-append cur c h (ground arith)))
]

-- A name in front is read whole.
split-name : (cur n s : Str) → Slashless n → split slash cur (n ++ s) ≡ split slash (cur ++ n) s
unfolding split
split-name cur [] s h = ap (λ x. split slash x s) (sym (append-nil cur))
split-name cur (c ∷ n) s h =
    let ne : (c == slash) ≡ false = ground (arith, h.0) in
    rw ne
      (split-name (cur ++ c ∷ []) n s h.1 ∙ ap (λ x. split slash x s) (append_assoc cur (c ∷ []) n))

split-joined :
    (cur : Str) (ns : List Str) → Plain ns → split slash cur (joined ns) ≡ flush cur ++ ns
unfolding split joined
split-joined cur [] h = sym (append-nil (flush cur))
split-joined cur (n ∷ ns) h =
    ap (λ x. flush cur ++ x)
      (split-name [] n (joined ns) h.1 ∙ split-joined n ns h.2 ∙ flushed n ns h.0)
  where
    flushed : (m : Str) (ms : List Str) → is_empty m ≡ false → flush m ++ ms ≡ m ∷ ms
    flushed [] ms e = cc
    flushed (c ∷ m) ms e = refl

pub components-joined : (ns : List Str) → Plain ns → components (joined ns) ≡ ns
components-joined ns h = split-joined [] ns h

-- What is looked up is a part of the path.
pub walk-Plain :
    (look : ℕ → Str → Option FoundEntry) (parent dir : ℕ) (ns : List Str)
    → Plain ns
    → Plain (walk look parent dir ns).1
unfolding walk
walk-Plain look parent dir [] h = tt
walk-Plain look parent dir (n ∷ ns) h = elim (option_cases (look dir n)) [
  | inl absent ↦
      let e : (walk look parent dir (n ∷ ns)).1 ≡ n ∷ [] = ground arith in
      subst Plain (sym e) (h.0, h.1, tt)
  | inr (entry, there) ↦ elim (Bool-cases (entry.f_type == 1)) [
    | inl y ↦
        let e : (walk look parent dir (n ∷ ns)).1 ≡ n ∷ [] = ground arith in
        subst Plain (sym e) (h.0, h.1, tt)
    | inr other ↦
        let e : (walk look parent dir (n ∷ ns)).1 ≡ n ∷ (walk look dir entry.i_no ns).1 =
          ground arith in
        subst Plain (sym e) (h.0, h.1, walk-Plain look dir entry.i_no ns h.2)
  ]
]
