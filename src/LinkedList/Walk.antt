-- ===== src/LinkedList/Walk.antt =====
-- The walks over a list: search, traversal, length and the test for emptiness.
use zy_os.Base.{
  ℕ, zero, suc, ◌+◌, ◌^◌, ◌<◌, ◌≡◌, ◌≢◌, refl, Bool, true, false, Option, none, some, List, [], ◌∷◌,
  ◌++◌, arith, ◌==◌, if◌then◌else◌, length,
}
use zy_os.LinkedList.{
  Ptr, Store, next_of, tail_of, find_from, elem_find, list_empty, traverse_from, list_traversal,
  len_from, list_len,
}
use zy_os.LinkedList.Links.{Distinct, Links, IsList, NotIn-append}

-- Whether `a` is one of the elements.
abbrev pub has : Ptr → List Ptr → Bool
has a [] = false
has a (x ∷ xs) = if x == a then true else has a xs

-- The first element that the callback accepts.
abbrev pub first_match : (Ptr → Bool) → List Ptr → Option Ptr
first_match f [] = none
first_match f (x ∷ xs) = if f x then some x else first_match f xs

find_from_lem :
    (fuel : ℕ) (s : Store) (tail obj a x : Ptr) (xs : List Ptr)
    → length xs < fuel
    → Links s a xs tail
    → Distinct (xs ++ tail ∷ [])
    → x ≡ next_of s a
    → find_from fuel s tail obj x ≡ some (has obj xs)
unfolding find_from
find_from_lem zero s tail obj a x xs h l d e = absurd (omega arith)
find_from_lem (suc fuel) s tail obj a x [] h l d e = ground arith
find_from_lem (suc fuel) s tail obj a x (y ∷ ys) h l d e =
    let ne : y ≢ tail = (NotIn-append y ys (tail ∷ []) d.0).1.0 in
    let ih = find_from_lem fuel s tail obj y (next_of s y) ys (omega arith) l.2 d.1 refl in
    ground arith

-- With more fuel than elements, elem_find of a well-formed list ends and says whether the element is in
-- the list.
pub find_lem :
    (fuel : ℕ) (s : Store) (p obj : Ptr) (xs : List Ptr)
    → length xs < fuel
    → IsList s p xs
    → elem_find fuel p obj s ≡ some (has obj xs)
unfolding elem_find
find_lem fuel s p obj xs h v =
    find_from_lem fuel s (tail_of p) obj p (next_of s p) xs h v.links v.distinct.1 refl

traverse_from_lem :
    (fuel : ℕ) (s : Store) (func : Ptr → ℕ → Bool) (arg : ℕ) (tail a x : Ptr) (xs : List Ptr)
    → length xs < fuel
    → Links s a xs tail
    → Distinct (xs ++ tail ∷ [])
    → x ≡ next_of s a
    → traverse_from fuel s func arg tail x ≡ some (first_match (λ q. func q arg) xs)
unfolding traverse_from
traverse_from_lem zero s func arg tail a x xs h l d e = absurd (omega arith)
traverse_from_lem (suc fuel) s func arg tail a x [] h l d e = ground arith
traverse_from_lem (suc fuel) s func arg tail a x (y ∷ ys) h l d e =
    let ne : y ≢ tail = (NotIn-append y ys (tail ∷ []) d.0).1.0 in
    let ih = traverse_from_lem fuel s func arg tail y (next_of s y) ys (omega arith) l.2 d.1 refl in
    ground arith

-- `list_empty` is true of the empty list only.
pub empty_lem :
    (s : Store) (p : Ptr) (xs : List Ptr) → IsList s p xs → list_empty p s ≡ (length xs == 0)
unfolding list_empty
empty_lem s p [] v = ground (arith, v.links.0)
empty_lem s p (x ∷ xs) v =
    let ne : x ≢ tail_of p = (NotIn-append x xs (tail_of p ∷ []) v.distinct.1.0).1.0 in
    ground (arith, v.links.0)

-- With more fuel than elements, list_traversal of a well-formed list ends and returns the first element
-- that the callback accepts, or NULL when there is none.
pub traversal_lem :
    (fuel : ℕ) (s : Store) (p : Ptr) (func : Ptr → ℕ → Bool) (arg : ℕ) (xs : List Ptr)
    → length xs < fuel
    → IsList s p xs
    → list_traversal fuel p func arg s ≡ some (first_match (λ q. func q arg) xs)
unfolding list_traversal
traversal_lem fuel s p func arg [] h v = ground (arith, empty_lem s p [] v)
traversal_lem fuel s p func arg (x ∷ xs) h v =
    let from =
      traverse_from_lem fuel s func arg (tail_of p) p (next_of s p) (x ∷ xs) h v.links v.distinct.1
        refl in
    let more : (suc (length xs) == 0) ≡ false = ground arith in
    rw (empty_lem s p (x ∷ xs) v, more, list_traversal) from

len_from_lem :
    (fuel : ℕ) (s : Store) (tail a x : Ptr) (n : ℕ) (xs : List Ptr)
    → length xs < fuel
    → n + length xs < 2 ^ 32
    → Links s a xs tail
    → Distinct (xs ++ tail ∷ [])
    → x ≡ next_of s a
    → len_from fuel s tail x n ≡ some (n + length xs)
unfolding len_from
len_from_lem zero s tail a x n xs h m l d e = absurd (omega arith)
len_from_lem (suc fuel) s tail a x n [] h m l d e = ground arith
len_from_lem (suc fuel) s tail a x n (y ∷ ys) h m l d e =
    let ne : y ≢ tail = (NotIn-append y ys (tail ∷ []) d.0).1.0 in
    let ih =
      len_from_lem fuel s tail y (next_of s y) (n + 1) ys (omega arith) (omega arith) l.2 d.1
        refl in
    ground arith

-- With more fuel than elements, and fewer than 2^32 of them, `list_len` counts the elements.
pub len_lem :
    (fuel : ℕ) (s : Store) (p : Ptr) (xs : List Ptr)
    → length xs < fuel
    → length xs < 2 ^ 32
    → IsList s p xs
    → list_len fuel p s ≡ some (length xs)
unfolding list_len
len_lem fuel s p xs h m v = ground (
  arith,
  len_from_lem fuel s (tail_of p) p (next_of s p) 0 xs h (omega arith) v.links v.distinct.1 refl,
)
