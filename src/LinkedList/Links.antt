-- ===== src/LinkedList/Links.antt =====
-- Chains of list elements: what `prev` and `next` say of a sequence of distinct addresses.
use zy_os.Base.{◌≡◌, ◌≢◌, refl, sym, subst, ◌∙◌, List, [], ◌∷◌, ◌++◌}
use zy_os.LinkedList.{Ptr, Store, prev_of, next_of, tail_of}

abbrev pub NotIn : Ptr → List Ptr → Type 0
NotIn a [] = Unit
NotIn a (x ∷ xs) = (a ≢ x) × NotIn a xs

abbrev pub Distinct : List Ptr → Type 0
Distinct [] = Unit
Distinct (x ∷ xs) = NotIn x xs × Distinct xs

-- From `a` the elements `xs` lead to `b`, forwards by `next` and backwards by `prev`.
abbrev pub Links : Store → Ptr → List Ptr → Ptr → Type 0
Links s a [] b = (next_of s a ≡ b) × (prev_of s b ≡ a)
Links s a (x ∷ xs) b = (next_of s a ≡ x) × (prev_of s x ≡ a) × Links s x xs b

-- The list at `p` holds `xs`, in this order.
pub record IsList (s : Store) (p : Ptr) (xs : List Ptr) : Type 0 where
  pub links : Links s p xs (tail_of p)
  pub distinct : Distinct (p ∷ (xs ++ tail_of p ∷ []))

pub last_of : Ptr → List Ptr → Ptr
last_of a [] = a
last_of a (x ∷ xs) = last_of x xs

pub first_of : List Ptr → Ptr → Ptr
first_of [] b = b
first_of (x ∷ xs) b = x

pub prev-last_of :
    (s : Store) (a : Ptr) (xs : List Ptr) (b : Ptr) → Links s a xs b → prev_of s b ≡ last_of a xs
unfolding last_of
prev-last_of s a [] b h = h.1
prev-last_of s a (x ∷ xs) b h = prev-last_of s x xs b h.2

pub next-first_of :
    (s : Store) (a : Ptr) (xs : List Ptr) (b : Ptr) → Links s a xs b → next_of s a ≡ first_of xs b
unfolding first_of
next-first_of s a [] b h = h.0
next-first_of s a (x ∷ xs) b h = h.0

pub NotIn-last_of : (a x : Ptr) (xs : List Ptr) → NotIn a (x ∷ xs) → a ≢ last_of x xs
unfolding last_of
NotIn-last_of a x [] h = h.0
NotIn-last_of a x (y ∷ ys) h = NotIn-last_of a y ys h.1

pub NotIn-first_of :
    (a : Ptr) (xs : List Ptr) (b : Ptr) → NotIn a (xs ++ b ∷ []) → a ≢ first_of xs b
unfolding first_of
NotIn-first_of a [] b h = h.0
NotIn-first_of a (x ∷ xs) b h = h.0

pub NotIn-append : (a : Ptr) (xs ys : List Ptr) → NotIn a (xs ++ ys) → NotIn a xs × NotIn a ys
NotIn-append a [] ys h = (tt, h)
NotIn-append a (x ∷ xs) ys h = let (l, r) = NotIn-append a xs ys h.1 in ((h.0, l), r)

pub NotIn-join : (a : Ptr) (xs ys : List Ptr) → NotIn a xs → NotIn a ys → NotIn a (xs ++ ys)
NotIn-join a [] ys l r = r
NotIn-join a (x ∷ xs) ys l r = (l.0, NotIn-join a xs ys l.1 r)

pub Links-split :
    (s : Store) (a : Ptr) (xs : List Ptr) (e : Ptr) (ys : List Ptr) (b : Ptr)
    → Links s a (xs ++ e ∷ ys) b
    → Links s a xs e × Links s e ys b
Links-split s a [] e ys b h = ((h.0, h.1), h.2)
Links-split s a (x ∷ xs) e ys b h = let (l, r) = Links-split s x xs e ys b h.2 in ((h.0, h.1, l), r)

pub Links-join :
    (s : Store) (a : Ptr) (xs : List Ptr) (e : Ptr) (ys : List Ptr) (b : Ptr)
    → Links s a xs e
    → Links s e ys b
    → Links s a (xs ++ e ∷ ys) b
Links-join s a [] e ys b l r = (l.0, l.1, r)
Links-join s a (x ∷ xs) e ys b l r = (l.0, l.1, Links-join s x xs e ys b l.2 r)

-- A chain survives what keeps `next` of its elements but the last, and `prev` of all but the first.
pub Links-frame :
    (s s' : Store) (a : Ptr) (xs : List Ptr) (b : Ptr)
    → ((k : Ptr) → (NotIn k (a ∷ xs) → ⊥) → next_of s' k ≡ next_of s k)
    → ((k : Ptr) → (NotIn k (xs ++ b ∷ []) → ⊥) → prev_of s' k ≡ prev_of s k)
    → Links s a xs b
    → Links s' a xs b
Links-frame s s' a [] b n p h = (n a (λ f. f.0 refl) ∙ h.0, p b (λ f. f.0 refl) ∙ h.1)
Links-frame s s' a (x ∷ xs) b n p h = (
  n a (λ f. f.0 refl) ∙ h.0,
  p x (λ f. f.0 refl) ∙ h.1,
  Links-frame s s' x xs b (λ k f. n k (λ g. f g.1)) (λ k f. p k (λ g. f g.1)) h.2,
)

pub ne_of_NotIn : {c k : Ptr} (xs : List Ptr) → NotIn c xs → (NotIn k xs → ⊥) → k ≢ c
ne_of_NotIn xs h f e = f (subst (λ z. NotIn z xs) (sym e) h)

pub NotIn_last :
    (e x : Ptr) (xs : List Ptr) (zs : List Ptr) → x ≢ e → Distinct (xs ++ e ∷ zs) → e ≢ last_of x xs
unfolding last_of
NotIn_last e x [] zs h d = λ q. h (sym q)
NotIn_last e x (y ∷ ys) zs h d = NotIn_last e y ys zs (NotIn-append y ys (e ∷ zs) d.0).1.0 d.1
