-- ===== src/LinkedList/Edit.antt =====
-- Insertion and removal, as operations on the sequence of elements.
use zy_os.Base.{◌≡◌, ◌≢◌, refl, ◌∙◌, sym, ap, subst, List, [], ◌∷◌, ◌++◌, arith}
use mathlib.Core.List.{append_assoc}
use zy_os.LinkedList.{
  Ptr, Store, prev_of, next_of, tail_of, list_init, list_insert_before, list_push, list_append,
  list_remove, list_pop,
}
use zy_os.LinkedList.Links.{
  NotIn, Distinct, Links, IsList, last_of, prev-last_of, next-first_of, NotIn-last_of,
  NotIn-first_of, NotIn-append, NotIn-join, Links-split, Links-frame, ne_of_NotIn, NotIn_last,
}

-- What an insertion changes, cell by cell.
insert-next :
    (b e k : Ptr) (s : Store)
    → k ≢ e
    → k ≢ prev_of s b
    → next_of (list_insert_before b e s) k ≡ next_of s k
unfolding list_insert_before
insert-next b e k s h1 h2 = ground arith

insert-prev :
    (b e k : Ptr) (s : Store) → k ≢ e → k ≢ b → prev_of (list_insert_before b e s) k ≡ prev_of s k
unfolding list_insert_before
insert-prev b e k s h1 h2 = ground arith

insert-cells :
    (b e : Ptr) (s : Store)
    → e ≢ b
    → e ≢ prev_of s b
    → prev_of s b ≢ b
    → let s' = list_insert_before b e s in
      (next_of s' (prev_of s b) ≡ e)
      × (prev_of s' e ≡ prev_of s b)
      × (next_of s' e ≡ b)
      × (prev_of s' b ≡ e)
unfolding list_insert_before
insert-cells b e s h1 h2 h3 = ground arith

-- The elements up to the place of insertion.
insert_end :
    (s : Store) (a : Ptr) (xs : List Ptr) (b e : Ptr)
    → Links s a xs b
    → Distinct (a ∷ (xs ++ b ∷ []))
    → NotIn e (a ∷ (xs ++ b ∷ []))
    → Links (list_insert_before b e s) a (xs ++ e ∷ []) b
insert_end s a [] b e h d n =
    let c = insert-cells b e s n.1.0 (ground arith) (ground arith) in ground arith
insert_end s a (x ∷ xs) b e h d n =
    let ih = insert_end s x xs b e h.2 d.1 n.1 in
    let ends = NotIn-append a (x ∷ xs) (b ∷ []) d.0 in
    let last = prev-last_of s x xs b h.2 in
    let ends' = NotIn-append e (x ∷ xs) (b ∷ []) n.1 in
    let ne = NotIn-last_of a x xs ends.0 in
    let ne' = NotIn-last_of e x xs ends'.0 in
    let xb : x ≢ b = (NotIn-append x xs (b ∷ []) d.1.0).1.0 in
    (
      insert-next b e a s (ground arith) (ground arith) ∙ h.0,
      insert-prev b e x s (ground arith) xb ∙ h.1,
      ih,
    )

-- The elements behind the place of insertion.
insert_rest :
    (s : Store) (m : Ptr) (ys : List Ptr) (b e : Ptr)
    → Links s m ys b
    → NotIn e (m ∷ (ys ++ b ∷ []))
    → NotIn (prev_of s m) (m ∷ ys)
    → NotIn m (ys ++ b ∷ [])
    → Links (list_insert_before m e s) m ys b
insert_rest s m ys b e h n l d =
    Links-frame s (list_insert_before m e s) m ys b
      (λ k f.
        insert-next m e k s (ne_of_NotIn (m ∷ ys) (NotIn-append e (m ∷ ys) (b ∷ []) n).0 f)
          (ne_of_NotIn (m ∷ ys) l f))
      (λ k f.
        insert-prev m e k s (ne_of_NotIn (ys ++ b ∷ []) n.1 f) (ne_of_NotIn (ys ++ b ∷ []) d f))
      h

Distinct-snoc :
    (xs : List Ptr) (e t : Ptr)
    → Distinct (xs ++ t ∷ [])
    → NotIn e (xs ++ t ∷ [])
    → Distinct ((xs ++ e ∷ []) ++ t ∷ [])
Distinct-snoc [] e t d n = ((n.0, tt), (tt, tt))
Distinct-snoc (x ∷ xs) e t d n =
    let parts = NotIn-append x xs (t ∷ []) d.0 in
    (
      NotIn-join x (xs ++ e ∷ []) (t ∷ []) (NotIn-join x xs (e ∷ []) parts.0 (λ q. n.0 (sym q), tt))
          parts.1,
      Distinct-snoc xs e t d.1 n.1,
    )

-- list_append of an element that is not in a well-formed list makes the well-formed list with the
-- element at its end.
append_lem :
    (s : Store) (p e : Ptr) (xs : List Ptr)
    → IsList s p xs
    → NotIn e (p ∷ (xs ++ tail_of p ∷ []))
    → IsList (list_append p e s) p (xs ++ e ∷ [])
unfolding list_append
append_lem s p e xs v n = record {
  links = insert_end s p xs (tail_of p) e v.links v.distinct n;
  distinct = Distinct-snoc (p ∷ xs) e (tail_of p) v.distinct n;
}

-- list_push of an element that is not in a well-formed list makes the well-formed list with the element
-- at its front.
pub push_lem :
    (s : Store) (p e : Ptr) (xs : List Ptr)
    → IsList s p xs
    → NotIn e (p ∷ (xs ++ tail_of p ∷ []))
    → IsList (list_push p e s) p (e ∷ xs)
unfolding list_push
push_lem s p e [] v n = record {
  links = rw v.links.0 (insert_end s p [] (tail_of p) e v.links v.distinct n);
  distinct = (((λ q. n.0 (sym q)), v.distinct.0), (n.1, v.distinct.1));
}
push_lem s p e (x ∷ xs) v n =
    let d = v.distinct in
    let before =
      insert_end s p [] x e (v.links.0, v.links.1) ((d.0.0, tt), (tt, tt)) (n.0, (n.1.0, tt)) in
    let apart = NotIn-append p (x ∷ xs) (tail_of p ∷ []) d.0 in
    let after =
      insert_rest s x xs (tail_of p) e v.links.2 n.1
        (subst (λ z. NotIn z (x ∷ xs)) (sym v.links.1) apart.0) d.1.0 in
    record {
      links =
          subst (λ z. Links z p (e ∷ x ∷ xs) (tail_of p))
            (sym (ap (λ b. list_insert_before b e s) v.links.0))
            (before.0, before.1, (before.2.0, before.2.1, after));
      distinct = (((λ q. n.0 (sym q)), d.0), (n.1, d.1));
    }

remove-next : (e k : Ptr) (s : Store) → k ≢ prev_of s e → next_of (list_remove e s) k ≡ next_of s k
unfolding list_remove
remove-next e k s h = ground arith

remove-prev :
    (e k : Ptr) (s : Store)
    → e ≢ prev_of s e
    → k ≢ next_of s e
    → prev_of (list_remove e s) k ≡ prev_of s k
unfolding list_remove
remove-prev e k s h n = ground arith

remove-cells :
    (e : Ptr) (s : Store)
    → e ≢ prev_of s e
    → let s' = list_remove e s in
      (next_of s' (prev_of s e) ≡ next_of s e) × (prev_of s' (next_of s e) ≡ prev_of s e)
unfolding list_remove
remove-cells e s h = ground arith

remove-Links :
    (s : Store) (a : Ptr) (xs : List Ptr) (e : Ptr) (ys : List Ptr) (b : Ptr)
    → Links s a xs e
    → Links s e ys b
    → Distinct (a ∷ (xs ++ e ∷ (ys ++ b ∷ [])))
    → Links (list_remove e s) a (xs ++ ys) b
remove-Links s a [] e [] b l r d = let c = remove-cells e s (ground arith) in ground arith
remove-Links s a [] e (y ∷ ys) b l r d =
    let c = remove-cells e s (ground arith) in
    let apart = NotIn-append a (y ∷ ys) (b ∷ []) d.0.1 in
    (
      ground arith,
      ground arith,
      Links-frame s (list_remove e s) y ys b
          (λ k f.
            remove-next e k s
              (ne_of_NotIn (y ∷ ys) (subst (λ z. NotIn z (y ∷ ys)) (sym l.1) apart.0) f))
          (λ k f.
            remove-prev e k s (ground arith) (
              ne_of_NotIn (ys ++ b ∷ []) (subst (λ z. NotIn z (ys ++ b ∷ [])) (sym r.0) d.1.1.0) f))
          r.2,
    )
remove-Links s a (x ∷ xs) e ys b l r d =
    let ih = remove-Links s x xs e ys b l.2 r d.1 in
    let last = prev-last_of s x xs e l.2 in
    let fst = next-first_of s e ys b r in
    let apart = NotIn-append a (x ∷ xs) (e ∷ (ys ++ b ∷ [])) d.0 in
    let apart' = NotIn-append x xs (e ∷ (ys ++ b ∷ [])) d.1.0 in
    let ne = NotIn-last_of a x xs apart.0 in
    let ne' = NotIn-first_of x ys b apart'.1.1 in
    let ne'' : e ≢ last_of x xs = NotIn_last e x xs (ys ++ b ∷ []) apart'.1.0 d.1.1 in
    (
      remove-next e a s (ground arith) ∙ l.0,
      remove-prev e x s (ground arith) (ground arith) ∙ l.1,
      ih,
    )

Distinct-drop :
    (xs : List Ptr) (e : Ptr) (ys : List Ptr) → Distinct (xs ++ e ∷ ys) → Distinct (xs ++ ys)
Distinct-drop [] e ys d = d.1
Distinct-drop (x ∷ xs) e ys d =
    let parts = NotIn-append x xs (e ∷ ys) d.0 in
    (NotIn-join x xs ys parts.0 parts.1.1, Distinct-drop xs e ys d.1)

-- list_remove of an element of a well-formed list makes the well-formed list of the others, in their
-- order.
pub remove_lem :
    (s : Store) (p e : Ptr) (xs ys : List Ptr)
    → IsList s p (xs ++ e ∷ ys)
    → IsList (list_remove e s) p (xs ++ ys)
remove_lem s p e xs ys v =
    let parts = Links-split s p xs e ys (tail_of p) v.links in
    let d : Distinct (p ∷ (xs ++ e ∷ (ys ++ tail_of p ∷ []))) =
      rw (← append_assoc xs (e ∷ ys) (tail_of p ∷ [])) v.distinct in
    record {
      links = remove-Links s p xs e ys (tail_of p) parts.0 parts.1 d;
      distinct =
          rw (append_assoc xs ys (tail_of p ∷ []))
            (Distinct-drop (p ∷ xs) e (ys ++ tail_of p ∷ []) d);
    }

-- list_pop of a well-formed list that is not empty returns the first element and leaves the well-formed
-- list of the others.
pub pop_lem :
    (s : Store) (p x : Ptr) (xs : List Ptr)
    → IsList s p (x ∷ xs)
    → ((list_pop p s).0 ≡ x) × IsList (list_pop p s).1 p xs
unfolding list_pop
pop_lem s p x xs v = (v.links.0, rw v.links.0 (remove_lem s p x [] xs v))

-- `list_init` makes an empty list.
pub init_lem : (s : Store) (p : Ptr) → IsList (list_init p s) p []
unfolding list_init
init_lem s p = record { links = ground arith; distinct = ((omega arith, tt), (tt, tt)) }

-- Insertion and removal leave the interrupt flag as they found it.
pub intr_lem :
    (s : Store) (b e : Ptr)
    → ((list_insert_before b e s).intr_on ≡ s.intr_on) × ((list_remove e s).intr_on ≡ s.intr_on)
unfolding list_insert_before list_remove
intr_lem s b e = (refl, refl)
