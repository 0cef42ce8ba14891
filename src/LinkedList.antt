-- ===== src/LinkedList.antt =====
-- lib/kernel/list.c and list.h: doubly linked lists, with the interrupt flag of kernel/interrupt.c.
-- A pointer is a number; `elem p` is the `struct list_elem` at the address `p`. The head of a list lies
-- at its address, its tail 8 bytes on. The walks run on fuel, and `none` means that it ran out.
pub mod Links
pub mod Edit
pub mod Walk
mod Tests
use zy_os.Base.{
  ℕ, zero, suc, ◌+◌, ◌%◌, ◌^◌, Bool, true, false, Option, none, some, ◌==◌, if◌then◌else◌, update,
}

abbrev pub Ptr : Type 0
Ptr = ℕ

pub record ListElem : Type 0 where
  pub prev : Ptr
  pub next : Ptr

pub record Store : Type 0 where
  pub elem : Ptr → ListElem
  pub intr_on : Bool

-- `intr_disable`, with the status that it returns, and `intr_set_status`.
unfoldable pub intr_disable : Store → Bool × Store
intr_disable s = (s.intr_on, record s { intr_on = false })

unfoldable pub intr_set_status : Bool → Store → Store
intr_set_status status s = record s { intr_on = status }

abbrev pub head_of : Ptr → Ptr
head_of plist = plist

abbrev pub tail_of : Ptr → Ptr
tail_of plist = plist + 8

abbrev pub prev_of : Store → Ptr → Ptr
prev_of s p = (s.elem p).prev

abbrev pub next_of : Store → Ptr → Ptr
next_of s p = (s.elem p).next

-- `p->next = q` and `p->prev = q`
abbrev pub set_next : Ptr → Ptr → Store → Store
set_next p q s = record s { elem = update s.elem p (record { prev = prev_of s p; next = q }) }

abbrev pub set_prev : Ptr → Ptr → Store → Store
set_prev p q s = record s { elem = update s.elem p (record { prev = q; next = next_of s p }) }

unfoldable pub list_init : Ptr → Store → Store
list_init plist s0 =
    let s1 = set_prev (head_of plist) 0 s0 in
    let s2 = set_next (head_of plist) (tail_of plist) s1 in
    let s3 = set_prev (tail_of plist) (head_of plist) s2 in set_next (tail_of plist) 0 s3

unfoldable pub list_insert_before : Ptr → Ptr → Store → Store
unfolding intr_disable intr_set_status
list_insert_before before elem s0 =
    let (old_status, s1) = intr_disable s0 in
    let s2 = set_next (prev_of s1 before) elem s1 in
    let s3 = set_prev elem (prev_of s2 before) s2 in
    let s4 = set_next elem before s3 in
    let s5 = set_prev before elem s4 in intr_set_status old_status s5

unfoldable pub list_push : Ptr → Ptr → Store → Store
list_push plist elem s = list_insert_before (next_of s (head_of plist)) elem s

unfoldable pub list_append : Ptr → Ptr → Store → Store
list_append plist elem s = list_insert_before (tail_of plist) elem s

unfoldable pub list_remove : Ptr → Store → Store
unfolding intr_disable intr_set_status
list_remove pelem s0 =
    let (old_status, s1) = intr_disable s0 in
    let s2 = set_next (prev_of s1 pelem) (next_of s1 pelem) s1 in
    let s3 = set_prev (next_of s2 pelem) (prev_of s2 pelem) s2 in intr_set_status old_status s3

unfoldable pub list_pop : Ptr → Store → Ptr × Store
list_pop plist s = let elem = next_of s (head_of plist) in (elem, list_remove elem s)

find_from : ℕ → Store → (tail obj elem : Ptr) → Option Bool
find_from zero s tail obj elem = none
find_from (suc fuel) s tail obj elem =
    let rest = find_from fuel s tail obj (next_of s elem) in
    if elem == tail then some false else if elem == obj then some true else rest

unfoldable pub elem_find : ℕ → Ptr → Ptr → Store → Option Bool
unfolding find_from
elem_find fuel plist obj_elem s =
    find_from fuel s (tail_of plist) obj_elem (next_of s (head_of plist))

unfoldable pub list_empty : Ptr → Store → Bool
list_empty plist s = next_of s (head_of plist) == tail_of plist

traverse_from : ℕ → Store → (Ptr → ℕ → Bool) → ℕ → (tail elem : Ptr) → Option (Option Ptr)
traverse_from zero s func arg tail elem = none
traverse_from (suc fuel) s func arg tail elem =
    let rest = traverse_from fuel s func arg tail (next_of s elem) in
    if elem == tail then some none else if func elem arg then some (some elem) else rest

-- The inner option is the pointer returned, `none` for `NULL`. A callback that changes the store is not
-- covered.
unfoldable pub list_traversal : ℕ → Ptr → (Ptr → ℕ → Bool) → ℕ → Store → Option (Option Ptr)
unfolding traverse_from list_empty
list_traversal fuel plist func arg s =
    if list_empty plist s
    then some none
    else traverse_from fuel s func arg (tail_of plist) (next_of s (head_of plist))

len_from : ℕ → Store → (tail elem : Ptr) → ℕ → Option ℕ
len_from zero s tail elem length = none
len_from (suc fuel) s tail elem length =
    let rest = len_from fuel s tail (next_of s elem) ((length + 1) % 2 ^ 32) in
    if elem == tail then some length else rest

unfoldable pub list_len : ℕ → Ptr → Store → Option ℕ
unfolding len_from
list_len fuel plist s = len_from fuel s (tail_of plist) (next_of s (head_of plist)) 0
