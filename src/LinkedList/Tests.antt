-- ===== src/LinkedList/Tests.antt =====
-- A list of two elements at the address 100, and the theorems at it.
use zy_os.Base.{ℕ, ◌≡◌, some, [], ◌∷◌, true, arith, ◌==◌, if◌then◌else◌}
use zy_os.LinkedList.{Store, ListElem, list_remove, list_len}
use zy_os.LinkedList.Links.{IsList}
use zy_os.LinkedList.Edit.{remove_lem}
use zy_os.LinkedList.Walk.{len_lem}

abbrev elem_at : ℕ → ListElem
elem_at p =
    if p == 100
    then record { prev = 0; next = 20 }
    else if p == 20
    then record { prev = 100; next = 30 }
    else if p == 30
    then record { prev = 20; next = 108 }
    else record { prev = 30; next = 0 }

abbrev store : Store
store = record { elem = elem_at; intr_on = true }

two : IsList store 100 (20 ∷ 30 ∷ [])
two = record { links = ground arith; distinct = ground arith }

remove_lem_example : IsList (list_remove 30 store) 100 (20 ∷ [])
remove_lem_example = remove_lem store 100 30 (20 ∷ []) [] two

len_lem_example : list_len 3 100 store ≡ some 2
len_lem_example = len_lem 3 store 100 (20 ∷ 30 ∷ []) (omega arith) (omega arith) two
