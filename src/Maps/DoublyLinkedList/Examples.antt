-- ===== src/Maps/DoublyLinkedList/Examples.antt =====
-- Runs of the doubly linked map on a storage in memory, with the theorems' conditions met.
use veax.Base.{ℕ, ◌≡◌, refl, true, none, some, List, [], ◌∷◌, arith}
use veax.Base.Eq.{nat_eq}
use veax.Base.Panic.{done, panic}
use veax.Maps.Entries.{lookup, put}
use veax.Maps.Memory.{Memory, memory_env, numbers, doubly_nodes, empty}
use veax.Maps.Storage.{read_node-unused}
use veax.Maps.DoublyLinkedList.{
  DoublyLinkedListMap, get_stored_node, new, iter, get, contains_key, insert, remove, pop, clear,
  collect,
}
use veax.Maps.DoublyLinkedList.State.{IsMap}
use veax.Maps.DoublyLinkedList.Read.{new-IsMap, get-lookup}
use veax.Maps.DoublyLinkedList.Insert.{insert-put}
use veax.Maps.DoublyLinkedList.Remove.{remove-erase}
use veax.Maps.DoublyLinkedList.Drain.{contains_key-has, pop-cons, collect-iter, clear-panics}

abbrev fresh : DoublyLinkedListMap ℕ
fresh = new (9 ∷ [])

unused : (k : ℕ) → get_stored_node memory_env numbers doubly_nodes fresh k empty ≡ done none
unfolding get_stored_node
unused k = read_node-unused memory_env numbers doubly_nodes _ k empty refl

fresh-IsMap : IsMap memory_env numbers doubly_nodes fresh empty []
fresh-IsMap = new-IsMap memory_env numbers doubly_nodes (9 ∷ []) empty unused

abbrev Inserted : DoublyLinkedListMap ℕ → Memory → List (ℕ × ℕ) → ℕ → ℕ → Type 0
Inserted m s xs k v =
    (m' : DoublyLinkedListMap ℕ) × (s' : Memory) × (insert memory_env numbers doubly_nodes m k v s
      ≡ done (lookup k xs, m', s'))
    × IsMap memory_env numbers doubly_nodes m' s' (put k v xs)

abbrev one_in : Inserted fresh empty [] 7 70
one_in = insert-put memory_env numbers doubly_nodes fresh empty [] 7 70 fresh-IsMap (omega arith)

abbrev two_in : Inserted one_in.0 one_in.1 ((7, 70) ∷ []) 5 50
two_in =
    insert-put memory_env numbers doubly_nodes one_in.0 one_in.1 ((7, 70) ∷ []) 5 50 one_in.3
      (omega arith)

abbrev two_map : DoublyLinkedListMap ℕ
two_map = two_in.0

abbrev two_store : Memory
two_store = two_in.1

abbrev two : List (ℕ × ℕ)
two = (5, 50) ∷ (7, 70) ∷ []

insert-put_example : Inserted two_map two_store two 7 71
insert-put_example =
    insert-put memory_env numbers doubly_nodes two_map two_store two 7 71 two_in.3 (omega arith)

remove-erase_example :
    (m' : DoublyLinkedListMap ℕ) × (s' : Memory) × (remove memory_env numbers doubly_nodes two_map 7
        two_store
      ≡ done (some 70, m', s'))
    × IsMap memory_env numbers doubly_nodes m' s' ((5, 50) ∷ [])
remove-erase_example = remove-erase memory_env numbers doubly_nodes two_map two_store two 7 two_in.3

pop-cons_example :
    (m' : DoublyLinkedListMap ℕ) × (s' : Memory) × (pop memory_env numbers doubly_nodes two_map
        two_store
      ≡ done (some (5, 50), m', s'))
    × IsMap memory_env numbers doubly_nodes m' s' ((7, 70) ∷ [])
pop-cons_example =
    pop-cons memory_env numbers doubly_nodes two_map two_store 5 50 ((7, 70) ∷ []) two_in.3

collect-iter_example : collect memory_env numbers doubly_nodes 3 (iter two_map) two_store ≡ done two
collect-iter_example =
    collect-iter memory_env numbers doubly_nodes 3 two_map two_store two two_in.3 (omega arith)

get-lookup_example : get memory_env numbers doubly_nodes two_map 7 two_store ≡ done (some 70)
get-lookup_example = get-lookup memory_env numbers doubly_nodes two_map two_store two two_in.3 7

contains_key-has_example : contains_key memory_env numbers doubly_nodes two_map 7 two_store ≡ true
contains_key-has_example =
    contains_key-has memory_env numbers doubly_nodes two_map two_store two 7 two_in.3

clear-panics_example : clear memory_env numbers doubly_nodes 3 two_map two_store ≡ panic
clear-panics_example =
    clear-panics memory_env numbers doubly_nodes 3 two_map two_store 5 50 ((7, 70) ∷ []) two_in.3
      (omega arith)
