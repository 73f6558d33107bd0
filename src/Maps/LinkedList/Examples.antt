-- ===== src/Maps/LinkedList/Examples.antt =====
-- Runs of the singly linked map on a storage in memory, with the theorems' conditions met.
use veax.Base.{ℕ, ◌≡◌, refl, none, some, [], ◌∷◌, arith}
use veax.Base.Eq.{nat_eq}
use veax.Base.Panic.{done}
use veax.Maps.Memory.{Memory, memory_env, numbers, linked_nodes, empty}
use veax.Maps.Storage.{read_node-unused}
use veax.Maps.LinkedList.{LinkedListMap, get_node, new, iter, insert, pop, clear, collect}
use veax.Maps.LinkedList.Chain.{IsMap}
use veax.Maps.LinkedList.Insert.{linked_insert-put}
use veax.Maps.LinkedList.Drain.{new-IsMap, linked_pop-cons, clear-nil, linked_collect-iter}

abbrev fresh : LinkedListMap ℕ
fresh = new (9 ∷ [])

-- Nothing is stored in an empty memory.
unused : (k : ℕ) → get_node memory_env numbers linked_nodes fresh k empty ≡ done none
unfolding get_node
unused k = read_node-unused memory_env numbers linked_nodes _ k empty refl

fresh-IsMap : IsMap memory_env numbers linked_nodes fresh empty []
fresh-IsMap = new-IsMap memory_env numbers linked_nodes (9 ∷ []) empty unused

abbrev one_in :
    (m' : LinkedListMap ℕ) × (s' : Memory) × (insert memory_env numbers linked_nodes fresh 7 70
        empty
      ≡ done (none, m', s'))
    × IsMap memory_env numbers linked_nodes m' s' ((7, 70) ∷ [])
one_in =
    linked_insert-put memory_env numbers linked_nodes fresh empty [] fresh-IsMap 7 70 (omega arith)

abbrev one_map : LinkedListMap ℕ
one_map = one_in.0

abbrev one_store : Memory
one_store = one_in.1

linked_insert-put_example :
    (m' : LinkedListMap ℕ) × (s' : Memory) × (insert memory_env numbers linked_nodes one_map 5 50
        one_store
      ≡ done (none, m', s'))
    × IsMap memory_env numbers linked_nodes m' s' ((5, 50) ∷ (7, 70) ∷ [])
linked_insert-put_example =
    linked_insert-put memory_env numbers linked_nodes one_map one_store ((7, 70) ∷ []) one_in.3 5 50
      (omega arith)

linked_pop-cons_example :
    (m' : LinkedListMap ℕ) × (s' : Memory) × (pop memory_env numbers linked_nodes one_map one_store
      ≡ done (some (7, 70), m', s'))
    × IsMap memory_env numbers linked_nodes m' s' []
linked_pop-cons_example =
    linked_pop-cons memory_env numbers linked_nodes one_map one_store 7 70 [] one_in.3

clear-nil_example :
    (m' : LinkedListMap ℕ) × (s' : Memory) × (clear memory_env numbers linked_nodes 3 one_map
        one_store
      ≡ done (m', s'))
    × IsMap memory_env numbers linked_nodes m' s' []
clear-nil_example =
    clear-nil memory_env numbers linked_nodes 3 one_map one_store ((7, 70) ∷ []) one_in.3
      (omega arith)

linked_collect-iter_example :
    collect memory_env numbers linked_nodes 3 (iter one_map) one_store ≡ done ((7, 70) ∷ [])
linked_collect-iter_example =
    linked_collect-iter memory_env numbers linked_nodes 3 one_map one_store ((7, 70) ∷ []) one_in.3
      (omega arith)
