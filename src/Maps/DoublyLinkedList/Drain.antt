-- ===== src/Maps/DoublyLinkedList/Drain.antt =====
-- `contains_key`, `pop`, iteration and `clear` against the abstract entries.
use veax.Base.{
  ℕ, zero, suc, ◌<◌, ◌≡◌, refl, true, Option, none, some, List, [], ◌∷◌, arith, length, inl, inr,
  Bool-cases, Option-cases, if◌then◌else◌, ◌∙◌, subst,
}
use veax.Base.Eq.{Eq, ◌==◌}
use veax.Base.Panic.{done, panic}
use veax.Maps.Storage.{Env, Borsh, has_node-read, is_some}
use veax.Maps.Entries.{lookup, has, erase}
use veax.Maps.DoublyLinkedList.{
  Node, node, DoublyLinkedListMap, Iter, iter, head_key, get_node, get_stored_node,
  contains_stored_node, contains_key, pop, clear_loop, clear, next, collect,
}
use veax.Maps.DoublyLinkedList.Chain.{Chain, Chain-lookup, start-mem}
use veax.Maps.DoublyLinkedList.State.{IsMap, get_stored-prefix}
use veax.Maps.DoublyLinkedList.Read.{stored_of_ne, stored_of_none}
use veax.Maps.DoublyLinkedList.Remove.{remove-erase}

module _ (env : Env) {K V : Type 0} ⦃e : Eq K⦄ (keys : Borsh K) (nodes : Borsh (Node K V)) where
  open env use {Store}

  contains_stored :
      (m : DoublyLinkedListMap K) (k : K) (s : Store) (o : Option (Node K V))
      → get_stored_node env keys nodes m k s ≡ done o
      → contains_stored_node env keys nodes m k s ≡ is_some o
  unfolding get_stored_node contains_stored_node
  contains_stored m k s o h = has_node-read env keys nodes m.key_prefix k s h

  -- `get_node` of a key tells whether the key is an entry.
  read-has :
      (m : DoublyLinkedListMap K) (s : Store) (xs : List (K × V)) (k : K)
      → IsMap env keys nodes m s xs
      → (o : Option (Node K V)) × (get_node env keys nodes m k s ≡ done o) × (is_some o ≡ has k xs)
  read-has m s xs k is = elim (Bool-cases (has k xs)) [
    | inl there ↦
        let (v, a, b, found, _) = Chain-lookup _ none (head_key m.head) xs k is.chain there in
        (some (node v a b), found, rw there)
    | inr gone ↦ (none, is.absent k gone, rw gone)
  ]

  -- `contains_key` of a doubly linked map is true of exactly the keys of its entries.
  pub contains_key-has :
      (m : DoublyLinkedListMap K) (s : Store) (xs : List (K × V)) (k : K)
      → IsMap env keys nodes m s xs
      → contains_key env keys nodes m k s ≡ has k xs
  unfolding contains_key
  contains_key-has m s xs k is =
      let (o, found, tells) = read-has m s xs k is in
      elim (Option-cases m.head) [
        | inl empty ↦
            ground (arith, stored_of_none env keys nodes m s xs is k empty, contains_stored m k s o)
        | inr ((h, b), first) ↦ elim (Bool-cases (h == k)) [
          | inl same ↦ ground (
            arith,
            e.equal_iff h k,
            start-mem (λ j. get_node env keys nodes m j s) none (head_key m.head) xs k is.chain,
          )
          | inr other ↦ ground (
            arith,
            stored_of_ne env keys nodes m s xs is h k b first other,
            contains_stored m k s o,
          )
        ]
      ]

  -- `pop` of an empty map returns none and changes nothing.
  pub pop-nil :
      (m : DoublyLinkedListMap K) (s : Store)
      → IsMap env keys nodes m s []
      → pop env keys nodes m s ≡ done (none, m, s)
  unfolding pop
  pop-nil m s is = rw (is.chain, pop)

  -- `pop` of a doubly linked map with a first entry returns that entry and leaves a well-formed
  -- map with the others.
  pub pop-cons :
      (m : DoublyLinkedListMap K) (s : Store) (k : K) (v : V) (xs : List (K × V))
      → IsMap env keys nodes m s ((k, v) ∷ xs)
      → (m' : DoublyLinkedListMap K) × (s' : Store) × (pop env keys nodes m s
          ≡ done (some (k, v), m', s'))
        × IsMap env keys nodes m' s' xs
  unfolding pop
  pop-cons m s k v xs is =
      let (q, start, here, out, rest) = is.chain in
      let (m', s', removed, is') = remove-erase env keys nodes m s ((k, v) ∷ xs) k is in
      let same : (k == k) ≡ true = (e.equal_iff k k).1 refl in
      let found : lookup k ((k, v) ∷ xs) ≡ some v = ground arith in
      let left : (if has k ((k, v) ∷ xs) then erase k ((k, v) ∷ xs) else (k, v) ∷ xs) ≡ xs =
        ground arith in
      (m', s', rw (start, pop) (rw removed (rw found)), subst (IsMap env keys nodes m' s') left is')

  collect-from :
      (fuel : ℕ) (it : Iter K) (s : Store) (prev : Option K) (xs : List (K × V))
      → Chain (λ k. get_node env keys nodes it.map k s) prev it.key xs
      → length xs < fuel
      → collect env keys nodes fuel it s ≡ done xs
  unfolding collect next
  collect-from zero it s prev xs c h = absurd (omega arith)
  collect-from (suc fuel) it s prev [] c h = rw c
  collect-from (suc fuel) it s prev ((k, v) ∷ xs) (q, start, here, out, rest) h =
      rw (start, here)
        (rw (collect-from fuel (record it { key = q }) s (some k) xs rest (omega arith)))

  -- Iterating over a doubly linked map with fuel above the number of entries ends and yields the
  -- entries, each once and in order.
  pub collect-iter :
      (fuel : ℕ) (m : DoublyLinkedListMap K) (s : Store) (xs : List (K × V))
      → IsMap env keys nodes m s xs
      → length xs < fuel
      → collect env keys nodes fuel (iter m) s ≡ done xs
  unfolding iter
  collect-iter fuel m s xs is h = collect-from fuel _ s none xs is.chain h

  -- `clear` panics on every well-formed doubly linked map that has an entry, however many rounds
  -- of its loop are allowed (at least one).
  pub clear-panics :
      (fuel : ℕ) (m : DoublyLinkedListMap K) (s : Store) (k : K) (v : V) (xs : List (K × V))
      → IsMap env keys nodes m s ((k, v) ∷ xs)
      → 0 < fuel
      → clear env keys nodes fuel m s ≡ panic
  unfolding clear clear_loop get_node
  clear-panics zero m s k v xs is h = elim h [ ]
  clear-panics (suc fuel) m s k v xs is h =
      let (q, start, here, out, rest) = is.chain in
      let unstored : get_stored_node env keys nodes (record m { head = none }) k s ≡ done none =
        get_stored-prefix env keys nodes m _ k s refl ∙ is.head_unstored k start in
      rw (start, unstored)
