-- ===== src/Maps/LinkedList/Drain.antt =====
-- `new`, `pop`, `clear` and iteration against the abstract entries.
use veax.Base.{
  ℕ, zero, suc, ◌<◌, ◌≡◌, refl, Option, none, some, List, [], ◌∷◌, arith, length, if◌then◌else◌,
  subst,
}
use veax.Base.Eq.{Eq, ◌==◌, Bytes}
use veax.Base.Panic.{done}
use veax.Maps.Storage.{Env, Borsh}
use veax.Maps.LinkedList.{
  Node, node, LinkedListMap, Iter, new, iter, get_node, remove_node, pop, clear, next, collect,
}
use veax.Maps.LinkedList.Chain.{Chain, Chain-frame, IsMap, get_node-remove}

module _ (env : Env) {K V : Type 0} ⦃e : Eq K⦄ (keys : Borsh K) (nodes : Borsh (Node K V)) where
  open env use {Store}

  -- A new map is empty where nothing is stored under its prefix.
  pub new-IsMap :
      (prefix : Bytes) (s : Store)
      → ((k : K) → get_node env keys nodes (new prefix) k s ≡ done none)
      → IsMap env keys nodes (new prefix) s []
  unfolding new
  new-IsMap prefix s unused = record { chain = refl; absent = λ k h. unused k; count = refl }

  -- The first node is gone, and the map starts at the second.
  pop-IsMap :
      (m m' : LinkedListMap K) (s : Store) (k : K) (v : V) (xs : List (K × V)) (q : Option K)
      → IsMap env keys nodes m s ((k, v) ∷ xs)
      → get_node env keys nodes m k s ≡ done (some (node v q))
      → m'.key_prefix ≡ m.key_prefix
      → m'.next_key ≡ q
      → m.length ≡ suc m'.length
      → IsMap env keys nodes m' (remove_node env keys nodes m k s) xs
  pop-IsMap m m' s k v xs q is found prefix next length =
      let (r, start, here, out, rest) = is.chain in
      let gone : (j : K)
          → get_node env keys nodes m' j (remove_node env keys nodes m k s)
            ≡ (if j == k then done none else get_node env keys nodes m j s) =
        λ j. get_node-remove env keys nodes m m' j k s prefix in
      record {
        chain =
            Chain-frame (λ j. get_node env keys nodes m j s) _ m'.next_key xs
              (subst (λ p. Chain (λ j. get_node env keys nodes m j s) p xs) (ground arith) rest)
              λ j there. ground (arith, gone j, e.equal_iff j k);
        absent = λ j other. ground (arith, gone j, is.absent j);
        count = omega (arith, is.count, length);
      }

  pub pop-nil :
      (m : LinkedListMap K) (s : Store)
      → IsMap env keys nodes m s []
      → pop env keys nodes m s ≡ done (none, m, s)
  unfolding pop
  pop-nil m s is = rw (is.chain)

  -- `pop` of a singly linked map with a first entry returns that entry and leaves a well-formed
  -- map with the others.
  pub linked_pop-cons :
      (m : LinkedListMap K) (s : Store) (k : K) (v : V) (xs : List (K × V))
      → IsMap env keys nodes m s ((k, v) ∷ xs)
      → (m' : LinkedListMap K) × (s' : Store) × (pop env keys nodes m s
          ≡ done (some (k, v), m', s'))
        × IsMap env keys nodes m' s' xs
  unfolding pop
  linked_pop-cons m s k v xs is =
      let (q, start, here, out, rest) = is.chain in
      (
        record m { length = length xs; next_key = q },
        remove_node env keys nodes m k s,
        ground (arith, is.count),
        pop-IsMap m _ s k v xs q is here refl refl is.count,
      )

  -- `clear` of a singly linked map ends within one round more than it has entries, and leaves a
  -- well-formed empty map.
  pub clear-nil :
      (fuel : ℕ) (m : LinkedListMap K) (s : Store) (xs : List (K × V))
      → IsMap env keys nodes m s xs
      → length xs < fuel
      → (m' : LinkedListMap K) × (s' : Store) × (clear env keys nodes fuel m s ≡ done (m', s'))
        × IsMap env keys nodes m' s' []
  unfolding clear
  clear-nil zero m s xs is h = absurd (omega arith)
  clear-nil (suc fuel) m s [] is h = (m, s, rw (pop-nil m s is), is)
  clear-nil (suc fuel) m s ((k, v) ∷ xs) is h =
      let (m', s', popped, rest) = linked_pop-cons m s k v xs is in
      let (m'', s'', cleared, empty) = clear-nil fuel m' s' xs rest (omega arith) in
      (m'', s'', rw popped cleared, empty)

  collect-from :
      (fuel : ℕ) (it : Iter K) (s : Store) (xs : List (K × V))
      → Chain (λ k. get_node env keys nodes it.map k s) it.key xs
      → length xs < fuel
      → collect env keys nodes fuel it s ≡ done xs
  unfolding collect next
  collect-from zero it s xs c h = absurd (omega arith)
  collect-from (suc fuel) it s [] c h = rw c
  collect-from (suc fuel) it s ((k, v) ∷ xs) (q, start, here, out, rest) h =
      rw (start, here) (rw (collect-from fuel (record it { key = q }) s xs rest (omega arith)))

  -- Iteration yields the entries, each once and in order, and ends.
  pub linked_collect-iter :
      (fuel : ℕ) (m : LinkedListMap K) (s : Store) (xs : List (K × V))
      → IsMap env keys nodes m s xs
      → length xs < fuel
      → collect env keys nodes fuel (iter m) s ≡ done xs
  unfolding iter
  linked_collect-iter fuel m s xs is h = collect-from fuel _ s xs is.chain h
