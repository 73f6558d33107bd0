-- ===== src/Maps/LinkedList/Chain.antt =====
-- What it means that a map and the storage hold a list of entries.
use veax.Base.{
  ◌≡◌, true, false, Option, none, some, List, [], ◌∷◌, arith, if◌then◌else◌, length, inl, inr,
  Bool-cases,
}
use veax.Base.Eq.{Eq, ◌==◌}
use veax.Base.Panic.{Run, done}
use veax.Maps.Storage.{Env, Borsh, read_node-write, read_node-erase}
use veax.Maps.Entries.{lookup, has}
use veax.Maps.LinkedList.{Node, node, LinkedListMap, get_node, set_node, remove_node}

-- From `p` the stored nodes lead through the entries `xs`, each key once, to the end.
-- `at` reads the node of a key.
abbrev pub Chain :
    {K V : Type 0} → ⦃e : Eq K⦄ → (K → Run (Option (Node K V))) → Option K → List (K × V) → Type 0
Chain at p [] = p ≡ none
Chain {K} at p ((k, v) ∷ xs) =
    (q : Option K) × (p ≡ some k)
    × (at k ≡ done (some (node v q)))
    × (has k xs ≡ false)
    × Chain at q xs

module _ {K V : Type 0} ⦃e : Eq K⦄ where
  -- A chain survives any change that spares its own keys.
  pub Chain-frame :
      (f g : K → Run (Option (Node K V))) (p : Option K) (xs : List (K × V))
      → Chain f p xs
      → ((k : K) → has k xs ≡ true → g k ≡ f k)
      → Chain g p xs
  Chain-frame f g p [] c same = c
  Chain-frame f g p ((k, v) ∷ xs) (q, start, here, out, rest) same = (
    q,
    start,
    ground (arith, same k, e.equal_iff k k),
    out,
    Chain-frame f g q xs rest λ j h. same j (ground arith),
  )

  -- A chained key reads as the node of its value.
  pub Chain-lookup :
      (f : K → Run (Option (Node K V))) (p : Option K) (xs : List (K × V)) (k : K)
      → Chain f p xs
      → has k xs ≡ true
      → (v : V) × (q : Option K) × (f k ≡ done (some (node v q))) × (lookup k xs ≡ some v)
  Chain-lookup f p [] k c h = absurd (ground arith)
  Chain-lookup f p ((j, w) ∷ xs) k (q, start, here, out, rest) h = elim (Bool-cases (k == j)) [
    | inl same ↦ (w, q, ground (arith, e.equal_iff k j), ground arith)
    | inr other ↦
        let (v, r, found, is) = Chain-lookup f q xs k rest (ground arith) in
        (v, r, found, ground arith)
  ]

module _ (env : Env) {K V : Type 0} ⦃e : Eq K⦄ (keys : Borsh K) (nodes : Borsh (Node K V)) where
  open env use {Store}

  -- `xs` are the entries of the map, and the storage under its prefix holds no other node.
  pub record IsMap (m : LinkedListMap K) (s : Store) (xs : List (K × V)) : Type 0 where
    pub chain : Chain (λ k. get_node env keys nodes m k s) m.next_key xs
    pub absent : (k : K) → has k xs ≡ false → get_node env keys nodes m k s ≡ done none
    pub count : m.length ≡ length xs

  -- Reads after a write: the map's fields other than the prefix play no part.
  pub get_node-set :
      (m m' : LinkedListMap K) (j k : K) (n : Node K V) (s : Store)
      → m'.key_prefix ≡ m.key_prefix
      → get_node env keys nodes m' j (set_node env keys nodes m k n s)
        ≡ (if j == k then done (some n) else get_node env keys nodes m j s)
  unfolding get_node set_node
  get_node-set m m' j k n s same = rw same (read_node-write env keys nodes m.key_prefix j k n s)

  pub get_node-remove :
      (m m' : LinkedListMap K) (j k : K) (s : Store)
      → m'.key_prefix ≡ m.key_prefix
      → get_node env keys nodes m' j (remove_node env keys nodes m k s)
        ≡ (if j == k then done none else get_node env keys nodes m j s)
  unfolding get_node remove_node
  get_node-remove m m' j k s same = rw same (read_node-erase env keys nodes m.key_prefix j k s)
