-- ===== src/Maps/DoublyLinkedList/State.antt =====
-- What it means that a map and the storage hold a list of entries, and how reads follow writes.
use veax.Base.{
  ◌≡◌, refl, false, none, some, List, arith, if◌then◌else◌, length, inl, inr, Option-cases,
}
use veax.Base.Eq.{Eq, ◌==◌}
use veax.Base.Panic.{done}
use veax.Maps.Storage.{Env, Borsh, read_node-write, read_node-erase}
use veax.Maps.Entries.{has}
use veax.Maps.DoublyLinkedList.{
  Node, DoublyLinkedListMap, head_key, get_stored_node, set_stored_node, remove_stored_node,
  serialize_node, deserialize_node, get_node, set_node,
}
use veax.Maps.DoublyLinkedList.Chain.{Chain}

module _ {K : Type 0} where
  -- `set_node` changes neither the prefix, nor the length, nor which key comes first.
  pub record SameShape (m m' : DoublyLinkedListMap K) : Type 0 where
    pub key_prefix : m'.key_prefix ≡ m.key_prefix
    pub length : m'.length ≡ m.length
    pub head : head_key m'.head ≡ head_key m.head

module _ (env : Env) {K V : Type 0} ⦃e : Eq K⦄ (keys : Borsh K) (nodes : Borsh (Node K V)) where
  open env use {Store}

  -- `xs` are the entries of the map; nothing else is stored under its prefix, and neither is the
  -- first node, which the map holds itself.
  pub record IsMap (m : DoublyLinkedListMap K) (s : Store) (xs : List (K × V)) : Type 0 where
    pub chain : Chain (λ k. get_node env keys nodes m k s) none (head_key m.head) xs
    pub absent : (k : K) → has k xs ≡ false → get_node env keys nodes m k s ≡ done none
    pub count : m.length ≡ length xs
    pub head_unstored :
        (k : K) → head_key m.head ≡ some k → get_stored_node env keys nodes m k s ≡ done none

  pub deserialize-serialize :
      (n : Node K V) → deserialize_node env keys nodes (serialize_node env keys nodes n) ≡ done n
  unfolding deserialize_node serialize_node
  deserialize-serialize n = rw nodes.deserialize-serialize

  -- Of the map's fields only the prefix decides what is read from the storage.
  pub get_stored-prefix :
      (m m' : DoublyLinkedListMap K) (j : K) (s : Store)
      → m'.key_prefix ≡ m.key_prefix
      → get_stored_node env keys nodes m' j s ≡ get_stored_node env keys nodes m j s
  unfolding get_stored_node
  get_stored-prefix m m' j s same = rw same

  pub get_stored-set :
      (m m' : DoublyLinkedListMap K) (j k : K) (n : Node K V) (s : Store)
      → m'.key_prefix ≡ m.key_prefix
      → get_stored_node env keys nodes m' j (set_stored_node env keys nodes m k n s)
        ≡ (if j == k then done (some n) else get_stored_node env keys nodes m j s)
  unfolding get_stored_node set_stored_node
  get_stored-set m m' j k n s same = rw same (read_node-write env keys nodes m.key_prefix j k n s)

  pub get_stored-remove :
      (m m' : DoublyLinkedListMap K) (j k : K) (s : Store)
      → m'.key_prefix ≡ m.key_prefix
      → get_stored_node env keys nodes m' j (remove_stored_node env keys nodes m k s)
        ≡ (if j == k then done none else get_stored_node env keys nodes m j s)
  unfolding get_stored_node remove_stored_node
  get_stored-remove m m' j k s same = rw same (read_node-erase env keys nodes m.key_prefix j k s)

  -- After `set_node` the key reads as the new node, and every other key as before.
  pub get_node-set :
      (m : DoublyLinkedListMap K) (j k : K) (n : Node K V) (s : Store)
      → let (m', s') = set_node env keys nodes m k n s in
        get_node env keys nodes m' j s'
        ≡ (if j == k then done (some n) else get_node env keys nodes m j s)
  unfolding get_node set_node
  get_node-set m j k n s = elim (Option-cases m.head) [
    | inl empty ↦ ground (arith, get_stored-set m m j k n s refl)
    | inr ((h, b), first) ↦ ground (
      arith,
      get_stored-set m m j k n s refl,
      get_stored-prefix m (record m { head = some (h, serialize_node env keys nodes n) }) j s refl,
      deserialize-serialize n,
      e.equal_iff h k,
      e.equal_iff h j,
      e.equal_iff j k,
    )
  ]

  pub set_node-SameShape :
      (m : DoublyLinkedListMap K) (k : K) (n : Node K V) (s : Store)
      → SameShape m (set_node env keys nodes m k n s).0
  unfolding set_node
  set_node-SameShape m k n s = ground arith

  pub set_node-head_unstored :
      (m : DoublyLinkedListMap K) (j k : K) (n : Node K V) (s : Store)
      → head_key m.head ≡ some j
      → get_stored_node env keys nodes m j s ≡ done none
      → let (m', s') = set_node env keys nodes m k n s in
        get_stored_node env keys nodes m' j s' ≡ done none
  unfolding set_node
  set_node-head_unstored m j k n s first h = ground (
    arith,
    get_stored-set m m j k n s refl,
    get_stored-prefix m (record m { head = some (j, serialize_node env keys nodes n) }) j s refl,
    e.equal_iff j k,
  )
