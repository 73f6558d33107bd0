-- ===== src/Maps/DoublyLinkedList/Read.antt =====
-- `new` and `get` against the abstract entries, and what is read of the first node.
use veax.Base.{
  ◌≡◌, refl, true, false, Option, none, some, List, [], arith, sym, ◌∙◌, if◌then◌else◌, inl, inr,
  Bool-cases,
}
use veax.Base.Eq.{Eq, ◌==◌, Bytes}
use veax.Base.Panic.{done}
use veax.Maps.Storage.{Env, Borsh}
use veax.Maps.Entries.{lookup, has, replace, has-replace, length-replace, lookup-none}
use veax.Maps.DoublyLinkedList.{
  Node, node, DoublyLinkedListMap, head_key, new, get_stored_node, serialize_node, deserialize_node,
  get_node, set_node, get,
}
use veax.Maps.DoublyLinkedList.Chain.{Chain-lookup, Chain-replace}
use veax.Maps.DoublyLinkedList.State.{
  IsMap, get_stored-prefix, get_node-set, deserialize-serialize, set_node-SameShape,
  set_node-head_unstored,
}

pub head-some :
    {K : Type 0} (head : Option (K × Bytes)) (h : K)
    → head_key head ≡ some h
    → (b : Bytes) × (head ≡ some (h, b))
head-some none h start = absurd (ground arith)
head-some (some (j, b)) h start = (b, ground arith)

module _ (env : Env) {K V : Type 0} ⦃e : Eq K⦄ (keys : Borsh K) (nodes : Borsh (Node K V)) where
  open env use {Store}

  -- A new map is empty where nothing is stored under its prefix.
  pub new-IsMap :
      (prefix : Bytes) (s : Store)
      → ((k : K) → get_stored_node env keys nodes (new prefix) k s ≡ done none)
      → IsMap env keys nodes (new prefix) s []
  unfolding new get_node
  new-IsMap prefix s unused = record {
    chain = refl;
    absent = λ k h. unused k;
    count = refl;
    head_unstored = λ k h. unused k;
  }

  module _ (m : DoublyLinkedListMap K) (s : Store) (xs : List (K × V))
      (is : IsMap env keys nodes m s xs) where
    -- `get` looks the key up among the entries.
    pub get-lookup : (k : K) → get env keys nodes m k s ≡ done (lookup k xs)
    unfolding get
    get-lookup k = elim (Bool-cases (has k xs)) [
      | inl there ↦
          let (v, a, b, found, is_v) = Chain-lookup _ none (head_key m.head) xs k is.chain there in
          rw (found, is_v)
      | inr gone ↦ rw (is.absent k gone, lookup-none k xs gone)
    ]

    pub insert_old-IsMap :
        (k : K) (v w : V) (a b : Option K)
        → has k xs ≡ true
        → get_node env keys nodes m k s ≡ done (some (node w a b))
        → let (m', s') = set_node env keys nodes m k (node v a b) s in
          IsMap env keys nodes m' s' (replace k v xs)
    insert_old-IsMap k v w a b there found =
        let shape = set_node-SameShape env keys nodes m k (node v a b) s in
        let after = λ (j : K). get_node-set env keys nodes m j k (node v a b) s in
        record {
          chain =
              rw shape.head
                (Chain-replace _ _ none (head_key m.head) xs k v w a b is.chain there found after);
          absent =
              λ j gone. ground (arith, after j, is.absent j, has-replace j k v xs, e.equal_iff j k);
          count = rw (length-replace, shape.length) is.count;
          head_unstored = λ j first.
              let first' : head_key m.head ≡ some j = sym shape.head ∙ first in
              set_node-head_unstored env keys nodes m j k (node v a b) s first'
                (is.head_unstored j first');
        }

    -- With a new first node in the map's fields, the other keys are read from the storage.
    pub get_node-head :
        (m' : DoublyLinkedListMap K) (j k : K) (n : Node K V) (s' : Store)
        → m'.key_prefix ≡ m.key_prefix
        → m'.head ≡ some (k, serialize_node env keys nodes n)
        → get_node env keys nodes m' j s'
          ≡ (if k == j then done (some n) else get_stored_node env keys nodes m j s')
    unfolding get_node
    get_node-head m' j k n s' prefix head = ground (
      arith,
      get_stored-prefix env keys nodes m m' j s' prefix,
      deserialize-serialize env keys nodes n,
    )

    -- Any key but the first is read from the storage.
    pub stored_of_ne :
        (h j : K) (b : Bytes)
        → m.head ≡ some (h, b)
        → (h == j) ≡ false
        → get_stored_node env keys nodes m j s ≡ get_node env keys nodes m j s
    unfolding get_node
    stored_of_ne h j b first other = ground arith

    pub stored_of_none :
        (j : K)
        → m.head ≡ none
        → get_stored_node env keys nodes m j s ≡ get_node env keys nodes m j s
    unfolding get_node
    stored_of_none j first = ground arith

    -- The first node as the map holds it.
    pub head_decodes :
        (h : K) (b : Bytes) (n : Node K V)
        → m.head ≡ some (h, b)
        → get_node env keys nodes m h s ≡ done (some n)
        → deserialize_node env keys nodes b ≡ done n
    unfolding get_node deserialize_node
    head_decodes h b n first found = ground (arith, e.equal_iff h h)
