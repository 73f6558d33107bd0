-- ===== src/Maps/LinkedList/Insert.antt =====
-- `insert`, `get` and `contains_key` against the abstract entries.
use veax.Base.{
  ◌+◌, ◌^◌, ◌<◌, ◌≡◌, refl, true, false, Option, some, List, [], ◌∷◌, arith, if◌then◌else◌, length,
  inl, inr, Bool-cases,
}
use veax.Base.Eq.{Eq, ◌==◌, beq_refl}
use veax.Base.Panic.{Run, done}
use veax.Maps.Storage.{Env, Borsh, has_node-read}
use veax.Maps.Entries.{lookup, has, replace, put, has-replace, length-replace, lookup-none}
use veax.Maps.LinkedList.{Node, node, LinkedListMap, get_node, set_node, contains_key, get, insert}
use veax.Maps.LinkedList.Chain.{Chain, Chain-frame, Chain-lookup, IsMap, get_node-set}

module _ {K V : Type 0} ⦃e : Eq K⦄ where
  -- A new value in the node of a chained key.
  Chain-replace :
      (f g : K → Run (Option (Node K V))) (p : Option K) (xs : List (K × V)) (k : K) (v w : V)
      (q : Option K)
      → Chain f p xs
      → has k xs ≡ true
      → f k ≡ done (some (node w q))
      → ((j : K) → g j ≡ (if j == k then done (some (node v q)) else f j))
      → Chain g p (replace k v xs)
  Chain-replace f g p [] k v w q c h old new = absurd (ground arith)
  Chain-replace f g p ((j, u) ∷ xs) k v w q (r, start, here, out, rest) h old new =
      elim (Bool-cases (k == j)) [
        | inl same ↦ rw same (
          r,
          start,
          ground (arith, new j, e.equal_iff k j, e.equal_iff j k),
          out,
          Chain-frame f g r xs rest λ i ih. ground (arith, new i, e.equal_iff i k, e.equal_iff k j),
        )
        | inr other ↦ rw other (
          r,
          start,
          ground (arith, new j, e.equal_iff k j, e.equal_iff j k),
          ground (arith, has-replace j k v xs),
          Chain-replace f g r xs k v w q rest (ground arith) old new,
        )
      ]

module _ (env : Env) {K V : Type 0} ⦃e : Eq K⦄ (keys : Borsh K) (nodes : Borsh (Node K V)) where
  open env use {Store}

  module _ (m : LinkedListMap K) (s : Store) (xs : List (K × V))
      (is : IsMap env keys nodes m s xs) where
    -- `get` looks the key up among the entries.
    pub get-lookup : (k : K) → get env keys nodes m k s ≡ done (lookup k xs)
    unfolding get
    get-lookup k = elim (Bool-cases (has k xs)) [
      | inl there ↦
          let (v, q, found, is_v) = Chain-lookup _ m.next_key xs k is.chain there in
          rw (found, is_v)
      | inr gone ↦ rw (is.absent k gone, lookup-none k xs gone)
    ]

    pub contains_key-has : (k : K) → contains_key env keys nodes m k s ≡ has k xs
    unfolding contains_key get_node
    contains_key-has k = elim (Bool-cases (has k xs)) [
      | inl there ↦
          let (v, q, found, _) = Chain-lookup _ m.next_key xs k is.chain there in
          rw (there, has_node-read env keys nodes m.key_prefix k s found)
      | inr gone ↦ rw (gone, has_node-read env keys nodes m.key_prefix k s (is.absent k gone))
    ]

    -- An old key: the node is written again in its place.
    insert_old-IsMap :
        (k : K) (v w : V) (q : Option K)
        → has k xs ≡ true
        → get_node env keys nodes m k s ≡ done (some (node w q))
        → IsMap env keys nodes m (set_node env keys nodes m k (node v q) s) (replace k v xs)
    insert_old-IsMap k v w q there found = record {
      chain =
          Chain-replace _ _ m.next_key xs k v w q is.chain there found
            λ j. get_node-set env keys nodes m m j k (node v q) s refl;
      absent = λ j gone. ground (
        arith,
        get_node-set env keys nodes m m j k (node v q) s refl,
        is.absent j,
        has-replace j k v xs,
        e.equal_iff j k,
      );
      count = rw length-replace is.count;
    }

    -- A new key: its node comes first and leads to the old first node.
    insert_new-IsMap :
        (m' : LinkedListMap K) (k : K) (v : V)
        → m'.key_prefix ≡ m.key_prefix
        → m'.length ≡ m.length + 1
        → m'.next_key ≡ some k
        → has k xs ≡ false
        → IsMap env keys nodes m' (set_node env keys nodes m k (node v m.next_key) s) ((k, v) ∷ xs)
    insert_new-IsMap m' k v prefix length next gone = record {
      chain = (
        m.next_key,
        next,
        ground (arith, set k, beq_refl k),
        gone,
        Chain-frame _ _ m.next_key xs is.chain λ j there. ground (arith, set j, e.equal_iff j k),
      );
      absent = λ j out. ground (arith, set j, is.absent j);
      count = omega (arith, is.count);
    }
      where
        set :
            (j : K)
            → get_node env keys nodes m' j (set_node env keys nodes m k (node v m.next_key) s)
              ≡ (if j == k then done (some (node v m.next_key)) else get_node env keys nodes m j s)
        set j = get_node-set env keys nodes m m' j k (node v m.next_key) s prefix

    -- For a singly linked map that holds the entries xs, fewer than 2 ^ 64 - 1: `insert` does not
    -- panic, returns the old value of the key, and leaves a well-formed map with the new value in
    -- the key's old place, or with a new key first.
    pub linked_insert-put :
        (k : K) (v : V)
        → length xs + 1 < 2 ^ 64
        → (m' : LinkedListMap K) × (s' : Store) × (insert env keys nodes m k v s
            ≡ done (lookup k xs, m', s'))
          × IsMap env keys nodes m' s' (put k v xs)
    unfolding insert
    linked_insert-put k v room = elim (Bool-cases (has k xs)) [
      | inl there ↦
          let (w, q, found, is_w) = Chain-lookup _ m.next_key xs k is.chain there in
          (
            m,
            set_node env keys nodes m k (node v q) s,
            rw (found, is_w),
            rw there (insert_old-IsMap k v w q there found),
          )
      | inr gone ↦ (
        record m { length = m.length + 1; next_key = some k },
        set_node env keys nodes m k (node v m.next_key) s,
        ground (arith, is.absent k gone, lookup-none k xs gone, is.count),
        rw gone (insert_new-IsMap _ k v refl refl refl gone),
      )
    ]
