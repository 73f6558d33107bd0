-- ===== src/Maps/DoublyLinkedList/Insert.antt =====
-- `insert` against the abstract entries.
use veax.Base.{
  ◌+◌, ◌^◌, ◌<◌, ◌≡◌, refl, false, Option, none, some, List, [], ◌∷◌, arith, length, inl, inr,
  Bool-cases,
}
use veax.Base.Eq.{Eq, ◌==◌, Bytes}
use veax.Base.Panic.{done}
use veax.Maps.Storage.{Env, Borsh}
use veax.Maps.Entries.{lookup, has, put, lookup-none}
use veax.Maps.DoublyLinkedList.{
  Node, node, DoublyLinkedListMap, head_key, set_stored_node, serialize_node, deserialize_node,
  get_node, set_node, push_head, insert,
}
use veax.Maps.DoublyLinkedList.Chain.{Chain, Chain-frame, Chain-lookup}
use veax.Maps.DoublyLinkedList.State.{IsMap, get_stored-set, get_stored-prefix}
use veax.Maps.DoublyLinkedList.Read.{
  head-some, insert_old-IsMap, get_node-head, stored_of_ne, stored_of_none, head_decodes,
}

module _ (env : Env) {K V : Type 0} ⦃e : Eq K⦄ (keys : Borsh K) (nodes : Borsh (Node K V)) where
  open env use {Store}

  -- The map after `insert` of a new key.
  abbrev inserted : DoublyLinkedListMap K → K → V → Option K → DoublyLinkedListMap K
  inserted m k v q = record m {
    length = m.length + 1;
    head = some (k, serialize_node env keys nodes (node v none q));
  }

  insert_first-IsMap :
      (m : DoublyLinkedListMap K) (s : Store) (k : K) (v : V)
      → IsMap env keys nodes m s []
      → IsMap env keys nodes (inserted m k v none) s ((k, v) ∷ [])
  insert_first-IsMap m s k v is =
      let empty : m.head ≡ none = ground (arith, is.chain) in
      let at = λ (j : K).
        get_node-head env keys nodes m s [] is (inserted m k v none) j k (node v none none) s refl
          refl in
      let stored = λ (j : K). stored_of_none env keys nodes m s [] is j empty in
      record {
        chain = (none, refl, ground (arith, at k, e.equal_iff k k), refl, refl);
        absent =
            λ j gone. ground (arith, at j, stored j, is.absent j, e.equal_iff k j, e.equal_iff j k);
        count = omega (arith, is.count);
        head_unstored = λ j first. ground (
          arith,
          stored j,
          is.absent j,
          get_stored-prefix env keys nodes m (inserted m k v none) j s refl,
        );
      }

  insert_before-IsMap :
      (m : DoublyLinkedListMap K) (s : Store) (k h : K) (v w : V) (xs : List (K × V)) (b : Bytes)
      (r : Option K)
      → IsMap env keys nodes m s ((h, w) ∷ xs)
      → m.head ≡ some (h, b)
      → has k ((h, w) ∷ xs) ≡ false
      → has h xs ≡ false
      → Chain (λ j. get_node env keys nodes m j s) (some h) r xs
      → IsMap env keys nodes
          (inserted m k v (some h))
          (set_stored_node env keys nodes m h (node w (some k) r) s)
          ((k, v) ∷ (h, w) ∷ xs)
  insert_before-IsMap m s k h v w xs b r is first gone out rest =
      let s' = set_stored_node env keys nodes m h (node w (some k) r) s in
      let m' = inserted m k v (some h) in
      let at = λ (j : K).
        get_node-head env keys nodes m s _ is m' j k (node v none (some h)) s' refl refl in
      let set = λ (j : K). get_stored-set env keys nodes m m j h (node w (some k) r) s refl in
      let stored = λ (j : K). stored_of_ne env keys nodes m s _ is h j b first in
      let other : (k == h) ≡ false = ground arith in
      record {
        chain = (
          some h,
          refl,
          ground (arith, at k, e.equal_iff k k),
          gone,
          (
            r,
            refl,
            ground (arith, at h, set h, e.equal_iff h h, e.equal_iff k h),
            out,
            Chain-frame _ (λ j. get_node env keys nodes m' j s') (some h) r xs rest
                λ j there.
                  ground (
                    arith,
                    at j,
                    set j,
                    stored j,
                    e.equal_iff k j,
                    e.equal_iff j h,
                    e.equal_iff h j,
                  ),
          ),
        );
        absent = λ j away. ground (
          arith,
          at j,
          set j,
          stored j,
          is.absent j,
          e.equal_iff k j,
          e.equal_iff j k,
          e.equal_iff j h,
          e.equal_iff h j,
        );
        count = omega (arith, is.count);
        head_unstored = λ j start. ground (
          arith,
          get_stored-prefix env keys nodes m m' j s' refl,
          set j,
          stored j,
          is.absent j,
          e.equal_iff j h,
          e.equal_iff h j,
        );
      }

  push_head-none :
      (m : DoublyLinkedListMap K) (s : Store) (k : K)
      → m.head ≡ none
      → push_head env keys nodes m k s ≡ done (none, s)
  unfolding push_head
  push_head-none m s k empty = rw empty

  push_head-some :
      (m : DoublyLinkedListMap K) (s : Store) (k h : K) (b : Bytes) (w : V) (a r : Option K)
      → m.head ≡ some (h, b)
      → deserialize_node env keys nodes b ≡ done (node w a r)
      → push_head env keys nodes m k s
        ≡ done (some h, set_stored_node env keys nodes m h (node w (some k) r) s)
  unfolding push_head
  push_head-some m s k h b w a r first decoded = rw (first, decoded)

  insert_new :
      (m : DoublyLinkedListMap K) (s : Store) (xs : List (K × V)) (k : K) (v : V)
      → IsMap env keys nodes m s xs
      → length xs + 1 < 2 ^ 64
      → has k xs ≡ false
      → (m' : DoublyLinkedListMap K) × (s' : Store) × (insert env keys nodes m k v s
          ≡ done (lookup k xs, m', s'))
        × IsMap env keys nodes m' s' ((k, v) ∷ xs)
  unfolding insert
  insert_new m s [] k v is room gone = (
    inserted m k v none,
    s,
    ground (arith, is.absent k gone, is.count, push_head-none m s k, is.chain),
    insert_first-IsMap m s k v is,
  )
  insert_new m s ((h, w) ∷ xs) k v is room gone =
      let (r, start, here, out, rest) = is.chain in
      let (b, first) = head-some m.head h start in
      let decoded = head_decodes env keys nodes m s _ is h b (node w none r) first here in
      (
        inserted m k v (some h),
        set_stored_node env keys nodes m h (node w (some k) r) s,
        ground (
          arith,
          is.absent k gone,
          is.count,
          push_head-some m s k h b w none r first decoded,
          lookup-none k ((h, w) ∷ xs) gone,
        ),
        insert_before-IsMap m s k h v w xs b r is first gone out rest,
      )

  -- For a doubly linked map that holds the entries xs, fewer than 2 ^ 64 - 1: `insert` does not
  -- panic, returns the old value of the key, and leaves a well-formed map with the new value in
  -- the key's old place, or with a new key first.
  pub insert-put :
      (m : DoublyLinkedListMap K) (s : Store) (xs : List (K × V)) (k : K) (v : V)
      → IsMap env keys nodes m s xs
      → length xs + 1 < 2 ^ 64
      → (m' : DoublyLinkedListMap K) × (s' : Store) × (insert env keys nodes m k v s
          ≡ done (lookup k xs, m', s'))
        × IsMap env keys nodes m' s' (put k v xs)
  unfolding insert
  insert-put m s xs k v is room = elim (Bool-cases (has k xs)) [
    | inl there ↦
        let (w, a, b, found, is_w) = Chain-lookup _ none (head_key m.head) xs k is.chain there in
        (
          (set_node env keys nodes m k (node v a b) s).0,
          (set_node env keys nodes m k (node v a b) s).1,
          rw (found, is_w),
          rw there (insert_old-IsMap env keys nodes m s xs is k v w a b there found),
        )
    | inr gone ↦ rw gone (insert_new m s xs k v is room gone)
  ]
