-- ===== src/Maps/DoublyLinkedList/Remove/Head.antt =====
-- Taking out the first node.
use veax.Base.{
  ℕ, ◌≡◌, refl, true, Option, none, some, List, arith, ◌∙◌, subst, ◌+◌, if◌then◌else◌, inl, inr,
  Option-cases,
}
use veax.Base.Eq.{Eq, ◌==◌}
use veax.Base.Panic.{done}
use veax.Maps.Storage.{Env, Borsh}
use veax.Maps.Entries.{has, erase}
use veax.Maps.DoublyLinkedList.{
  Node, node, DoublyLinkedListMap, head_key, get_stored_node, remove_stored_node, serialize_node,
  get_node, unlink_head,
}
use veax.Maps.DoublyLinkedList.Chain.{Chain, Chain-lookup, start-prev, next-mem}
use veax.Maps.DoublyLinkedList.Unlink.{Unlinked, Chain-unlink_first}
use veax.Maps.DoublyLinkedList.State.{IsMap, get_stored-remove, get_stored-prefix}
use veax.Maps.DoublyLinkedList.Links.{next-ne}
use veax.Maps.DoublyLinkedList.Read.{get_node-head, stored_of_ne, head-some}
use veax.Maps.DoublyLinkedList.Remove.Views.{view, view-fields, removed-IsMap}

module _ (env : Env) {K V : Type 0} ⦃e : Eq K⦄ (keys : Borsh K) (nodes : Borsh (Node K V)) where
  open env use {Store}

  module _ (m : DoublyLinkedListMap K) (s : Store) (xs : List (K × V))
      (is : IsMap env keys nodes m s xs) (k : K) (w : V) (pk nk : Option K)
      (there : has k xs ≡ true) (at : view env keys nodes m s k ≡ done (some (node w pk nk))) where
    -- The map after its first node is removed, and what it reads.
    pub head_gone :
        (first : head_key m.head ≡ some k) (j : K)
        → get_stored_node env keys nodes m j s
          ≡ (if j == k then done none else view env keys nodes m s j)
    head_gone first j =
        let (b, held) = head-some m.head k first in
        ground (
          arith,
          is.head_unstored k first,
          stored_of_ne env keys nodes m s xs is k j b held,
          e.equal_iff k j,
          e.equal_iff j k,
        )

    -- A first node points back to none.
    pub no_prev : head_key m.head ≡ some k → pk ≡ none
    no_prev first =
        start-prev (view env keys nodes m s) none (head_key m.head) xs k w pk nk is.chain first at

    only-IsMap :
        (l : ℕ)
        → m.length ≡ l + 1
        → head_key m.head ≡ some k
        → nk ≡ none
        → (m' : DoublyLinkedListMap K) × (s' : Store) × (unlink_head env keys nodes nk
              (record m { length = l })
              s
            ≡ done (m', s'))
          × IsMap env keys nodes m' s' (erase k xs)
    unfolding unlink_head
    only-IsMap l count first end =
        let m' = record m { length = l; head = none } in
        let after : (j : K)
            → view env keys nodes m' s j
              ≡ (if j == k then done none else view env keys nodes m s j) =
          λ j.
            unfold get_node in get_stored-prefix env keys nodes m m' j s refl ∙ head_gone first j in
        let none_before = no_prev first in
        let un : Unlinked (view env keys nodes m s) (view env keys nodes m' s) k pk nk = record {
          joined_prev = λ j v a b before. cc;
          joined_next = λ j v a b next. cc;
          others = λ j _ _ other. ground (arith, after j);
        } in
        (
          m',
          s,
          rw end,
          removed-IsMap env keys nodes m s xs is k w pk nk there at m' s
              (subst (λ q. Chain (view env keys nodes m' s) none q (erase k xs)) end
                (Chain-unlink_first (view env keys nodes m s) (view env keys nodes m' s) k w pk nk
                  un none (head_key m.head) xs is.chain first at (λ j inside. refl)))
              un (λ j out. rw none_before) (ground (arith, after k, e.equal_iff k k)) count
              (λ j start. cc),
        )

    second-IsMap :
        (l : ℕ)
        → m.length ≡ l + 1
        → head_key m.head ≡ some k
        → (n : K) (u : V) (a c : Option K) → nk ≡ some n
        → view env keys nodes m s n ≡ done (some (node u a c))
        → (m' : DoublyLinkedListMap K) × (s' : Store) × (unlink_head env keys nodes nk
              (record m { length = l })
              s
            ≡ done (m', s'))
          × IsMap env keys nodes m' s' (erase k xs)
    unfolding unlink_head
    second-IsMap l count first n u a c lead found =
        let m₁ = record m { length = l } in
        let m' = record m {
          length = l;
          head = some (n, serialize_node env keys nodes (node u none c));
        } in
        let s' = remove_stored_node env keys nodes m₁ n s in
        let same = view-fields env keys nodes m m₁ s n refl refl in
        let none_before = no_prev first in
        let after : (j : K)
            → view env keys nodes m' s' j ≡ (
                if n == j
                then done (some (node u none c))
                else if j == k
                then done none
                else view env keys nodes m s j) =
          λ j. ground (
            arith,
            get_node-head env keys nodes m s xs is m' j n (node u none c) s' refl refl,
            get_stored-remove env keys nodes m₁ m j n s refl,
            get_stored-prefix env keys nodes m m₁ j s refl,
            head_gone first j,
            e.equal_iff n j,
            e.equal_iff j n,
          ) in
        let un : Unlinked (view env keys nodes m s) (view env keys nodes m' s') k pk nk = record {
          joined_prev = λ j v a' b before. cc;
          joined_next = λ j v a' b next old. ground (arith, after j, e.equal_iff n j);
          others = λ j _ not_next other. ground (arith, after j, e.equal_iff n j);
        } in
        (
          m',
          s',
          rw (lead, same, found),
          removed-IsMap env keys nodes m s xs is k w pk nk there at m' s'
              (subst (λ q. Chain (view env keys nodes m' s') none q (erase k xs)) lead
                (Chain-unlink_first (view env keys nodes m s) (view env keys nodes m' s') k w pk nk
                  un none (head_key m.head) xs is.chain first at (λ j inside. refl)))
              un (λ j out. rw none_before)
              (ground (
                arith,
                after k,
                e.equal_iff k k,
                next-ne (view env keys nodes m s) none (head_key m.head) xs k n w pk is.chain there
                    (ground arith),
              ))
              count
              (λ j start.
                ground (arith, get_stored-remove env keys nodes m₁ m' j n s refl, e.equal_iff j n)),
        )

    pub first-IsMap :
        (l : ℕ)
        → m.length ≡ l + 1
        → head_key m.head ≡ some k
        → (m' : DoublyLinkedListMap K) × (s' : Store) × (unlink_head env keys nodes nk
              (record m { length = l })
              s
            ≡ done (m', s'))
          × IsMap env keys nodes m' s' (erase k xs)
    first-IsMap l count first = elim (Option-cases nk) [
      | inl end ↦ only-IsMap l count first end
      | inr (n, lead) ↦
          let (u, a, c, found, _) =
            Chain-lookup (view env keys nodes m s) none (head_key m.head) xs n is.chain (
              next-mem (view env keys nodes m s) none (head_key m.head) xs k n w pk is.chain there
                (ground arith)) in
          second-IsMap l count first n u a c lead found
    ]
