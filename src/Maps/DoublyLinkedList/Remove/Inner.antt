-- ===== src/Maps/DoublyLinkedList/Remove/Inner.antt =====
-- Taking out a later node.
use veax.Base.{
  ℕ, ◌≡◌, refl, true, false, Option, none, some, List, arith, sym, ◌∙◌, ◌+◌, if◌then◌else◌, inl,
  inr, Option-cases,
}
use veax.Base.Eq.{Eq, ◌==◌}
use veax.Base.Panic.{done}
use veax.Maps.Storage.{Env, Borsh}
use veax.Maps.Entries.{has, erase}
use veax.Maps.DoublyLinkedList.{
  Node, node, DoublyLinkedListMap, head_key, get_stored_node, remove_stored_node, set_node,
  relink_next, unlink_inner,
}
use veax.Maps.DoublyLinkedList.Chain.{is_key, Chain-lookup, next-mem, prev-mem}
use veax.Maps.DoublyLinkedList.Unlink.{Unlinked, Chain-unlink_later}
use veax.Maps.DoublyLinkedList.State.{
  IsMap, SameShape, get_stored-remove, get_stored-prefix, get_node-set, set_node-SameShape,
  set_node-head_unstored,
}
use veax.Maps.DoublyLinkedList.Links.{next-ne, prev-ne, prev-ne-next}
use veax.Maps.DoublyLinkedList.Remove.Views.{view, view-remove, removed-IsMap}

module _ (env : Env) {K V : Type 0} ⦃e : Eq K⦄ (keys : Borsh K) (nodes : Borsh (Node K V)) where
  open env use {Store}

  module _ (m : DoublyLinkedListMap K) (s : Store) (xs : List (K × V))
      (is : IsMap env keys nodes m s xs) (k : K) (w : V) (pk nk : Option K)
      (there : has k xs ≡ true) (at : view env keys nodes m s k ≡ done (some (node w pk nk))) where
    -- A later node: its stored copy goes, and its neighbours are written again.
    module _ (l : ℕ) (shorter : m.length ≡ l + 1) (later : is_key (head_key m.head) k ≡ false)
        (i : K) (back : pk ≡ some i) (u : V) (a b : Option K)
        (before : view env keys nodes m s i ≡ done (some (node u a b))) where
      abbrev m₁ : DoublyLinkedListMap K
      m₁ = record m { length = l }

      abbrev s₁ : Store
      s₁ = remove_stored_node env keys nodes m₁ k s

      abbrev m₂ : DoublyLinkedListMap K
      m₂ = (set_node env keys nodes m₁ i (node u a nk) s₁).0

      abbrev s₂ : Store
      s₂ = (set_node env keys nodes m₁ i (node u a nk) s₁).1

      prev_ne : (i == k) ≡ false
      prev_ne =
          prev-ne (view env keys nodes m s) none (head_key m.head) xs k i w nk is.chain there
            (λ j inside. refl) (ground arith)

      view₁ :
          (j : K)
          → view env keys nodes m₁ s₁ j ≡ (if j == k then done none else view env keys nodes m s j)
      view₁ j = view-remove env keys nodes m m₁ j k s refl refl later

      view₂ :
          (j : K)
          → view env keys nodes m₂ s₂ j ≡ (
              if j == i
              then done (some (node u a nk))
              else if j == k
              then done none
              else view env keys nodes m s j)
      view₂ j = rw (get_node-set env keys nodes m₁ j i (node u a nk) s₁, view₁ j)

      shape : SameShape m₁ m₂
      shape = set_node-SameShape env keys nodes m₁ i (node u a nk) s₁

      head₁ :
          (j : K) → head_key m₁.head ≡ some j → get_stored_node env keys nodes m₁ j s₁ ≡ done none
      head₁ j start = ground (
        arith,
        get_stored-remove env keys nodes m₁ m₁ j k s refl,
        get_stored-prefix env keys nodes m m₁ j s refl,
        is.head_unstored j,
      )

      head₂ :
          (j : K) → head_key m₂.head ≡ some j → get_stored_node env keys nodes m₂ j s₂ ≡ done none
      head₂ j start =
          let start' = sym shape.head ∙ start in
          set_node-head_unstored env keys nodes m₁ j i (node u a nk) s₁ start' (head₁ j start')

      prev-inside : (j : K) → has j xs ≡ false → is_key pk j ≡ false
      prev-inside j out = ground (
        arith,
        prev-mem (view env keys nodes m s) none (head_key m.head) xs k i w nk is.chain there later
            (ground arith),
        e.equal_iff i j,
      )

      -- What is left to show of the map that `remove` makes.
      later-IsMap :
          (m' : DoublyLinkedListMap K) (s' : Store)
          → Unlinked (view env keys nodes m s) (view env keys nodes m' s') k pk nk
          → view env keys nodes m' s' k ≡ done none
          → SameShape m₁ m'
          → ((j : K)
              → head_key m'.head ≡ some j
              → get_stored_node env keys nodes m' j s' ≡ done none)
          → IsMap env keys nodes m' s' (erase k xs)
      later-IsMap m' s' un gone same head =
          removed-IsMap env keys nodes m s xs is k w pk nk there at m' s'
            (rw same.head (
              Chain-unlink_later (view env keys nodes m s) (view env keys nodes m' s') k w pk nk un
                none (head_key m.head) xs is.chain there later at))
            un prev-inside gone (omega (arith, shorter, same.length)) head

      last-IsMap : nk ≡ none → IsMap env keys nodes m₂ s₂ (erase k xs)
      last-IsMap end =
          later-IsMap m₂ s₂
            (record {
              joined_prev = λ j v a' b' is_i old. ground (arith, view₂ j, e.equal_iff j i);
              joined_next = λ j v a' b' next old. cc;
              others = λ j not_i _ other. ground (arith, view₂ j, e.equal_iff j i, e.equal_iff i j);
            })
            (ground (arith, view₂ k, prev_ne, e.equal_iff k i, e.equal_iff i k, e.equal_iff k k))
            shape head₂

      module _ (n : K) (lead : nk ≡ some n) (v : V) (a' c : Option K)
          (after : view env keys nodes m s n ≡ done (some (node v a' c))) where
        abbrev m₃ : DoublyLinkedListMap K
        m₃ = (set_node env keys nodes m₂ n (node v (some i) c) s₂).0

        abbrev s₃ : Store
        s₃ = (set_node env keys nodes m₂ n (node v (some i) c) s₂).1

        next_apart : (n == k) ≡ false
        next_apart =
            next-ne (view env keys nodes m s) none (head_key m.head) xs k n w pk is.chain there
              (ground arith)

        ends_apart : (i == n) ≡ false
        ends_apart =
            prev-ne-next (view env keys nodes m s) none (head_key m.head) xs k i n w is.chain there
              (λ j inside. refl) (ground arith)

        view₂-next : view env keys nodes m₂ s₂ n ≡ done (some (node v a' c))
        view₂-next =
            ground (arith, view₂ n, next_apart, ends_apart, e.equal_iff n i, e.equal_iff i n)

        view₃ :
            (j : K)
            → view env keys nodes m₃ s₃ j ≡ (
                if j == n
                then done (some (node v (some i) c))
                else if j == i
                then done (some (node u a nk))
                else if j == k
                then done none
                else view env keys nodes m s j)
        view₃ j = rw (get_node-set env keys nodes m₂ j n (node v (some i) c) s₂, view₂ j)

        relinked :
            (q : Option K)
            → q ≡ some n
            → relink_next env keys nodes (some i) q m₂ s₂ ≡ done (m₃, s₃)
        unfolding relink_next
        relinked q is_n = rw is_n (rw view₂-next)

        unlinked₃ : Unlinked (view env keys nodes m s) (view env keys nodes m₃ s₃) k pk nk
        unlinked₃ = record {
          joined_prev = λ j x p q is_i old.
              ground
                (arith, view₃ j, ends_apart, e.equal_iff j i, e.equal_iff j n, e.equal_iff i n);
          joined_next = λ j x p q is_n old. ground (arith, view₃ j, e.equal_iff j n);
          others = λ j not_i not_n other.
              ground (
                arith,
                view₃ j,
                e.equal_iff j i,
                e.equal_iff i j,
                e.equal_iff n j,
                e.equal_iff j n,
              );
        }

        middle-IsMap : IsMap env keys nodes m₃ s₃ (erase k xs)
        middle-IsMap =
            let same = set_node-SameShape env keys nodes m₂ n (node v (some i) c) s₂ in
            later-IsMap m₃ s₃ unlinked₃
              (ground (
                arith,
                view₃ k,
                prev_ne,
                next_apart,
                e.equal_iff k i,
                e.equal_iff i k,
                e.equal_iff k k,
                e.equal_iff k n,
                e.equal_iff n k,
              ))
              (record {
                key_prefix = same.key_prefix ∙ shape.key_prefix;
                length = same.length ∙ shape.length;
                head = same.head ∙ shape.head;
              })
              λ j start.
                let start' = sym same.head ∙ start in
                set_node-head_unstored env keys nodes m₂ j n (node v (some i) c) s₂ start'
                  (head₂ j start')

      not_relinked :
          (q : Option K) → q ≡ none → relink_next env keys nodes (some i) q m₂ s₂ ≡ done (m₂, s₂)
      unfolding relink_next
      not_relinked q is_none = rw is_none

      found₁ : view env keys nodes m₁ s₁ i ≡ done (some (node u a b))
      found₁ = ground (arith, view₁ i, prev_ne)

      pub inner-IsMap :
          (m' : DoublyLinkedListMap K) × (s' : Store) × (unlink_inner env keys nodes k i nk m₁ s
            ≡ done (m', s'))
          × IsMap env keys nodes m' s' (erase k xs)
      unfolding unlink_inner
      inner-IsMap = elim (Option-cases nk) [
        | inl end ↦ (m₂, s₂, rw found₁ (not_relinked nk end), last-IsMap end)
        | inr (n, lead) ↦
            let (v, a', c, after, _) =
              Chain-lookup (view env keys nodes m s) none (head_key m.head) xs n is.chain (
                next-mem (view env keys nodes m s) none (head_key m.head) xs k n w pk is.chain there
                  (ground arith)) in
            (
              m₃ n lead v a' c after,
              s₃ n lead v a' c after,
              rw found₁ (relinked n lead v a' c after nk lead),
              middle-IsMap n lead v a' c after,
            )
      ]
