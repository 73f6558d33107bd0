-- ===== src/Maps/DoublyLinkedList/Remove/Views.antt =====
-- What is read while a node is taken out, and the map that is left.
use veax.Base.{
  ◌≡◌, refl, true, false, Option, none, some, List, [], ◌∷◌, arith, sym, ◌∙◌, ◌+◌, if◌then◌else◌,
  inl, inr, Bool-cases, Option-cases,
}
use veax.Base.Eq.{Eq, ◌==◌}
use veax.Base.Panic.{Run, done}
use veax.Maps.Storage.{Env, Borsh}
use veax.Maps.Entries.{has, erase, length-erase}
use veax.Maps.DoublyLinkedList.{
  Node, node, DoublyLinkedListMap, head_key, get_stored_node, remove_stored_node, get_node,
}
use veax.Maps.DoublyLinkedList.Chain.{Chain, is_key, next-mem}
use veax.Maps.DoublyLinkedList.Unlink.{Unlinked}
use veax.Maps.DoublyLinkedList.State.{IsMap, get_stored-remove, get_stored-prefix}

module _ {K V : Type 0} ⦃e : Eq K⦄ where
  pub has-erase : (j k : K) (xs : List (K × V)) → (j == k) ≡ false → has j (erase k xs) ≡ has j xs
  has-erase j k [] h = refl
  has-erase j k ((i, v) ∷ xs) h =
      ground (arith, has-erase j k xs h, e.equal_iff k i, e.equal_iff j k)

module _ (env : Env) {K V : Type 0} ⦃e : Eq K⦄ (keys : Borsh K) (nodes : Borsh (Node K V)) where
  open env use {Store}

  abbrev pub view : DoublyLinkedListMap K → Store → K → Run (Option (Node K V))
  view m s k = get_node env keys nodes m k s

  -- Of the map's fields only the prefix and the head decide what is read.
  pub view-fields :
      (m m' : DoublyLinkedListMap K) (s : Store) (j : K)
      → m'.key_prefix ≡ m.key_prefix
      → m'.head ≡ m.head
      → view m' s j ≡ view m s j
  unfolding get_node
  view-fields m m' s j prefix head =
      ground (arith, get_stored-prefix env keys nodes m m' j s prefix)

  pub view-remove :
      (m m' : DoublyLinkedListMap K) (j k : K) (s : Store)
      → m'.key_prefix ≡ m.key_prefix
      → m'.head ≡ m.head
      → is_key (head_key m.head) k ≡ false
      → view m' (remove_stored_node env keys nodes m' k s) j
        ≡ (if j == k then done none else view m s j)
  unfolding get_node
  view-remove m m' j k s prefix head later = elim (Option-cases m.head) [
    | inl empty ↦ ground (
      arith,
      get_stored-remove env keys nodes m' m' j k s refl,
      get_stored-prefix env keys nodes m m' j s prefix,
    )
    | inr ((h, b), first) ↦ ground (
      arith,
      get_stored-remove env keys nodes m' m' j k s refl,
      get_stored-prefix env keys nodes m m' j s prefix,
      e.equal_iff h k,
      e.equal_iff h j,
      e.equal_iff j k,
    )
  ]

  module _ (m : DoublyLinkedListMap K) (s : Store) (xs : List (K × V))
      (is : IsMap env keys nodes m s xs) (k : K) (w : V) (pk nk : Option K)
      (there : has k xs ≡ true) (at : view m s k ≡ done (some (node w pk nk))) where
    -- The neighbours of the removed node are keys of the map.
    pub next-inside : (j : K) → has j xs ≡ false → is_key nk j ≡ false
    next-inside j out = elim (Option-cases nk) [
      | inl end ↦ rw end
      | inr (n, lead) ↦ ground (
        arith,
        next-mem (view m s) none (head_key m.head) xs k n w pk is.chain there (ground arith),
        e.equal_iff n j,
      )
    ]

    -- What makes a map hold the other entries.
    pub removed-IsMap :
        (m' : DoublyLinkedListMap K) (s' : Store)
        → Chain (view m' s') none (head_key m'.head) (erase k xs)
        → Unlinked (view m s) (view m' s') k pk nk
        → ((j : K) → has j xs ≡ false → is_key pk j ≡ false)
        → view m' s' k ≡ done none
        → m.length ≡ m'.length + 1
        → ((j : K) → head_key m'.head ≡ some j → get_stored_node env keys nodes m' j s' ≡ done none)
        → IsMap env keys nodes m' s' (erase k xs)
    removed-IsMap m' s' chain un prev-inside gone shorter head = record {
      chain = chain;
      absent = λ j away. elim (Bool-cases (j == k)) [
        | inl same ↦ ground (arith, e.equal_iff j k)
        | inr other ↦
            let out : has j xs ≡ false = sym (has-erase j k xs other) ∙ away in
            un.others j (prev-inside j out) (next-inside j out) other ∙ is.absent j out
      ];
      count = omega (arith, is.count, length-erase k xs there);
      head_unstored = head;
    }
