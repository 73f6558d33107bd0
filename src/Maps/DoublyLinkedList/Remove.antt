-- ===== src/Maps/DoublyLinkedList/Remove.antt =====
-- `remove` against the abstract entries.
pub mod Views
pub mod Head
pub mod Inner
use veax.Base.{
  ℕ, ◌≡◌, refl, true, false, Option, none, some, List, [], ◌∷◌, arith, sym, ◌∙◌, subst, ◌+◌,
  if◌then◌else◌, length, inl, inr, Bool-cases, Option-cases,
}
use veax.Base.Eq.{Eq, ◌==◌}
use veax.Base.Panic.{Run, done, sub_checked}
use veax.Maps.Storage.{Env, Borsh}
use veax.Maps.Entries.{lookup, has, erase, length-erase, lookup-none}
use veax.Maps.DoublyLinkedList.{
  Node, node, DoublyLinkedListMap, head_key, get_stored_node, remove_stored_node, serialize_node,
  get_node, set_node, relink_next, unlink_inner, unlink_head, remove,
}
use veax.Maps.DoublyLinkedList.Chain.{
  Chain, is_key, is_key_iff, Chain-lookup, start-prev, next-mem, prev-mem,
}
use veax.Maps.DoublyLinkedList.Unlink.{Unlinked, Chain-unlink_first, Chain-unlink_later}
use veax.Maps.DoublyLinkedList.State.{
  IsMap, SameShape, get_stored-remove, get_stored-prefix, get_node-set, set_node-SameShape,
  set_node-head_unstored,
}
use veax.Maps.DoublyLinkedList.Links.{next-ne, prev-ne, prev-ne-next, later-prev}
use veax.Maps.DoublyLinkedList.Read.{get_node-head, stored_of_ne, head-some}
use veax.Maps.DoublyLinkedList.Remove.Head.{first-IsMap, no_prev}
use veax.Maps.DoublyLinkedList.Remove.Inner.{inner-IsMap}

module _ (env : Env) {K V : Type 0} ⦃e : Eq K⦄ (keys : Borsh K) (nodes : Borsh (Node K V)) where
  open env use {Store}

  -- `remove` once its node is found, by whether the node points back.
  module _ (m m' : DoublyLinkedListMap K) (s s' : Store) (k : K) (w : V) (nk : Option K) (l : ℕ)
      (shorter : m.length ≡ l + 1) where
    one_less : sub_checked m.length 1 ≡ done l
    one_less = ground arith

    remove-first :
        (pk : Option K)
        → pk ≡ none
        → get_node env keys nodes m k s ≡ done (some (node w pk nk))
        → unlink_head env keys nodes nk (record m { length = l }) s ≡ done (m', s')
        → remove env keys nodes m k s ≡ done (some w, m', s')
    unfolding remove
    remove-first pk start at unlinked = rw (at, one_less, start, unlinked)

    remove-inner :
        (pk : Option K) (i : K)
        → pk ≡ some i
        → get_node env keys nodes m k s ≡ done (some (node w pk nk))
        → unlink_inner env keys nodes k i nk (record m { length = l }) s ≡ done (m', s')
        → remove env keys nodes m k s ≡ done (some w, m', s')
    unfolding remove
    remove-inner pk i back at unlinked = rw (at, one_less, back, unlinked)

  remove_there :
      (m : DoublyLinkedListMap K) (s : Store) (xs : List (K × V)) (k : K)
      → IsMap env keys nodes m s xs
      → has k xs ≡ true
      → (m' : DoublyLinkedListMap K) × (s' : Store) × (remove env keys nodes m k s
          ≡ done (lookup k xs, m', s'))
        × IsMap env keys nodes m' s' (erase k xs)
  remove_there m s xs k is there =
      let l = length (erase k xs) in
      let shorter : m.length ≡ l + 1 = omega (arith, is.count, length-erase k xs there) in
      let (w, pk, nk, at, is_w) =
        Chain-lookup (λ j. get_node env keys nodes m j s) none (head_key m.head) xs k is.chain
          there in
      elim (Bool-cases (is_key (head_key m.head) k)) [
        | inl first ↦
            let start = (is_key_iff (head_key m.head) k).0 first in
            let none_before = no_prev env keys nodes m s xs is k w pk nk there at start in
            let (m', s', unlinked, rest) =
              first-IsMap env keys nodes m s xs is k w pk nk there at l shorter start in
            (
              m',
              s',
              rw is_w (remove-first m m' s s' k w nk l shorter pk none_before at unlinked),
              rest,
            )
        | inr later ↦
            let (i, back) =
              later-prev (λ j. get_node env keys nodes m j s) none (head_key m.head) xs k w pk nk
                is.chain there later at in
            let (u, a, b, before, _) =
              Chain-lookup (λ j. get_node env keys nodes m j s) none (head_key m.head) xs i is.chain
                (prev-mem (λ j. get_node env keys nodes m j s) none (head_key m.head) xs k i w nk
                  is.chain there later (ground arith)) in
            let (m', s', unlinked, rest) =
              inner-IsMap env keys nodes m s xs is k w pk nk there at l shorter later i back u a b
                before in
            (m', s', rw is_w (remove-inner m m' s s' k w nk l shorter pk i back at unlinked), rest)
      ]

  -- For a doubly linked map that holds the entries xs: `remove` does not panic, returns the value
  -- that the key has in xs, and leaves a well-formed map that holds xs without the key (xs itself
  -- for an unknown key).
  pub remove-erase :
      (m : DoublyLinkedListMap K) (s : Store) (xs : List (K × V)) (k : K)
      → IsMap env keys nodes m s xs
      → (m' : DoublyLinkedListMap K) × (s' : Store) × (remove env keys nodes m k s
          ≡ done (lookup k xs, m', s'))
        × IsMap env keys nodes m' s' (if has k xs then erase k xs else xs)
  remove-erase m s xs k is = elim (Bool-cases (has k xs)) [
    | inl there ↦ rw there (remove_there m s xs k is there)
    | inr gone ↦ rw gone (m, s, unfold remove in rw (is.absent k gone, lookup-none k xs gone), is)
  ]
