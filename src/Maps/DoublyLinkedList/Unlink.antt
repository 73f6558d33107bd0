-- ===== src/Maps/DoublyLinkedList/Unlink.antt =====
-- A chain after the node of one key is taken out and its neighbours are joined.
use veax.Base.{
  ◌≡◌, refl, true, false, Option, none, some, List, [], ◌∷◌, arith, inl, inr, Bool-cases, sym, ◌∙◌,
  subst,
}
use veax.Base.Eq.{Eq, ◌==◌}
use veax.Base.Panic.{Run, done}
use veax.Maps.Entries.{has, erase}
use veax.Maps.DoublyLinkedList.{Node, node}
use veax.Maps.DoublyLinkedList.Chain.{
  Chain, Chain-frame, is_key, is_key_iff, start-prev, next-mem, prev-mem, has-erase-false,
}

module _ {K V : Type 0} ⦃e : Eq K⦄ where
  -- The neighbours of a key further on are not the key before the chain.
  prev-apart :
      (f : K → Run (Option (Node K V))) (r : Option K) (xs : List (K × V)) (j k : K) (w : V)
      (pk nk : Option K)
      → Chain f (some j) r xs
      → has k xs ≡ true
      → is_key r k ≡ false
      → f k ≡ done (some (node w pk nk))
      → has j xs ≡ false
      → is_key pk j ≡ false
  prev-apart f r xs j k w none nk c there later at out = refl
  prev-apart f r xs j k w (some i) nk c there later at out =
      ground (arith, prev-mem f (some j) r xs k i w nk c there later at, e.equal_iff i j)

  next-apart :
      (f : K → Run (Option (Node K V))) (r : Option K) (xs : List (K × V)) (j k : K) (w : V)
      (pk nk : Option K)
      → Chain f (some j) r xs
      → has k xs ≡ true
      → f k ≡ done (some (node w pk nk))
      → has j xs ≡ false
      → is_key nk j ≡ false
  next-apart f r xs j k w pk none c there at out = refl
  next-apart f r xs j k w pk (some i) c there at out =
      ground (arith, next-mem f (some j) r xs k i w pk c there at, e.equal_iff i j)

  -- `g` is `f` after the node of `k` is taken out and its two neighbours are joined.
  pub record Unlinked (f g : K → Run (Option (Node K V))) (k : K) (pk nk : Option K) : Type 0 where
    pub joined_prev :
        (j : K) (u : V) (a b : Option K)
        → pk ≡ some j
        → f j ≡ done (some (node u a b))
        → g j ≡ done (some (node u a nk))
    pub joined_next :
        (j : K) (u : V) (a b : Option K)
        → nk ≡ some j
        → f j ≡ done (some (node u a b))
        → g j ≡ done (some (node u pk b))
    pub others : (j : K) → is_key pk j ≡ false → is_key nk j ≡ false → (j == k) ≡ false → g j ≡ f j

  module _ (f g : K → Run (Option (Node K V))) (k : K) (w : V) (pk nk : Option K)
      (un : Unlinked f g k pk nk) where
    -- What follows `k` now follows the node before it.
    Chain-after :
        (xs : List (K × V))
        → Chain f (some k) nk xs
        → has k xs ≡ false
        → ((j : K) → has j xs ≡ true → is_key pk j ≡ false)
        → Chain g pk nk xs
    Chain-after [] c out apart = c
    Chain-after ((j, u) ∷ xs) (r, start, here, out', rest) out apart = (
      r,
      start,
      un.joined_next j u (some k) r start here,
      out',
      Chain-frame f g (some j) r xs rest λ i there.
          un.others i (apart i (ground arith)) (ground (arith, e.equal_iff i j, is_key_iff nk i))
            (ground (arith, e.equal_iff i k)),
    )

    -- The first entry goes, and the chain starts where its node led.
    pub Chain-unlink_first :
        (prev p : Option K) (xs : List (K × V))
        → Chain f prev p xs
        → p ≡ some k
        → f k ≡ done (some (node w pk nk))
        → ((j : K) → has j xs ≡ true → is_key prev j ≡ false)
        → Chain g prev nk (erase k xs)
    Chain-unlink_first prev p [] c is at apart = absurd (ground arith)
    Chain-unlink_first prev p ((j, u) ∷ xs) (r, start, here, out, rest) is at apart =
        let first : some j ≡ some k = sym start ∙ is in
        let same : j ≡ k = cc in
        let node_k : f k ≡ done (some (node u prev r)) = ground arith in
        let back : pk ≡ prev = cc in
        let lead : r ≡ nk = cc in
        let after : Chain g pk nk xs =
          Chain-after xs
            (subst (λ i. Chain f (some i) nk xs) same
              (subst (λ q. Chain f (some j) q xs) lead rest))
            (ground arith) (λ i there. ground (arith, apart i)) in
        let hit : (k == j) ≡ true = ground (arith, e.equal_iff k j) in
        rw hit (subst (λ q. Chain g q nk xs) back after)

    -- Another entry goes, and the chain starts where it did.
    pub Chain-unlink_later :
        (prev p : Option K) (xs : List (K × V))
        → Chain f prev p xs
        → has k xs ≡ true
        → is_key p k ≡ false
        → f k ≡ done (some (node w pk nk))
        → Chain g prev p (erase k xs)
    Chain-unlink_later prev p [] c h ne at = absurd (ground arith)
    Chain-unlink_later prev p ((j, u) ∷ xs) (r, start, here, out, rest) h ne at =
        let other : (k == j) ≡ false = ground (arith, e.equal_iff k j, is_key_iff p k) in
        let there : has k xs ≡ true = ground arith in
        rw other (elim (Bool-cases (is_key r k)) [
          | inl second ↦
              let lead = (is_key_iff r k).0 second in
              let back = start-prev f (some j) r xs k w pk nk rest lead at in
              (
                nk,
                start,
                un.joined_prev j u prev r back here,
                has-erase-false j k xs out,
                Chain-unlink_first (some j) r xs rest lead at
                    λ i inside. ground (arith, e.equal_iff j i),
              )
          | inr later ↦ (
            r,
            start,
            ground (
              arith,
              un.others j (prev-apart f r xs j k w pk nk rest there later at out)
                  (next-apart f r xs j k w pk nk rest there at out),
              e.equal_iff j k,
              e.equal_iff k j,
            ),
            has-erase-false j k xs out,
            Chain-unlink_later (some j) r xs rest there later at,
          )
        ])
