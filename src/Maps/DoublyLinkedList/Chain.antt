-- ===== src/Maps/DoublyLinkedList/Chain.antt =====
-- Chains of nodes that lead both ways, and what relinking does to them.
use veax.Base.{
  ◌≡◌, refl, true, false, Option, none, some, List, [], ◌∷◌, arith, if◌then◌else◌, inl, inr,
  Bool-cases, Bool, ◌↔◌, sym, ◌∙◌,
}
use veax.Base.Eq.{Eq, ◌==◌}
use veax.Base.Panic.{Run, done}
use veax.Maps.Entries.{lookup, has, replace, erase, has-replace}
use veax.Maps.DoublyLinkedList.{Node, node}

-- From `p` the nodes lead through the entries `xs`, each key once, to the end; `prev` is the key
-- before the first of them. `at` reads the node of a key.
abbrev pub Chain :
    {K V : Type 0}
    → ⦃e : Eq K⦄ → (K → Run (Option (Node K V)))
    → Option K
    → Option K
    → List (K × V)
    → Type 0
Chain at prev p [] = p ≡ none
Chain {K} at prev p ((k, v) ∷ xs) =
    (q : Option K) × (p ≡ some k)
    × (at k ≡ done (some (node v prev q)))
    × (has k xs ≡ false)
    × Chain at (some k) q xs

abbrev pub is_key : {K : Type 0} → ⦃e : Eq K⦄ → Option K → K → Bool
is_key none k = false
is_key (some j) k = j == k

module _ {K : Type 0} ⦃e : Eq K⦄ where
  pub is_key_iff : (p : Option K) (k : K) → (is_key p k ≡ true) ↔ (p ≡ some k)
  is_key_iff none k = ground arith
  is_key_iff (some j) k = ground (arith, e.equal_iff j k)

module _ {K V : Type 0} ⦃e : Eq K⦄ where
  pub Chain-frame :
      (f g : K → Run (Option (Node K V))) (prev p : Option K) (xs : List (K × V))
      → Chain f prev p xs
      → ((k : K) → has k xs ≡ true → g k ≡ f k)
      → Chain g prev p xs
  Chain-frame f g prev p [] c same = c
  Chain-frame f g prev p ((k, v) ∷ xs) (q, start, here, out, rest) same = (
    q,
    start,
    ground (arith, same k, e.equal_iff k k),
    out,
    Chain-frame f g (some k) q xs rest λ j h. same j (ground arith),
  )

  pub Chain-lookup :
      (f : K → Run (Option (Node K V))) (prev p : Option K) (xs : List (K × V)) (k : K)
      → Chain f prev p xs
      → has k xs ≡ true
      → (v : V) × (a : Option K) × (b : Option K) × (f k ≡ done (some (node v a b)))
        × (lookup k xs ≡ some v)
  Chain-lookup f prev p [] k c h = absurd (ground arith)
  Chain-lookup f prev p ((j, w) ∷ xs) k (q, start, here, out, rest) h = elim (Bool-cases (k == j)) [
    | inl same ↦ (w, prev, q, ground (arith, e.equal_iff k j), ground arith)
    | inr other ↦
        let (v, a, b, found, is) = Chain-lookup f (some j) q xs k rest (ground arith) in
        (v, a, b, found, ground arith)
  ]

  -- A new value in the node of a chained key.
  pub Chain-replace :
      (f g : K → Run (Option (Node K V))) (prev p : Option K) (xs : List (K × V)) (k : K) (v w : V)
      (a b : Option K)
      → Chain f prev p xs
      → has k xs ≡ true
      → f k ≡ done (some (node w a b))
      → ((j : K) → g j ≡ (if j == k then done (some (node v a b)) else f j))
      → Chain g prev p (replace k v xs)
  Chain-replace f g prev p [] k v w a b c h old new = absurd (ground arith)
  Chain-replace f g prev p ((j, u) ∷ xs) k v w a b (r, start, here, out, rest) h old new =
      elim (Bool-cases (k == j)) [
        | inl same ↦ rw same (
          r,
          start,
          ground (arith, new j, e.equal_iff k j, e.equal_iff j k),
          out,
          Chain-frame f g (some j) r xs rest
              λ i ih. ground (arith, new i, e.equal_iff i k, e.equal_iff k j),
        )
        | inr other ↦ rw other (
          r,
          start,
          ground (arith, new j, e.equal_iff k j, e.equal_iff j k),
          ground (arith, has-replace j k v xs),
          Chain-replace f g (some j) r xs k v w a b rest (ground arith) old new,
        )
      ]

  pub has-erase-false :
      (i j : K) (xs : List (K × V)) → has i xs ≡ false → has i (erase j xs) ≡ false
  has-erase-false i j [] h = refl
  has-erase-false i j (x ∷ xs) h = ground (arith, has-erase-false i j xs)

  -- The start of a chain is the first of its entries, and its node points back to `prev`.
  pub start-mem :
      (f : K → Run (Option (Node K V))) (prev p : Option K) (xs : List (K × V)) (k : K)
      → Chain f prev p xs
      → p ≡ some k
      → has k xs ≡ true
  start-mem f prev p [] k c h = absurd (ground arith)
  start-mem f prev p ((j, u) ∷ xs) k (r, start, here, out, rest) h = ground (arith, e.equal_iff k j)

  pub start-prev :
      (f : K → Run (Option (Node K V))) (prev p : Option K) (xs : List (K × V)) (k : K) (w : V)
      (a b : Option K)
      → Chain f prev p xs
      → p ≡ some k
      → f k ≡ done (some (node w a b))
      → a ≡ prev
  start-prev f prev p [] k w a b c h at = absurd (ground arith)
  start-prev f prev p ((j, u) ∷ xs) k w a b (r, start, here, out, rest) h at =
      let same : some j ≡ some k = sym start ∙ h in
      let first : f k ≡ done (some (node u prev r)) = ground arith in cc

  -- Where a chained node points to: forward into the chain, and back into it unless it is first.
  pub next-mem :
      (f : K → Run (Option (Node K V))) (prev p : Option K) (xs : List (K × V)) (k i : K) (w : V)
      (a : Option K)
      → Chain f prev p xs
      → has k xs ≡ true
      → f k ≡ done (some (node w a (some i)))
      → has i xs ≡ true
  next-mem f prev p [] k i w a c h at = absurd (ground arith)
  next-mem f prev p ((j, u) ∷ xs) k i w a (r, start, here, out, rest) h at = ground (
    arith,
    next-mem f (some j) r xs k i w a rest,
    start-mem f (some j) r xs i rest,
    e.equal_iff k j,
  )

  pub prev-mem :
      (f : K → Run (Option (Node K V))) (prev p : Option K) (xs : List (K × V)) (k i : K) (w : V)
      (b : Option K)
      → Chain f prev p xs
      → has k xs ≡ true
      → is_key p k ≡ false
      → f k ≡ done (some (node w (some i) b))
      → has i xs ≡ true
  prev-mem f prev p [] k i w b c h ne at = absurd (ground arith)
  prev-mem f prev p ((j, u) ∷ xs) k i w b (r, start, here, out, rest) h ne at =
      elim (Bool-cases (is_key r k)) [
        | inl second ↦
            let back =
              start-prev f (some j) r xs k w (some i) b rest ((is_key_iff r k).0 second) at in
            ground (arith, e.equal_iff i j)
        | inr later ↦
            ground (arith, prev-mem f (some j) r xs k i w b rest, e.equal_iff k j, is_key_iff p k)
      ]
