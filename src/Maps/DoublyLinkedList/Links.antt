-- ===== src/Maps/DoublyLinkedList/Links.antt =====
-- The neighbours of a chained node: they are chained, and they differ from it and each other.
use veax.Base.{◌≡◌, true, false, Option, some, List, [], ◌∷◌, arith, inl, inr, Bool-cases}
use veax.Base.Eq.{Eq, ◌==◌}
use veax.Base.Panic.{Run, done}
use veax.Maps.Entries.{has}
use veax.Maps.DoublyLinkedList.{Node, node}
use veax.Maps.DoublyLinkedList.Chain.{Chain, is_key, is_key_iff, start-mem, start-prev}

module _ {K V : Type 0} ⦃e : Eq K⦄ (f : K → Run (Option (Node K V))) where
  -- The next node is another one.
  pub next-ne :
      (prev p : Option K) (xs : List (K × V)) (k n : K) (w : V) (a : Option K)
      → Chain f prev p xs
      → has k xs ≡ true
      → f k ≡ done (some (node w a (some n)))
      → (n == k) ≡ false
  next-ne prev p [] k n w a c there at = absurd (ground arith)
  next-ne prev p ((j, u) ∷ xs) k n w a (r, start, here, out, rest) there at =
      elim (Bool-cases (k == j)) [
        | inl first ↦
            ground (arith, start-mem f (some j) r xs n rest, e.equal_iff k j, e.equal_iff n k)
        | inr later ↦ next-ne (some j) r xs k n w a rest (ground arith) at
      ]

  -- The node before is another one, and not the one after.
  pub prev-ne :
      (prev p : Option K) (xs : List (K × V)) (k i : K) (w : V) (b : Option K)
      → Chain f prev p xs
      → has k xs ≡ true
      → ((j : K) → has j xs ≡ true → is_key prev j ≡ false)
      → f k ≡ done (some (node w (some i) b))
      → (i == k) ≡ false
  prev-ne prev p [] k i w b c there apart at = absurd (ground arith)
  prev-ne prev p ((j, u) ∷ xs) k i w b (r, start, here, out, rest) there apart at =
      elim (Bool-cases (k == j)) [
        | inl first ↦
            ground (arith, apart k there, e.equal_iff k j, e.equal_iff i k, is_key_iff prev k)
        | inr later ↦
            prev-ne (some j) r xs k i w b rest (ground arith)
              (λ l inside. ground (arith, e.equal_iff j l)) at
      ]

  pub prev-ne-next :
      (prev p : Option K) (xs : List (K × V)) (k i n : K) (w : V)
      → Chain f prev p xs
      → has k xs ≡ true
      → ((j : K) → has j xs ≡ true → is_key prev j ≡ false)
      → f k ≡ done (some (node w (some i) (some n)))
      → (i == n) ≡ false
  prev-ne-next prev p [] k i n w c there apart at = absurd (ground arith)
  prev-ne-next prev p ((j, u) ∷ xs) k i n w (r, start, here, out, rest) there apart at =
      elim (Bool-cases (k == j)) [
        | inl first ↦ ground (
          arith,
          apart n,
          start-mem f (some j) r xs n rest,
          e.equal_iff k j,
          e.equal_iff i n,
          is_key_iff prev n,
        )
        | inr later ↦
            prev-ne-next (some j) r xs k i n w rest (ground arith)
              (λ l inside. ground (arith, e.equal_iff j l)) at
      ]

  -- A node that is not the first points back to some key.
  pub later-prev :
      (prev p : Option K) (xs : List (K × V)) (k : K) (w : V) (a b : Option K)
      → Chain f prev p xs
      → has k xs ≡ true
      → is_key p k ≡ false
      → f k ≡ done (some (node w a b))
      → (i : K) × (a ≡ some i)
  later-prev prev p [] k w a b c there later at = absurd (ground arith)
  later-prev prev p ((j, u) ∷ xs) k w a b (r, start, here, out, rest) there later at =
      elim (Bool-cases (is_key r k)) [
        | inl second ↦ (j, start-prev f (some j) r xs k w a b rest ((is_key_iff r k).0 second) at)
        | inr further ↦
            later-prev (some j) r xs k w a b rest (ground (arith, e.equal_iff k j, is_key_iff p k))
              further at
      ]
