-- ===== src/Maps/Entries.antt =====
-- The abstract view of a map: its entries in the order of iteration, each key once.
use veax.Base.{
  ◌+◌, ◌≡◌, refl, Bool, true, false, ◌&&◌, ◌||◌, Option, none, some, List, [], ◌∷◌, arith,
  if◌then◌else◌, length, Bool-cases, inl, inr,
}
use veax.Base.Eq.{Eq, ◌==◌}

module _ {K V : Type 0} ⦃e : Eq K⦄ where
  abbrev pub lookup : K → List (K × V) → Option V
  lookup j [] = none
  lookup j ((k, v) ∷ xs) = if j == k then some v else lookup j xs

  abbrev pub has : K → List (K × V) → Bool
  has j [] = false
  has j ((k, v) ∷ xs) = (j == k) || has j xs

  -- A new value under a key that is there.
  abbrev pub replace : K → V → List (K × V) → List (K × V)
  replace j v [] = []
  replace j v ((k, w) ∷ xs) = if j == k then (k, v) ∷ xs else (k, w) ∷ replace j v xs

  -- An old key keeps its place, a new one comes first.
  abbrev pub put : K → V → List (K × V) → List (K × V)
  put j v xs = if has j xs then replace j v xs else (j, v) ∷ xs

  abbrev pub erase : K → List (K × V) → List (K × V)
  erase j [] = []
  erase j ((k, w) ∷ xs) = if j == k then xs else (k, w) ∷ erase j xs

  pub has-replace : (i j : K) (v : V) (xs : List (K × V)) → has i (replace j v xs) ≡ has i xs
  has-replace i j v [] = refl
  has-replace i j v (x ∷ xs) = ground (arith, has-replace i j v xs)

  pub length-replace : (j : K) (v : V) (xs : List (K × V)) → length (replace j v xs) ≡ length xs
  length-replace j v [] = refl
  length-replace j v (x ∷ xs) = ground (arith, length-replace j v xs)

  pub lookup-replace :
      (i j : K) (v : V) (xs : List (K × V))
      → lookup i (replace j v xs) ≡ (if i == j && has j xs then some v else lookup i xs)
  lookup-replace i j v [] = ground arith
  lookup-replace i j v ((k, w) ∷ xs) =
      ground (arith, lookup-replace i j v xs, e.equal_iff i j, e.equal_iff i k, e.equal_iff j k)

  -- After `put` a key has the new value, and every other key has the value it had.
  pub lookup-put :
      (i j : K) (v : V) (xs : List (K × V))
      → lookup i (put j v xs) ≡ (if i == j then some v else lookup i xs)
  lookup-put i j v xs = ground (arith, lookup-replace i j v xs)

  pub length-erase :
      (j : K) (xs : List (K × V)) → has j xs ≡ true → length (erase j xs) + 1 ≡ length xs
  length-erase j [] h = ground arith
  length-erase j (x ∷ xs) h = ground (arith, length-erase j xs)

  pub lookup-none : (j : K) (xs : List (K × V)) → has j xs ≡ false → lookup j xs ≡ none
  lookup-none j [] h = refl
  lookup-none j (x ∷ xs) h = ground (arith, lookup-none j xs)

  -- Each key stands once.
  abbrev pub is_unique : List (K × V) → Bool
  is_unique [] = true
  is_unique ((k, v) ∷ xs) = if has k xs then false else is_unique xs

  pub has-lookup : (j : K) (xs : List (K × V)) → has j xs ≡ false → lookup j xs ≡ none
  has-lookup j xs h = lookup-none j xs h

  pub lookup-has : (j : K) (v : V) (xs : List (K × V)) → lookup j xs ≡ some v → has j xs ≡ true
  lookup-has j v [] h = ground arith
  lookup-has j v (x ∷ xs) h = ground (arith, lookup-has j v xs)

  replace-replace :
      (j : K) (v w : V) (xs : List (K × V)) → replace j v (replace j w xs) ≡ replace j v xs
  replace-replace j v w [] = refl
  replace-replace j v w (x ∷ xs) = ground (arith, replace-replace j v w xs)

  replace-lookup : (j : K) (v : V) (xs : List (K × V)) → lookup j xs ≡ some v → replace j v xs ≡ xs
  replace-lookup j v [] h = refl
  replace-lookup j v ((k, w) ∷ xs) h = ground (arith, replace-lookup j v xs, e.equal_iff j k)

  -- Writing the old value back undoes a change of a key that is there.
  pub put-undo :
      (j : K) (v w : V) (xs : List (K × V)) → lookup j xs ≡ some v → put j v (put j w xs) ≡ xs
  put-undo j v w xs h = ground (
    arith,
    lookup-has j v xs,
    has-replace j j w xs,
    replace-replace j v w xs,
    replace-lookup j v xs,
  )

  has-erase : (i j : K) (xs : List (K × V)) → has i xs ≡ false → has i (erase j xs) ≡ false
  has-erase i j [] h = refl
  has-erase i j (x ∷ xs) h = ground (arith, has-erase i j xs)

  pub erase-is_unique :
      (j : K) (xs : List (K × V)) → is_unique xs ≡ true → is_unique (erase j xs) ≡ true
  erase-is_unique j [] h = refl
  erase-is_unique j ((k, w) ∷ xs) h = ground (arith, erase-is_unique j xs, has-erase k j xs)

  pub lookup-erase :
      (i j : K) (xs : List (K × V))
      → is_unique xs ≡ true
      → lookup i (erase j xs) ≡ (if i == j then none else lookup i xs)
  lookup-erase i j [] h = ground arith
  lookup-erase i j ((k, w) ∷ xs) h = ground (
    arith,
    lookup-erase i j xs,
    lookup-none k xs,
    e.equal_iff i j,
    e.equal_iff i k,
    e.equal_iff j k,
  )

  pub put-put : (j : K) (v w : V) (xs : List (K × V)) → put j v (put j w xs) ≡ put j v xs
  put-put j v w xs = ground (arith, has-replace j j w xs, replace-replace j v w xs, e.equal_iff j j)

  -- A key that is there keeps the number of entries.
  pub length-put :
      (j : K) (v w : V) (xs : List (K × V)) → lookup j xs ≡ some v → length (put j w xs) ≡ length xs
  length-put j v w xs h = ground (arith, lookup-has j v xs, length-replace j w xs)

  pub is_unique-replace :
      (j : K) (v : V) (xs : List (K × V)) → is_unique (replace j v xs) ≡ is_unique xs
  is_unique-replace j v [] = refl
  is_unique-replace j v ((k, w) ∷ xs) =
      ground (arith, is_unique-replace j v xs, has-replace k j v xs)

  pub lookup-some : (j : K) (xs : List (K × V)) → has j xs ≡ true → (v : V) × (lookup j xs ≡ some v)
  lookup-some j [] h = absurd (ground arith)
  lookup-some j ((k, w) ∷ xs) h = elim (Bool-cases (j == k)) [
    | inl e ↦ (w, rw e refl)
    | inr e ↦ let (v, later) = lookup-some j xs (ground (arith, e)) in (v, rw e later)
  ]

  pub put-same : (j : K) (v : V) (xs : List (K × V)) → lookup j xs ≡ some v → put j v xs ≡ xs
  put-same j v xs h = ground (arith, lookup-has j v xs, replace-lookup j v xs)
