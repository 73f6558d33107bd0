-- ===== src/Dex/Tick/Price/Product.antt =====
-- dex/tick.rs: which entries of the table the square root of the price at a tick multiplies.
use veax.Base.{
  ℕ, zero, suc, ◌+◌, ◌^◌, ◌<◌, ◌≤◌, ◌≡◌, refl, ap, subst, ◌∙◌, true, none, some, Option, List, [],
  ◌∷◌, ltb, if◌then◌else◌, get_elem?, get_elem?-length, arith,
}
use veax.Base.Int.{ℤ, pos_part, neg_part}
use veax.Dex.Tick.{Tick, is_valid_eff}
use veax.Dex.Tick.Price.{
  Float, precalculated_ticks, iter_ones, abs, product_from, product1, spot_sqrtprice,
}
use veax.Dex.Tick.Price.Bits.{
  weight, weight-iter_ones, iter_ones-Below, iter_ones-Ascending, Below, none_left, one_more,
  Ascending, no_bits, then_bits,
}
use veax.Dex.Tick.Price.Table.{IsNearest, precalculated_ticks-IsNearest}

-- The doubles `xs` are the nearest ones to the powers of the root by 2 ^ i, for the `i` of a list
-- that ascends from the given one.
pub data Factors : ℕ → List ℕ → List ℕ → Type 0 where
  no_factors : {at : ℕ} → Factors at [] []
  factor :
      {at i x : ℕ} {is xs : List ℕ}
      → at ≤ i
      → IsNearest i x
      → Factors (i + 1) is xs
      → Factors at (i ∷ is) (x ∷ xs)

module _ (float : Float) where
  open float use {F, from_bits, one, times, recip}

  abbrev pub times_all : F → List ℕ → F
  times_all total [] = total
  times_all total (x ∷ xs) = times_all (times total (from_bits x)) xs

  -- The product of the factors in their order, its reciprocal for a negative index, and one for none.
  abbrev pub price : ℤ → List ℕ → F
  price index [] = one
  price index (x ∷ xs) =
      if ltb 0 (neg_part index)
      then recip (times_all (from_bits x) xs)
      else times_all (from_bits x) xs

  in_table : (i : ℕ) → i < 21 → (x : ℕ) × (get_elem? precalculated_ticks i ≡ some x)
  in_table i small = get_elem?-length precalculated_ticks i small

  product_from-Factors :
      (at : ℕ) (is : List ℕ)
      → Ascending at is
      → Below 21 is
      → (xs : List ℕ) × (Factors at is xs
          × ((total : F) → product_from float total is ≡ some (times_all total xs)))
  unfolding product_from
  product_from-Factors at [] no_bits none_left = ([], (no_factors, λ total. refl))
  product_from-Factors at (i ∷ is) (then_bits later ascends) (one_more small rest) =
      let (x, found) = in_table i small in
      let (xs, (factors, product)) = product_from-Factors (i + 1) is ascends rest in
      (
        x ∷ xs,
        (
          factor later (precalculated_ticks-IsNearest i x found) factors,
          λ total. rw found (product (times total (from_bits x))),
        ),
      )

  nonzero_sign :
      (t : ℤ) (m : F)
      → 0 < abs t
      → (if ltb 0 (pos_part t) then m else recip m) ≡ (if ltb 0 (neg_part t) then recip m else m)
  nonzero_sign t m more = ground arith

  abs-weight : (t : ℤ) → is_valid_eff t ≡ true → weight (iter_ones 32 0 (abs t)) ≡ abs t
  abs-weight t valid =
      let small : abs t < 2 ^ 32 = ground arith in weight-iter_ones 32 0 (abs t) small ∙ omega arith

  abs-Below : (t : ℤ) → is_valid_eff t ≡ true → Below 21 (iter_ones 32 0 (abs t))
  abs-Below t valid = iter_ones-Below 32 0 21 (abs t) (ground arith)

  abbrev product_of : List ℕ → Option F
  product_of [] = none
  product_of (x ∷ xs) = some (times_all (from_bits x) xs)

  product1-Factors :
      (is : List ℕ)
      → Ascending 0 is
      → Below 21 is
      → (xs : List ℕ) × (Factors 0 is xs × (product1 float is ≡ some (product_of xs)))
  unfolding product1
  product1-Factors [] no_bits none_left = ([], (no_factors, refl))
  product1-Factors (i ∷ is) (then_bits later ascends) (one_more small rest) =
      let (x, found) = in_table i small in
      let (xs, (factors, product)) = product_from-Factors (i + 1) is ascends rest in
      (
        x ∷ xs,
        (
          factor later (precalculated_ticks-IsNearest i x found) factors,
          rw (found, product (from_bits x)) refl,
        ),
      )

  one_power : (i : ℕ) → 0 < 2 ^ i
  one_power zero = omega arith
  one_power (suc i) = let ih = one_power i in omega (arith, ih)

  some_weight : (i : ℕ) (is : List ℕ) → 0 < weight (i ∷ is)
  some_weight i is = let more = one_power i in omega (arith, more)

  -- The last step: one, the product or its reciprocal.
  spot_sqrtprice-product :
      (t : Tick) (is xs : List ℕ)
      → Factors 0 is xs
      → weight is ≡ abs t.index
      → product1 float (iter_ones 32 0 (abs t.index)) ≡ some (product_of xs)
      → spot_sqrtprice float t ≡ some (price t.index xs)
  unfolding spot_sqrtprice
  spot_sqrtprice-product t [] (x ∷ xs) factors total product = elim factors [ ]
  spot_sqrtprice-product t (i ∷ is) [] factors total product = elim factors [ ]
  spot_sqrtprice-product t [] [] no_factors total product = rw (product, spot_sqrtprice) refl
  spot_sqrtprice-product t (i ∷ is) (x ∷ xs) (factor later nearest rest) total product =
      let nonzero : 0 < abs t.index = subst (λ n. 0 < n) total (some_weight i is) in
      rw (product, spot_sqrtprice)
        (ap some (nonzero_sign t.index (times_all (from_bits x) xs) nonzero))

  -- For every index that is a valid effective tick (so for every valid tick), whatever the
  -- arithmetic of floating point does: no bit is read past the table, and the square root of the
  -- price is the product, in ascending order, of the table's entries for distinct numbers i whose
  -- powers 2 ^ i sum to the absolute value of the index, or its reciprocal for a negative index,
  -- or one for the index zero; and the entry for i has the bits of the double nearest to the
  -- square root of 1.0001 to the power 2 ^ i.
  pub spot_sqrtprice-Factors :
      (t : Tick)
      → is_valid_eff t.index ≡ true
      → (is : List ℕ) × ((xs : List ℕ) × (Factors 0 is xs
            × ((weight is ≡ abs t.index) × (spot_sqrtprice float t ≡ some (price t.index xs)))))
  spot_sqrtprice-Factors t valid =
      let is = iter_ones 32 0 (abs t.index) in
      let total = abs-weight t.index valid in
      let (xs, (factors, product)) =
        product1-Factors is (iter_ones-Ascending 32 0 (abs t.index)) (abs-Below t.index valid) in
      (is, (xs, (factors, (total, spot_sqrtprice-product t is xs factors total product))))
