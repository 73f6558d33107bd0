-- ===== src/Fp/Signed/Sum.antt =====
-- fp/signed.rs: sums of signed numbers stay in range and stand for the sum of the integers.
use veax.Base.{ℕ, ◌+◌, ◌<◌, ◌≡◌, refl, ap, ◌∙◌, List, [], ◌∷◌, arith}
use veax.Base.Int.{ℤ, pos, ◌+ℤ◌, int_laws, +ℤ_assoc, +ℤ_zero}
use veax.Base.Panic.{done}
use veax.Fp.Unsigned.{Unsigned}
use veax.Fp.Signed.{Signed, fold, sum, zero}
use veax.Fp.Signed.Value.{to_int, add-to_int, add-magnitude}

module _ (u : Unsigned) where
  open u use {T, raw, bound}

  -- The sum of the integers, and the sum of the distances from zero.
  abbrev pub total : List (Signed T) → ℤ
  total [] = pos 0
  total (x ∷ xs) = to_int u x +ℤ total xs

  abbrev pub magnitude : List (Signed T) → ℕ
  magnitude [] = 0
  magnitude (x ∷ xs) = raw x.value + magnitude xs

  fold-total :
      (s : Signed T) (xs : List (Signed T))
      → raw s.value + magnitude xs < bound
      → (c : Signed T) × (fold u s xs ≡ done c) × (to_int u c ≡ to_int u s +ℤ total xs)
  unfolding fold
  fold-total s [] room = (s, refl, grind int_laws)
  fold-total s (x ∷ xs) room =
      let (t, added, v) = add-to_int u s x (omega arith) in
      let small = add-magnitude u s x (omega arith) t added in
      let (c, folded, w) = fold-total t xs (omega arith) in
      (
        c,
        rw (added, folded) refl,
        w ∙ ap (λ z. z +ℤ total xs) v ∙ +ℤ_assoc (to_int u s) (to_int u x) (total xs),
      )

  -- The sum of a list of signed numbers whose distances from zero sum to less than the bound does
  -- not panic and stands for the sum of the integers.
  pub sum-total :
      (xs : List (Signed T))
      → magnitude xs < bound
      → (c : Signed T) × (sum u xs ≡ done c) × (to_int u c ≡ total xs)
  unfolding sum zero
  sum-total xs room =
      let (c, folded, v) = fold-total (zero u) xs (omega (arith, u.raw_zero)) in
      (c, folded, v ∙ ap (λ n. pos n +ℤ total xs) u.raw_zero ∙ +ℤ_zero (total xs))
