-- ===== src/Fp/U128x128/Laws.antt =====
-- veax/dex/src/fp/u128x128.rs: the operations against exact arithmetic_u128x128 on the numbers that words stand for.
use veax.Base.{
  ℕ, ◌+◌, ◌*◌, ◌/◌, ◌%◌, ◌^◌, ◌<◌, ◌≡◌, refl, Bool, List, [], ◌∷◌, inl, inr, arith, Bool-cases,
}
use native.Mathlib.Nat.{div-le_self}
use veax.Base.Panic.{Run, done, ◌>>=◌}
use veax.Fp.Uint.Words.{U256, U384, U512, u256, u256_words, u384, u384_words, u512, u512_words}
use veax.Fp.Uint.Laws.{
  Uint, Gives, fits, overflows, Differs, least, below, Divides, by_some, by_zero, Product, whole,
  lossy, Product-at, Divides-at, all_zero, all_zero-total, not_all_zero-total,
}
use veax.Fp.Sums.Laws.{AllValid, total, Gives-at, sum_from-Gives}
use veax.Fp.U128x128.{
  U128x128, u128x128, value, IsValid, limbs, scale_product, narrow_quotient, zero, add, sub, sum,
  mul, div, floor, fract,
}

wrap-Gives :
    (r : Run U256) (v : ℕ) → Gives u256_words r v → Gives limbs (r >>= λ c. done (u128x128 c)) v
wrap-Gives r v (fits c e ok h) = fits (u128x128 c) (rw e refl) ok h
wrap-Gives r v (overflows e h) = overflows (rw e refl) h

wrap-Differs :
    (r : Run U256) (a b : ℕ)
    → Differs u256_words r a b
    → Differs limbs (r >>= λ c. done (u128x128 c)) a b
wrap-Differs r a b (least p g) = least p (wrap-Gives r _ g)
wrap-Differs r a b (below p e) = below p (rw e refl)

scale_product-Gives :
    (p : U384 × Bool) (v : ℕ) → Product u384_words p v → Gives limbs (scale_product p) (v / 2 ^ 128)
unfolding scale_product
scale_product-Gives (u384 w0 w1 w2 w3 w4 w5, b) v (whole e ok h) =
    fits (u128x128 (u256 w2 w3 w4 w5)) (rw e refl) (omega arith) (omega arith)
scale_product-Gives (u384 w0 w1 w2 w3 w4 w5, b) v (lossy e h) = overflows (rw e refl) (omega arith)

narrow_quotient-Gives :
    (r : Run U512) (v : ℕ)
    → v < 2 ^ 512
    → Gives u512_words r v
    → Gives limbs (r >>= narrow_quotient) v
unfolding narrow_quotient
narrow_quotient-Gives r v room (overflows e h) = absurd (omega arith)
narrow_quotient-Gives r v room (fits (u512 w0 w1 w2 w3 w4 w5 w6 w7) e ok h) =
    elim (Bool-cases (all_zero (w4 ∷ w5 ∷ w6 ∷ w7 ∷ []))) [
      | inl t ↦
          let clear = all_zero-total (w4 ∷ w5 ∷ w6 ∷ w7 ∷ []) t in
          fits (u128x128 (u256 w0 w1 w2 w3)) (rw (e, t) refl) (omega (arith, h, clear))
            (omega (arith, h, clear))
      | inr t ↦
          let more = not_all_zero-total (w4 ∷ w5 ∷ w6 ∷ w7 ∷ []) t in
          overflows (rw (e, t) refl) (omega (arith, h, more))
    ]

narrow_quotient-Divides :
    (r : Run U512) (a b : ℕ)
    → a < 2 ^ 512
    → Divides u512_words r a b
    → Divides limbs (r >>= narrow_quotient) a b
narrow_quotient-Divides r a b room (by_some p g) =
    by_some p (narrow_quotient-Gives r _ (omega (arith, div-le_self a b)) g)
narrow_quotient-Divides r a b room (by_zero e q) = by_zero e (rw q refl)

module _ (small : Uint u256_words) where
  pub add-Gives :
      (a b : U128x128) → IsValid a → IsValid b → Gives limbs (add small a b) (value a + value b)
  unfolding add
  add-Gives (u128x128 a) (u128x128 b) va vb = wrap-Gives _ _ (small.add_gives a b va vb)

  pub sub-Differs :
      (a b : U128x128) → IsValid a → IsValid b → Differs limbs (sub small a b) (value a) (value b)
  unfolding sub
  sub-Differs (u128x128 a) (u128x128 b) va vb = wrap-Differs _ _ _ (small.sub_differs a b va vb)

  pub sum-Gives :
      (xs : List U128x128) → AllValid limbs xs → Gives limbs (sum small xs) (total limbs xs)
  unfolding sum zero
  sum-Gives xs all =
      Gives-at limbs _ (omega (arith, small.zero_value))
        (sum_from-Gives limbs (add small) add-Gives (u128x128 small.zero) xs small.zero_IsValid all)

pub mul-Gives :
    (wide : Uint u384_words) (a b : U128x128)
    → IsValid a
    → IsValid b
    → Gives limbs (mul wide a b) (value a * value b / 2 ^ 128)
unfolding mul
mul-Gives wide (u128x128 (u256 a0 a1 a2 a3)) (u128x128 (u256 b0 b1 b2 b3)) va vb =
    let x = u384 a0 a1 a2 a3 0 0 in
    let y = u384 b0 b1 b2 b3 0 0 in
    scale_product-Gives _ _ (
      Product-at u384_words _ (omega arith) (omega arith)
        (wide.mul_gives x y (omega arith) (omega arith)))

pub div-Divides :
    (wide : Uint u512_words) (a b : U128x128)
    → IsValid a
    → IsValid b
    → Divides limbs (div wide a b) (value a * 2 ^ 128) (value b)
unfolding div
div-Divides wide (u128x128 (u256 a0 a1 a2 a3)) (u128x128 (u256 b0 b1 b2 b3)) va vb =
    let x = u512 0 0 a0 a1 a2 a3 0 0 in
    let y = u512 b0 b1 b2 b3 0 0 0 0 in
    narrow_quotient-Divides _ _ _ (omega arith) (
      Divides-at u512_words _ (omega arith) (omega arith)
        (wide.div_divides x y (omega arith) (omega arith)))

-- For two U128X128 of valid words, over any implementation of the integers of the crate `uint`:
-- sum, difference, product and quotient are panics exactly where the number does not fit in 256
-- bits, the difference is below zero or the divisor is zero; else they have valid words, those of
-- the exact number, cut off after 128 bits of fraction in a product and a quotient.
pub arithmetic_u128x128 :
    (small : Uint u256_words) (wide : Uint u384_words) (double : Uint u512_words)
    → (a b : U128x128) → IsValid a
    → IsValid b
    → Gives limbs (add small a b) (value a + value b)
      × Differs limbs (sub small a b) (value a) (value b)
      × Gives limbs (mul wide a b) (value a * value b / 2 ^ 128)
      × Divides limbs (div double a b) (value a * 2 ^ 128) (value b)
arithmetic_u128x128 small wide double a b va vb = (
  add-Gives small a b va vb,
  sub-Differs small a b va vb,
  mul-Gives wide a b va vb,
  div-Divides double a b va vb,
)

pub floor-fract :
    (a : U128x128)
    → IsValid a
    → (value (floor a) ≡ value a / 2 ^ 128 * 2 ^ 128) × (value (fract a) ≡ value a % 2 ^ 128)
unfolding floor fract
floor-fract (u128x128 (u256 w0 w1 w2 w3)) ok = (omega arith, omega arith)
