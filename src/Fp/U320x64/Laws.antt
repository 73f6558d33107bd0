-- ===== src/Fp/U320x64/Laws.antt =====
-- veax/dex/src/fp/u320x64.rs: the operations against exact arithmetic_u320x64 on the numbers that words stand for.
use veax.Base.{
  ℕ, ◌+◌, ◌*◌, ◌/◌, ◌%◌, ◌^◌, ◌<◌, ◌≡◌, refl, Bool, List, [], ◌∷◌, inl, inr, arith, Bool-cases,
}
use native.Mathlib.Nat.{div-le_self}
use veax.Base.Panic.{Run, done, ◌>>=◌}
use veax.Fp.Uint.Words.{U384, U448, u384, u384_words, u448, u448_words}
use veax.Fp.Uint.Laws.{
  Uint, Gives, fits, overflows, Differs, least, below, Divides, by_some, by_zero, Product, whole,
  lossy, Product-at, Divides-at, all_zero, all_zero-total, not_all_zero-total,
}
use veax.Fp.Sums.Laws.{AllValid, total, Gives-at, sum_from-Gives}
use veax.Fp.U320x64.{
  U320x64, u320x64, value, IsValid, limbs, scale_product, narrow_quotient, zero, add, sub, sum, mul,
  div, floor, fract,
}

wrap-Gives :
    (r : Run U384) (v : ℕ) → Gives u384_words r v → Gives limbs (r >>= λ c. done (u320x64 c)) v
wrap-Gives r v (fits c e ok h) = fits (u320x64 c) (rw e refl) ok h
wrap-Gives r v (overflows e h) = overflows (rw e refl) h

wrap-Differs :
    (r : Run U384) (a b : ℕ)
    → Differs u384_words r a b
    → Differs limbs (r >>= λ c. done (u320x64 c)) a b
wrap-Differs r a b (least p g) = least p (wrap-Gives r _ g)
wrap-Differs r a b (below p e) = below p (rw e refl)

scale_product-Gives :
    (p : U448 × Bool) (v : ℕ) → Product u448_words p v → Gives limbs (scale_product p) (v / 2 ^ 64)
unfolding scale_product
scale_product-Gives (u448 w0 w1 w2 w3 w4 w5 w6, b) v (whole e ok h) =
    fits (u320x64 (u384 w1 w2 w3 w4 w5 w6)) (rw e refl) (omega arith) (omega arith)
scale_product-Gives (u448 w0 w1 w2 w3 w4 w5 w6, b) v (lossy e h) =
    overflows (rw e refl) (omega arith)

narrow_quotient-Gives :
    (r : Run U448) (v : ℕ)
    → v < 2 ^ 448
    → Gives u448_words r v
    → Gives limbs (r >>= narrow_quotient) v
unfolding narrow_quotient
narrow_quotient-Gives r v room (overflows e h) = absurd (omega arith)
narrow_quotient-Gives r v room (fits (u448 w0 w1 w2 w3 w4 w5 w6) e ok h) =
    elim (Bool-cases (all_zero (w6 ∷ []))) [
      | inl t ↦
          let clear = all_zero-total (w6 ∷ []) t in
          fits (u320x64 (u384 w0 w1 w2 w3 w4 w5)) (rw (e, t) refl) (omega (arith, h, clear))
            (omega (arith, h, clear))
      | inr t ↦
          let more = not_all_zero-total (w6 ∷ []) t in
          overflows (rw (e, t) refl) (omega (arith, h, more))
    ]

narrow_quotient-Divides :
    (r : Run U448) (a b : ℕ)
    → a < 2 ^ 448
    → Divides u448_words r a b
    → Divides limbs (r >>= narrow_quotient) a b
narrow_quotient-Divides r a b room (by_some p g) =
    by_some p (narrow_quotient-Gives r _ (omega (arith, div-le_self a b)) g)
narrow_quotient-Divides r a b room (by_zero e q) = by_zero e (rw q refl)

module _ (small : Uint u384_words) where
  pub add-Gives :
      (a b : U320x64) → IsValid a → IsValid b → Gives limbs (add small a b) (value a + value b)
  unfolding add
  add-Gives (u320x64 a) (u320x64 b) va vb = wrap-Gives _ _ (small.add_gives a b va vb)

  pub sub-Differs :
      (a b : U320x64) → IsValid a → IsValid b → Differs limbs (sub small a b) (value a) (value b)
  unfolding sub
  sub-Differs (u320x64 a) (u320x64 b) va vb = wrap-Differs _ _ _ (small.sub_differs a b va vb)

  pub sum-Gives :
      (xs : List U320x64) → AllValid limbs xs → Gives limbs (sum small xs) (total limbs xs)
  unfolding sum zero
  sum-Gives xs all =
      Gives-at limbs _ (omega (arith, small.zero_value))
        (sum_from-Gives limbs (add small) add-Gives (u320x64 small.zero) xs small.zero_IsValid all)

pub mul-Gives :
    (wide : Uint u448_words) (a b : U320x64)
    → IsValid a
    → IsValid b
    → Gives limbs (mul wide a b) (value a * value b / 2 ^ 64)
unfolding mul
mul-Gives wide (u320x64 (u384 a0 a1 a2 a3 a4 a5)) (u320x64 (u384 b0 b1 b2 b3 b4 b5)) va vb =
    let x = u448 a0 a1 a2 a3 a4 a5 0 in
    let y = u448 b0 b1 b2 b3 b4 b5 0 in
    scale_product-Gives _ _ (
      Product-at u448_words _ (omega arith) (omega arith)
        (wide.mul_gives x y (omega arith) (omega arith)))

pub div-Divides :
    (wide : Uint u448_words) (a b : U320x64)
    → IsValid a
    → IsValid b
    → Divides limbs (div wide a b) (value a * 2 ^ 64) (value b)
unfolding div
div-Divides wide (u320x64 (u384 a0 a1 a2 a3 a4 a5)) (u320x64 (u384 b0 b1 b2 b3 b4 b5)) va vb =
    let x = u448 0 a0 a1 a2 a3 a4 a5 in
    let y = u448 b0 b1 b2 b3 b4 b5 0 in
    narrow_quotient-Divides _ _ _ (omega arith) (
      Divides-at u448_words _ (omega arith) (omega arith)
        (wide.div_divides x y (omega arith) (omega arith)))

pub arithmetic_u320x64 :
    (small : Uint u384_words) (wide : Uint u448_words)
    → (a b : U320x64) → IsValid a
    → IsValid b
    → Gives limbs (add small a b) (value a + value b)
      × Differs limbs (sub small a b) (value a) (value b)
      × Gives limbs (mul wide a b) (value a * value b / 2 ^ 64)
      × Divides limbs (div wide a b) (value a * 2 ^ 64) (value b)
arithmetic_u320x64 small wide a b va vb = (
  add-Gives small a b va vb,
  sub-Differs small a b va vb,
  mul-Gives wide a b va vb,
  div-Divides wide a b va vb,
)

pub floor-fract :
    (a : U320x64)
    → IsValid a
    → (value (floor a) ≡ value a / 2 ^ 64 * 2 ^ 64) × (value (fract a) ≡ value a % 2 ^ 64)
unfolding floor fract
floor-fract (u320x64 (u384 w0 w1 w2 w3 w4 w5)) ok = (omega arith, omega arith)
