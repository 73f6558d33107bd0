-- ===== src/Fp/U256x256/Laws.antt =====
-- veax/dex/src/fp/u256x256.rs: the operations against exact arithmetic_u256x256 on the numbers that words stand for.
use veax.Base.{
  ℕ, ◌+◌, ◌*◌, ◌/◌, ◌%◌, ◌^◌, ◌<◌, ◌≡◌, refl, Bool, List, [], ◌∷◌, inl, inr, arith, Bool-cases,
}
use native.Mathlib.Nat.{div-le_self}
use veax.Base.Panic.{Run, done, ◌>>=◌}
use veax.Fp.Uint.Words.{U512, U768, u512, u512_words, u768, u768_words}
use veax.Fp.Uint.Laws.{
  Uint, Gives, fits, overflows, Differs, least, below, Divides, by_some, by_zero, Product, whole,
  lossy, Product-at, Divides-at, all_zero, all_zero-total, not_all_zero-total,
}
use veax.Fp.Sums.Laws.{AllValid, total, Gives-at, sum_from-Gives}
use veax.Fp.U256x256.{
  U256x256, u256x256, value, IsValid, limbs, scale_product, narrow_quotient, zero, add, sub, sum,
  mul, div, floor, fract,
}

wrap-Gives :
    (r : Run U512) (v : ℕ) → Gives u512_words r v → Gives limbs (r >>= λ c. done (u256x256 c)) v
wrap-Gives r v (fits c e ok h) = fits (u256x256 c) (rw e refl) ok h
wrap-Gives r v (overflows e h) = overflows (rw e refl) h

wrap-Differs :
    (r : Run U512) (a b : ℕ)
    → Differs u512_words r a b
    → Differs limbs (r >>= λ c. done (u256x256 c)) a b
wrap-Differs r a b (least p g) = least p (wrap-Gives r _ g)
wrap-Differs r a b (below p e) = below p (rw e refl)

scale_product-Gives :
    (p : U768 × Bool) (v : ℕ) → Product u768_words p v → Gives limbs (scale_product p) (v / 2 ^ 256)
unfolding scale_product
scale_product-Gives (u768 w0 w1 w2 w3 w4 w5 w6 w7 w8 w9 w10 w11, b) v (whole e ok h) =
    fits (u256x256 (u512 w4 w5 w6 w7 w8 w9 w10 w11)) (rw e refl) (omega arith) (omega arith)
scale_product-Gives (u768 w0 w1 w2 w3 w4 w5 w6 w7 w8 w9 w10 w11, b) v (lossy e h) =
    overflows (rw e refl) (omega arith)

narrow_quotient-Gives :
    (r : Run U768) (v : ℕ)
    → v < 2 ^ 768
    → Gives u768_words r v
    → Gives limbs (r >>= narrow_quotient) v
unfolding narrow_quotient
narrow_quotient-Gives r v room (overflows e h) = absurd (omega arith)
narrow_quotient-Gives r v room (fits (u768 w0 w1 w2 w3 w4 w5 w6 w7 w8 w9 w10 w11) e ok h) =
    elim (Bool-cases (all_zero (w8 ∷ w9 ∷ w10 ∷ w11 ∷ []))) [
      | inl t ↦
          let clear = all_zero-total (w8 ∷ w9 ∷ w10 ∷ w11 ∷ []) t in
          fits (u256x256 (u512 w0 w1 w2 w3 w4 w5 w6 w7)) (rw (e, t) refl) (omega (arith, h, clear))
            (omega (arith, h, clear))
      | inr t ↦
          let more = not_all_zero-total (w8 ∷ w9 ∷ w10 ∷ w11 ∷ []) t in
          overflows (rw (e, t) refl) (omega (arith, h, more))
    ]

narrow_quotient-Divides :
    (r : Run U768) (a b : ℕ)
    → a < 2 ^ 768
    → Divides u768_words r a b
    → Divides limbs (r >>= narrow_quotient) a b
narrow_quotient-Divides r a b room (by_some p g) =
    by_some p (narrow_quotient-Gives r _ (omega (arith, div-le_self a b)) g)
narrow_quotient-Divides r a b room (by_zero e q) = by_zero e (rw q refl)

module _ (small : Uint u512_words) where
  pub add-Gives :
      (a b : U256x256) → IsValid a → IsValid b → Gives limbs (add small a b) (value a + value b)
  unfolding add
  add-Gives (u256x256 a) (u256x256 b) va vb = wrap-Gives _ _ (small.add_gives a b va vb)

  pub sub-Differs :
      (a b : U256x256) → IsValid a → IsValid b → Differs limbs (sub small a b) (value a) (value b)
  unfolding sub
  sub-Differs (u256x256 a) (u256x256 b) va vb = wrap-Differs _ _ _ (small.sub_differs a b va vb)

  pub sum-Gives :
      (xs : List U256x256) → AllValid limbs xs → Gives limbs (sum small xs) (total limbs xs)
  unfolding sum zero
  sum-Gives xs all =
      Gives-at limbs _ (omega (arith, small.zero_value))
        (sum_from-Gives limbs (add small) add-Gives (u256x256 small.zero) xs small.zero_IsValid all)

pub mul-Gives :
    (wide : Uint u768_words) (a b : U256x256)
    → IsValid a
    → IsValid b
    → Gives limbs (mul wide a b) (value a * value b / 2 ^ 256)
unfolding mul
mul-Gives wide (u256x256 (u512 a0 a1 a2 a3 a4 a5 a6 a7)) (u256x256 (u512 b0 b1 b2 b3 b4 b5 b6 b7))
      va vb =
    let x = u768 a0 a1 a2 a3 a4 a5 a6 a7 0 0 0 0 in
    let y = u768 b0 b1 b2 b3 b4 b5 b6 b7 0 0 0 0 in
    scale_product-Gives _ _ (
      Product-at u768_words _ (omega arith) (omega arith)
        (wide.mul_gives x y (omega arith) (omega arith)))

pub div-Divides :
    (wide : Uint u768_words) (a b : U256x256)
    → IsValid a
    → IsValid b
    → Divides limbs (div wide a b) (value a * 2 ^ 256) (value b)
unfolding div
div-Divides wide (u256x256 (u512 a0 a1 a2 a3 a4 a5 a6 a7)) (u256x256 (u512 b0 b1 b2 b3 b4 b5 b6 b7))
      va vb =
    let x = u768 0 0 0 0 a0 a1 a2 a3 a4 a5 a6 a7 in
    let y = u768 b0 b1 b2 b3 b4 b5 b6 b7 0 0 0 0 in
    narrow_quotient-Divides _ _ _ (omega arith) (
      Divides-at u768_words _ (omega arith) (omega arith)
        (wide.div_divides x y (omega arith) (omega arith)))

-- For two U256X256 of valid words, over any implementation of the integers of the crate `uint`:
-- sum, difference, product and quotient are panics exactly where the number does not fit in 512
-- bits, the difference is below zero or the divisor is zero; else they have valid words, those of
-- the exact number, cut off after 256 bits of fraction in a product and a quotient.
pub arithmetic_u256x256 :
    (small : Uint u512_words) (wide : Uint u768_words)
    → (a b : U256x256) → IsValid a
    → IsValid b
    → Gives limbs (add small a b) (value a + value b)
      × Differs limbs (sub small a b) (value a) (value b)
      × Gives limbs (mul wide a b) (value a * value b / 2 ^ 256)
      × Divides limbs (div wide a b) (value a * 2 ^ 256) (value b)
arithmetic_u256x256 small wide a b va vb = (
  add-Gives small a b va vb,
  sub-Differs small a b va vb,
  mul-Gives wide a b va vb,
  div-Divides wide a b va vb,
)

pub floor-fract :
    (a : U256x256)
    → IsValid a
    → (value (floor a) ≡ value a / 2 ^ 256 * 2 ^ 256) × (value (fract a) ≡ value a % 2 ^ 256)
unfolding floor fract
floor-fract (u256x256 (u512 w0 w1 w2 w3 w4 w5 w6 w7)) ok = (omega arith, omega arith)
