-- ===== src/Fp/U256x320/Laws.antt =====
-- veax/dex/src/fp/u256x320.rs: the operations against exact arithmetic_u256x320 on the numbers that words stand for.
use veax.Base.{
  ℕ, ◌+◌, ◌*◌, ◌/◌, ◌%◌, ◌^◌, ◌<◌, ◌≡◌, refl, Bool, List, [], ◌∷◌, inl, inr, arith, Bool-cases,
}
use native.Mathlib.Nat.{div-le_self}
use veax.Base.Panic.{Run, done, ◌>>=◌}
use veax.Fp.Uint.Words.{Limbs, U576, U896, u576, u576_words, u896, u896_words}
use veax.Fp.Uint.Laws.{
  Uint, Gives, fits, overflows, Differs, least, below, Divides, by_some, by_zero, Product, whole,
  lossy, Product-at, Divides-at, all_zero, all_zero-total, not_all_zero-total,
}
use veax.Fp.Sums.Laws.{AllValid, total, Gives-at, sum_from-Gives}
use veax.Fp.U256x320.{
  U256x320, u256x320, value, IsValid, limbs, scale_product, narrow_quotient, zero, add, sub, sum,
  mul, div, floor, fract,
}

-- The words of a quotient, of which the code admits eight.
abbrev pub narrow : Limbs
narrow = record {
  N = U256x320;
  value = value;
  IsValid = λ a. IsValid a × (value a < 2 ^ 512);
  bound = 2 ^ 512;
}

wrap-Gives :
    (r : Run U576) (v : ℕ) → Gives u576_words r v → Gives limbs (r >>= λ c. done (u256x320 c)) v
wrap-Gives r v (fits c e ok h) = fits (u256x320 c) (rw e refl) ok h
wrap-Gives r v (overflows e h) = overflows (rw e refl) h

wrap-Differs :
    (r : Run U576) (a b : ℕ)
    → Differs u576_words r a b
    → Differs limbs (r >>= λ c. done (u256x320 c)) a b
wrap-Differs r a b (least p g) = least p (wrap-Gives r _ g)
wrap-Differs r a b (below p e) = below p (rw e refl)

scale_product-Gives :
    (p : U896 × Bool) (v : ℕ) → Product u896_words p v → Gives limbs (scale_product p) (v / 2 ^ 320)
unfolding scale_product
scale_product-Gives (u896 w0 w1 w2 w3 w4 w5 w6 w7 w8 w9 w10 w11 w12 w13, b) v (whole e ok h) =
    fits (u256x320 (u576 w5 w6 w7 w8 w9 w10 w11 w12 w13)) (rw e refl) (omega arith) (omega arith)
scale_product-Gives (u896 w0 w1 w2 w3 w4 w5 w6 w7 w8 w9 w10 w11 w12 w13, b) v (lossy e h) =
    overflows (rw e refl) (omega arith)

narrow_quotient-Gives :
    (r : Run U896) (v : ℕ)
    → v < 2 ^ 896
    → Gives u896_words r v
    → Gives narrow (r >>= narrow_quotient) v
unfolding narrow_quotient
narrow_quotient-Gives r v room (overflows e h) = absurd (omega arith)
narrow_quotient-Gives r v room (fits (u896 w0 w1 w2 w3 w4 w5 w6 w7 w8 w9 w10 w11 w12 w13) e ok h) =
    elim (Bool-cases (all_zero (w8 ∷ w9 ∷ w10 ∷ w11 ∷ w12 ∷ w13 ∷ []))) [
      | inl t ↦
          let clear = all_zero-total (w8 ∷ w9 ∷ w10 ∷ w11 ∷ w12 ∷ w13 ∷ []) t in
          fits (u256x320 (u576 w0 w1 w2 w3 w4 w5 w6 w7 w8)) (rw (e, t) refl)
            (omega (arith, h, clear)) (omega (arith, h, clear))
      | inr t ↦
          let more = not_all_zero-total (w8 ∷ w9 ∷ w10 ∷ w11 ∷ w12 ∷ w13 ∷ []) t in
          overflows (rw (e, t) refl) (omega (arith, h, more))
    ]

narrow_quotient-Divides :
    (r : Run U896) (a b : ℕ)
    → a < 2 ^ 896
    → Divides u896_words r a b
    → Divides narrow (r >>= narrow_quotient) a b
narrow_quotient-Divides r a b room (by_some p g) =
    by_some p (narrow_quotient-Gives r _ (omega (arith, div-le_self a b)) g)
narrow_quotient-Divides r a b room (by_zero e q) = by_zero e (rw q refl)

module _ (small : Uint u576_words) where
  pub add-Gives :
      (a b : U256x320) → IsValid a → IsValid b → Gives limbs (add small a b) (value a + value b)
  unfolding add
  add-Gives (u256x320 a) (u256x320 b) va vb = wrap-Gives _ _ (small.add_gives a b va vb)

  pub sub-Differs :
      (a b : U256x320) → IsValid a → IsValid b → Differs limbs (sub small a b) (value a) (value b)
  unfolding sub
  sub-Differs (u256x320 a) (u256x320 b) va vb = wrap-Differs _ _ _ (small.sub_differs a b va vb)

  pub sum-Gives :
      (xs : List U256x320) → AllValid limbs xs → Gives limbs (sum small xs) (total limbs xs)
  unfolding sum zero
  sum-Gives xs all =
      Gives-at limbs _ (omega (arith, small.zero_value))
        (sum_from-Gives limbs (add small) add-Gives (u256x320 small.zero) xs small.zero_IsValid all)

pub mul-Gives :
    (wide : Uint u896_words) (a b : U256x320)
    → IsValid a
    → IsValid b
    → Gives limbs (mul wide a b) (value a * value b / 2 ^ 320)
unfolding mul
mul-Gives wide (u256x320 (u576 a0 a1 a2 a3 a4 a5 a6 a7 a8))
      (u256x320 (u576 b0 b1 b2 b3 b4 b5 b6 b7 b8)) va vb =
    let x = u896 a0 a1 a2 a3 a4 a5 a6 a7 a8 0 0 0 0 0 in
    let y = u896 b0 b1 b2 b3 b4 b5 b6 b7 b8 0 0 0 0 0 in
    scale_product-Gives _ _ (
      Product-at u896_words _ (omega arith) (omega arith)
        (wide.mul_gives x y (omega arith) (omega arith)))

pub div-Divides :
    (wide : Uint u896_words) (a b : U256x320)
    → IsValid a
    → IsValid b
    → Divides narrow (div wide a b) (value a * 2 ^ 320) (value b)
unfolding div
div-Divides wide (u256x320 (u576 a0 a1 a2 a3 a4 a5 a6 a7 a8))
      (u256x320 (u576 b0 b1 b2 b3 b4 b5 b6 b7 b8)) va vb =
    let x = u896 0 0 0 0 0 a0 a1 a2 a3 a4 a5 a6 a7 a8 in
    let y = u896 b0 b1 b2 b3 b4 b5 b6 b7 b8 0 0 0 0 0 in
    narrow_quotient-Divides _ _ _ (omega arith) (
      Divides-at u896_words _ (omega arith) (omega arith)
        (wide.div_divides x y (omega arith) (omega arith)))

-- For two U256X320 of valid words, over any implementation of the integers of the crate `uint`:
-- sum, difference and product are panics exactly where the number does not fit in 576 bits or the
-- difference is below zero; a quotient is one where the divisor is zero, or already where the
-- quotient does not fit in 512 bits. Else they have valid words, those of the exact number, cut
-- off after 320 bits of fraction in a product and a quotient.
pub arithmetic_u256x320 :
    (small : Uint u576_words) (wide : Uint u896_words)
    → (a b : U256x320) → IsValid a
    → IsValid b
    → Gives limbs (add small a b) (value a + value b)
      × Differs limbs (sub small a b) (value a) (value b)
      × Gives limbs (mul wide a b) (value a * value b / 2 ^ 320)
      × Divides narrow (div wide a b) (value a * 2 ^ 320) (value b)
arithmetic_u256x320 small wide a b va vb = (
  add-Gives small a b va vb,
  sub-Differs small a b va vb,
  mul-Gives wide a b va vb,
  div-Divides wide a b va vb,
)

pub floor-fract :
    (a : U256x320)
    → IsValid a
    → (value (floor a) ≡ value a / 2 ^ 320 * 2 ^ 320) × (value (fract a) ≡ value a % 2 ^ 320)
unfolding floor fract
floor-fract (u256x320 (u576 w0 w1 w2 w3 w4 w5 w6 w7 w8)) ok = (omega arith, omega arith)
