-- ===== src/Fp/Unsigned/Words.antt =====
-- The unsigned fixed point types as implementations of the interface that fp/signed.rs stands on: the
-- valid words of the type, with its checked operations.
use veax.Base.{ℕ, ◌+◌, ◌-◌, ◌/◌, ◌^◌, ◌≤◌, ◌<◌, ◌≡◌, refl, arith}
use mathlib.Core.HLevel.{Σ_prop_path}
use native.Mathlib.Bridge.{le_prop}
use veax.Base.Panic.{Run, done, panic}
use veax.Fp.Unsigned.{Unsigned}
use veax.Fp.Uint.Words.{Limbs, u512, u512_words, u768_words}
use veax.Fp.Uint.Splits.{u512_value-lt}
use veax.Fp.Uint.Laws.{
  Uint, Gives, fits, overflows, Differs, least, below, Divides, by_some, by_zero,
}
use veax.Fp.U256x256.{U256x256, u256x256, value, IsValid, limbs, zero}
use veax.Fp.U256x256.Laws.{add-Gives, sub-Differs, mul-Gives, div-Divides}

-- What a checked operation returns, with the proof that its words are in range.
module _ (l : Limbs) where
  abbrev Valid : Type 0
  Valid = (a : l.N) × l.IsValid a

  attach : (r : Run l.N) (v : ℕ) → Gives l r v → Run Valid
  attach r v (fits c e ok h) = done (c, ok)
  attach r v (overflows e h) = panic

  attach-fits :
      (r : Run l.N) (v : ℕ) (g : Gives l r v)
      → v < l.bound
      → (c : Valid) × (attach r v g ≡ done c) × (l.value c.0 ≡ v)
  unfolding attach
  attach-fits r v (fits c e ok h) room = ((c, ok), refl, h)
  attach-fits r v (overflows e h) room = absurd (omega arith)

  attach_difference : (r : Run l.N) (a b : ℕ) → Differs l r a b → Run Valid
  attach_difference r a b (least p g) = attach r (a - b) g
  attach_difference r a b (below p e) = panic

  attach_difference-fits :
      (r : Run l.N) (a b : ℕ) (g : Differs l r a b)
      → b ≤ a
      → a < l.bound
      → (c : Valid) × (attach_difference r a b g ≡ done c) × (l.value c.0 ≡ a - b)
  unfolding attach_difference
  attach_difference-fits r a b (least p g) h room = attach-fits r (a - b) g (omega arith)
  attach_difference-fits r a b (below p e) h room = absurd (omega arith)

  attach_quotient : (r : Run l.N) (a b : ℕ) → Divides l r a b → Run Valid
  attach_quotient r a b (by_some p g) = attach r (a / b) g
  attach_quotient r a b (by_zero p e) = panic

IsValid-prop : (a : U256x256) → IsProp (IsValid a)
IsValid-prop (u256x256 (u512 w0 w1 w2 w3 w4 w5 w6 w7)) = hlevel (le_prop)

value_injective : (a b : U256x256) → IsValid a → IsValid b → value a ≡ value b → a ≡ b
value_injective (u256x256 (u512 a0 a1 a2 a3 a4 a5 a6 a7)) (u256x256 (u512 b0 b1 b2 b3 b4 b5 b6 b7))
      va vb h =
    let e0 : a0 ≡ b0 = omega (arith, h) in
    let e1 : a1 ≡ b1 = omega (arith, h) in
    let e2 : a2 ≡ b2 = omega (arith, h) in
    let e3 : a3 ≡ b3 = omega (arith, h) in
    let e4 : a4 ≡ b4 = omega (arith, h) in
    let e5 : a5 ≡ b5 = omega (arith, h) in
    let e6 : a6 ≡ b6 = omega (arith, h) in let e7 : a7 ≡ b7 = omega (arith, h) in cc

value-lt : (a : U256x256) → IsValid a → value a < 2 ^ 512
value-lt (u256x256 a) ok = u512_value-lt a ok

-- The unsigned type of I256X256.
module _ (small : Uint u512_words) (wide : Uint u768_words) where
  abbrev I : Type 0
  I = Valid limbs

  add_words : I → I → Run I
  add_words a b = attach limbs _ _ (add-Gives small a.0 b.0 a.1 b.1)

  sub_words : I → I → Run I
  sub_words a b = attach_difference limbs _ _ _ (sub-Differs small a.0 b.0 a.1 b.1)

  mul_words : I → I → Run I
  mul_words a b = attach limbs _ _ (mul-Gives wide a.0 b.0 a.1 b.1)

  div_words : I → I → Run I
  div_words a b = attach_quotient limbs _ _ _ (div-Divides wide a.0 b.0 a.1 b.1)

  add_words-fits :
      (a b : I)
      → value a.0 + value b.0 < 2 ^ 512
      → (c : I) × (add_words a b ≡ done c) × (value c.0 ≡ value a.0 + value b.0)
  unfolding add_words
  add_words-fits a b room = attach-fits limbs _ _ _ room

  sub_words-fits :
      (a b : I)
      → value b.0 ≤ value a.0
      → (c : I) × (sub_words a b ≡ done c) × (value c.0 ≡ value a.0 - value b.0)
  unfolding sub_words
  sub_words-fits a b h = attach_difference-fits limbs _ _ _ _ h (value-lt a.0 a.1)

  pub u256x256_unsigned : Unsigned
  unfolding zero
  u256x256_unsigned = record {
    T = I;
    raw = λ a. value a.0;
    bound = 2 ^ 512;
    zero = (zero small, small.zero_IsValid);
    add = add_words;
    sub = sub_words;
    mul = mul_words;
    div = div_words;
    raw_injective = λ a b h. Σ_prop_path IsValid-prop (value_injective a.0 b.0 a.1 b.1 h);
    raw_zero = small.zero_value;
    add_below = add_words-fits;
    sub_above = sub_words-fits;
  }
