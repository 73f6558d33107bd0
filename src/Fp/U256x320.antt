-- ===== src/Fp/U256x320.antt =====
-- veax/dex/src/fp/u256x320.rs: 256 bits of integer part and 320 of fraction.
-- A product and a quotient are taken in a wider integer, whose words are cut back to this type.
pub mod Laws
pub mod Root
use veax.Base.{ℕ, ◌^◌, Bool, not, List, [], ◌∷◌, ◌/◌, ◌%◌, if◌then◌else◌}
use veax.Base.Panic.{Run, done, ◌>>=◌, ◌>>◌, assert}
use veax.Fp.Uint.Words.{
  Limbs, word, u128, u256, U256, u320, U320, u576, U576, IsU576, u576_value, u576_words, u896, U896,
  u896_words,
}
use veax.Fp.Uint.Laws.{Uint, all_zero}
use veax.Fp.Sums.{sum_from}

pub data U256x320 : Type 0 where
  u256x320 : U576 → U256x320

abbrev pub value : U256x320 → ℕ
value (u256x320 a) = u576_value a

abbrev pub IsValid : U256x320 → Type 0
IsValid (u256x320 a) = IsU576 a

abbrev pub limbs : Limbs
limbs = record { N = U256x320; value = value; IsValid = IsValid; bound = 2 ^ 576 }

unfoldable pub one : U256x320
one = u256x320 (u576 0 0 0 0 0 1 0 0 0)

unfoldable pub fract : U256x320 → U256x320
fract (u256x320 (u576 w0 w1 w2 w3 w4 w5 w6 w7 w8)) = u256x320 (u576 w0 w1 w2 w3 w4 0 0 0 0)

unfoldable pub floor : U256x320 → U256x320
floor (u256x320 (u576 w0 w1 w2 w3 w4 w5 w6 w7 w8)) = u256x320 (u576 0 0 0 0 0 w5 w6 w7 w8)

unfoldable pub lower_part : U256x320 → U320
lower_part (u256x320 (u576 w0 w1 w2 w3 w4 w5 w6 w7 w8)) = u320 w0 w1 w2 w3 w4

unfoldable pub upper_part : U256x320 → U256
upper_part (u256x320 (u576 w0 w1 w2 w3 w4 w5 w6 w7 w8)) = u256 w5 w6 w7 w8

-- A `u128` is a number; `as u64` keeps its low 64 bits.
unfoldable pub from_u128 : ℕ → U256x320
from_u128 v = u256x320 (u576 0 0 0 0 0 (v % word) (v / word % word) 0 0)

unfoldable pub scale_product : U896 × Bool → Run U256x320
scale_product (u896 w0 w1 w2 w3 w4 w5 w6 w7 w8 w9 w10 w11 w12 w13, is_overflow) =
    assert (not is_overflow) >> done (u256x320 (u576 w5 w6 w7 w8 w9 w10 w11 w12 w13))

unfoldable pub narrow_quotient : U896 → Run U256x320
narrow_quotient (u896 w0 w1 w2 w3 w4 w5 w6 w7 w8 w9 w10 w11 w12 w13) =
    assert (all_zero (w8 ∷ w9 ∷ w10 ∷ w11 ∷ w12 ∷ w13 ∷ []))
    >> done (u256x320 (u576 w0 w1 w2 w3 w4 w5 w6 w7 w8))

module _ (small : Uint u576_words) where
  unfoldable pub zero : U256x320
  zero = u256x320 small.zero

  unfoldable pub add : U256x320 → U256x320 → Run U256x320
  add (u256x320 a) (u256x320 b) = small.add a b >>= λ c. done (u256x320 c)

  unfoldable pub add_assign : U256x320 → U256x320 → Run U256x320
  unfolding add
  add_assign a b = add a b

  unfoldable pub sub : U256x320 → U256x320 → Run U256x320
  sub (u256x320 a) (u256x320 b) = small.sub a b >>= λ c. done (u256x320 c)

  unfoldable pub sub_assign : U256x320 → U256x320 → Run U256x320
  unfolding sub
  sub_assign a b = sub a b

  unfoldable pub sum : List U256x320 → Run U256x320
  unfolding zero add
  sum items = sum_from limbs add zero items

  unfoldable pub ceil : U256x320 → Run U256x320
  unfolding floor from_u128 add_assign
  ceil (u256x320 (u576 w0 w1 w2 w3 w4 w5 w6 w7 w8)) =
      let res = floor (u256x320 (u576 w0 w1 w2 w3 w4 w5 w6 w7 w8)) in
      if all_zero (w0 ∷ w1 ∷ w2 ∷ w3 ∷ w4 ∷ []) then done res else add_assign res (from_u128 1)

  unfoldable pub integer_sqrt : U256x320 → U256x320
  integer_sqrt (u256x320 a) = u256x320 (small.shl (small.integer_sqrt a) 160)

module _ (wide : Uint u896_words) where
  unfoldable pub mul : U256x320 → U256x320 → Run U256x320
  unfolding scale_product
  mul (u256x320 (u576 a0 a1 a2 a3 a4 a5 a6 a7 a8)) (u256x320 (u576 b0 b1 b2 b3 b4 b5 b6 b7 b8)) =
      scale_product (
        wide.overflowing_mul (u896 a0 a1 a2 a3 a4 a5 a6 a7 a8 0 0 0 0 0)
          (u896 b0 b1 b2 b3 b4 b5 b6 b7 b8 0 0 0 0 0))

module _ (wide : Uint u896_words) where
  unfoldable pub div : U256x320 → U256x320 → Run U256x320
  unfolding narrow_quotient
  div (u256x320 (u576 a0 a1 a2 a3 a4 a5 a6 a7 a8)) (u256x320 (u576 b0 b1 b2 b3 b4 b5 b6 b7 b8)) =
      wide.div (u896 0 0 0 0 0 a0 a1 a2 a3 a4 a5 a6 a7 a8)
        (u896 b0 b1 b2 b3 b4 b5 b6 b7 b8 0 0 0 0 0)
      >>= narrow_quotient
