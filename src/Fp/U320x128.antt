-- ===== src/Fp/U320x128.antt =====
-- veax/dex/src/fp/u320x128.rs: 320 bits of integer part and 128 of fraction.
-- A product and a quotient are taken in a wider integer, whose words are cut back to this type.
pub mod Laws
use veax.Base.{ℕ, ◌^◌, Bool, not, List, [], ◌∷◌, ◌/◌, ◌%◌}
use veax.Base.Panic.{Run, done, ◌>>=◌, ◌>>◌, assert}
use veax.Fp.Uint.Words.{
  Limbs, word, u128, u448, U448, IsU448, u448_value, u448_words, u576, U576, u576_words,
}
use veax.Fp.Uint.Laws.{Uint, all_zero}
use veax.Fp.Sums.{sum_from}

pub data U320x128 : Type 0 where
  u320x128 : U448 → U320x128

abbrev pub value : U320x128 → ℕ
value (u320x128 a) = u448_value a

abbrev pub IsValid : U320x128 → Type 0
IsValid (u320x128 a) = IsU448 a

abbrev pub limbs : Limbs
limbs = record { N = U320x128; value = value; IsValid = IsValid; bound = 2 ^ 448 }

unfoldable pub one : U320x128
one = u320x128 (u448 0 0 1 0 0 0 0)

unfoldable pub fract : U320x128 → U320x128
fract (u320x128 (u448 w0 w1 w2 w3 w4 w5 w6)) = u320x128 (u448 w0 w1 0 0 0 0 0)

unfoldable pub floor : U320x128 → U320x128
floor (u320x128 (u448 w0 w1 w2 w3 w4 w5 w6)) = u320x128 (u448 0 0 w2 w3 w4 w5 w6)

-- A `u128` is a number; `as u64` keeps its low 64 bits.
unfoldable pub from_u128 : ℕ → U320x128
from_u128 v = u320x128 (u448 0 0 (v % word) (v / word % word) 0 0 0)

unfoldable pub scale_product : U576 × Bool → Run U320x128
scale_product (u576 w0 w1 w2 w3 w4 w5 w6 w7 w8, is_overflow) =
    assert (not is_overflow) >> done (u320x128 (u448 w2 w3 w4 w5 w6 w7 w8))

unfoldable pub narrow_quotient : U576 → Run U320x128
narrow_quotient (u576 w0 w1 w2 w3 w4 w5 w6 w7 w8) =
    assert (all_zero (w7 ∷ w8 ∷ [])) >> done (u320x128 (u448 w0 w1 w2 w3 w4 w5 w6))

module _ (small : Uint u448_words) where
  unfoldable pub zero : U320x128
  zero = u320x128 small.zero

  unfoldable pub add : U320x128 → U320x128 → Run U320x128
  add (u320x128 a) (u320x128 b) = small.add a b >>= λ c. done (u320x128 c)

  unfoldable pub add_assign : U320x128 → U320x128 → Run U320x128
  unfolding add
  add_assign a b = add a b

  unfoldable pub sub : U320x128 → U320x128 → Run U320x128
  sub (u320x128 a) (u320x128 b) = small.sub a b >>= λ c. done (u320x128 c)

  unfoldable pub sub_assign : U320x128 → U320x128 → Run U320x128
  unfolding sub
  sub_assign a b = sub a b

  unfoldable pub sum : List U320x128 → Run U320x128
  unfolding zero add
  sum items = sum_from limbs add zero items

module _ (wide : Uint u576_words) where
  unfoldable pub mul : U320x128 → U320x128 → Run U320x128
  unfolding scale_product
  mul (u320x128 (u448 a0 a1 a2 a3 a4 a5 a6)) (u320x128 (u448 b0 b1 b2 b3 b4 b5 b6)) =
      scale_product
        (wide.overflowing_mul (u576 a0 a1 a2 a3 a4 a5 a6 0 0) (u576 b0 b1 b2 b3 b4 b5 b6 0 0))

module _ (wide : Uint u576_words) where
  unfoldable pub div : U320x128 → U320x128 → Run U320x128
  unfolding narrow_quotient
  div (u320x128 (u448 a0 a1 a2 a3 a4 a5 a6)) (u320x128 (u448 b0 b1 b2 b3 b4 b5 b6)) =
      wide.div (u576 0 0 a0 a1 a2 a3 a4 a5 a6) (u576 b0 b1 b2 b3 b4 b5 b6 0 0) >>= narrow_quotient
