-- ===== src/Fp/U320x64.antt =====
-- veax/dex/src/fp/u320x64.rs: 320 bits of integer part and 64 of fraction.
-- A product and a quotient are taken in a wider integer, whose words are cut back to this type.
pub mod Laws
use veax.Base.{ℕ, ◌^◌, Bool, not, List, [], ◌∷◌, ◌/◌, ◌%◌}
use veax.Base.Panic.{Run, done, ◌>>=◌, ◌>>◌, assert}
use veax.Fp.Uint.Words.{
  Limbs, word, u128, u384, U384, IsU384, u384_value, u384_words, u448, U448, u448_words,
}
use veax.Fp.Uint.Laws.{Uint, all_zero}
use veax.Fp.Sums.{sum_from}

pub data U320x64 : Type 0 where
  u320x64 : U384 → U320x64

abbrev pub value : U320x64 → ℕ
value (u320x64 a) = u384_value a

abbrev pub IsValid : U320x64 → Type 0
IsValid (u320x64 a) = IsU384 a

abbrev pub limbs : Limbs
limbs = record { N = U320x64; value = value; IsValid = IsValid; bound = 2 ^ 384 }

unfoldable pub one : U320x64
one = u320x64 (u384 0 1 0 0 0 0)

unfoldable pub fract : U320x64 → U320x64
fract (u320x64 (u384 w0 w1 w2 w3 w4 w5)) = u320x64 (u384 w0 0 0 0 0 0)

unfoldable pub floor : U320x64 → U320x64
floor (u320x64 (u384 w0 w1 w2 w3 w4 w5)) = u320x64 (u384 0 w1 w2 w3 w4 w5)

-- A `u128` is a number; `as u64` keeps its low 64 bits.
unfoldable pub from_u128 : ℕ → U320x64
from_u128 v = u320x64 (u384 0 (v % word) (v / word % word) 0 0 0)

unfoldable pub scale_product : U448 × Bool → Run U320x64
scale_product (u448 w0 w1 w2 w3 w4 w5 w6, is_overflow) =
    assert (not is_overflow) >> done (u320x64 (u384 w1 w2 w3 w4 w5 w6))

unfoldable pub narrow_quotient : U448 → Run U320x64
narrow_quotient (u448 w0 w1 w2 w3 w4 w5 w6) =
    assert (all_zero (w6 ∷ [])) >> done (u320x64 (u384 w0 w1 w2 w3 w4 w5))

module _ (small : Uint u384_words) where
  unfoldable pub zero : U320x64
  zero = u320x64 small.zero

  unfoldable pub add : U320x64 → U320x64 → Run U320x64
  add (u320x64 a) (u320x64 b) = small.add a b >>= λ c. done (u320x64 c)

  unfoldable pub add_assign : U320x64 → U320x64 → Run U320x64
  unfolding add
  add_assign a b = add a b

  unfoldable pub sub : U320x64 → U320x64 → Run U320x64
  sub (u320x64 a) (u320x64 b) = small.sub a b >>= λ c. done (u320x64 c)

  unfoldable pub sub_assign : U320x64 → U320x64 → Run U320x64
  unfolding sub
  sub_assign a b = sub a b

  unfoldable pub sum : List U320x64 → Run U320x64
  unfolding zero add
  sum items = sum_from limbs add zero items

module _ (wide : Uint u448_words) where
  unfoldable pub mul : U320x64 → U320x64 → Run U320x64
  unfolding scale_product
  mul (u320x64 (u384 a0 a1 a2 a3 a4 a5)) (u320x64 (u384 b0 b1 b2 b3 b4 b5)) =
      scale_product (wide.overflowing_mul (u448 a0 a1 a2 a3 a4 a5 0) (u448 b0 b1 b2 b3 b4 b5 0))

module _ (wide : Uint u448_words) where
  unfoldable pub div : U320x64 → U320x64 → Run U320x64
  unfolding narrow_quotient
  div (u320x64 (u384 a0 a1 a2 a3 a4 a5)) (u320x64 (u384 b0 b1 b2 b3 b4 b5)) =
      wide.div (u448 0 a0 a1 a2 a3 a4 a5) (u448 b0 b1 b2 b3 b4 b5 0) >>= narrow_quotient
