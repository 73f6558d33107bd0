-- ===== src/Fp/U128x128.antt =====
-- veax/dex/src/fp/u128x128.rs: 128 bits of integer part and 128 of fraction.
-- A product and a quotient are taken in a wider integer, whose words are cut back to this type.
pub mod Laws
pub mod Root
use veax.Base.{ℕ, ◌^◌, Bool, not, List, [], ◌∷◌, ◌/◌, ◌%◌}
use veax.Base.Panic.{Run, done, ◌>>=◌, ◌>>◌, assert}
use veax.Fp.Uint.Words.{
  Limbs, word, u128, u128_value, u256, U256, IsU256, u256_value, u256_words, u384, U384, u384_words,
  u512, U512, u512_words,
}
use veax.Fp.Uint.Laws.{Uint, all_zero}
use veax.Fp.Sums.{sum_from}

pub data U128x128 : Type 0 where
  u128x128 : U256 → U128x128

abbrev pub value : U128x128 → ℕ
value (u128x128 a) = u256_value a

abbrev pub IsValid : U128x128 → Type 0
IsValid (u128x128 a) = IsU256 a

abbrev pub limbs : Limbs
limbs = record { N = U128x128; value = value; IsValid = IsValid; bound = 2 ^ 256 }

unfoldable pub fract : U128x128 → U128x128
fract (u128x128 (u256 w0 w1 w2 w3)) = u128x128 (u256 w0 w1 0 0)

unfoldable pub floor : U128x128 → U128x128
floor (u128x128 (u256 w0 w1 w2 w3)) = u128x128 (u256 0 0 w2 w3)

unfoldable pub truncate_fract_to_64bits : U128x128 → U128x128
truncate_fract_to_64bits (u128x128 (u256 w0 w1 w2 w3)) = u128x128 (u256 0 w1 w2 w3)

unfoldable pub lower_part : U128x128 → ℕ
lower_part (u128x128 (u256 w0 w1 w2 w3)) = u128_value (u128 w0 w1)

unfoldable pub upper_part : U128x128 → ℕ
upper_part (u128x128 (u256 w0 w1 w2 w3)) = u128_value (u128 w2 w3)

-- `u128::from`
unfoldable pub into_u128 : U128x128 → ℕ
unfolding upper_part
into_u128 a = upper_part a

-- A `u128` is a number; `as u64` keeps its low 64 bits.
unfoldable pub from_u128 : ℕ → U128x128
from_u128 v = u128x128 (u256 0 0 (v % word) (v / word % word))

unfoldable pub scale_product : U384 × Bool → Run U128x128
scale_product (u384 w0 w1 w2 w3 w4 w5, is_overflow) =
    assert (not is_overflow) >> done (u128x128 (u256 w2 w3 w4 w5))

unfoldable pub narrow_quotient : U512 → Run U128x128
narrow_quotient (u512 w0 w1 w2 w3 w4 w5 w6 w7) =
    assert (all_zero (w4 ∷ w5 ∷ w6 ∷ w7 ∷ [])) >> done (u128x128 (u256 w0 w1 w2 w3))

module _ (small : Uint u256_words) where
  unfoldable pub zero : U128x128
  zero = u128x128 small.zero

  unfoldable pub one : U128x128
  one = u128x128 (small.shl small.one 128)

  unfoldable pub add : U128x128 → U128x128 → Run U128x128
  add (u128x128 a) (u128x128 b) = small.add a b >>= λ c. done (u128x128 c)

  unfoldable pub add_assign : U128x128 → U128x128 → Run U128x128
  unfolding add
  add_assign a b = add a b

  unfoldable pub sub : U128x128 → U128x128 → Run U128x128
  sub (u128x128 a) (u128x128 b) = small.sub a b >>= λ c. done (u128x128 c)

  unfoldable pub sub_assign : U128x128 → U128x128 → Run U128x128
  unfolding sub
  sub_assign a b = sub a b

  unfoldable pub sum : List U128x128 → Run U128x128
  unfolding zero add
  sum items = sum_from limbs add zero items

  unfoldable pub root_words : U256 → U128x128
  root_words (u256 s0 s1 s2 s3) = u128x128 (u256 0 s0 s1 s2)

  unfoldable pub integer_sqrt : U128x128 → U128x128
  unfolding root_words
  integer_sqrt (u128x128 a) = root_words (small.integer_sqrt a)

module _ (wide : Uint u384_words) where
  unfoldable pub mul : U128x128 → U128x128 → Run U128x128
  unfolding scale_product
  mul (u128x128 (u256 a0 a1 a2 a3)) (u128x128 (u256 b0 b1 b2 b3)) =
      scale_product (wide.overflowing_mul (u384 a0 a1 a2 a3 0 0) (u384 b0 b1 b2 b3 0 0))

module _ (wide : Uint u512_words) where
  unfoldable pub div : U128x128 → U128x128 → Run U128x128
  unfolding narrow_quotient
  div (u128x128 (u256 a0 a1 a2 a3)) (u128x128 (u256 b0 b1 b2 b3)) =
      wide.div (u512 0 0 a0 a1 a2 a3 0 0) (u512 b0 b1 b2 b3 0 0 0 0) >>= narrow_quotient

module _ (small : Uint u256_words) (wide : Uint u512_words) where
  unfoldable pub recip : U128x128 → Run U128x128
  unfolding one div
  recip a = div wide (one small) a
