-- ===== src/Fp/U192x64.antt =====
-- veax/dex/src/fp/u192x64.rs: 192 bits of integer part and 64 of fraction.
-- A product and a quotient are taken in a wider integer, whose words are cut back to this type.
pub mod Laws
pub mod Root
use veax.Base.{ℕ, ◌^◌, Bool, not, List, [], ◌∷◌, ◌/◌, ◌%◌}
use veax.Base.Panic.{Run, done, ◌>>=◌, ◌>>◌, assert}
use veax.Fp.Uint.Words.{
  Limbs, word, u128, u256, U256, IsU256, u256_value, u256_words, u320, U320, u320_words,
}
use veax.Fp.Uint.Laws.{Uint, all_zero}
use veax.Fp.Sums.{sum_from}

pub data U192x64 : Type 0 where
  u192x64 : U256 → U192x64

abbrev pub value : U192x64 → ℕ
value (u192x64 a) = u256_value a

abbrev pub IsValid : U192x64 → Type 0
IsValid (u192x64 a) = IsU256 a

abbrev pub limbs : Limbs
limbs = record { N = U192x64; value = value; IsValid = IsValid; bound = 2 ^ 256 }

unfoldable pub one : U192x64
one = u192x64 (u256 0 1 0 0)

unfoldable pub fract : U192x64 → U192x64
fract (u192x64 (u256 w0 w1 w2 w3)) = u192x64 (u256 w0 0 0 0)

unfoldable pub floor : U192x64 → U192x64
floor (u192x64 (u256 w0 w1 w2 w3)) = u192x64 (u256 0 w1 w2 w3)

-- A `u128` is a number; `as u64` keeps its low 64 bits.
unfoldable pub from_u128 : ℕ → U192x64
from_u128 v = u192x64 (u256 0 (v % word) (v / word % word) 0)

unfoldable pub scale_product : U320 × Bool → Run U192x64
scale_product (u320 w0 w1 w2 w3 w4, is_overflow) =
    assert (not is_overflow) >> done (u192x64 (u256 w1 w2 w3 w4))

unfoldable pub narrow_quotient : U320 → Run U192x64
narrow_quotient (u320 w0 w1 w2 w3 w4) =
    assert (all_zero (w4 ∷ [])) >> done (u192x64 (u256 w0 w1 w2 w3))

module _ (small : Uint u256_words) where
  unfoldable pub zero : U192x64
  zero = u192x64 small.zero

  unfoldable pub add : U192x64 → U192x64 → Run U192x64
  add (u192x64 a) (u192x64 b) = small.add a b >>= λ c. done (u192x64 c)

  unfoldable pub add_assign : U192x64 → U192x64 → Run U192x64
  unfolding add
  add_assign a b = add a b

  unfoldable pub sub : U192x64 → U192x64 → Run U192x64
  sub (u192x64 a) (u192x64 b) = small.sub a b >>= λ c. done (u192x64 c)

  unfoldable pub sub_assign : U192x64 → U192x64 → Run U192x64
  unfolding sub
  sub_assign a b = sub a b

  unfoldable pub sum : List U192x64 → Run U192x64
  unfolding zero add
  sum items = sum_from limbs add zero items

  unfoldable pub root_words : U256 → U192x64
  root_words (u256 s0 s1 s2 s3) = u192x64 (u256 0 s0 s1 s2)

  unfoldable pub integer_sqrt : U192x64 → U192x64
  unfolding root_words
  integer_sqrt (u192x64 a) = root_words (small.integer_sqrt a)

module _ (wide : Uint u320_words) where
  unfoldable pub mul : U192x64 → U192x64 → Run U192x64
  unfolding scale_product
  mul (u192x64 (u256 a0 a1 a2 a3)) (u192x64 (u256 b0 b1 b2 b3)) =
      scale_product (wide.overflowing_mul (u320 a0 a1 a2 a3 0) (u320 b0 b1 b2 b3 0))

module _ (wide : Uint u320_words) where
  unfoldable pub div : U192x64 → U192x64 → Run U192x64
  unfolding narrow_quotient
  div (u192x64 (u256 a0 a1 a2 a3)) (u192x64 (u256 b0 b1 b2 b3)) =
      wide.div (u320 0 a0 a1 a2 a3) (u320 b0 b1 b2 b3 0) >>= narrow_quotient

  unfoldable pub recip : U192x64 → Run U192x64
  unfolding one div
  recip a = div one a
