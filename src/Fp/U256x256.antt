-- ===== src/Fp/U256x256.antt =====
-- veax/dex/src/fp/u256x256.rs: 256 bits of integer part and 256 of fraction.
-- A product and a quotient are taken in a wider integer, whose words are cut back to this type.
pub mod Laws
pub mod Root
use veax.Base.{ℕ, ◌^◌, Bool, not, List, [], ◌∷◌, ◌/◌, ◌%◌, if◌then◌else◌}
use veax.Base.Panic.{Run, done, ◌>>=◌, ◌>>◌, assert}
use veax.Fp.Uint.Words.{
  Limbs, word, u128, u256, U256, u512, U512, IsU512, u512_value, u512_words, u768, U768, u768_words,
}
use veax.Fp.Uint.Laws.{Uint, all_zero}
use veax.Fp.Sums.{sum_from}

pub data U256x256 : Type 0 where
  u256x256 : U512 → U256x256

abbrev pub value : U256x256 → ℕ
value (u256x256 a) = u512_value a

abbrev pub IsValid : U256x256 → Type 0
IsValid (u256x256 a) = IsU512 a

abbrev pub limbs : Limbs
limbs = record { N = U256x256; value = value; IsValid = IsValid; bound = 2 ^ 512 }

unfoldable pub one : U256x256
one = u256x256 (u512 0 0 0 0 1 0 0 0)

unfoldable pub fract : U256x256 → U256x256
fract (u256x256 (u512 w0 w1 w2 w3 w4 w5 w6 w7)) = u256x256 (u512 w0 w1 w2 w3 0 0 0 0)

unfoldable pub floor : U256x256 → U256x256
floor (u256x256 (u512 w0 w1 w2 w3 w4 w5 w6 w7)) = u256x256 (u512 0 0 0 0 w4 w5 w6 w7)

unfoldable pub truncate_fract_to_64bits : U256x256 → U256x256
truncate_fract_to_64bits (u256x256 (u512 w0 w1 w2 w3 w4 w5 w6 w7)) =
    u256x256 (u512 0 0 0 w3 w4 w5 w6 w7)

unfoldable pub lower_part : U256x256 → U256
lower_part (u256x256 (u512 w0 w1 w2 w3 w4 w5 w6 w7)) = u256 w0 w1 w2 w3

unfoldable pub upper_part : U256x256 → U256
upper_part (u256x256 (u512 w0 w1 w2 w3 w4 w5 w6 w7)) = u256 w4 w5 w6 w7

-- A `u128` is a number; `as u64` keeps its low 64 bits.
unfoldable pub from_u128 : ℕ → U256x256
from_u128 v = u256x256 (u512 0 0 0 0 (v % word) (v / word % word) 0 0)

unfoldable pub scale_product : U768 × Bool → Run U256x256
scale_product (u768 w0 w1 w2 w3 w4 w5 w6 w7 w8 w9 w10 w11, is_overflow) =
    assert (not is_overflow) >> done (u256x256 (u512 w4 w5 w6 w7 w8 w9 w10 w11))

unfoldable pub narrow_quotient : U768 → Run U256x256
narrow_quotient (u768 w0 w1 w2 w3 w4 w5 w6 w7 w8 w9 w10 w11) =
    assert (all_zero (w8 ∷ w9 ∷ w10 ∷ w11 ∷ [])) >> done (u256x256 (u512 w0 w1 w2 w3 w4 w5 w6 w7))

module _ (small : Uint u512_words) where
  unfoldable pub zero : U256x256
  zero = u256x256 small.zero

  unfoldable pub add : U256x256 → U256x256 → Run U256x256
  add (u256x256 a) (u256x256 b) = small.add a b >>= λ c. done (u256x256 c)

  unfoldable pub add_assign : U256x256 → U256x256 → Run U256x256
  unfolding add
  add_assign a b = add a b

  unfoldable pub sub : U256x256 → U256x256 → Run U256x256
  sub (u256x256 a) (u256x256 b) = small.sub a b >>= λ c. done (u256x256 c)

  unfoldable pub sub_assign : U256x256 → U256x256 → Run U256x256
  unfolding sub
  sub_assign a b = sub a b

  unfoldable pub sum : List U256x256 → Run U256x256
  unfolding zero add
  sum items = sum_from limbs add zero items

  unfoldable pub ceil : U256x256 → Run U256x256
  unfolding floor from_u128 add_assign
  ceil (u256x256 (u512 w0 w1 w2 w3 w4 w5 w6 w7)) =
      let res = floor (u256x256 (u512 w0 w1 w2 w3 w4 w5 w6 w7)) in
      if all_zero (w0 ∷ w1 ∷ w2 ∷ w3 ∷ []) then done res else add_assign res (from_u128 1)

  unfoldable pub root_words : U512 → U256x256
  root_words (u512 s0 s1 s2 s3 s4 s5 s6 s7) = u256x256 (u512 0 0 s0 s1 s2 s3 s4 s5)

  unfoldable pub integer_sqrt : U256x256 → U256x256
  unfolding root_words
  integer_sqrt (u256x256 a) = root_words (small.integer_sqrt a)

module _ (wide : Uint u768_words) where
  unfoldable pub mul : U256x256 → U256x256 → Run U256x256
  unfolding scale_product
  mul (u256x256 (u512 a0 a1 a2 a3 a4 a5 a6 a7)) (u256x256 (u512 b0 b1 b2 b3 b4 b5 b6 b7)) =
      scale_product (
        wide.overflowing_mul (u768 a0 a1 a2 a3 a4 a5 a6 a7 0 0 0 0)
          (u768 b0 b1 b2 b3 b4 b5 b6 b7 0 0 0 0))

module _ (wide : Uint u768_words) where
  unfoldable pub div : U256x256 → U256x256 → Run U256x256
  unfolding narrow_quotient
  div (u256x256 (u512 a0 a1 a2 a3 a4 a5 a6 a7)) (u256x256 (u512 b0 b1 b2 b3 b4 b5 b6 b7)) =
      wide.div (u768 0 0 0 0 a0 a1 a2 a3 a4 a5 a6 a7) (u768 b0 b1 b2 b3 b4 b5 b6 b7 0 0 0 0)
      >>= narrow_quotient
