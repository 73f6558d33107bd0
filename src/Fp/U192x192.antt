-- ===== src/Fp/U192x192.antt =====
-- veax/dex/src/fp/u192x192.rs: 192 bits of integer part and 192 of fraction.
-- A product and a quotient are taken in a wider integer, whose words are cut back to this type.
pub mod Laws
pub mod Root
use veax.Base.{ℕ, ◌^◌, Bool, not, List, [], ◌∷◌, ◌/◌, ◌%◌, if◌then◌else◌}
use veax.Base.Panic.{Run, done, ◌>>=◌, ◌>>◌, assert}
use veax.Fp.Uint.Words.{
  Limbs, word, u128, u384, U384, IsU384, u384_value, u384_words, u576, U576, u576_words, u768, U768,
  u768_words,
}
use veax.Fp.Uint.Laws.{Uint, all_zero}
use veax.Fp.Sums.{sum_from}

pub data U192x192 : Type 0 where
  u192x192 : U384 → U192x192

abbrev pub value : U192x192 → ℕ
value (u192x192 a) = u384_value a

abbrev pub IsValid : U192x192 → Type 0
IsValid (u192x192 a) = IsU384 a

abbrev pub limbs : Limbs
limbs = record { N = U192x192; value = value; IsValid = IsValid; bound = 2 ^ 384 }

unfoldable pub one : U192x192
one = u192x192 (u384 0 0 0 1 0 0)

unfoldable pub fract : U192x192 → U192x192
fract (u192x192 (u384 w0 w1 w2 w3 w4 w5)) = u192x192 (u384 w0 w1 w2 0 0 0)

unfoldable pub floor : U192x192 → U192x192
floor (u192x192 (u384 w0 w1 w2 w3 w4 w5)) = u192x192 (u384 0 0 0 w3 w4 w5)

-- A `u128` is a number; `as u64` keeps its low 64 bits.
unfoldable pub from_u128 : ℕ → U192x192
from_u128 v = u192x192 (u384 0 0 0 (v % word) (v / word % word) 0)

unfoldable pub scale_product : U576 × Bool → Run U192x192
scale_product (u576 w0 w1 w2 w3 w4 w5 w6 w7 w8, is_overflow) =
    assert (not is_overflow) >> done (u192x192 (u384 w3 w4 w5 w6 w7 w8))

unfoldable pub narrow_quotient : U768 → Run U192x192
narrow_quotient (u768 w0 w1 w2 w3 w4 w5 w6 w7 w8 w9 w10 w11) =
    assert (all_zero (w6 ∷ w7 ∷ w8 ∷ w9 ∷ w10 ∷ w11 ∷ []))
    >> done (u192x192 (u384 w0 w1 w2 w3 w4 w5))

module _ (small : Uint u384_words) where
  unfoldable pub zero : U192x192
  zero = u192x192 small.zero

  unfoldable pub add : U192x192 → U192x192 → Run U192x192
  add (u192x192 a) (u192x192 b) = small.add a b >>= λ c. done (u192x192 c)

  unfoldable pub add_assign : U192x192 → U192x192 → Run U192x192
  unfolding add
  add_assign a b = add a b

  unfoldable pub sub : U192x192 → U192x192 → Run U192x192
  sub (u192x192 a) (u192x192 b) = small.sub a b >>= λ c. done (u192x192 c)

  unfoldable pub sub_assign : U192x192 → U192x192 → Run U192x192
  unfolding sub
  sub_assign a b = sub a b

  unfoldable pub sum : List U192x192 → Run U192x192
  unfolding zero add
  sum items = sum_from limbs add zero items

  unfoldable pub ceil : U192x192 → Run U192x192
  unfolding floor from_u128 add_assign
  ceil (u192x192 (u384 w0 w1 w2 w3 w4 w5)) =
      let res = floor (u192x192 (u384 w0 w1 w2 w3 w4 w5)) in
      if all_zero (w0 ∷ w1 ∷ w2 ∷ []) then done res else add_assign res (from_u128 1)

  unfoldable pub integer_sqrt : U192x192 → U192x192
  integer_sqrt (u192x192 a) = u192x192 (small.shl (small.integer_sqrt a) 96)

module _ (wide : Uint u576_words) where
  unfoldable pub mul : U192x192 → U192x192 → Run U192x192
  unfolding scale_product
  mul (u192x192 (u384 a0 a1 a2 a3 a4 a5)) (u192x192 (u384 b0 b1 b2 b3 b4 b5)) =
      scale_product
        (wide.overflowing_mul (u576 a0 a1 a2 a3 a4 a5 0 0 0) (u576 b0 b1 b2 b3 b4 b5 0 0 0))

module _ (wide : Uint u768_words) where
  unfoldable pub div : U192x192 → U192x192 → Run U192x192
  unfolding narrow_quotient
  div (u192x192 (u384 a0 a1 a2 a3 a4 a5)) (u192x192 (u384 b0 b1 b2 b3 b4 b5)) =
      wide.div (u768 0 0 0 a0 a1 a2 a3 a4 a5 0 0 0) (u768 b0 b1 b2 b3 b4 b5 0 0 0 0 0 0)
      >>= narrow_quotient
