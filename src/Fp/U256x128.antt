-- ===== src/Fp/U256x128.antt =====
-- veax/dex/src/fp/u256x128.rs: 256 bits of integer part and 128 of fraction. The file leaves its
-- product, quotient, root, sum and conversions as `todo!()`, which panics.

use veax.Base.Panic.{Run, done, panic, ◌>>=◌}
use veax.Fp.Uint.Words.{U384, u384, u384_words}
use veax.Fp.Uint.Laws.{Uint}

pub data U256x128 : Type 0 where
  u256x128 : U384 → U256x128

unfoldable pub one : U256x128
one = u256x128 (u384 0 0 1 0 0 0)

unfoldable pub fract : U256x128 → U256x128
fract (u256x128 (u384 w0 w1 w2 w3 w4 w5)) = u256x128 (u384 w0 w1 0 0 0 0)

unfoldable pub floor : U256x128 → U256x128
floor (u256x128 (u384 w0 w1 w2 w3 w4 w5)) = u256x128 (u384 0 0 w2 w3 w4 w5)

unfoldable pub mul : U256x128 → U256x128 → Run U256x128
mul a b = panic

unfoldable pub div : U256x128 → U256x128 → Run U256x128
div a b = panic

module _ (small : Uint u384_words) where
  unfoldable pub zero : U256x128
  zero = u256x128 small.zero

  unfoldable pub add : U256x128 → U256x128 → Run U256x128
  add (u256x128 a) (u256x128 b) = small.add a b >>= λ c. done (u256x128 c)

  unfoldable pub sub : U256x128 → U256x128 → Run U256x128
  sub (u256x128 a) (u256x128 b) = small.sub a b >>= λ c. done (u256x128 c)
