-- ===== src/Fp/WordExamples.antt =====
-- Runs of the unsigned fixed point numbers, over the exact implementation of `uint`, with the theorems'
-- conditions met.
use veax.Base.{◌+◌, ◌*◌, ◌/◌, ◌^◌, ◌≡◌, refl, arith}
use veax.Fp.Errors.{ok}
use veax.Fp.Uint.Words.{u256, u384, u512, u576, u448}
use veax.Fp.Uint.Laws.{Gives, Differs, Divides}
use veax.Fp.Uint.Roots.{IsRootWithin}
use veax.Fp.Uint.Splits.{
  u256_exact, u320_exact, u384_exact, u512_exact, u576_exact, u768_exact, u896_exact,
}
use veax.Fp.U128x128 as U128x128
use veax.Fp.U128x128.{U128x128, u128x128}
use veax.Fp.U128x128.Laws as U128x128Laws
use veax.Fp.U128x128.Root as U128x128Root
use veax.Fp.U192x64 as U192x64
use veax.Fp.U192x64.{U192x64, u192x64}
use veax.Fp.U192x64.Laws as U192x64Laws
use veax.Fp.U192x64.Root as U192x64Root
use veax.Fp.U192x192 as U192x192
use veax.Fp.U192x192.{U192x192, u192x192}
use veax.Fp.U256x256 as U256x256
use veax.Fp.U256x256.{U256x256, u256x256}
use veax.Fp.U256x256.Laws as U256x256Laws
use veax.Fp.U256x320 as U256x320
use veax.Fp.U256x320.{U256x320, u256x320}
use veax.Fp.U256x320.Laws as U256x320Laws
use veax.Fp.U320x64 as U320x64
use veax.Fp.U320x64.{U320x64, u320x64}
use veax.Fp.U320x128 as U320x128
use veax.Fp.U320x128.{U320x128, u320x128}
use veax.Fp.Convert.{
  u192x192_try_from_u256x320, u128_try_from_u192x64, u128_try_from_u192x192, u128_try_from_u256x256,
  u128_try_from_u256x320, u192x192_try_from_u256x256, u256x320_try_from_u320x64,
  u256x320_try_from_u320x128, u256x256_from_u128x128, u256x256_from_u192x64, u256x256_from_u192x192,
  u256x320_from_u128x128, u256x320_from_u192x64, u256x320_from_u192x192,
}
use veax.Fp.Convert.Widen.{widening-value}
use veax.Fp.Convert.Narrow.{
  Truncates, Converts, into_u128-Truncates, narrowing-Converts, TopWordTested,
  u192x192_from_u256x320-TopWordTested,
}

-- Two and a half, and three.
abbrev half128 : U128x128
half128 = u128x128 (u256 0 (2 ^ 63) 2 0)

abbrev three128 : U128x128
three128 = u128x128 (u256 0 0 3 0)

abbrev half64 : U192x64
half64 = u192x64 (u256 (2 ^ 63) 2 0 0)

abbrev three64 : U192x64
three64 = u192x64 (u256 0 3 0 0)

abbrev half192 : U192x192
half192 = u192x192 (u384 0 0 (2 ^ 63) 2 0 0)

abbrev half256 : U256x256
half256 = u256x256 (u512 0 0 0 (2 ^ 63) 2 0 0 0)

abbrev three256 : U256x256
three256 = u256x256 (u512 0 0 0 0 3 0 0 0)

abbrev half320 : U256x320
half320 = u256x320 (u576 0 0 0 0 (2 ^ 63) 2 0 0 0)

abbrev three320 : U256x320
three320 = u256x320 (u576 0 0 0 0 0 3 0 0 0)

arithmetic_u128x128_example :
    Gives U128x128.limbs
      (U128x128.add u256_exact half128 three128)
      (U128x128.value half128 + U128x128.value three128)
    × Differs U128x128.limbs
        (U128x128.sub u256_exact half128 three128)
        (U128x128.value half128)
        (U128x128.value three128)
    × Gives U128x128.limbs
        (U128x128.mul u384_exact half128 three128)
        (U128x128.value half128 * U128x128.value three128 / 2 ^ 128)
    × Divides U128x128.limbs
        (U128x128.div u512_exact half128 three128)
        (U128x128.value half128 * 2 ^ 128)
        (U128x128.value three128)
arithmetic_u128x128_example =
    U128x128Laws.arithmetic_u128x128 u256_exact u384_exact u512_exact half128 three128 (omega arith)
      (omega arith)

arithmetic_u192x64_example :
    Gives U192x64.limbs
      (U192x64.add u256_exact half64 three64)
      (U192x64.value half64 + U192x64.value three64)
    × Differs U192x64.limbs
        (U192x64.sub u256_exact half64 three64)
        (U192x64.value half64)
        (U192x64.value three64)
    × Gives U192x64.limbs
        (U192x64.mul u320_exact half64 three64)
        (U192x64.value half64 * U192x64.value three64 / 2 ^ 64)
    × Divides U192x64.limbs
        (U192x64.div u320_exact half64 three64)
        (U192x64.value half64 * 2 ^ 64)
        (U192x64.value three64)
arithmetic_u192x64_example =
    U192x64Laws.arithmetic_u192x64 u256_exact u320_exact half64 three64 (omega arith) (omega arith)

arithmetic_u256x256_example :
    Gives U256x256.limbs
      (U256x256.add u512_exact half256 three256)
      (U256x256.value half256 + U256x256.value three256)
    × Differs U256x256.limbs
        (U256x256.sub u512_exact half256 three256)
        (U256x256.value half256)
        (U256x256.value three256)
    × Gives U256x256.limbs
        (U256x256.mul u768_exact half256 three256)
        (U256x256.value half256 * U256x256.value three256 / 2 ^ 256)
    × Divides U256x256.limbs
        (U256x256.div u768_exact half256 three256)
        (U256x256.value half256 * 2 ^ 256)
        (U256x256.value three256)
arithmetic_u256x256_example =
    U256x256Laws.arithmetic_u256x256 u512_exact u768_exact half256 three256 (omega arith)
      (omega arith)

arithmetic_u256x320_example :
    Gives U256x320.limbs
      (U256x320.add u576_exact half320 three320)
      (U256x320.value half320 + U256x320.value three320)
    × Differs U256x320.limbs
        (U256x320.sub u576_exact half320 three320)
        (U256x320.value half320)
        (U256x320.value three320)
    × Gives U256x320.limbs
        (U256x320.mul u896_exact half320 three320)
        (U256x320.value half320 * U256x320.value three320 / 2 ^ 320)
    × Divides U256x320Laws.narrow
        (U256x320.div u896_exact half320 three320)
        (U256x320.value half320 * 2 ^ 320)
        (U256x320.value three320)
arithmetic_u256x320_example =
    U256x320Laws.arithmetic_u256x320 u576_exact u896_exact half320 three320 (omega arith)
      (omega arith)

integer_sqrt-IsRootWithin_u128x128_example :
    IsRootWithin
      (2 ^ 64)
      (U128x128.value (U128x128.integer_sqrt u256_exact half128))
      (U128x128.value half128)
integer_sqrt-IsRootWithin_u128x128_example =
    U128x128Root.integer_sqrt-IsRootWithin_u128x128 u256_exact half128 (omega arith)

integer_sqrt-IsRootWithin_u192x64_example :
    IsRootWithin
      (2 ^ 64)
      (U192x64.value (U192x64.integer_sqrt u256_exact half64))
      (U192x64.value half64)
integer_sqrt-IsRootWithin_u192x64_example =
    U192x64Root.integer_sqrt-IsRootWithin_u192x64 u256_exact half64 (omega arith)

-- A number whose top word alone is not zero.
abbrev top320 : U256x320
top320 = u256x320 (u576 0 0 0 0 0 3 0 0 1)

top_word-dropped : u192x192_try_from_u256x320 top320 ≡ ok (u192x192 (u384 0 0 0 3 0 0))
unfolding u192x192_try_from_u256x320
top_word-dropped = refl

u192x192_from_u256x320-TopWordTested_example :
    TopWordTested (u192x192_try_from_u256x320 top320) (U256x320.value top320)
u192x192_from_u256x320-TopWordTested_example =
    u192x192_from_u256x320-TopWordTested top320 (omega arith)

into_u128-Truncates_example :
    Truncates (u128_try_from_u192x64 half64) (U192x64.value half64 / 2 ^ 64)
    × Truncates (u128_try_from_u192x192 half192) (U192x192.value half192 / 2 ^ 192)
    × Truncates (u128_try_from_u256x256 half256) (U256x256.value half256 / 2 ^ 256)
    × Truncates (u128_try_from_u256x320 half320) (U256x320.value half320 / 2 ^ 320)
into_u128-Truncates_example =
    into_u128-Truncates half64 half192 half256 half320 (omega arith) (omega arith) (omega arith)
      (omega arith)

abbrev three_u320x64 : U320x64
three_u320x64 = u320x64 (u384 0 3 0 0 0 0)

abbrev wide_u320x128 : U320x128
wide_u320x128 = u320x128 (u448 0 0 3 0 0 0 1)

narrowing-Converts_example :
    Converts U192x192.limbs (u192x192_try_from_u256x256 half256) (U256x256.value half256 / 2 ^ 64)
    × Converts U256x320.limbs
        (u256x320_try_from_u320x64 three_u320x64)
        (U320x64.value three_u320x64 * 2 ^ 256)
    × Converts U256x320.limbs
        (u256x320_try_from_u320x128 wide_u320x128)
        (U320x128.value wide_u320x128 * 2 ^ 192)
narrowing-Converts_example =
    narrowing-Converts half256 three_u320x64 wide_u320x128 (omega arith) (omega arith) (omega arith)

widening-value_example :
    (U256x256.value (u256x256_from_u128x128 half128) ≡ U128x128.value half128 * 2 ^ 128)
    × (U256x256.value (u256x256_from_u192x64 half64) ≡ U192x64.value half64 * 2 ^ 192)
    × (U256x256.value (u256x256_from_u192x192 half192) ≡ U192x192.value half192 * 2 ^ 64)
    × (U256x320.value (u256x320_from_u128x128 half128) ≡ U128x128.value half128 * 2 ^ 192)
    × (U256x320.value (u256x320_from_u192x64 half64) ≡ U192x64.value half64 * 2 ^ 256)
    × (U256x320.value (u256x320_from_u192x192 half192) ≡ U192x192.value half192 * 2 ^ 128)
widening-value_example =
    widening-value half128 half64 half192 (omega arith) (omega arith) (omega arith)
