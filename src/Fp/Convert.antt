-- ===== src/Fp/Convert.antt =====
-- veax/dex/src/fp: the conversions between the unsigned fixed point types, from the words of one to
-- those of the other. A `u128` is a number.
pub mod Widen
pub mod Narrow
use veax.Base.{ℕ, ◌+◌, ◌-◌, ◌*◌, ◌%◌, ◌^◌, not, ◌||◌, [], ◌∷◌, ltb, nat_beq, if◌then◌else◌}
use veax.Base.Panic.{Run, done, ◌>>◌, assert}
use veax.Fp.Errors.{Result, ok, err, overflow, precision_loss}
use veax.Fp.Uint.Words.{word, u256, U256, u256_value, u384, u448, u512, u576}
use veax.Fp.Uint.Laws.{all_zero}
use veax.Fp.U256x256 as U256x256
use veax.Fp.U256x320 as U256x320
use veax.Fp.U128x128.{U128x128, u128x128}
use veax.Fp.U192x64.{U192x64, u192x64}
use veax.Fp.U192x192.{U192x192, u192x192}
use veax.Fp.U256x256.{U256x256, u256x256}
use veax.Fp.U256x320.{U256x320, u256x320}
use veax.Fp.U320x64.{U320x64, u320x64}
use veax.Fp.U320x128.{U320x128, u320x128}

unfoldable pub u192x192_from_u128x128 : U128x128 → U192x192
u192x192_from_u128x128 (u128x128 (u256 w0 w1 w2 w3)) = u192x192 (u384 0 w0 w1 w2 w3 0)

unfoldable pub u192x192_from_u192x64 : U192x64 → U192x192
u192x192_from_u192x64 (u192x64 (u256 w0 w1 w2 w3)) = u192x192 (u384 0 0 w0 w1 w2 w3)

unfoldable pub u256x256_from_u128x128 : U128x128 → U256x256
u256x256_from_u128x128 (u128x128 (u256 w0 w1 w2 w3)) = u256x256 (u512 0 0 w0 w1 w2 w3 0 0)

unfoldable pub u256x256_from_u192x64 : U192x64 → U256x256
u256x256_from_u192x64 (u192x64 (u256 w0 w1 w2 w3)) = u256x256 (u512 0 0 0 w0 w1 w2 w3 0)

unfoldable pub u256x256_from_u192x192 : U192x192 → U256x256
u256x256_from_u192x192 (u192x192 (u384 w0 w1 w2 w3 w4 w5)) = u256x256 (u512 0 w0 w1 w2 w3 w4 w5 0)

unfoldable pub u256x320_from_u128x128 : U128x128 → U256x320
u256x320_from_u128x128 (u128x128 (u256 w0 w1 w2 w3)) = u256x320 (u576 0 0 0 w0 w1 w2 w3 0 0)

unfoldable pub u256x320_from_u192x64 : U192x64 → U256x320
u256x320_from_u192x64 (u192x64 (u256 w0 w1 w2 w3)) = u256x320 (u576 0 0 0 0 w0 w1 w2 w3 0)

unfoldable pub u256x320_from_u192x192 : U192x192 → U256x320
u256x320_from_u192x192 (u192x192 (u384 w0 w1 w2 w3 w4 w5)) = u256x320 (u576 0 0 w0 w1 w2 w3 w4 w5 0)

unfoldable pub u320x128_from_u320x64 : U320x64 → U320x128
u320x128_from_u320x64 (u320x64 (u384 w0 w1 w2 w3 w4 w5)) = u320x128 (u448 0 w0 w1 w2 w3 w4 w5)

unfoldable pub u256x256_from_u256 : U256 → U256x256
u256x256_from_u256 (u256 w0 w1 w2 w3) = u256x256 (u512 0 0 0 0 w0 w1 w2 w3)

unfoldable pub u256x320_from_u256 : U256 → U256x320
u256x320_from_u256 (u256 w0 w1 w2 w3) = u256x320 (u576 0 0 0 0 0 w0 w1 w2 w3)

unfoldable pub u320x64_from_u256 : U256 → U320x64
u320x64_from_u256 (u256 w0 w1 w2 w3) = u320x64 (u384 0 w0 w1 w2 w3 0)

unfoldable pub u320x128_from_u256 : U256 → U320x128
u320x128_from_u256 (u256 w0 w1 w2 w3) = u320x128 (u448 0 0 w0 w1 w2 w3 0)

-- The bytes of the words, most significant first, are written with 24 zero bytes after them and read
-- back without the first eight: the words move up by three, and the top one has to be zero.
unfoldable pub u256x256_from_u320x64 : U320x64 → Run U256x256
u256x256_from_u320x64 (u320x64 (u384 w0 w1 w2 w3 w4 w5)) =
    assert (nat_beq w5 0) >> done (u256x256 (u512 0 0 0 w0 w1 w2 w3 w4))

unfoldable pub u256_from_u256x256 : U256x256 → U256
unfolding U256x256.upper_part
u256_from_u256x256 a = U256x256.upper_part a

unfoldable pub u256_try_from_u256x320 : U256x320 → Result U256
unfolding U256x320.upper_part
u256_try_from_u256x320 a = ok (U256x320.upper_part a)

unfoldable pub u256x320_try_from_u320x64 : U320x64 → Result U256x320
u256x320_try_from_u320x64 (u320x64 (u384 w0 w1 w2 w3 w4 w5)) =
    if not (nat_beq w5 0) then err overflow else ok (u256x320 (u576 0 0 0 0 w0 w1 w2 w3 w4))

unfoldable pub u256x320_try_from_u320x128 : U320x128 → Result U256x320
u256x320_try_from_u320x128 (u320x128 (u448 w0 w1 w2 w3 w4 w5 w6)) =
    if not (nat_beq w6 0) then err overflow else ok (u256x320 (u576 0 0 0 w0 w1 w2 w3 w4 w5))

unfoldable pub u192x64_try_from_u192x192 : U192x192 → Result U192x64
u192x64_try_from_u192x192 (u192x192 (u384 w0 w1 w2 w3 w4 w5)) =
    if ltb 0 w0 || ltb 0 w1 then err precision_loss else ok (u192x64 (u256 w2 w3 w4 w5))

unfoldable pub u192x192_try_from_u256x256 : U256x256 → Result U192x192
u192x192_try_from_u256x256 (u256x256 (u512 w0 w1 w2 w3 w4 w5 w6 w7)) =
    if not (nat_beq w7 0) then err overflow else ok (u192x192 (u384 w1 w2 w3 w4 w5 w6))

-- The word that is tested is the highest word of the result, and `w8` is not looked at.
unfoldable pub u192x192_try_from_u256x320 : U256x320 → Result U192x192
u192x192_try_from_u256x320 (u256x320 (u576 w0 w1 w2 w3 w4 w5 w6 w7 w8)) =
    if not (nat_beq w7 0) then err overflow else ok (u192x192 (u384 w2 w3 w4 w5 w6 w7))

unfoldable pub u128_try_from_u192x64 : U192x64 → Result ℕ
u128_try_from_u192x64 (u192x64 (u256 w0 w1 w2 w3)) =
    if ltb 0 w3 then err overflow else ok (w2 * word + w1)

unfoldable pub u128_try_from_u192x192 : U192x192 → Result ℕ
u128_try_from_u192x192 (u192x192 (u384 w0 w1 w2 w3 w4 w5)) =
    if ltb 0 w5 then err overflow else ok (w4 * word + w3)

unfoldable pub u128_try_from_u256x256 : U256x256 → Result ℕ
unfolding U256x256.upper_part
u128_try_from_u256x256 a =
    let upper = U256x256.upper_part a in
    if ltb (2 ^ 128 - 1) (u256_value upper) then err overflow else ok (u256_value upper % 2 ^ 128)

unfoldable pub u128_try_from_u256x320 : U256x320 → Result ℕ
u128_try_from_u256x320 (u256x320 (u576 w0 w1 w2 w3 w4 w5 w6 w7 w8)) =
    if not (all_zero (w7 ∷ w8 ∷ [])) then err overflow else ok (w6 * word + w5)
