-- ===== src/Fp/Convert/Widen.antt =====
-- veax/dex/src/fp: a conversion to a wider type keeps the number.
use veax.Base.{◌*◌, ◌^◌, ◌<◌, ◌≡◌, refl, inl, inr, arith, nat_beq, Bool-cases}
use veax.Fp.Uint.Words.{u256, u384, u512}
use veax.Fp.Uint.Laws.{Gives, fits, overflows}
use veax.Fp.Convert.{
  u192x192_from_u128x128, u192x192_from_u192x64, u256x256_from_u128x128, u256x256_from_u192x64,
  u256x256_from_u192x192, u256x320_from_u128x128, u256x320_from_u192x64, u256x320_from_u192x192,
  u320x128_from_u320x64, u256x256_from_u320x64,
}
use veax.Fp.U128x128 as U128x128
use veax.Fp.U128x128.{U128x128, u128x128}
use veax.Fp.U192x64 as U192x64
use veax.Fp.U192x64.{U192x64, u192x64}
use veax.Fp.U192x192 as U192x192
use veax.Fp.U192x192.{U192x192, u192x192}
use veax.Fp.U256x256 as U256x256
use veax.Fp.U256x256.{U256x256, u256x256}
use veax.Fp.U256x320 as U256x320
use veax.Fp.U256x320.{U256x320}
use veax.Fp.U320x64 as U320x64
use veax.Fp.U320x64.{U320x64, u320x64}
use veax.Fp.U320x128 as U320x128
use veax.Fp.U320x128.{U320x128}

u192x192_from_u128x128-value :
    (a : U128x128)
    → U128x128.IsValid a
    → U192x192.IsValid (u192x192_from_u128x128 a)
      × (U192x192.value (u192x192_from_u128x128 a) ≡ U128x128.value a * 2 ^ 64)
unfolding u192x192_from_u128x128
u192x192_from_u128x128-value (u128x128 (u256 w0 w1 w2 w3)) v = (omega arith, omega arith)

u192x192_from_u192x64-value :
    (a : U192x64)
    → U192x64.IsValid a
    → U192x192.IsValid (u192x192_from_u192x64 a)
      × (U192x192.value (u192x192_from_u192x64 a) ≡ U192x64.value a * 2 ^ 128)
unfolding u192x192_from_u192x64
u192x192_from_u192x64-value (u192x64 (u256 w0 w1 w2 w3)) v = (omega arith, omega arith)

u256x256_from_u128x128-value :
    (a : U128x128)
    → U128x128.IsValid a
    → U256x256.IsValid (u256x256_from_u128x128 a)
      × (U256x256.value (u256x256_from_u128x128 a) ≡ U128x128.value a * 2 ^ 128)
unfolding u256x256_from_u128x128
u256x256_from_u128x128-value (u128x128 (u256 w0 w1 w2 w3)) v = (omega arith, omega arith)

u256x256_from_u192x64-value :
    (a : U192x64)
    → U192x64.IsValid a
    → U256x256.IsValid (u256x256_from_u192x64 a)
      × (U256x256.value (u256x256_from_u192x64 a) ≡ U192x64.value a * 2 ^ 192)
unfolding u256x256_from_u192x64
u256x256_from_u192x64-value (u192x64 (u256 w0 w1 w2 w3)) v = (omega arith, omega arith)

u256x256_from_u192x192-value :
    (a : U192x192)
    → U192x192.IsValid a
    → U256x256.IsValid (u256x256_from_u192x192 a)
      × (U256x256.value (u256x256_from_u192x192 a) ≡ U192x192.value a * 2 ^ 64)
unfolding u256x256_from_u192x192
u256x256_from_u192x192-value (u192x192 (u384 w0 w1 w2 w3 w4 w5)) v = (omega arith, omega arith)

u256x320_from_u128x128-value :
    (a : U128x128)
    → U128x128.IsValid a
    → U256x320.IsValid (u256x320_from_u128x128 a)
      × (U256x320.value (u256x320_from_u128x128 a) ≡ U128x128.value a * 2 ^ 192)
unfolding u256x320_from_u128x128
u256x320_from_u128x128-value (u128x128 (u256 w0 w1 w2 w3)) v = (omega arith, omega arith)

u256x320_from_u192x64-value :
    (a : U192x64)
    → U192x64.IsValid a
    → U256x320.IsValid (u256x320_from_u192x64 a)
      × (U256x320.value (u256x320_from_u192x64 a) ≡ U192x64.value a * 2 ^ 256)
unfolding u256x320_from_u192x64
u256x320_from_u192x64-value (u192x64 (u256 w0 w1 w2 w3)) v = (omega arith, omega arith)

u256x320_from_u192x192-value :
    (a : U192x192)
    → U192x192.IsValid a
    → U256x320.IsValid (u256x320_from_u192x192 a)
      × (U256x320.value (u256x320_from_u192x192 a) ≡ U192x192.value a * 2 ^ 128)
unfolding u256x320_from_u192x192
u256x320_from_u192x192-value (u192x192 (u384 w0 w1 w2 w3 w4 w5)) v = (omega arith, omega arith)

u320x128_from_u320x64-value :
    (a : U320x64)
    → U320x64.IsValid a
    → U320x128.IsValid (u320x128_from_u320x64 a)
      × (U320x128.value (u320x128_from_u320x64 a) ≡ U320x64.value a * 2 ^ 64)
unfolding u320x128_from_u320x64
u320x128_from_u320x64-value (u320x64 (u384 w0 w1 w2 w3 w4 w5)) v = (omega arith, omega arith)

u256x256_from_u320x64-Gives :
    (a : U320x64)
    → U320x64.IsValid a
    → Gives
        (record U256x256.limbs { bound = 2 ^ 512 })
        (u256x256_from_u320x64 a)
        (U320x64.value a * 2 ^ 192)
unfolding u256x256_from_u320x64
u256x256_from_u320x64-Gives (u320x64 (u384 w0 w1 w2 w3 w4 w5)) v =
    elim (Bool-cases (nat_beq w5 0)) [
      | inl t ↦
          let clear : w5 ≡ 0 = ground arith in
          fits (u256x256 (u512 0 0 0 w0 w1 w2 w3 w4)) (rw t refl) (omega arith)
            (omega (arith, clear))
      | inr t ↦ let more : 0 < w5 = ground arith in overflows (rw t refl) (omega (arith, more))
    ]

-- For numbers of valid words, the conversions of U128X128, U192X64 and U192X192 to U256X256 and to
-- U256X320 have the words of the same number in the wider scale.
pub widening-value :
    (a : U128x128) (b : U192x64) (c : U192x192)
    → U128x128.IsValid a
    → U192x64.IsValid b
    → U192x192.IsValid c
    → (U256x256.value (u256x256_from_u128x128 a) ≡ U128x128.value a * 2 ^ 128)
      × (U256x256.value (u256x256_from_u192x64 b) ≡ U192x64.value b * 2 ^ 192)
      × (U256x256.value (u256x256_from_u192x192 c) ≡ U192x192.value c * 2 ^ 64)
      × (U256x320.value (u256x320_from_u128x128 a) ≡ U128x128.value a * 2 ^ 192)
      × (U256x320.value (u256x320_from_u192x64 b) ≡ U192x64.value b * 2 ^ 256)
      × (U256x320.value (u256x320_from_u192x192 c) ≡ U192x192.value c * 2 ^ 128)
widening-value a b c va vb vc = (
  (u256x256_from_u128x128-value a va).1,
  (u256x256_from_u192x64-value b vb).1,
  (u256x256_from_u192x192-value c vc).1,
  (u256x320_from_u128x128-value a va).1,
  (u256x320_from_u192x64-value b vb).1,
  (u256x320_from_u192x192-value c vc).1,
)
