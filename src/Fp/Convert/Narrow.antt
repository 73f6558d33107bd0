-- ===== src/Fp/Convert/Narrow.antt =====
-- veax/dex/src/fp: a conversion to a narrower type keeps the number or fails.
use veax.Base.{
  ℕ, ◌+◌, ◌-◌, ◌*◌, ◌/◌, ◌%◌, ◌^◌, ◌≤◌, ◌<◌, ◌≡◌, refl, ◌||◌, [], ◌∷◌, inl, inr, arith, ltb,
  nat_beq, Bool-cases, ltb→lt,
}
use veax.Fp.Errors.{Result, ok, err, overflow, precision_loss}
use veax.Fp.Uint.Words.{Limbs, u256, u256_value, u384, u448, u512, u576, word}
use veax.Fp.Uint.Laws.{all_zero, all_zero-total, not_all_zero-total}
use veax.Fp.Convert.{
  u192x64_try_from_u192x192, u192x192_try_from_u256x256, u192x192_try_from_u256x320,
  u128_try_from_u192x64, u128_try_from_u192x192, u128_try_from_u256x256, u128_try_from_u256x320,
  u256x320_try_from_u320x64, u256x320_try_from_u320x128,
}
use veax.Fp.U192x64 as U192x64
use veax.Fp.U192x64.{U192x64, u192x64}
use veax.Fp.U192x192 as U192x192
use veax.Fp.U192x192.{U192x192, u192x192}
use veax.Fp.U256x256 as U256x256
use veax.Fp.U256x256.{U256x256, u256x256}
use veax.Fp.U256x320 as U256x320
use veax.Fp.U256x320.{U256x320, u256x320}
use veax.Fp.U320x64 as U320x64
use veax.Fp.U320x64.{U320x64, u320x64}
use veax.Fp.U320x128 as U320x128
use veax.Fp.U320x128.{U320x128, u320x128}

-- The outcome of a conversion to a `u128` of a number whose integer part is `v`.
pub data Truncates (r : Result ℕ) (v : ℕ) : Type 0 where
  truncated : v < 2 ^ 128 → r ≡ ok v → Truncates r v
  too_large : 2 ^ 128 ≤ v → r ≡ err overflow → Truncates r v

-- The outcome of a conversion to a type `l` of the words `v`, in the scale of `l`.
pub data Converts (l : Limbs) (r : Result l.N) (v : ℕ) : Type 0 where
  kept : (c : l.N) → r ≡ ok c → l.IsValid c → l.value c ≡ v → Converts l r v
  too_wide : l.bound ≤ v → r ≡ err overflow → Converts l r v

u128_from_u192x64-Truncates :
    (a : U192x64)
    → U192x64.IsValid a
    → Truncates (u128_try_from_u192x64 a) (U192x64.value a / 2 ^ 64)
unfolding u128_try_from_u192x64
u128_from_u192x64-Truncates (u192x64 (u256 w0 w1 w2 w3)) v = elim (Bool-cases (ltb 0 w3)) [
  | inl t ↦ let more : 0 < w3 = ground arith in too_large (omega (arith, more)) (rw t refl)
  | inr t ↦
      let clear : w3 ≡ 0 = ground arith in
      let same : w2 * word + w1 ≡ U192x64.value (u192x64 (u256 w0 w1 w2 w3)) / 2 ^ 64 =
        omega (arith, clear) in
      truncated (omega (arith, clear)) (rw (t, same) refl)
]

u128_from_u192x192-Truncates :
    (a : U192x192)
    → U192x192.IsValid a
    → Truncates (u128_try_from_u192x192 a) (U192x192.value a / 2 ^ 192)
unfolding u128_try_from_u192x192
u128_from_u192x192-Truncates (u192x192 (u384 w0 w1 w2 w3 w4 w5)) v = elim (Bool-cases (ltb 0 w5)) [
  | inl t ↦ let more : 0 < w5 = ground arith in too_large (omega (arith, more)) (rw t refl)
  | inr t ↦
      let clear : w5 ≡ 0 = ground arith in
      let same : w4 * word + w3 ≡ U192x192.value (u192x192 (u384 w0 w1 w2 w3 w4 w5)) / 2 ^ 192 =
        omega (arith, clear) in
      truncated (omega (arith, clear)) (rw (t, same) refl)
]

pub u128_from_u256x256-Truncates :
    (a : U256x256)
    → U256x256.IsValid a
    → Truncates (u128_try_from_u256x256 a) (U256x256.value a / 2 ^ 256)
unfolding u128_try_from_u256x256 U256x256.upper_part
u128_from_u256x256-Truncates (u256x256 (u512 w0 w1 w2 w3 w4 w5 w6 w7)) v =
    let upper = u256_value (u256 w4 w5 w6 w7) in
    let part : upper ≡ U256x256.value (u256x256 (u512 w0 w1 w2 w3 w4 w5 w6 w7)) / 2 ^ 256 =
      omega arith in
    elim (Bool-cases (ltb (2 ^ 128 - 1) upper)) [
      | inl t ↦
          let more : 2 ^ 128 ≤ upper = omega (arith, ltb→lt (2 ^ 128 - 1) upper t) in
          too_large (omega (arith, part, more)) (rw t refl)
      | inr t ↦
          let small : upper < 2 ^ 128 = ground arith in
          let same : upper % 2 ^ 128
              ≡ U256x256.value (u256x256 (u512 w0 w1 w2 w3 w4 w5 w6 w7)) / 2 ^ 256 =
            omega (arith, small, part) in
          truncated (omega (arith, small, part)) (rw (t, same) refl)
    ]

u128_from_u256x320-Truncates :
    (a : U256x320)
    → U256x320.IsValid a
    → Truncates (u128_try_from_u256x320 a) (U256x320.value a / 2 ^ 320)
unfolding u128_try_from_u256x320
u128_from_u256x320-Truncates (u256x320 (u576 w0 w1 w2 w3 w4 w5 w6 w7 w8)) v =
    elim (Bool-cases (all_zero (w7 ∷ w8 ∷ []))) [
      | inl t ↦
          let clear = all_zero-total (w7 ∷ w8 ∷ []) t in
          let same : w6 * word + w5
              ≡ U256x320.value (u256x320 (u576 w0 w1 w2 w3 w4 w5 w6 w7 w8)) / 2 ^ 320 =
            omega (arith, clear) in
          truncated (omega (arith, clear)) (rw (t, same) refl)
      | inr t ↦
          let more = not_all_zero-total (w7 ∷ w8 ∷ []) t in
          too_large (omega (arith, more)) (rw t refl)
    ]

-- For numbers of valid words, the conversions of U192X64, U192X192, U256X256 and U256X320 to a
-- `u128` return the integer part, or are refused with `Overflow`, and then it is 2 ^ 128 or more.
pub into_u128-Truncates :
    (a : U192x64) (b : U192x192) (c : U256x256) (d : U256x320)
    → U192x64.IsValid a
    → U192x192.IsValid b
    → U256x256.IsValid c
    → U256x320.IsValid d
    → Truncates (u128_try_from_u192x64 a) (U192x64.value a / 2 ^ 64)
      × Truncates (u128_try_from_u192x192 b) (U192x192.value b / 2 ^ 192)
      × Truncates (u128_try_from_u256x256 c) (U256x256.value c / 2 ^ 256)
      × Truncates (u128_try_from_u256x320 d) (U256x320.value d / 2 ^ 320)
into_u128-Truncates a b c d va vb vc vd = (
  u128_from_u192x64-Truncates a va,
  u128_from_u192x192-Truncates b vb,
  u128_from_u256x256-Truncates c vc,
  u128_from_u256x320-Truncates d vd,
)

u192x192_from_u256x256-Converts :
    (a : U256x256)
    → U256x256.IsValid a
    → Converts U192x192.limbs (u192x192_try_from_u256x256 a) (U256x256.value a / 2 ^ 64)
unfolding u192x192_try_from_u256x256
u192x192_from_u256x256-Converts (u256x256 (u512 w0 w1 w2 w3 w4 w5 w6 w7)) v =
    elim (Bool-cases (nat_beq w7 0)) [
      | inl t ↦
          let clear : w7 ≡ 0 = ground arith in
          kept (u192x192 (u384 w1 w2 w3 w4 w5 w6)) (rw t refl) (omega arith) (omega (arith, clear))
      | inr t ↦ let more : 0 < w7 = ground arith in too_wide (omega (arith, more)) (rw t refl)
    ]

u256x320_from_u320x64-Converts :
    (a : U320x64)
    → U320x64.IsValid a
    → Converts U256x320.limbs (u256x320_try_from_u320x64 a) (U320x64.value a * 2 ^ 256)
unfolding u256x320_try_from_u320x64
u256x320_from_u320x64-Converts (u320x64 (u384 w0 w1 w2 w3 w4 w5)) v =
    elim (Bool-cases (nat_beq w5 0)) [
      | inl t ↦
          let clear : w5 ≡ 0 = ground arith in
          kept (u256x320 (u576 0 0 0 0 w0 w1 w2 w3 w4)) (rw t refl) (omega arith)
            (omega (arith, clear))
      | inr t ↦ let more : 0 < w5 = ground arith in too_wide (omega (arith, more)) (rw t refl)
    ]

u256x320_from_u320x128-Converts :
    (a : U320x128)
    → U320x128.IsValid a
    → Converts U256x320.limbs (u256x320_try_from_u320x128 a) (U320x128.value a * 2 ^ 192)
unfolding u256x320_try_from_u320x128
u256x320_from_u320x128-Converts (u320x128 (u448 w0 w1 w2 w3 w4 w5 w6)) v =
    elim (Bool-cases (nat_beq w6 0)) [
      | inl t ↦
          let clear : w6 ≡ 0 = ground arith in
          kept (u256x320 (u576 0 0 0 w0 w1 w2 w3 w4 w5)) (rw t refl) (omega arith)
            (omega (arith, clear))
      | inr t ↦ let more : 0 < w6 = ground arith in too_wide (omega (arith, more)) (rw t refl)
    ]

-- For numbers of valid words, the conversions of U256X256 to U192X192 and of U320X64 and U320X128
-- to U256X320 return valid words for the same number, cut off after 192 bits of fraction in the
-- first, or are refused with `Overflow`, and then the number does not fit.
pub narrowing-Converts :
    (a : U256x256) (b : U320x64) (c : U320x128)
    → U256x256.IsValid a
    → U320x64.IsValid b
    → U320x128.IsValid c
    → Converts U192x192.limbs (u192x192_try_from_u256x256 a) (U256x256.value a / 2 ^ 64)
      × Converts U256x320.limbs (u256x320_try_from_u320x64 b) (U320x64.value b * 2 ^ 256)
      × Converts U256x320.limbs (u256x320_try_from_u320x128 c) (U320x128.value c * 2 ^ 192)
narrowing-Converts a b c va vb vc = (
  u192x192_from_u256x256-Converts a va,
  u256x320_from_u320x64-Converts b vb,
  u256x320_from_u320x128-Converts c vc,
)

-- The outcome of the conversion from U256X320 to U192X192, of the words `v` of the source.
pub data TopWordTested (r : Result U192x192) (v : ℕ) : Type 0 where
  cut :
      (c : U192x192)
      → v / 2 ^ 448 % 2 ^ 64 ≡ 0
      → r ≡ ok c
      → U192x192.value c ≡ v / 2 ^ 128 % 2 ^ 384
      → TopWordTested r v
  refused : 0 < v / 2 ^ 448 % 2 ^ 64 → r ≡ err overflow → TopWordTested r v

-- For a U256X320 of valid words v, the conversion to U192X192 is refused with `Overflow` exactly
-- where word 7 of v is not zero, and else returns words 2 to 7, whatever word 8 holds.
pub u192x192_from_u256x320-TopWordTested :
    (a : U256x320)
    → U256x320.IsValid a
    → TopWordTested (u192x192_try_from_u256x320 a) (U256x320.value a)
unfolding u192x192_try_from_u256x320
u192x192_from_u256x320-TopWordTested (u256x320 (u576 w0 w1 w2 w3 w4 w5 w6 w7 w8)) v =
    elim (Bool-cases (nat_beq w7 0)) [
      | inl t ↦
          let clear : w7 ≡ 0 = ground arith in
          cut (u192x192 (u384 w2 w3 w4 w5 w6 w7)) (omega (arith, clear)) (rw t refl)
            (omega (arith, clear))
      | inr t ↦ let more : 0 < w7 = ground arith in refused (omega (arith, more)) (rw t refl)
    ]

-- The outcome of the conversion from U192X192 to U192X64, of the words `v` of the source.
pub data Exact (r : Result U192x64) (v : ℕ) : Type 0 where
  same : (c : U192x64) → r ≡ ok c → U192x64.IsValid c → U192x64.value c * 2 ^ 128 ≡ v → Exact r v
  inexact : 0 < v % 2 ^ 128 → r ≡ err precision_loss → Exact r v

pub u192x64_from_u192x192-Exact :
    (a : U192x192) → U192x192.IsValid a → Exact (u192x64_try_from_u192x192 a) (U192x192.value a)
unfolding u192x64_try_from_u192x192
u192x64_from_u192x192-Exact (u192x192 (u384 w0 w1 w2 w3 w4 w5)) v =
    elim (Bool-cases (ltb 0 w0 || ltb 0 w1)) [
      | inl t ↦ let more : 0 < w0 + w1 = ground arith in inexact (omega (arith, more)) (rw t refl)
      | inr t ↦
          let clear : w0 + w1 ≡ 0 = ground arith in
          same (u192x64 (u256 w2 w3 w4 w5)) (rw t refl) (omega arith) (omega (arith, clear))
    ]
