-- ===== src/Fp/SignedTypes/Laws.antt =====
-- A `u128` survives the way into a signed 256.256 bit number and back.
use veax.Base.{ℕ, ◌*◌, ◌^◌, ◌<◌, ◌≡◌, refl, arith, false}
use veax.Fp.Errors.{Result, ok, err, negative_to_unsigned}
use veax.Fp.Signed.{signed}
use veax.Fp.U256x256.{U256x256, from_u128, IsValid, value}
use veax.Fp.Convert.Narrow.{Truncates, truncated, too_large, u128_from_u256x256-Truncates}
use veax.Fp.SignedTypes.{i256x256_from_u128, u128_try_from_i256x256}

from_u128-value :
    (v : ℕ) → v < 2 ^ 128 → IsValid (from_u128 v) × (value (from_u128 v) ≡ v * 2 ^ 256)
unfolding from_u128
from_u128-value v h = (omega arith, omega arith)

Truncates-ok : (r : Result ℕ) (v w : ℕ) → v ≡ w → w < 2 ^ 128 → Truncates r v → r ≡ ok w
Truncates-ok r v w e h (truncated p q) = rw (q, e) refl
Truncates-ok r v w e h (too_large p q) = absurd (omega arith)

pub u128-i256x256 :
    (v : ℕ)
    → v < 2 ^ 128
    → (u128_try_from_i256x256 (i256x256_from_u128 v) ≡ ok v)
      × ((a : U256x256) → u128_try_from_i256x256 (signed a false) ≡ err negative_to_unsigned)
unfolding u128_try_from_i256x256 i256x256_from_u128
u128-i256x256 v h =
    let (ok_words, exact) = from_u128-value v h in
    (
      Truncates-ok _ _ v (omega (arith, exact)) h
          (u128_from_u256x256-Truncates (from_u128 v) ok_words),
      λ a. refl,
    )
