-- ===== src/Fp/SignedTypes.antt =====
-- veax/dex/src/fp/i128x128.rs, i192x192.rs, i256x256.rs and i256x320.rs: the signed types over the
-- unsigned ones, and what converts to and from them.
pub mod Laws
use veax.Base.{ℕ, true, if◌then◌else◌}
use veax.Base.Panic.{Run, done, ◌>>=◌}
use veax.Fp.Errors.{Result, ok, err, negative_to_unsigned}
use veax.Fp.Signed.{Signed, signed}
use veax.Fp.Uint.Words.{U256}
use veax.Fp.Convert.{
  u192x192_from_u192x64, u192x192_from_u128x128, u256x256_from_u128x128, u256x256_from_u192x64,
  u256x256_from_u256, u256x256_from_u192x192, u256x320_from_u128x128, u256x320_from_u192x64,
  u256x320_from_u256, u256x320_from_u192x192, u256x256_from_u320x64, u256x320_try_from_u320x64,
  u128_try_from_u256x256, u256_try_from_u256x320,
}
use veax.Fp.U128x128 as U128x128
use veax.Fp.U128x128.{U128x128}
use veax.Fp.U192x64.{U192x64}
use veax.Fp.U192x192 as U192x192
use veax.Fp.U192x192.{U192x192}
use veax.Fp.U256x256 as U256x256
use veax.Fp.U256x256.{U256x256}
use veax.Fp.U256x320 as U256x320
use veax.Fp.U256x320.{U256x320}
use veax.Fp.U320x64.{U320x64}

unfoldable pub i128x128_from_u128 : ℕ → Signed U128x128
i128x128_from_u128 value = signed (U128x128.from_u128 value) true

unfoldable pub i192x192_from_u192x64 : U192x64 → Signed U192x192
i192x192_from_u192x64 value = signed (u192x192_from_u192x64 value) true

unfoldable pub i192x192_from_u128 : ℕ → Signed U192x192
i192x192_from_u128 value = signed (U192x192.from_u128 value) true

unfoldable pub i192x192_from_u128x128 : U128x128 → Signed U192x192
i192x192_from_u128x128 value = signed (u192x192_from_u128x128 value) true

unfoldable pub i256x256_from_u128 : ℕ → Signed U256x256
i256x256_from_u128 value = signed (U256x256.from_u128 value) true

unfoldable pub i256x256_from_u128x128 : U128x128 → Signed U256x256
i256x256_from_u128x128 value = signed (u256x256_from_u128x128 value) true

unfoldable pub i256x256_from_u192x64 : U192x64 → Signed U256x256
i256x256_from_u192x64 value = signed (u256x256_from_u192x64 value) true

unfoldable pub i256x256_from_u256 : U256 → Signed U256x256
i256x256_from_u256 value = signed (u256x256_from_u256 value) true

unfoldable pub i256x256_from_u192x192 : U192x192 → Signed U256x256
i256x256_from_u192x192 value = signed (u256x256_from_u192x192 value) true

unfoldable pub i256x320_from_u128 : ℕ → Signed U256x320
i256x320_from_u128 value = signed (U256x320.from_u128 value) true

unfoldable pub i256x320_from_u128x128 : U128x128 → Signed U256x320
i256x320_from_u128x128 value = signed (u256x320_from_u128x128 value) true

unfoldable pub i256x320_from_u192x64 : U192x64 → Signed U256x320
i256x320_from_u192x64 value = signed (u256x320_from_u192x64 value) true

unfoldable pub i256x320_from_u256 : U256 → Signed U256x320
i256x320_from_u256 value = signed (u256x320_from_u256 value) true

unfoldable pub i256x320_from_u192x192 : U192x192 → Signed U256x320
i256x320_from_u192x192 value = signed (u256x320_from_u192x192 value) true

unfoldable pub i256x256_from_u320x64 : U320x64 → Run (Signed U256x256)
i256x256_from_u320x64 value = u256x256_from_u320x64 value >>= λ v. done (signed v true)

unfoldable pub i256x320_try_from_u320x64 : U320x64 → Result (Signed U256x320)
i256x320_try_from_u320x64 value = elim (u256x320_try_from_u320x64 value) [
  | ok v ↦ ok (signed v true)
  | err e ↦ err e
]

unfoldable pub u128_try_from_i256x256 : Signed U256x256 → Result ℕ
u128_try_from_i256x256 v =
    if v.non_negative then u128_try_from_u256x256 v.value else err negative_to_unsigned

unfoldable pub u256_try_from_i256x320 : Signed U256x320 → Result U256
u256_try_from_i256x320 v =
    if v.non_negative then u256_try_from_u256x320 v.value else err negative_to_unsigned
