-- ===== src/Fp/U128x128/Root.antt =====
-- veax/dex/src/fp/u128x128.rs: `integer_sqrt` against the square root of the number.
use veax.Base.{◌*◌, ◌^◌, ◌<◌, ◌≡◌, arith}
use veax.Fp.Uint.Words.{u256, U256, IsU256, u256_value, u256_words}
use veax.Fp.Uint.Laws.{Uint}
use veax.Fp.Uint.Splits.{u256_value-lt}
use veax.Fp.Uint.Roots.{IsRootWithin, IsRoot-scaled, lt_of_square_lt}
use veax.Fp.U128x128.{U128x128, u128x128, value, IsValid, root_words, integer_sqrt}

root_words-value :
    (small : Uint u256_words) (s : U256)
    → IsU256 s
    → u256_value s < 2 ^ 128
    → value (root_words small s) ≡ 2 ^ 64 * u256_value s
unfolding root_words
root_words-value small (u256 s0 s1 s2 s3) ok small_enough = omega arith

-- For a U128X128 of valid words a, `integer_sqrt` has words r with r * r at most a * 2 ^ 128,
-- which is below (r + 2 ^ 64) * (r + 2 ^ 64): it is the square root, short of it by less than 2 ^
-- -64.
pub integer_sqrt-IsRootWithin_u128x128 :
    (small : Uint u256_words) (a : U128x128)
    → IsValid a
    → IsRootWithin (2 ^ 64) (value (integer_sqrt small a)) (value a)
unfolding integer_sqrt
integer_sqrt-IsRootWithin_u128x128 small (u128x128 a) ok =
    let s = small.integer_sqrt a in
    let root = small.sqrt_IsRoot a ok in
    rw
      (root_words-value small s (small.sqrt_IsValid a ok)
        (lt_of_square_lt _ (2 ^ 128) (omega (arith, root.0, u256_value-lt a ok))))
      (IsRoot-scaled (2 ^ 64) _ _ (omega arith) root)
