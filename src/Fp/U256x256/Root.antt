-- ===== src/Fp/U256x256/Root.antt =====
-- veax/dex/src/fp/u256x256.rs: `integer_sqrt` against the square root of the number.
use veax.Base.{◌*◌, ◌^◌, ◌<◌, ◌≡◌, arith}
use veax.Fp.Uint.Words.{u512, U512, IsU512, u512_value, u512_words}
use veax.Fp.Uint.Laws.{Uint}
use veax.Fp.Uint.Splits.{u512_value-lt}
use veax.Fp.Uint.Roots.{IsRootWithin, IsRoot-scaled, lt_of_square_lt}
use veax.Fp.U256x256.{U256x256, u256x256, value, IsValid, root_words, integer_sqrt}

root_words-value :
    (small : Uint u512_words) (s : U512)
    → IsU512 s
    → u512_value s < 2 ^ 256
    → value (root_words small s) ≡ 2 ^ 128 * u512_value s
unfolding root_words
root_words-value small (u512 s0 s1 s2 s3 s4 s5 s6 s7) ok small_enough = omega arith

pub integer_sqrt-IsRootWithin_u256x256 :
    (small : Uint u512_words) (a : U256x256)
    → IsValid a
    → IsRootWithin (2 ^ 128) (value (integer_sqrt small a)) (value a)
unfolding integer_sqrt
integer_sqrt-IsRootWithin_u256x256 small (u256x256 a) ok =
    let s = small.integer_sqrt a in
    let root = small.sqrt_IsRoot a ok in
    rw
      (root_words-value small s (small.sqrt_IsValid a ok)
        (lt_of_square_lt _ (2 ^ 256) (omega (arith, root.0, u512_value-lt a ok))))
      (IsRoot-scaled (2 ^ 128) _ _ (omega arith) root)
