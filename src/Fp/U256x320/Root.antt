-- ===== src/Fp/U256x320/Root.antt =====
-- veax/dex/src/fp/u256x320.rs: `integer_sqrt` against the square root of the number.
use veax.Base.{◌*◌, ◌^◌, ◌≡◌, arith}
use veax.Fp.Uint.Words.{u576_value, u576_words}
use veax.Fp.Uint.Laws.{Uint}
use veax.Fp.Uint.Splits.{u576_value-lt}
use veax.Fp.Uint.Roots.{IsRootWithin, IsRoot-scaled, lt_of_square_lt}
use veax.Fp.U256x320.{U256x320, u256x320, value, IsValid, integer_sqrt}

pub integer_sqrt-IsRootWithin_u256x320 :
    (small : Uint u576_words) (a : U256x320)
    → IsValid a
    → IsRootWithin (2 ^ 160) (value (integer_sqrt small a)) (value a)
unfolding integer_sqrt
integer_sqrt-IsRootWithin_u256x320 small (u256x320 a) ok =
    let s = small.integer_sqrt a in
    let root = small.sqrt_IsRoot a ok in
    let fits =
      lt_of_square_lt (u576_value s) (2 ^ 288) (omega (arith, root.0, u576_value-lt a ok)) in
    let shifted = small.shl_value s 160 (small.sqrt_IsValid a ok) in
    let r : u576_value (small.shl s 160) ≡ 2 ^ 160 * u576_value s = omega (arith, shifted, fits) in
    rw r (IsRoot-scaled (2 ^ 160) _ _ (omega arith) root)
