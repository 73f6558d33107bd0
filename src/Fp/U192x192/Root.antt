-- ===== src/Fp/U192x192/Root.antt =====
-- veax/dex/src/fp/u192x192.rs: `integer_sqrt` against the square root of the number.
use veax.Base.{◌*◌, ◌^◌, ◌≡◌, arith}
use veax.Fp.Uint.Words.{u384_value, u384_words}
use veax.Fp.Uint.Laws.{Uint}
use veax.Fp.Uint.Splits.{u384_value-lt}
use veax.Fp.Uint.Roots.{IsRootWithin, IsRoot-scaled, lt_of_square_lt}
use veax.Fp.U192x192.{U192x192, u192x192, value, IsValid, integer_sqrt}

pub integer_sqrt-IsRootWithin_u192x192 :
    (small : Uint u384_words) (a : U192x192)
    → IsValid a
    → IsRootWithin (2 ^ 96) (value (integer_sqrt small a)) (value a)
unfolding integer_sqrt
integer_sqrt-IsRootWithin_u192x192 small (u192x192 a) ok =
    let s = small.integer_sqrt a in
    let root = small.sqrt_IsRoot a ok in
    let fits =
      lt_of_square_lt (u384_value s) (2 ^ 192) (omega (arith, root.0, u384_value-lt a ok)) in
    let shifted = small.shl_value s 96 (small.sqrt_IsValid a ok) in
    let r : u384_value (small.shl s 96) ≡ 2 ^ 96 * u384_value s = omega (arith, shifted, fits) in
    rw r (IsRoot-scaled (2 ^ 96) _ _ (omega arith) root)
