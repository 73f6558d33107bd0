-- ===== src/Base/Panic.antt =====
-- A computation that returns or panics. The release profile has `overflow-checks=true` and
-- `panic = "abort"`, so an overflow panics too, and a panic drops the whole transaction.
-- `out_of_fuel` is the model's own: a loop that was given too few rounds.
use Prim.Native.Nat.{ℕ, ◌+◌, ◌-◌}
use mathlib.Core.Bool.{Bool, true, false}
use mathlib.Core.Option.{Option, none, some}
use veax.Base.Tests.{ltb, if◌then◌else◌}

pub data Run {ℓ} (A : Type ℓ) : Type ℓ where
  done : A → Run A
  panic : Run A
  out_of_fuel : Run A

infixl 5 ◌>>=◌ ◌>>◌
abbrev pub ◌>>=◌ {ℓ κ} : {A : Type ℓ} {B : Type κ} → Run A → (A → Run B) → Run B
done a >>= f = f a
panic >>= f = panic
out_of_fuel >>= f = out_of_fuel

abbrev pub ◌>>◌ {ℓ} : {B : Type ℓ} → Run (Unit {0}) → Run B → Run B
m >> k = m >>= λ _. k

-- `assert!`
abbrev pub assert : Bool → Run (Unit {0})
assert true = done tt
assert false = panic

abbrev pub unwrap {ℓ} : {A : Type ℓ} → Option A → Run A
unwrap none = panic
unwrap (some a) = done a

-- Checked arithmetic on `w`-bit unsigned integers, for a bound 2 ^ w.
abbrev pub add_below : ℕ → ℕ → ℕ → Run ℕ
add_below bound a b = if ltb (a + b) bound then done (a + b) else panic

abbrev pub sub_checked : ℕ → ℕ → Run ℕ
sub_checked a b = if ltb a b then panic else done (a - b)
