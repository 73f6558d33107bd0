-- ===== src/Fp/Unsigned.antt =====
-- What fp/signed.rs asks of the unsigned type it stands on (the trait bounds `ops::Add`, `ops::Sub`,
-- `ops::Mul`, `ops::Div`, `cmp::Ord` and `Zero`), as an interface. A number is its limbs, read as one
-- natural number `raw` below a bound.
pub mod Words
use veax.Base.{ℕ, ◌+◌, ◌-◌, ◌≤◌, ◌<◌, ◌≡◌}
use veax.Base.Panic.{Run, done}

pub record Unsigned : Type 1 where
  pub T : Type 0
  pub raw : T → ℕ
  pub bound : ℕ
  pub zero : T
  pub add : T → T → Run T
  pub sub : T → T → Run T
  pub mul : T → T → Run T
  pub div : T → T → Run T
  pub raw_injective : (a b : T) → raw a ≡ raw b → a ≡ b
  pub raw_zero : raw zero ≡ 0
  pub add_below :
      (a b : T) → raw a + raw b < bound → (c : T) × (add a b ≡ done c) × (raw c ≡ raw a + raw b)
  pub sub_above : (a b : T) → raw b ≤ raw a → (c : T) × (sub a b ≡ done c) × (raw c ≡ raw a - raw b)
