-- ===== src/Dex/Pool.antt =====
-- veax/dex/src/dex/state_types.rs and v0/pool_state_ex.rs: a pool of two tokens on eight fee levels.
-- A fixed point number stands here as the natural number or integer of its words, and an operation
-- panics outside the range of its type, which is what Fp proves of the words. A map of positions or
-- ticks is its entries. `F` is the type of the floating point numbers.
pub mod Ticks
pub mod Fees
pub mod Crossing
pub mod Liquidity
pub mod Placed
pub mod Crossed
pub mod Ranges
pub mod Reserves
pub mod Solvency
pub mod Rewards
pub mod Withdrawals
pub mod Examples
pub mod CrossedFees
pub mod Closing
pub mod Taken
pub mod Closed
pub mod Funds
use veax.Base.{
  ℕ, ◌+◌, ◌-◌, ◌^◌, ◌≡◌, ◌↔◌, Bool, true, false, Option, none, some, List, [], ◌∷◌, ltb, nat_beq,
  if◌then◌else◌, arith, ap,
}
use veax.Base.Int.{ℤ, pos, pos_part, neg_part, ◌+ℤ◌, ◌-ℤ◌, beq_ℤ, eq_of_parts}
use veax.Base.Eq.{Eq}
use veax.Dex.Tick.{Tick, EffTick}
use veax.Dex.Side.{Side}
use veax.Errors.{Outcome, ok, panicked}

-- Operations on the words of `AmountUFP` (512 bits) and of `Liquidity` (256 bits).
abbrev pub add_words : ℕ → ℕ → ℕ → Outcome ℕ
add_words bits a b = if ltb (a + b) (2 ^ bits) then ok (a + b) else panicked

abbrev pub sub_words : ℕ → ℕ → Outcome ℕ
sub_words a b = if ltb a b then panicked else ok (a - b)

-- A result of `LPFeePerFeeLiquidity` or `LiquiditySFP`, whose magnitude has 256 bits.
abbrev pub signed_words : ℤ → Outcome ℤ
signed_words a = if ltb (pos_part a + neg_part a) (2 ^ 256) then ok a else panicked

abbrev pub num_fee_levels : ℕ
num_fee_levels = 8

-- Indexing past the last level panics.
abbrev pub at_level : {A : Type 0} → ℕ → Outcome A → Outcome A
at_level level k = if ltb level num_fee_levels then k else panicked

-- `FeeLevelsArray`: a value for each level.
abbrev pub FeeLevelsArray : Type 0 → Type 0
FeeLevelsArray A = ℕ → A

unfoldable pub set_level : {A : Type 0} → FeeLevelsArray A → ℕ → A → FeeLevelsArray A
set_level levels i a j = if nat_beq i j then a else levels j

pub tick_beq_iff : (s t : Tick) → (beq_ℤ s.index t.index ≡ true) ↔ (s ≡ t)
tick_beq_iff s t = (
  λ h. let e : s.index ≡ t.index = eq_of_parts s.index t.index (ground arith) in cc,
  λ h. let e : s.index ≡ t.index = ap (λ (u : Tick). u.index) h in rw e (ground arith),
)

instance abbrev pub tick_eq : Eq Tick
tick_eq = record { equal = λ s t. beq_ℤ s.index t.index; equal_iff = tick_beq_iff }

pub record TickState : Type 0 where
  pub net_liquidity_change : ℤ
  pub reference_counter : ℕ
  pub acc_lp_fees_per_fee_liquidity_outside : ℤ × ℤ

pub record Position (F : Type 0) : Type 0 where
  pub fee_level : ℕ
  pub net_liquidity : ℕ
  pub init_acc_lp_fees_per_fee_liquidity : ℤ × ℤ
  pub unwithdrawn_acc_lp_fees_per_fee_liquidity : ℤ × ℤ
  pub init_sqrtprice : F
  pub tick_bounds : Tick × Tick

pub record Pool (F : Type 0) : Type 0 where
  pub positions : List (ℕ × Position F)
  pub tick_states : FeeLevelsArray (List (Tick × TickState))
  pub total_reserves : ℕ × ℕ
  pub position_reserves : FeeLevelsArray (ℕ × ℕ)
  pub acc_lp_fee : ℕ × ℕ
  pub acc_lp_fees_per_fee_liquidity : FeeLevelsArray (ℤ × ℤ)
  pub eff_sqrtprices : FeeLevelsArray (F × F)
  pub next_active_ticks_left : FeeLevelsArray (Option Tick)
  pub next_active_ticks_right : FeeLevelsArray (Option Tick)
  pub net_liquidities : FeeLevelsArray ℕ
  pub top_active_level : ℕ
  pub active_side : Side
  pub pivot : EffTick
