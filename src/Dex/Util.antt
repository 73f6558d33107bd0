-- ===== src/Dex/Util.antt =====
-- veax/dex/src/dex/util_types.rs, utils.rs and chain/pairs.rs: pairs, sides and pool identifiers.
-- A token identifier is a number here: the code only compares identifiers, by their total order.
pub mod Pools
use veax.Base.{
  ℕ, Bool, true, false, not, Option, none, some, List, [], ◌∷◌, ltb, nat_beq, if◌then◌else◌, ◌^◌,
  ◌-◌,
}
use veax.Base.Int.{ℤ, pos, negsuc, neg, beq_ℤ}
use veax.Dex.Side.{Side, left, right}
use veax.Errors.{Outcome, ok, err, ◌>>=◌, ◌>>◌, ensure_here, ErrorKind}

abbrev pub TokenId : Type 0
TokenId = ℕ

pub data Exact : Type 0 where
  in_amount : Exact
  out_amount : Exact

unfoldable pub swap_if : {A : Type 0} → Bool → A × A → A × A
swap_if condition pair = if condition then (pair.1, pair.0) else pair

-- `Exact::opposite`
unfoldable pub opposite : Exact → Exact
opposite in_amount = out_amount
opposite out_amount = in_amount

pub record PoolId : Type 0 where
  pub pair : TokenId × TokenId

unfoldable pub try_from_pair : TokenId × TokenId → Outcome (PoolId × Bool)
unfolding swap_if
try_from_pair pair = do
  ensure_here (not (nat_beq pair.0 pair.1)) ErrorKind.token_duplicates
  let swapped = ltb pair.0 pair.1
  ok (record { pair = swap_if swapped pair }, swapped)

unfoldable pub side : PoolId → TokenId → Side
side id input_token = if nat_beq input_token (id.pair).0 then left else right

-- `Range<WasmAmount>`
pub record Range : Type 0 where
  pub min : ℕ
  pub max : ℕ

pub record PositionInit : Type 0 where
  pub amount_ranges : Range × Range
  pub ticks_range : Option ℤ × Option ℤ

-- `i32::saturating_neg`
unfoldable pub saturating_neg : ℤ → ℤ
saturating_neg a = if beq_ℤ a (negsuc (2 ^ 31 - 1)) then pos (2 ^ 31 - 1) else neg a

abbrev pub map_option : {A B : Type 0} → (A → B) → Option A → Option B
map_option f none = none
map_option f (some a) = some (f a)

unfoldable pub new_full_range : ℕ → ℕ → ℕ → ℕ → PositionInit
new_full_range min_a max_a min_b max_b = record {
  amount_ranges = (record { min = min_a; max = max_a }, record { min = min_b; max = max_b });
  ticks_range = (none, none);
}

unfoldable pub transpose_if : PositionInit → Bool → PositionInit
unfolding swap_if
transpose_if init transposed = record {
  amount_ranges = swap_if transposed init.amount_ranges;
  ticks_range =
      if transposed
      then (
        map_option saturating_neg (init.ticks_range).1,
        map_option saturating_neg (init.ticks_range).0,
      )
      else init.ticks_range;
}

-- `Option::min_some`: the smaller of the values that are there.
unfoldable pub min_some : Option ℕ → Option ℕ → Option ℕ
min_some a none = a
min_some none (some b) = some b
min_some (some a) (some b) = if ltb b a then some b else some a
