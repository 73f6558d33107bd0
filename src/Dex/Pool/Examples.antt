-- ===== src/Dex/Pool/Examples.antt =====
-- A pool with two positions on one fee level, and the theorems on it.
use veax.Base.{
  ℕ, ◌+◌, ◌*◌, ◌/◌, ◌^◌, ◌≡◌, refl, true, false, some, List, [], ◌∷◌, arith, ltb, leb, ◌-◌,
}
use veax.Base.Int.{ℤ, pos, negsuc, ◌+ℤ◌, ◌-ℤ◌, pos_part, neg_part}
use veax.Dex.Tick.{Tick}
use veax.Dex.Side.{Side, left, right}
use veax.Dex.Pool.{Pool, Position, TickState, tick_eq, set_level}
use veax.Dex.Pool.Ticks.{cmp_spot_price_to_position_range}
use veax.Dex.Pool.Fees.{
  sum_levels, acc_lp_fee_per_fee_liquidity, acc_lp_fees_per_fee_liquidity,
  acc_range_lp_fees_per_fee_liquidity,
}
use veax.Dex.Pool.Crossing.{cross_tick}
use veax.Dex.Pool.Reserves.{sum_reserves, scale, withdraw_protocol_fee, withdraw_fee}
use veax.Dex.Pool.Placed.{IsPlaced}
use veax.Dex.Pool.Crossed.{cross_tick-IsPlaced}
use veax.Dex.Pool.CrossedFees.{cross_tick-range}
use veax.Dex.Pool.Ranges.{
  place_of, fees_below, acc_range-fees_below, cmp_spot_price_to_position_range-place_of,
}
use veax.Dex.Pool.Solvency.{IsSolvent, withdraw_protocol_fee-IsSolvent}
use veax.Dex.Pool.Withdrawals.{withdraw_fee-twice, withdraw_fee-IsSolvent}
use veax.Dex.Pool.Closing.{Prices, withdraw_fee_and_close_position}
use veax.Dex.Pool.Closed.{withdraw_fee_and_close_position-IsSolvent}
use veax.Errors.{Outcome, ok, or_else}

abbrev tick : ℤ → Tick
tick i = record { index = i }

abbrev low : Tick
low = tick (negsuc 9)

abbrev middle : Tick
middle = tick (pos 10)

abbrev high : Tick
high = tick (pos 30)

abbrev state : ℤ → ℕ → ℤ → ℤ → TickState
state change count l r = record {
  net_liquidity_change = change;
  reference_counter = count;
  acc_lp_fees_per_fee_liquidity_outside = (l, r);
}

abbrev states : List (Tick × TickState)
states =
    (low, state (pos (500 * 2 ^ 64)) 2 (pos 3) (pos 4))
    ∷ (high, state (negsuc (70 * 2 ^ 64 - 1)) 1 (pos 0) (pos 0))
    ∷ (middle, state (negsuc (430 * 2 ^ 64 - 1)) 1 (pos 1) (pos 2))
    ∷ []

abbrev position : Position ℕ
position = record {
  fee_level = 1;
  net_liquidity = 430 * 2 ^ 64;
  init_acc_lp_fees_per_fee_liquidity = (pos 0, pos 0);
  unwithdrawn_acc_lp_fees_per_fee_liquidity = (pos 10, pos 1);
  init_sqrtprice = 0;
  tick_bounds = (low, middle);
}

abbrev other_position : Position ℕ
other_position = record position { net_liquidity = 70 * 2 ^ 64; tick_bounds = (low, high) }

-- The price of every level stands between the ticks `low` and `middle`.
abbrev pool : Pool ℕ
pool = record {
  positions = (7, position) ∷ (8, other_position) ∷ [];
  tick_states = λ _. states;
  total_reserves = (1000, 2000);
  position_reserves = λ _. (100 * scale, 200 * scale + 1);
  acc_lp_fee = (50 * scale, 60 * scale);
  acc_lp_fees_per_fee_liquidity = λ _. (pos (2 ^ 128), pos 20);
  eff_sqrtprices = λ _. (100 * 2 ^ 248, 100 * 2 ^ 248);
  next_active_ticks_left = λ _. some middle;
  next_active_ticks_right = λ _. some low;
  net_liquidities = λ _. 500 * 2 ^ 64;
  top_active_level = 0;
  active_side = left;
  pivot = record { index = pos 0 };
}

pool-IsPlaced : IsPlaced pool 1
unfolding ◌+ℤ◌
pool-IsPlaced = record {
  unique = refl;
  sided = λ t h. ground arith;
  above_there = λ t h. let e : middle ≡ t = ground arith in rw (← e) refl;
  below_there = λ t h. let e : low ≡ t = ground arith in rw (← e) refl;
  liquid = refl;
}

abbrev crossed : Pool ℕ
unfolding cross_tick acc_lp_fees_per_fee_liquidity set_level
crossed = or_else pool (cross_tick pool 1 middle left)

pool-crossed : cross_tick pool 1 middle left ≡ ok crossed
unfolding cross_tick acc_lp_fees_per_fee_liquidity acc_lp_fee_per_fee_liquidity sum_levels set_level
    ◌+ℤ◌ ◌-ℤ◌
pool-crossed = refl

crossed_liquidity : crossed.net_liquidities 1 ≡ 70 * 2 ^ 64
unfolding cross_tick acc_lp_fees_per_fee_liquidity set_level ◌+ℤ◌ ◌-ℤ◌
crossed_liquidity = refl

cross_tick-IsPlaced_example : IsPlaced crossed 1
cross_tick-IsPlaced_example =
    cross_tick-IsPlaced pool crossed 1 middle left 1 refl pool-IsPlaced pool-IsPlaced pool-crossed

abbrev none_of : Outcome (ℤ × ℤ) → ℤ × ℤ
none_of o = or_else (pos 0, pos 0) o

abbrev global : ℤ × ℤ
unfolding acc_lp_fees_per_fee_liquidity
global = none_of (acc_lp_fees_per_fee_liquidity pool 1)

abbrev range_fees : ℤ × ℤ
unfolding acc_range_lp_fees_per_fee_liquidity
range_fees = none_of (acc_range_lp_fees_per_fee_liquidity pool 1 (low, middle))

pool-global : acc_lp_fees_per_fee_liquidity pool 1 ≡ ok global
unfolding acc_lp_fees_per_fee_liquidity acc_lp_fee_per_fee_liquidity sum_levels ◌+ℤ◌
pool-global = refl

pool-range : acc_range_lp_fees_per_fee_liquidity pool 1 (low, middle) ≡ ok range_fees
unfolding acc_range_lp_fees_per_fee_liquidity acc_lp_fee_per_fee_liquidity sum_levels ◌+ℤ◌ ◌-ℤ◌
pool-range = refl

abbrev crossed_fees : ℤ × ℤ
unfolding acc_range_lp_fees_per_fee_liquidity
crossed_fees = none_of (acc_range_lp_fees_per_fee_liquidity crossed 1 (low, middle))

crossed-range : acc_range_lp_fees_per_fee_liquidity crossed 1 (low, middle) ≡ ok crossed_fees
unfolding acc_range_lp_fees_per_fee_liquidity acc_lp_fee_per_fee_liquidity sum_levels cross_tick
    acc_lp_fees_per_fee_liquidity set_level ◌+ℤ◌ ◌-ℤ◌
crossed-range = refl

acc_range-fees_below_example :
    (range_fees.0 ≡ (fees_below pool 1 global middle).0 -ℤ (fees_below pool 1 global low).0)
    × (range_fees.1 ≡ (fees_below pool 1 global middle).1 -ℤ (fees_below pool 1 global low).1)
acc_range-fees_below_example =
    acc_range-fees_below pool 1 low middle global range_fees refl pool-IsPlaced refl refl refl
      pool-global pool-range

cmp_spot_price_to_position_range-place_of_example :
    cmp_spot_price_to_position_range pool 1 (low, middle) ≡ ok (place_of true false)
cmp_spot_price_to_position_range-place_of_example =
    cmp_spot_price_to_position_range-place_of pool 1 low middle refl pool-IsPlaced refl refl refl

cross_tick-range_example : crossed_fees ≡ range_fees
cross_tick-range_example =
    cross_tick-range pool crossed 1 middle left low middle range_fees crossed_fees refl refl
      pool-IsPlaced pool-crossed refl refl refl pool-range crossed-range

pool-IsSolvent : IsSolvent pool
pool-IsSolvent = omega arith

abbrev result_of : Outcome (Pool ℕ × (ℕ × ℕ)) → Pool ℕ × (ℕ × ℕ)
result_of o = or_else (pool, (0, 0)) o

abbrev after_protocol : Pool ℕ × (ℕ × ℕ)
unfolding withdraw_protocol_fee
after_protocol = result_of (withdraw_protocol_fee pool)

pool-protocol : withdraw_protocol_fee pool ≡ ok (after_protocol.0, after_protocol.1)
unfolding withdraw_protocol_fee sum_reserves
pool-protocol = refl

-- The whole amounts that remain beside eight levels of positions and the rewards.
protocol_paid : after_protocol.1 ≡ (150, 339)
unfolding withdraw_protocol_fee sum_reserves
protocol_paid = refl

withdraw_protocol_fee-IsSolvent_example :
    IsSolvent after_protocol.0
    × (after_protocol.0.total_reserves.0 + after_protocol.1.0 ≡ 1000)
    × (after_protocol.0.total_reserves.1 + after_protocol.1.1 ≡ 2000)
    × (withdraw_protocol_fee after_protocol.0 ≡ ok (after_protocol.0, (0, 0)))
withdraw_protocol_fee-IsSolvent_example =
    withdraw_protocol_fee-IsSolvent pool after_protocol.0 after_protocol.1 pool-protocol

-- fee_rate / (1 - fee_rate) at each level.
abbrev rates : ℕ → ℕ
rates level = 2 ^ 192 / 100

abbrev after_fee : Pool ℕ × (ℕ × ℕ)
unfolding withdraw_fee
after_fee = result_of (withdraw_fee rates pool 7)

pool-fee : withdraw_fee rates pool 7 ≡ ok (after_fee.0, after_fee.1)
unfolding withdraw_fee acc_lp_fee_per_fee_liquidity sum_levels ◌+ℤ◌ ◌-ℤ◌
pool-fee = refl

fee_paid : after_fee.1 ≡ (30, 0)
unfolding withdraw_fee acc_lp_fee_per_fee_liquidity sum_levels ◌+ℤ◌ ◌-ℤ◌
fee_paid = refl

withdraw_fee-twice_example : withdraw_fee rates after_fee.0 7 ≡ ok (after_fee.0, (0, 0))
withdraw_fee-twice_example = withdraw_fee-twice rates pool after_fee.0 7 after_fee.1 pool-fee

withdraw_fee-IsSolvent_example :
    IsSolvent after_fee.0
    × (after_fee.0.total_reserves.0 + after_fee.1.0 ≡ 1000)
    × (after_fee.0.total_reserves.1 + after_fee.1.1 ≡ 2000)
withdraw_fee-IsSolvent_example =
    withdraw_fee-IsSolvent rates pool after_fee.0 7 after_fee.1 pool-IsSolvent pool-fee

-- A square root of the price that is linear in the index of a tick, in words of `AmountUFP`.
abbrev sqrtprice : Tick → ℕ → Side → ℕ
sqrtprice t level left = (100 + pos_part t.index - neg_part t.index) * 2 ^ 248
sqrtprice t level right = (100 + neg_part t.index - pos_part t.index) * 2 ^ 248

abbrev prices : Prices
prices = record {
  F = ℕ;
  zero_price = 0;
  le = leb;
  lt = ltb;
  words_of = ok;
  tick_sqrtprice = sqrtprice;
}

abbrev after_close : Pool ℕ × ((ℕ × ℕ) × (ℕ × ℕ))
unfolding withdraw_fee_and_close_position
after_close = or_else (pool, ((0, 0), (0, 0))) (withdraw_fee_and_close_position prices rates pool 7)

pool-close :
    withdraw_fee_and_close_position prices rates pool 7
    ≡ ok (after_close.0, (after_close.1.0, after_close.1.1))
unfolding withdraw_fee_and_close_position acc_lp_fee_per_fee_liquidity sum_levels ◌+ℤ◌ ◌-ℤ◌
    set_level
pool-close = refl

close_paid : after_close.1 ≡ ((30, 0), (16, 16))
unfolding withdraw_fee_and_close_position acc_lp_fee_per_fee_liquidity sum_levels ◌+ℤ◌ ◌-ℤ◌
    set_level
close_paid = refl

close_liquidity : after_close.0.net_liquidities 1 ≡ 70 * 2 ^ 64
unfolding withdraw_fee_and_close_position acc_lp_fee_per_fee_liquidity sum_levels ◌+ℤ◌ ◌-ℤ◌
    set_level
close_liquidity = refl

close_next : after_close.0.next_active_ticks_left 1 ≡ some high
unfolding withdraw_fee_and_close_position acc_lp_fee_per_fee_liquidity sum_levels ◌+ℤ◌ ◌-ℤ◌
    set_level
close_next = refl

withdraw_fee_and_close_position-IsSolvent_example :
    IsSolvent after_close.0
    × (after_close.0.total_reserves.0 + after_close.1.1.0 + after_close.1.0.0 ≡ 1000)
    × (after_close.0.total_reserves.1 + after_close.1.1.1 + after_close.1.0.1 ≡ 2000)
withdraw_fee_and_close_position-IsSolvent_example =
    withdraw_fee_and_close_position-IsSolvent prices rates pool after_close.0 7 after_close.1.0
      after_close.1.1 pool-IsSolvent pool-close
