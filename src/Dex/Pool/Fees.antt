-- ===== src/Dex/Pool/Fees.antt =====
-- v0/pool_state_ex.rs: the fee of a range per fee liquidity, from the fees outside its two ticks.
use veax.Base.{ℕ, suc, zero, ◌+◌, ◌-◌, Option, none, some, ltb, if◌then◌else◌}
use veax.Base.Int.{ℤ, pos, ◌+ℤ◌, ◌-ℤ◌}
use veax.Maps.Entries.{lookup}
use veax.Dex.Tick.{Tick}
use veax.Dex.Side.{Side, left, right, index}
use veax.Dex.Pool.{
  Pool, TickState, tick_eq, FeeLevelsArray, signed_words, num_fee_levels, set_level,
}
use veax.Dex.Pool.Ticks.{Ordering, less, equal, greater, cmp_spot_price_to_position_range}
use veax.Errors.{Outcome, ok, panicked, ◌>>=◌}

-- `unwrap_or_default` of the fees outside a tick: zero for a tick that is not there.
abbrev pub outside_of : Option TickState → ℤ × ℤ
outside_of none = (pos 0, pos 0)
outside_of (some s) = s.acc_lp_fees_per_fee_liquidity_outside

-- The sum over `rounds` levels from `fee_level`, from the sum so far.
unfoldable pub sum_levels : FeeLevelsArray (ℤ × ℤ) → Side → ℕ → ℕ → ℤ → Outcome ℤ
unfolding index
sum_levels levels side zero fee_level total = ok total
sum_levels levels side (suc rounds) fee_level total =
    signed_words (total +ℤ index (levels fee_level) side) >>= λ next.
    sum_levels levels side rounds (fee_level + 1) next

-- One side of the match on where the price stands: the global fees are read where the range holds
-- the price.
unfoldable pub range_fee : Outcome ℤ → ℤ → ℤ → Ordering → Outcome ℤ
range_fee global lower upper equal =
    global >>= λ g. signed_words (g -ℤ lower) >>= λ d. signed_words (d -ℤ upper)
range_fee global lower upper less = signed_words (lower -ℤ upper)
range_fee global lower upper greater = signed_words (upper -ℤ lower)

module _ {F : Type 0} where
  -- The levels from `fee_level` to the last; the slice panics past the end.
  unfoldable pub acc_lp_fee_per_fee_liquidity : Pool F → Side → ℕ → Outcome ℤ
  unfolding sum_levels
  acc_lp_fee_per_fee_liquidity p side fee_level =
      if ltb num_fee_levels fee_level
      then panicked
      else sum_levels p.acc_lp_fees_per_fee_liquidity side (num_fee_levels - fee_level) fee_level
          (pos 0)

  unfoldable pub acc_lp_fees_per_fee_liquidity : Pool F → ℕ → Outcome (ℤ × ℤ)
  unfolding acc_lp_fee_per_fee_liquidity
  acc_lp_fees_per_fee_liquidity p fee_level = acc_lp_fee_per_fee_liquidity p left fee_level >>= λ l.
      acc_lp_fee_per_fee_liquidity p right fee_level >>= λ r. ok (l, r)

  -- `+=` into the level on which the swap stood.
  unfoldable pub accumulate_lp_fee_per_fee_liquidity : Pool F → Side → ℕ → ℤ → Outcome (Pool F)
  accumulate_lp_fee_per_fee_liquidity p left top_active_level fee =
      let old = p.acc_lp_fees_per_fee_liquidity top_active_level in
      signed_words (old.0 +ℤ fee) >>= λ sum. ok (record p {
        acc_lp_fees_per_fee_liquidity =
            set_level p.acc_lp_fees_per_fee_liquidity top_active_level (sum, old.1);
      })
  accumulate_lp_fee_per_fee_liquidity p right top_active_level fee =
      let old = p.acc_lp_fees_per_fee_liquidity top_active_level in
      signed_words (old.1 +ℤ fee) >>= λ sum. ok (record p {
        acc_lp_fees_per_fee_liquidity =
            set_level p.acc_lp_fees_per_fee_liquidity top_active_level (old.0, sum);
      })

  unfoldable pub acc_range_lp_fees_per_fee_liquidity : Pool F → ℕ → Tick × Tick → Outcome (ℤ × ℤ)
  unfolding range_fee acc_lp_fee_per_fee_liquidity cmp_spot_price_to_position_range
  acc_range_lp_fees_per_fee_liquidity p fee_level tick_bounds =
      let lower = outside_of (lookup (tick_bounds.0) (p.tick_states fee_level)) in
      let upper = outside_of (lookup (tick_bounds.1) (p.tick_states fee_level)) in
      cmp_spot_price_to_position_range p fee_level tick_bounds >>= λ place.
      range_fee (acc_lp_fee_per_fee_liquidity p left fee_level) lower.0 upper.0 place >>= λ l.
      range_fee (acc_lp_fee_per_fee_liquidity p right fee_level) lower.1 upper.1 place >>= λ r.
      ok (l, r)
