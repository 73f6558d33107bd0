-- ===== src/Dex/Pool/Crossing.antt =====
-- v0/pool_state_ex.rs, `tick_crossing`: the price passes ticks, in the direction of a swap.
use veax.Base.{ℕ, ◌+◌, Option, none, some, List, [], ◌∷◌}
use veax.Base.Int.{ℤ, pos, negsuc, neg, ◌-ℤ◌}
use veax.Maps.Entries.{lookup, put}
use veax.Dex.Tick.{Tick}
use veax.Dex.Side.{Side, left, right}
use veax.Dex.Pool.{
  Pool, TickState, tick_eq, signed_words, add_words, sub_words, set_level, at_level,
}
use veax.Dex.Pool.Ticks.{find_next_active_tick_on_level}
use veax.Dex.Pool.Fees.{acc_lp_fees_per_fee_liquidity}
use veax.Errors.{Outcome, ok, ◌>>=◌}

-- The change of liquidity where the price passes a tick.
unfoldable pub directed_change : Side → TickState → ℤ
directed_change left s = s.net_liquidity_change
directed_change right s = neg s.net_liquidity_change

-- `+=` of a positive change, `-=` of the magnitude of a negative one.
unfoldable pub apply_change : ℕ → ℤ → Outcome ℕ
apply_change liquidity (pos n) = add_words 256 liquidity n
apply_change liquidity (negsuc n) = sub_words liquidity (n + 1)

-- The fees outside a tick are those on its other side once the price has passed.
unfoldable pub flip_outside : ℤ × ℤ → TickState → Outcome TickState
flip_outside acc s =
    let outside = s.acc_lp_fees_per_fee_liquidity_outside in
    signed_words (acc.0 -ℤ outside.0) >>= λ l. signed_words (acc.1 -ℤ outside.1) >>= λ r.
    ok (record s { acc_lp_fees_per_fee_liquidity_outside = (l, r) })

module _ {F : Type 0} where
  unfoldable pub with_crossed : Pool F → ℕ → Tick → ℕ → TickState → Pool F
  with_crossed p level tick liquidity flipped = record p {
    net_liquidities = set_level p.net_liquidities level liquidity;
    tick_states = set_level p.tick_states level (put tick flipped (p.tick_states level));
  }

  -- The closure that updates a tick, with the liquidity of the level.
  unfoldable pub cross_state : Pool F → ℕ → Tick → Side → ℤ × ℤ → TickState → Outcome (Pool F)
  unfolding directed_change apply_change flip_outside with_crossed
  cross_state p level tick swap_direction acc s =
      apply_change (p.net_liquidities level) (directed_change swap_direction s) >>= λ liquidity.
      flip_outside acc s >>= λ flipped. ok (with_crossed p level tick liquidity flipped)

  -- `tick_states[level].update`: a tick that is not there changes nothing.
  unfoldable pub cross_entry :
      Pool F → ℕ → Tick → Side → ℤ × ℤ → Option TickState → Outcome (Pool F)
  unfolding cross_state
  cross_entry p level tick swap_direction acc none = ok p
  cross_entry p level tick swap_direction acc (some s) =
      cross_state p level tick swap_direction acc s

  unfoldable pub advance : Pool F → ℕ → Tick → Side → Pool F
  unfolding find_next_active_tick_on_level
  advance p level tick left = record p {
    next_active_ticks_right =
        set_level p.next_active_ticks_right level (p.next_active_ticks_left level);
    next_active_ticks_left =
        set_level p.next_active_ticks_left level (find_next_active_tick_on_level p tick level left);
  }
  advance p level tick right = record p {
    next_active_ticks_left =
        set_level p.next_active_ticks_left level (p.next_active_ticks_right level);
    next_active_ticks_right =
        set_level p.next_active_ticks_right level
          (find_next_active_tick_on_level p tick level right);
  }

  unfoldable pub cross_tick : Pool F → ℕ → Tick → Side → Outcome (Pool F)
  unfolding acc_lp_fees_per_fee_liquidity cross_entry advance
  cross_tick p level tick swap_direction = acc_lp_fees_per_fee_liquidity p level >>= λ acc.
      at_level level (
        cross_entry p level tick swap_direction acc (lookup tick (p.tick_states level)) >>= λ q.
        ok (advance q level tick swap_direction))

  unfoldable pub tick_crossing : Pool F → List (ℕ × Tick) → Side → Outcome (Pool F)
  unfolding cross_tick
  tick_crossing p [] swap_direction = ok p
  tick_crossing p ((level, tick) ∷ crossed) swap_direction =
      cross_tick p level tick swap_direction >>= λ q. tick_crossing q crossed swap_direction
