-- ===== src/Dex/Pool/Closing.antt =====
-- v0/pool_state_ex.rs, `withdraw_fee_and_close_position`, and v0/position_state_ex.rs: a position is
-- paid out and its ticks are released.
use veax.Base.{
  ℕ, zero, suc, ◌+◌, ◌*◌, ◌^◌, Bool, true, false, not, Option, none, some, List, [], ◌∷◌, nat_beq,
  if◌then◌else◌,
}
use veax.Base.Eq.{◌==◌, nat_eq}
use veax.Base.Int.{pos, ◌+ℤ◌, ◌-ℤ◌}
use veax.Maps.Entries.{lookup, has, put, erase}
use veax.Dex.Tick.{Tick}
use veax.Dex.Side.{Side, left, right}
use veax.Dex.Pool.{
  Pool, Position, TickState, tick_eq, FeeLevelsArray, set_level, at_level, sub_words, signed_words,
  num_fee_levels,
}
use veax.Dex.Pool.Ticks.{
  Ordering, less, equal, greater, cmp_spot_price_to_position_range, find_next_active_tick_on_level,
}
use veax.Dex.Pool.Reserves.{mul_amounts, amount_of, withdraw_fee}
use veax.Errors.{Outcome, ok, ◌>>=◌, ◌>>◌, ensure_here, ok_or, ErrorKind}

-- `Float`, as far as a position's balance uses it: zero, its order, the conversion to `AmountUFP`, and
-- the square root of the effective price at a tick.
pub record Prices : Type 1 where
  pub F : Type 0
  pub zero_price : F
  pub le : F → F → Bool
  pub lt : F → F → Bool
  pub words_of : F → Outcome ℕ
  pub tick_sqrtprice : Tick → ℕ → Side → F

-- Whether a level of the next `rounds` has a tick.
unfoldable pub any_ticks : FeeLevelsArray (List (Tick × TickState)) → ℕ → ℕ → Bool
any_ticks states zero level = false
any_ticks states (suc rounds) level = elim (states level) [
  | [] ↦ any_ticks states rounds (level + 1)
  | x ∷ xs ↦ true
]

-- `all(Option::is_none)` over the next `rounds` levels.
unfoldable pub all_none : FeeLevelsArray (Option Tick) → ℕ → ℕ → Bool
all_none ticks zero level = true
all_none ticks (suc rounds) level = elim (ticks level) [
  | none ↦ all_none ticks rounds (level + 1)
  | some t ↦ false
]

unfoldable pub is_next : Option Tick → Tick → Bool
is_next none tick = false
is_next (some t) tick = t == tick

module _ {F : Type 0} where
  unfoldable pub contains_any_positions : Pool F → Bool
  unfolding any_ticks
  contains_any_positions p = any_ticks p.tick_states num_fee_levels 0

  -- The position leaves the pool with its balance.
  unfoldable pub take_out : Pool F → ℕ → Position F → ℕ × ℕ → ℕ × ℕ → Outcome (Pool F)
  take_out p id position balance_ufp balance = do
    total_l ← sub_words (p.total_reserves.0) balance.0
    total_r ← sub_words (p.total_reserves.1) balance.1
    let level = position.fee_level
    held_l ← at_level level (sub_words ((p.position_reserves level).0) balance_ufp.0)
    held_r ← sub_words ((p.position_reserves level).1) balance_ufp.1
    ok (record p {
      positions = erase id p.positions;
      total_reserves = (total_l, total_r);
      position_reserves = set_level p.position_reserves level (held_l, held_r);
    })

  unfoldable pub reduce_where : Pool F → ℕ → ℕ → Ordering → Outcome (Pool F)
  reduce_where p level net_liquidity equal =
      sub_words (p.net_liquidities level) net_liquidity >>= λ rest.
      ok (record p { net_liquidities = set_level p.net_liquidities level rest })
  reduce_where p level net_liquidity less = ok p
  reduce_where p level net_liquidity greater = ok p

  -- The liquidity of the level loses the position's, where the range holds the price.
  unfoldable pub reduce_liquidity : Pool F → ℕ → Tick × Tick → ℕ → Outcome (Pool F)
  unfolding reduce_where
  reduce_liquidity p level ticks_range net_liquidity =
      cmp_spot_price_to_position_range p level ticks_range >>= λ place.
      reduce_where p level net_liquidity place

  -- A removed tick is not a next tick any more.
  unfoldable pub renew_next : Pool F → ℕ → Tick → Pool F
  unfolding is_next find_next_active_tick_on_level
  renew_next p level tick = record p {
    next_active_ticks_left =
        if is_next (p.next_active_ticks_left level) tick
        then set_level p.next_active_ticks_left level
            (find_next_active_tick_on_level p tick level left)
        else p.next_active_ticks_left;
    next_active_ticks_right =
        if is_next (p.next_active_ticks_right level) tick
        then set_level p.next_active_ticks_right level
            (find_next_active_tick_on_level p tick level right)
        else p.next_active_ticks_right;
  }

  unfoldable pub with_states : Pool F → ℕ → List (Tick × TickState) → Pool F
  with_states p level states = record p { tick_states = set_level p.tick_states level states }

  unfoldable pub remove_tick : Pool F → ℕ → Tick → Outcome (Pool F)
  unfolding renew_next with_states
  remove_tick p level tick =
      let q = with_states p level (erase tick (p.tick_states level)) in
      ensure_here (not (has tick (q.tick_states level))) ErrorKind.internal_tick_not_deleted
      >> ok (renew_next q level tick)

  unfoldable pub release_state : Pool F → ℕ → Tick → Bool → ℕ → TickState → Outcome (Pool F)
  unfolding remove_tick with_states
  release_state p level tick is_lower net_liquidity s = do
    change ← signed_words (
        if is_lower
        then s.net_liquidity_change -ℤ pos net_liquidity
        else s.net_liquidity_change +ℤ pos net_liquidity)
    count ← sub_words s.reference_counter 1
    let t = record s { net_liquidity_change = change; reference_counter = count }
    let q = with_states p level (put tick t (p.tick_states level))
    if nat_beq count 0 then remove_tick q level tick else ok q

  -- One round of the loop over the two ticks.
  unfoldable pub release_tick : Pool F → ℕ → Tick → Bool → ℕ → Outcome (Pool F)
  unfolding release_state
  release_tick p level tick is_lower net_liquidity =
      ok_or (lookup tick (p.tick_states level)) ErrorKind.internal_tick_not_found >>= λ s.
      release_state p level tick is_lower net_liquidity s

module _ (prices : Prices) where
  open prices use {F, zero_price, le, lt, words_of, tick_sqrtprice}

  -- One side of the loop: the balance at a price, between two bounds.
  unfoldable pub balance_between : ℕ → F → F → F → Outcome ℕ
  balance_between net_liquidity eff_sqrtprice lower_bound upper_bound =
      if le eff_sqrtprice lower_bound
      then ok 0
      else words_of lower_bound >>= λ low.
          words_of (if lt eff_sqrtprice upper_bound then eff_sqrtprice else upper_bound) >>= λ high.
          sub_words high low >>= λ d. mul_amounts (net_liquidity * 2 ^ 192) d

  unfoldable pub eval_position_balance_ufp : Pool F → Position F → Outcome (ℕ × ℕ)
  unfolding balance_between
  eval_position_balance_ufp p position =
      let level = position.fee_level in
      let low = position.tick_bounds.0 in
      let high = position.tick_bounds.1 in
      let price = p.eff_sqrtprices level in
      at_level level (
        balance_between position.net_liquidity price.0 (tick_sqrtprice low level left)
          (tick_sqrtprice high level left)
        >>= λ l.
            balance_between position.net_liquidity price.1 (tick_sqrtprice high level right)
              (tick_sqrtprice low level right)
            >>= λ r. ok (l, r))

  -- Where the last position is closed, the pool has no price any more.
  unfoldable pub reset_if_empty : Pool F → Outcome (Pool F)
  unfolding contains_any_positions all_none
  reset_if_empty p =
      if contains_any_positions p
      then ok p
      else ensure_here (all_none p.next_active_ticks_left num_fee_levels 0)
          ErrorKind.internal_logic_error
        >> (ensure_here (all_none p.next_active_ticks_right num_fee_levels 0)
              ErrorKind.internal_logic_error
            >> ok
                (record p { eff_sqrtprices = λ _. (zero_price, zero_price); top_active_level = 0 }))

  -- What follows once the balance is paid out.
  unfoldable pub release : Pool F → Position F → Outcome (Pool F)
  unfolding reduce_liquidity release_tick reset_if_empty
  release p position = do
    let level = position.fee_level
    let net = position.net_liquidity
    p1 ← reduce_liquidity p level position.tick_bounds net
    p2 ← release_tick p1 level position.tick_bounds.0 true net
    p3 ← release_tick p2 level position.tick_bounds.1 false net
    reset_if_empty p3

  unfoldable pub close_position : Pool F → ℕ → Position F → Outcome (Pool F × (ℕ × ℕ))
  unfolding eval_position_balance_ufp take_out release
  close_position p id position = do
    balance_ufp ← eval_position_balance_ufp p position
    balance_l ← amount_of balance_ufp.0
    balance_r ← amount_of balance_ufp.1
    q ← take_out p id position balance_ufp (balance_l, balance_r)
    r ← release q position
    ok (r, (balance_l, balance_r))

  unfoldable pub withdraw_fee_and_close_position :
      (ℕ → ℕ) → Pool F → ℕ → Outcome (Pool F × ((ℕ × ℕ) × (ℕ × ℕ)))
  unfolding withdraw_fee close_position
  withdraw_fee_and_close_position rates p position_id = withdraw_fee rates p position_id >>= λ paid.
      ok_or (lookup position_id paid.0.positions) ErrorKind.position_does_not_exist >>= λ position.
      close_position paid.0 position_id position >>= λ closed. ok (closed.0, (paid.1, closed.1))
