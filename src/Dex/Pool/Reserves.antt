-- ===== src/Dex/Pool/Reserves.antt =====
-- v0/pool_state_ex.rs: the reserves of a pool, the rewards of positions and what is paid out of them.
-- `AmountUFP` has 256 bits of fraction, `Liquidity` 64 and `LPFeePerFeeLiquidity` 128.
use veax.Base.{ℕ, zero, suc, ◌+◌, ◌*◌, ◌/◌, ◌^◌, Bool, false, ltb, if◌then◌else◌}
use veax.Base.Eq.{nat_eq}
use veax.Base.Int.{ℤ, pos, pos_part, neg_part, ◌-ℤ◌, leb_ℤ}
use veax.Maps.Entries.{lookup, put}
use veax.Dex.Pool.{
  Pool, Position, FeeLevelsArray, add_words, sub_words, signed_words, num_fee_levels,
}
use veax.Dex.Pool.Fees.{acc_range_lp_fees_per_fee_liquidity}
use veax.Errors.{Outcome, ok, err, panicked, ◌>>=◌, ◌>>◌, ensure_here, ok_or, ErrorKind}

abbrev pub scale : ℕ
scale = 2 ^ 256

-- `Amount::try_from` of an `AmountUFP`: the integer part, where it is an amount.
abbrev pub amount_of : ℕ → Outcome ℕ
amount_of words =
    if ltb (words / scale) (2 ^ 128) then ok (words / scale) else err ErrorKind.conv_overflow

-- `floor`
abbrev pub floor_words : ℕ → ℕ
floor_words words = words / scale * scale

-- A product of two `AmountUFP`.
abbrev pub mul_amounts : ℕ → ℕ → Outcome ℕ
mul_amounts a b = if ltb (a * b / scale) (2 ^ 512) then ok (a * b / scale) else panicked

-- The loop of `sum_position_reserves` over the levels, from the sum so far.
unfoldable pub sum_reserves : FeeLevelsArray (ℕ × ℕ) → ℕ → ℕ → ℕ × ℕ → Outcome (ℕ × ℕ)
sum_reserves reserves zero level amounts = ok amounts
sum_reserves reserves (suc rounds) level amounts =
    add_words 512 amounts.0 (reserves level).0 >>= λ l.
    add_words 512 amounts.1 (reserves level).1 >>= λ r.
    sum_reserves reserves rounds (level + 1) (l, r)

-- What the protocol takes of one token: the whole amounts that neither positions nor rewards need.
unfoldable pub payout : ℕ → ℕ → ℕ → Outcome ℕ
payout total position_reserves acc_lp_fee = do
  rest ← sub_words (total * scale) position_reserves
  free ← sub_words rest acc_lp_fee
  amount_of (floor_words free)

-- The reward of one token for a difference of fees per liquidity.
unfoldable pub reward_of : ℕ → ℤ → Outcome ℕ
reward_of fee_liquidity diff =
    mul_amounts (fee_liquidity * 2 ^ 64) ((pos_part diff + neg_part diff) * 2 ^ 128)

module _ {F : Type 0} where
  unfoldable pub sum_position_reserves : Pool F → Outcome (ℕ × ℕ)
  unfolding sum_reserves
  sum_position_reserves p = sum_reserves p.position_reserves num_fee_levels 0 (0, 0)

  unfoldable pub withdraw_protocol_fee : Pool F → Outcome (Pool F × (ℕ × ℕ))
  unfolding sum_position_reserves payout
  withdraw_protocol_fee p = do
    sums ← sum_position_reserves p
    payout_x ← payout (p.total_reserves.0) sums.0 (p.acc_lp_fee.0)
    payout_y ← payout (p.total_reserves.1) sums.1 (p.acc_lp_fee.1)
    left ← sub_words (p.total_reserves.0) payout_x
    right ← sub_words (p.total_reserves.1) payout_y
    ok (record p { total_reserves = (left, right) }, (payout_x, payout_y))

  -- The closure that pays a reward out and marks it as withdrawn.
  unfoldable pub pay_reward : Pool F → ℕ → Position F → ℤ × ℤ → ℕ × ℕ → ℕ × ℕ → Outcome (Pool F)
  pay_reward p id position acc reward_ufp reward = do
    total_l ← sub_words (p.total_reserves.0) reward.0
    total_r ← sub_words (p.total_reserves.1) reward.1
    fee_l ← sub_words (p.acc_lp_fee.0) reward_ufp.0
    fee_r ← sub_words (p.acc_lp_fee.1) reward_ufp.1
    ok (record p {
      total_reserves = (total_l, total_r);
      acc_lp_fee = (fee_l, fee_r);
      positions =
          put id (record position { unwithdrawn_acc_lp_fees_per_fee_liquidity = acc }) p.positions;
    })

-- `fee_rate_words` gives the words of fee_rate / (1 - fee_rate) of a level in `FeeLiquidityUFP`, which
-- the code computes in floating point.
module _ (fee_rate_words : ℕ → ℕ) where
  -- `fee_liquidity_from_net_liquidity`: `Liquidity` has 128 bits of fraction less than `FeeLiquidityUFP`.
  unfoldable pub fee_liquidity_from_net_liquidity : ℕ → ℕ → Outcome ℕ
  fee_liquidity_from_net_liquidity net_liquidity fee_level =
      let words = net_liquidity * 2 ^ 128 * fee_rate_words fee_level / 2 ^ 192 in
      if ltb words (2 ^ 384) then ok words else panicked

  module _ {F : Type 0} where
    unfoldable pub position_reward_ufp : Pool F → Position F → Bool → Outcome (ℕ × ℕ)
    unfolding acc_range_lp_fees_per_fee_liquidity fee_liquidity_from_net_liquidity reward_of
    position_reward_ufp p position since_creation = do
      acc ← acc_range_lp_fees_per_fee_liquidity p position.fee_level position.tick_bounds
      let initial =
          if since_creation
          then position.init_acc_lp_fees_per_fee_liquidity
          else position.unwithdrawn_acc_lp_fees_per_fee_liquidity
      diff_l ← signed_words (acc.0 -ℤ initial.0)
      diff_r ← signed_words (acc.1 -ℤ initial.1)
      ensure_here (leb_ℤ (pos 0) diff_l) ErrorKind.internal_logic_error
      ensure_here (leb_ℤ (pos 0) diff_r) ErrorKind.internal_logic_error
      fee_liquidity ← fee_liquidity_from_net_liquidity position.net_liquidity position.fee_level
      l ← reward_of fee_liquidity diff_l
      r ← reward_of fee_liquidity diff_r
      ok (l, r)

    unfoldable pub withdraw_fee_of : Pool F → ℕ → Position F → Outcome (Pool F × (ℕ × ℕ))
    unfolding acc_range_lp_fees_per_fee_liquidity position_reward_ufp pay_reward
    withdraw_fee_of p id position = do
      acc ← acc_range_lp_fees_per_fee_liquidity p position.fee_level position.tick_bounds
      reward_ufp ← position_reward_ufp p position false
      reward_l ← amount_of reward_ufp.0
      reward_r ← amount_of reward_ufp.1
      q ← pay_reward p id position acc reward_ufp (reward_l, reward_r)
      ok (q, (reward_l, reward_r))

    unfoldable pub withdraw_fee : Pool F → ℕ → Outcome (Pool F × (ℕ × ℕ))
    unfolding withdraw_fee_of
    withdraw_fee p position_id =
        ok_or (lookup position_id p.positions) ErrorKind.position_does_not_exist >>= λ position.
        withdraw_fee_of p position_id position
