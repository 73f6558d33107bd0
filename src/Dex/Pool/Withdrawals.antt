-- ===== src/Dex/Pool/Withdrawals.antt =====
-- v0/pool_state_ex.rs: a withdrawal of fees keeps the pool solvent, and a second one pays nothing.
use veax.Base.{ℕ, ◌+◌, ◌≡◌, refl, ap, ◌∙◌, arith, some}
use veax.Base.Int.{ℤ, pos, ◌-ℤ◌, int_laws}
use veax.Base.Eq.{nat_eq, beq_refl}
use veax.Maps.Entries.{lookup, lookup-put, put-same}
use veax.Dex.Pool.{Pool, Position}
use veax.Dex.Pool.Ticks.{cmp_spot_price_to_position_range}
use veax.Dex.Pool.Fees.{acc_lp_fee_per_fee_liquidity, acc_range_lp_fees_per_fee_liquidity}
use veax.Dex.Pool.Reserves.{
  fee_liquidity_from_net_liquidity, reward_of, position_reward_ufp, pay_reward, withdraw_fee_of,
  withdraw_fee,
}
use veax.Dex.Pool.Solvency.{IsSolvent, sub_zero}
use veax.Dex.Pool.Rewards.{marked, withdraw_fee-Withdrawn}
use veax.Errors.{ok}

difference_self : (a : ℤ) → a -ℤ a ≡ pos 0
difference_self a = grind int_laws

reward_of-zero : (l : ℕ) → reward_of l (pos 0) ≡ ok 0
unfolding reward_of
reward_of-zero l = ground arith

module _ (rates : ℕ → ℕ) {F : Type 0} where
  -- Where nothing has accrued since the last withdrawal, nothing is paid and nothing changes.
  nothing_accrued :
      (p : Pool F) (id l : ℕ) (position : Position F)
      → lookup id p.positions ≡ some position
      → acc_range_lp_fees_per_fee_liquidity p position.fee_level position.tick_bounds
        ≡ ok position.unwithdrawn_acc_lp_fees_per_fee_liquidity
      → fee_liquidity_from_net_liquidity rates position.net_liquidity position.fee_level ≡ ok l
      → withdraw_fee rates p id ≡ ok (p, (0, 0))
  unfolding withdraw_fee withdraw_fee_of position_reward_ufp pay_reward
  nothing_accrued p id l position found range liquid =
      rw
        (
          found,
          range,
          difference_self,
          difference_self,
          liquid,
          reward_of-zero,
          sub_zero,
          sub_zero,
          sub_zero,
          sub_zero,
          put-same id position p.positions found,
        )
        refl

  module _ (p q : Pool F) (id : ℕ) (paid : ℕ × ℕ) where
    -- Where withdrawing the fee of a position succeeds, withdrawing it again pays nothing and
    -- changes nothing.
    pub withdraw_fee-twice :
        withdraw_fee rates p id ≡ ok (q, paid) → withdraw_fee rates q id ≡ ok (q, (0, 0))
    unfolding acc_range_lp_fees_per_fee_liquidity cmp_spot_price_to_position_range
        acc_lp_fee_per_fee_liquidity
    withdraw_fee-twice run =
        let c = withdraw_fee-Withdrawn rates p q id paid run in
        let found : lookup id q.positions ≡ some (marked c.position c.acc) =
          ap (λ (r : Pool F). lookup id r.positions) c.is_paid.result
          ∙ (rw (lookup-put, beq_refl) refl) in
        nothing_accrued q id c.liquidity (marked c.position c.acc) found
          (ap
              (λ (r : Pool F).
                acc_range_lp_fees_per_fee_liquidity r c.position.fee_level c.position.tick_bounds)
              c.is_paid.result
            ∙ c.range)
          c.fee_liquidity

    -- A pool is solvent where its total of each token, in words, is at least what the positions of
    -- the eight levels and the rewards hold. Where withdrawing the fee of a position of a solvent
    -- pool succeeds, the pool is solvent afterwards, and of each token exactly what was paid has
    -- left its total.
    pub withdraw_fee-IsSolvent :
        IsSolvent p
        → withdraw_fee rates p id ≡ ok (q, paid)
        → IsSolvent q
          × (q.total_reserves.0 + paid.0 ≡ p.total_reserves.0)
          × (q.total_reserves.1 + paid.1 ≡ p.total_reserves.1)
    withdraw_fee-IsSolvent solvent run =
        let c = withdraw_fee-Withdrawn rates p q id paid run in
        let i = c.is_paid in
        (
          (
            rw i.result (omega (arith, solvent, i.total_l, i.fee_l, c.amount_l)),
            rw i.result (omega (arith, solvent, i.total_r, i.fee_r, c.amount_r)),
          ),
          rw i.result (omega (arith, i.total_l)),
          rw i.result (omega (arith, i.total_r)),
        )
