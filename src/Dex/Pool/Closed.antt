-- ===== src/Dex/Pool/Closed.antt =====
-- v0/pool_state_ex.rs: closing a position keeps the pool solvent.
use veax.Base.{ℕ, ◌+◌, ◌-◌, ◌/◌, ◌≤◌, ◌<◌, ◌≡◌, ap, ◌∙◌, arith, subst}
use veax.Base.Eq.{nat_eq}
use veax.Maps.Entries.{lookup}
use veax.Dex.Pool.{Pool, Position, tick_eq, FeeLevelsArray, set_level, num_fee_levels}
use veax.Dex.Pool.Reserves.{scale, amount_of, withdraw_fee}
use veax.Dex.Pool.Solvency.{held, first, second, IsCovered, IsSolvent}
use veax.Dex.Pool.Rewards.{amount_of-ok}
use veax.Dex.Pool.Withdrawals.{withdraw_fee-IsSolvent}
use veax.Dex.Pool.Closing.{
  Prices, take_out, release, eval_position_balance_ufp, close_position,
  withdraw_fee_and_close_position,
}
use veax.Dex.Pool.Funds.{SameFunds, release-SameFunds}
use veax.Errors.{Outcome, ok, ◌>>=◌, bind-ok, ok_or, ok_injective, ErrorKind}
use veax.Dex.Pool.Taken.{held-set_level, IsTaken, take_out-IsTaken}

module _ {F : Type 0} where
  -- One token of a pool from which a position has been taken out.
  take_out-IsCovered :
      (f : ℕ × ℕ → ℕ) (p r q : Pool F) (level u b : ℕ) (rest : ℕ × ℕ)
      → level < num_fee_levels
      → r.position_reserves ≡ set_level p.position_reserves level rest
      → u ≤ f (p.position_reserves level)
      → f rest ≡ f (p.position_reserves level) - u
      → b ≡ u / scale
      → f q.total_reserves + b ≡ f p.total_reserves
      → f q.acc_lp_fee ≡ f p.acc_lp_fee
      → SameFunds r q
      → IsCovered f p
      → IsCovered f q
  take_out-IsCovered f p r q level u b rest inside taken enough left_over whole total fees same
        covered =
      let after : held f q.position_reserves num_fee_levels 0
          ≡ held f (set_level p.position_reserves level rest) num_fee_levels 0 =
        ap (λ (x : FeeLevelsArray (ℕ × ℕ)). held f x num_fee_levels 0) (same.reserves ∙ taken) in
      let change =
        held-set_level f p.position_reserves level rest num_fee_levels 0 (omega arith) inside in
      omega (arith, after, change, covered, enough, left_over, whole, total, fees)

  take_out-IsSolvent :
      (p r q : Pool F) (level : ℕ) (ufp balance : ℕ × ℕ)
      → IsTaken p r level ufp balance
      → balance.0 ≡ ufp.0 / scale
      → balance.1 ≡ ufp.1 / scale
      → SameFunds r q
      → IsSolvent p
      → IsSolvent q
        × (q.total_reserves.0 + balance.0 ≡ p.total_reserves.0)
        × (q.total_reserves.1 + balance.1 ≡ p.total_reserves.1)
  take_out-IsSolvent p r q level ufp balance t whole_l whole_r same (cover_l, cover_r) =
      let total_l : q.total_reserves.0 + balance.0 ≡ p.total_reserves.0 =
        let e = ap (λ (x : ℕ × ℕ). x.0) same.total in omega (arith, e, t.total_l) in
      let total_r : q.total_reserves.1 + balance.1 ≡ p.total_reserves.1 =
        let e = ap (λ (x : ℕ × ℕ). x.1) same.total in omega (arith, e, t.total_r) in
      let fees = same.fees ∙ t.fees in
      (
        (
          take_out-IsCovered first p r q level ufp.0 balance.0 t.rest t.inside t.reserves t.rest_l.0
              t.rest_l.1 whole_l total_l (ap first fees) same cover_l,
          take_out-IsCovered second p r q level ufp.1 balance.1 t.rest t.inside t.reserves
              t.rest_r.0 t.rest_r.1 whole_r total_r (ap second fees) same cover_r,
        ),
        total_l,
        total_r,
      )

  returned :
      (p s q : Pool F) (x y : ℕ × ℕ)
      → ◌≡◌ {A = Outcome (Pool F × (ℕ × ℕ))} (ok (s, x)) (ok (q, y))
      → IsSolvent s
        × (s.total_reserves.0 + x.0 ≡ p.total_reserves.0)
        × (s.total_reserves.1 + x.1 ≡ p.total_reserves.1)
      → IsSolvent q
        × (q.total_reserves.0 + y.0 ≡ p.total_reserves.0)
        × (q.total_reserves.1 + y.1 ≡ p.total_reserves.1)
  returned p s q x y same facts =
      subst
        (λ (t : Pool F × (ℕ × ℕ)).
          IsSolvent t.0
          × (t.0.total_reserves.0 + t.1.0 ≡ p.total_reserves.0)
          × (t.0.total_reserves.1 + t.1.1 ≡ p.total_reserves.1))
        (ok_injective same) facts

module _ (prices : Prices) where
  open prices use {F}

  pub close_position-IsSolvent :
      (p q : Pool F) (id : ℕ) (position : Position F) (balance : ℕ × ℕ)
      → IsSolvent p
      → close_position prices p id position ≡ ok (q, balance)
      → IsSolvent q
        × (q.total_reserves.0 + balance.0 ≡ p.total_reserves.0)
        × (q.total_reserves.1 + balance.1 ≡ p.total_reserves.1)
  unfolding close_position
  close_position-IsSolvent p q id position balance solvent run =
      let finish = λ (u : ℕ × ℕ) (x y : ℕ). take_out p id position u (x, y) >>= λ r.
      release prices r position >>= λ s. ok (s, (x, y)) in
      let (ufp, _, h1) =
        bind-ok (eval_position_balance_ufp prices p position)
          (λ u. amount_of u.0 >>= λ x. amount_of u.1 >>= λ y. finish u x y) (q, balance) run in
      let (x, ex, h2) =
        bind-ok (amount_of ufp.0) (λ x. amount_of ufp.1 >>= λ y. finish ufp x y) (q, balance) h1 in
      let (y, ey, h3) = bind-ok (amount_of ufp.1) (λ y. finish ufp x y) (q, balance) h2 in
      let (r, taken, h4) =
        bind-ok (take_out p id position ufp (x, y))
          (λ r. release prices r position >>= λ s. ok (s, (x, y))) (q, balance) h3 in
      let (s, released, h5) =
        bind-ok (release prices r position) (λ s. ok (s, (x, y))) (q, balance) h4 in
      let done =
        take_out-IsSolvent p r s position.fee_level ufp (x, y)
          (take_out-IsTaken p r id position ufp (x, y) taken) (amount_of-ok ufp.0 x ex)
          (amount_of-ok ufp.1 y ey) (release-SameFunds prices r s position released) solvent in
      returned p s q (x, y) balance h5 done

  -- Where a position of a solvent pool is closed, for any order and conversion of the prices, the
  -- pool is solvent afterwards, and of each token exactly the fee and the balance that were paid
  -- have left its total.
  pub withdraw_fee_and_close_position-IsSolvent :
      (rates : ℕ → ℕ) (p q : Pool F) (id : ℕ) (fees balance : ℕ × ℕ)
      → IsSolvent p
      → withdraw_fee_and_close_position prices rates p id ≡ ok (q, (fees, balance))
      → IsSolvent q
        × (q.total_reserves.0 + balance.0 + fees.0 ≡ p.total_reserves.0)
        × (q.total_reserves.1 + balance.1 + fees.1 ≡ p.total_reserves.1)
  unfolding withdraw_fee_and_close_position
  withdraw_fee_and_close_position-IsSolvent rates p q id fees balance solvent run =
      let close = λ (paid : Pool F × (ℕ × ℕ)) (position : Position F).
        close_position prices paid.0 id position >>= λ closed. ok (closed.0, (paid.1, closed.1)) in
      let (paid, withdrawn, h1) =
        bind-ok (withdraw_fee rates p id)
          (λ paid. ok_or (lookup id paid.0.positions) ErrorKind.position_does_not_exist >>= λ x.
            close paid x)
          (q, (fees, balance)) run in
      let (position, _, h2) =
        bind-ok (ok_or (lookup id paid.0.positions) ErrorKind.position_does_not_exist)
          (λ x. close paid x) (q, (fees, balance)) h1 in
      let (closed, e, h3) =
        bind-ok (close_position prices paid.0 id position)
          (λ closed. ok (closed.0, (paid.1, closed.1))) (q, (fees, balance)) h2 in
      let same : (closed.0, (paid.1, closed.1)) ≡ (q, (fees, balance)) = ok_injective h3 in
      let (still, l, r) = withdraw_fee-IsSolvent rates p paid.0 id paid.1 solvent withdrawn in
      let (after, x, y) = close_position-IsSolvent paid.0 closed.0 id position closed.1 still e in
      subst
        (λ (t : Pool F × ((ℕ × ℕ) × (ℕ × ℕ))).
          IsSolvent t.0
          × (t.0.total_reserves.0 + t.1.1.0 + t.1.0.0 ≡ p.total_reserves.0)
          × (t.0.total_reserves.1 + t.1.1.1 + t.1.0.1 ≡ p.total_reserves.1))
        same (after, omega (arith, l, x), omega (arith, r, y))
