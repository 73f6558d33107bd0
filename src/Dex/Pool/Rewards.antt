-- ===== src/Dex/Pool/Rewards.antt =====
-- v0/pool_state_ex.rs: `withdraw_fee` pays a position's reward once, out of what the pool keeps for
-- rewards.
use veax.Base.{ℕ, ◌-◌, ◌/◌, ◌≤◌, ◌≡◌, ap, sym, ◌∙◌, false, arith, some, Option-cases, inl, inr}
use veax.Base.Int.{ℤ, pos, ◌-ℤ◌, leb_ℤ}
use veax.Base.Eq.{nat_eq}
use veax.Maps.Entries.{lookup, put}
use veax.Dex.Pool.{Pool, Position, sub_words, signed_words}
use veax.Dex.Pool.Fees.{acc_range_lp_fees_per_fee_liquidity}
use veax.Dex.Pool.Reserves.{
  scale, amount_of, fee_liquidity_from_net_liquidity, reward_of, position_reward_ufp, pay_reward,
  withdraw_fee_of, withdraw_fee,
}
use veax.Dex.Pool.Solvency.{sub_words-ok}
use veax.Errors.{
  Outcome, ok, ◌>>=◌, ◌>>◌, bind-ok, ok_injective, ensure_here, ensure_here-ok, ErrorKind,
}

abbrev pub marked : {F : Type 0} → Position F → ℤ × ℤ → Position F
marked position acc = record position { unwithdrawn_acc_lp_fees_per_fee_liquidity = acc }

abbrev pub paid_out : {F : Type 0} → Pool F → ℕ → Position F → ℤ × ℤ → ℕ × ℕ → ℕ × ℕ → Pool F
paid_out p id position acc reward_ufp paid = record p {
  total_reserves = (p.total_reserves.0 - paid.0, p.total_reserves.1 - paid.1);
  acc_lp_fee = (p.acc_lp_fee.0 - reward_ufp.0, p.acc_lp_fee.1 - reward_ufp.1);
  positions = put id (marked position acc) p.positions;
}

-- What a payment is, once its four subtractions have returned.
pub record IsPaid {F : Type 0} (p q : Pool F) (id : ℕ) (position : Position F) (acc : ℤ × ℤ)
    (ufp paid : ℕ × ℕ) : Type 0 where
  pub result : q ≡ paid_out p id position acc ufp paid
  pub total_l : paid.0 ≤ p.total_reserves.0
  pub total_r : paid.1 ≤ p.total_reserves.1
  pub fee_l : ufp.0 ≤ p.acc_lp_fee.0
  pub fee_r : ufp.1 ≤ p.acc_lp_fee.1

module _ {F : Type 0} (p q : Pool F) (id : ℕ) (position : Position F) (acc : ℤ × ℤ) where
  subtracted : ℕ → ℕ → ℕ → ℕ → Pool F
  subtracted a b c d = record p {
    total_reserves = (a, b);
    acc_lp_fee = (c, d);
    positions = put id (marked position acc) p.positions;
  }

  pay_reward-IsPaid :
      (ufp paid : ℕ × ℕ)
      → pay_reward p id position acc ufp paid ≡ ok q
      → IsPaid p q id position acc ufp paid
  unfolding pay_reward subtracted
  pay_reward-IsPaid ufp paid run =
      let finish = λ (a b c d : ℕ). ok (subtracted a b c d) in
      let fees = λ (a b : ℕ). sub_words p.acc_lp_fee.0 ufp.0 >>= λ c.
      sub_words p.acc_lp_fee.1 ufp.1 >>= λ d. finish a b c d in
      let (a, sa, h1) =
        bind-ok (sub_words p.total_reserves.0 paid.0)
          (λ a. sub_words p.total_reserves.1 paid.1 >>= λ b. fees a b) q run in
      let (b, sb, h2) = bind-ok (sub_words p.total_reserves.1 paid.1) (λ b. fees a b) q h1 in
      let (c, sc, h3) =
        bind-ok (sub_words p.acc_lp_fee.0 ufp.0)
          (λ c. sub_words p.acc_lp_fee.1 ufp.1 >>= λ d. finish a b c d) q h2 in
      let (d, sd, h4) = bind-ok (sub_words p.acc_lp_fee.1 ufp.1) (λ d. finish a b c d) q h3 in
      let ea = sub_words-ok p.total_reserves.0 paid.0 a sa in
      let eb = sub_words-ok p.total_reserves.1 paid.1 b sb in
      let ec = sub_words-ok p.acc_lp_fee.0 ufp.0 c sc in
      let ed = sub_words-ok p.acc_lp_fee.1 ufp.1 d sd in
      record {
        result = sym (ok_injective h4) ∙ (λ i. subtracted (ea.1 i) (eb.1 i) (ec.1 i) (ed.1 i));
        total_l = ea.0;
        total_r = eb.0;
        fee_l = ec.0;
        fee_r = ed.0;
      }

pub amount_of-ok : (w x : ℕ) → amount_of w ≡ ok x → x ≡ w / scale
amount_of-ok w x h = ground arith

-- A withdrawal of the fees of a position that is there.
pub record Withdrawn {F : Type 0} (rates : ℕ → ℕ) (p q : Pool F) (id : ℕ) (paid : ℕ × ℕ)
    : Type 0 where
  pub position : Position F
  pub acc : ℤ × ℤ
  pub ufp : ℕ × ℕ
  pub liquidity : ℕ
  pub found : lookup id p.positions ≡ some position
  pub range : acc_range_lp_fees_per_fee_liquidity p position.fee_level position.tick_bounds ≡ ok acc
  pub fee_liquidity :
      fee_liquidity_from_net_liquidity rates position.net_liquidity position.fee_level
      ≡ ok liquidity
  pub amount_l : paid.0 ≡ ufp.0 / scale
  pub amount_r : paid.1 ≡ ufp.1 / scale
  pub is_paid : IsPaid p q id position acc ufp paid

module _ (rates : ℕ → ℕ) {F : Type 0} where
  reward-liquidity :
      (p : Pool F) (position : Position F) (ufp : ℕ × ℕ)
      → position_reward_ufp rates p position false ≡ ok ufp
      → (l : ℕ) × (fee_liquidity_from_net_liquidity rates position.net_liquidity position.fee_level
          ≡ ok l)
  unfolding position_reward_ufp
  reward-liquidity p position ufp run =
      let initial = position.unwithdrawn_acc_lp_fees_per_fee_liquidity in
      let level = position.fee_level in
      let pay = λ (x y : ℤ) (l : ℕ). reward_of l x >>= λ a. reward_of l y >>= λ b. ok (a, b) in
      let checks = λ (x y : ℤ).
        ensure_here (leb_ℤ (pos 0) x) ErrorKind.internal_logic_error
        >> (ensure_here (leb_ℤ (pos 0) y) ErrorKind.internal_logic_error
            >> (fee_liquidity_from_net_liquidity rates position.net_liquidity level >>= λ l.
                pay x y l)) in
      let (acc, _, h1) =
        bind-ok (acc_range_lp_fees_per_fee_liquidity p level position.tick_bounds)
          (λ acc. signed_words (acc.0 -ℤ initial.0) >>= λ x.
            signed_words (acc.1 -ℤ initial.1) >>= λ y. checks x y)
          ufp run in
      let (x, _, h2) =
        bind-ok (signed_words (acc.0 -ℤ initial.0))
          (λ x. signed_words (acc.1 -ℤ initial.1) >>= λ y. checks x y) ufp h1 in
      let (y, _, h3) = bind-ok (signed_words (acc.1 -ℤ initial.1)) (λ y. checks x y) ufp h2 in
      let (_, h4) = ensure_here-ok (leb_ℤ (pos 0) x) _ _ ufp h3 in
      let (_, h5) = ensure_here-ok (leb_ℤ (pos 0) y) _ _ ufp h4 in
      let (l, e, _) =
        bind-ok (fee_liquidity_from_net_liquidity rates position.net_liquidity level)
          (λ l. pay x y l) ufp h5 in
      (l, e)

  steps_of :
      (p q : Pool F) (id : ℕ) (paid : ℕ × ℕ) (position : Position F) (acc : ℤ × ℤ) (ufp : ℕ × ℕ)
      (x y : ℕ) (r : Pool F)
      → lookup id p.positions ≡ some position
      → acc_range_lp_fees_per_fee_liquidity p position.fee_level position.tick_bounds ≡ ok acc
      → position_reward_ufp rates p position false ≡ ok ufp
      → amount_of ufp.0 ≡ ok x
      → amount_of ufp.1 ≡ ok y
      → pay_reward p id position acc ufp (x, y) ≡ ok r
      → ◌≡◌ {A = Outcome (Pool F × (ℕ × ℕ))} (ok (r, (x, y))) (ok (q, paid))
      → Withdrawn rates p q id paid
  steps_of p q id paid position acc ufp x y r found range reward ax ay paid_r e =
      let same = ok_injective e in
      let to_q : r ≡ q = ap (λ (t : Pool F × (ℕ × ℕ)). t.0) same in
      let to_paid : paid ≡ (x, y) = sym (ap (λ (t : Pool F × (ℕ × ℕ)). t.1) same) in
      let (l, liquid) = reward-liquidity p position ufp reward in
      record {
        position = position;
        acc = acc;
        ufp = ufp;
        liquidity = l;
        found = found;
        range = range;
        fee_liquidity = liquid;
        amount_l = ap (λ (t : ℕ × ℕ). t.0) to_paid ∙ amount_of-ok ufp.0 x ax;
        amount_r = ap (λ (t : ℕ × ℕ). t.1) to_paid ∙ amount_of-ok ufp.1 y ay;
        is_paid =
            pay_reward-IsPaid p q id position acc ufp paid (
              ap (λ (t : ℕ × ℕ). pay_reward p id position acc ufp t) to_paid ∙ paid_r ∙ ap ok to_q);
      }

  pub withdraw_fee-Withdrawn :
      (p q : Pool F) (id : ℕ) (paid : ℕ × ℕ)
      → withdraw_fee rates p id ≡ ok (q, paid)
      → Withdrawn rates p q id paid
  unfolding withdraw_fee withdraw_fee_of
  withdraw_fee-Withdrawn p q id paid run = elim (Option-cases (lookup id p.positions)) [
    | inl e ↦ absurd (ground (arith, e))
    | inr (position, found) ↦
        let level = position.fee_level in
        let known : withdraw_fee_of rates p id position ≡ ok (q, paid) = rw found at run in
        let finish = λ (x y : ℕ) (r : Pool F). ok (r, (x, y)) in
        let pay = λ (acc : ℤ × ℤ) (ufp : ℕ × ℕ). amount_of ufp.0 >>= λ x.
        amount_of ufp.1 >>= λ y. pay_reward p id position acc ufp (x, y) >>= finish x y in
        let (acc, range, h1) =
          bind-ok (acc_range_lp_fees_per_fee_liquidity p level position.tick_bounds)
            (λ acc. position_reward_ufp rates p position false >>= λ ufp. pay acc ufp) (q, paid)
            known in
        let (ufp, reward, h2) =
          bind-ok (position_reward_ufp rates p position false) (λ ufp. pay acc ufp) (q, paid) h1 in
        let (x, ax, h3) =
          bind-ok (amount_of ufp.0)
            (λ x. amount_of ufp.1 >>= λ y. pay_reward p id position acc ufp (x, y) >>= finish x y)
            (q, paid) h2 in
        let (y, ay, h4) =
          bind-ok (amount_of ufp.1) (λ y. pay_reward p id position acc ufp (x, y) >>= finish x y)
            (q, paid) h3 in
        let (r, paid_r, h5) =
          bind-ok (pay_reward p id position acc ufp (x, y)) (finish x y) (q, paid) h4 in
        steps_of p q id paid position acc ufp x y r found range reward ax ay paid_r h5
  ]
