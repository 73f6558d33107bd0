-- ===== src/Dex/Pool/Solvency.antt =====
-- v0/pool_state_ex.rs: the pool holds what its positions and its unpaid rewards need, and the protocol
-- takes the rest.
use veax.Base.{ℕ, zero, suc, ◌+◌, ◌-◌, ◌*◌, ◌/◌, ◌≤◌, ◌<◌, ◌≡◌, refl, ap, sym, ◌∙◌, arith}
use veax.Dex.Pool.{Pool, FeeLevelsArray, add_words, sub_words, num_fee_levels}
use veax.Dex.Pool.Reserves.{
  scale, amount_of, floor_words, sum_reserves, payout, sum_position_reserves, withdraw_protocol_fee,
}
use veax.Errors.{Outcome, ok, ◌>>=◌, bind-ok, ok_injective}

-- The sum over the levels of what positions hold, on the side that `f` picks.
abbrev pub held : (ℕ × ℕ → ℕ) → FeeLevelsArray (ℕ × ℕ) → ℕ → ℕ → ℕ
held f reserves zero level = 0
held f reserves (suc rounds) level = f (reserves level) + held f reserves rounds (level + 1)

abbrev pub first : ℕ × ℕ → ℕ
first p = p.0

abbrev pub second : ℕ × ℕ → ℕ
second p = p.1

abbrev pub IsCovered : (ℕ × ℕ → ℕ) → {F : Type 0} → Pool F → Type 0
IsCovered f p =
    held f p.position_reserves num_fee_levels 0 + f p.acc_lp_fee ≤ f p.total_reserves * scale

-- Both tokens of the positions and of the rewards are there.
abbrev pub IsSolvent : {F : Type 0} → Pool F → Type 0
IsSolvent p = IsCovered first p × IsCovered second p

add_words-ok : (a b c : ℕ) → add_words 512 a b ≡ ok c → c ≡ a + b
add_words-ok a b c h = ground arith

pub sub_words-ok : (a b c : ℕ) → sub_words a b ≡ ok c → (b ≤ a) × (c ≡ a - b)
sub_words-ok a b c h = (ground arith, ground arith)

sum_reserves-held :
    (reserves : FeeLevelsArray (ℕ × ℕ)) (rounds level a b : ℕ) (sums : ℕ × ℕ)
    → sum_reserves reserves rounds level (a, b) ≡ ok sums
    → (sums.0 ≡ a + held first reserves rounds level)
      × (sums.1 ≡ b + held second reserves rounds level)
unfolding sum_reserves
sum_reserves-held reserves zero level a b sums h = (ground arith, ground arith)
sum_reserves-held reserves (suc n) level a b sums h =
    let more = λ (l r : ℕ). sum_reserves reserves n (level + 1) (l, r) in
    let (l, add_l, h1) =
      bind-ok (add_words 512 a (reserves level).0)
        (λ l. add_words 512 b (reserves level).1 >>= λ r. more l r) sums h in
    let (r, add_r, h2) = bind-ok (add_words 512 b (reserves level).1) (λ r. more l r) sums h1 in
    let (x, y) = sum_reserves-held reserves n (level + 1) l r sums h2 in
    let is_l = add_words-ok a (reserves level).0 l add_l in
    let is_r = add_words-ok b (reserves level).1 r add_r in
    (omega (arith, x, is_l), omega (arith, y, is_r))

-- The payout is all of the whole amounts that are free.
payout-ok :
    (total reserves fee x : ℕ)
    → payout total reserves fee ≡ ok x
    → (reserves + fee + x * scale ≤ total * scale)
      × (total * scale < reserves + fee + (x + 1) * scale)
unfolding payout
payout-ok total reserves fee x h =
    let (a, sub_a, h1) =
      bind-ok (sub_words (total * scale) reserves)
        (λ a. sub_words a fee >>= λ b. amount_of (floor_words b)) x h in
    let (b, sub_b, h2) = bind-ok (sub_words a fee) (λ b. amount_of (floor_words b)) x h1 in
    let (le_a, is_a) = sub_words-ok (total * scale) reserves a sub_a in
    let (le_b, is_b) = sub_words-ok a fee b sub_b in
    let is_x : x ≡ b / scale = ground arith in
    (omega (arith, le_a, is_a, le_b, is_b, is_x), omega (arith, le_a, is_a, le_b, is_b, is_x))

payout-again :
    (total reserves fee : ℕ)
    → reserves + fee ≤ total * scale
    → total * scale < reserves + fee + scale
    → payout total reserves fee ≡ ok 0
unfolding payout
payout-again total reserves fee low high = ground arith

-- A successful withdrawal of the protocol's fee, step by step.
record Paid {F : Type 0} (p q : Pool F) (paid : ℕ × ℕ) : Type 0 where
  sums : ℕ × ℕ
  summed : sum_position_reserves p ≡ ok sums
  payout_x : payout p.total_reserves.0 sums.0 p.acc_lp_fee.0 ≡ ok paid.0
  payout_y : payout p.total_reserves.1 sums.1 p.acc_lp_fee.1 ≡ ok paid.1
  result :
      q ≡ record p { total_reserves = (p.total_reserves.0 - paid.0, p.total_reserves.1 - paid.1) }

module _ {F : Type 0} (p q : Pool F) (paid : ℕ × ℕ) where
  paid_of :
      (s : ℕ × ℕ) (x y l r : ℕ)
      → sum_position_reserves p ≡ ok s
      → payout p.total_reserves.0 s.0 p.acc_lp_fee.0 ≡ ok x
      → payout p.total_reserves.1 s.1 p.acc_lp_fee.1 ≡ ok y
      → sub_words p.total_reserves.0 x ≡ ok l
      → sub_words p.total_reserves.1 y ≡ ok r
      → ◌≡◌ {A = Outcome (Pool F × (ℕ × ℕ))}
          (ok (record p { total_reserves = (l, r) }, (x, y)))
          (ok (q, paid))
      → Paid p q paid
  paid_of s x y l r summed px py sl sr e =
      let same = ok_injective e in
      let px' : x ≡ paid.0 = ap (λ (t : Pool F × (ℕ × ℕ)). t.1.0) same in
      let py' : y ≡ paid.1 = ap (λ (t : Pool F × (ℕ × ℕ)). t.1.1) same in
      let is_l : l ≡ p.total_reserves.0 - paid.0 =
        (sub_words-ok p.total_reserves.0 x l sl).1 ∙ ap (λ (k : ℕ). p.total_reserves.0 - k) px' in
      let is_r : r ≡ p.total_reserves.1 - paid.1 =
        (sub_words-ok p.total_reserves.1 y r sr).1 ∙ ap (λ (k : ℕ). p.total_reserves.1 - k) py' in
      record {
        sums = s;
        summed = summed;
        payout_x = px ∙ ap ok px';
        payout_y = py ∙ ap ok py';
        result =
            sym (ap (λ (t : Pool F × (ℕ × ℕ)). t.0) same)
            ∙ (λ i. record p { total_reserves = (is_l i, is_r i) });
      }

  withdraw_protocol_fee-Paid : withdraw_protocol_fee p ≡ ok (q, paid) → Paid p q paid
  unfolding withdraw_protocol_fee
  withdraw_protocol_fee-Paid run =
      let finish = λ (x y l r : ℕ). ok (record p { total_reserves = (l, r) }, (x, y)) in
      let subs = λ (x y : ℕ). sub_words p.total_reserves.0 x >>= λ l.
      sub_words p.total_reserves.1 y >>= λ r. finish x y l r in
      let pays = λ (s : ℕ × ℕ). payout p.total_reserves.0 s.0 p.acc_lp_fee.0 >>= λ x.
      payout p.total_reserves.1 s.1 p.acc_lp_fee.1 >>= λ y. subs x y in
      let (s, summed, h1) = bind-ok (sum_position_reserves p) pays (q, paid) run in
      let (x, px, h2) =
        bind-ok (payout p.total_reserves.0 s.0 p.acc_lp_fee.0)
          (λ x. payout p.total_reserves.1 s.1 p.acc_lp_fee.1 >>= λ y. subs x y) (q, paid) h1 in
      let (y, py, h3) =
        bind-ok (payout p.total_reserves.1 s.1 p.acc_lp_fee.1) (λ y. subs x y) (q, paid) h2 in
      let (l, sl, h4) =
        bind-ok (sub_words p.total_reserves.0 x)
          (λ l. sub_words p.total_reserves.1 y >>= λ r. finish x y l r) (q, paid) h3 in
      let (r, sr, h5) =
        bind-ok (sub_words p.total_reserves.1 y) (λ r. finish x y l r) (q, paid) h4 in
      paid_of s x y l r summed px py sl sr h5

  sums_held :
      (sums : ℕ × ℕ)
      → sum_position_reserves p ≡ ok sums
      → (sums.0 ≡ held first p.position_reserves num_fee_levels 0)
        × (sums.1 ≡ held second p.position_reserves num_fee_levels 0)
  unfolding sum_position_reserves
  sums_held sums h =
      let (l, r) = sum_reserves-held p.position_reserves num_fee_levels 0 0 0 sums h in
      (omega (arith, l), omega (arith, r))

pub sub_zero : (a : ℕ) → sub_words a 0 ≡ ok a
sub_zero a = ground arith

withdraw_protocol_fee-again :
    {F : Type 0} (p : Pool F) (sums : ℕ × ℕ)
    → sum_position_reserves p ≡ ok sums
    → payout p.total_reserves.0 sums.0 p.acc_lp_fee.0 ≡ ok 0
    → payout p.total_reserves.1 sums.1 p.acc_lp_fee.1 ≡ ok 0
    → withdraw_protocol_fee p ≡ ok (p, (0, 0))
unfolding withdraw_protocol_fee
withdraw_protocol_fee-again p sums summed x y =
    rw (summed, x, y, sub_zero p.total_reserves.0, sub_zero p.total_reserves.1) refl

module _ {F : Type 0} (p q : Pool F) (paid : ℕ × ℕ) where
  -- Where the protocol's fee is withdrawn, the pool is solvent afterwards, of each token exactly
  -- what was paid has left its total, and a second withdrawal pays nothing and changes nothing.
  pub withdraw_protocol_fee-IsSolvent :
      withdraw_protocol_fee p ≡ ok (q, paid)
      → IsSolvent q
        × (q.total_reserves.0 + paid.0 ≡ p.total_reserves.0)
        × (q.total_reserves.1 + paid.1 ≡ p.total_reserves.1)
        × (withdraw_protocol_fee q ≡ ok (q, (0, 0)))
  unfolding sum_position_reserves
  withdraw_protocol_fee-IsSolvent run =
      let c = withdraw_protocol_fee-Paid p q paid run in
      let x = payout-ok p.total_reserves.0 c.sums.0 p.acc_lp_fee.0 paid.0 c.payout_x in
      let y = payout-ok p.total_reserves.1 c.sums.1 p.acc_lp_fee.1 paid.1 c.payout_y in
      let s = sums_held p q paid c.sums c.summed in
      let again =
        withdraw_protocol_fee-again q c.sums (rw c.result c.summed)
          (rw c.result (payout-again _ _ _ (omega (arith, x)) (omega (arith, x))))
          (rw c.result (payout-again _ _ _ (omega (arith, y)) (omega (arith, y)))) in
      (
        (rw c.result (omega (arith, x, s)), rw c.result (omega (arith, y, s))),
        rw c.result (omega (arith, x)),
        rw c.result (omega (arith, y)),
        again,
      )
