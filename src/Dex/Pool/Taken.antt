-- ===== src/Dex/Pool/Taken.antt =====
-- v0/pool_state_ex.rs: what a position takes with it when it leaves the pool.
use veax.Base.{
  ℕ, zero, suc, ◌+◌, ◌-◌, ◌≤◌, ◌<◌, ◌≡◌, refl, ap, sym, ◌∙◌, arith, true, false, ltb, nat_beq,
  nat_beq_iff, Bool-cases, inl, inr,
}
use veax.Base.Eq.{nat_eq}
use veax.Maps.Entries.{erase}
use veax.Dex.Pool.{
  Pool, Position, tick_eq, FeeLevelsArray, set_level, at_level, sub_words, num_fee_levels,
}
use veax.Dex.Pool.Solvency.{held, sub_words-ok}
use veax.Dex.Pool.Closing.{take_out}
use veax.Errors.{Outcome, ok, ◌>>=◌, bind-ok, ok_injective}

set_level-other :
    (reserves : FeeLevelsArray (ℕ × ℕ)) (i : ℕ) (x : ℕ × ℕ) (j : ℕ)
    → nat_beq i j ≡ false
    → set_level reserves i x j ≡ reserves j
unfolding set_level
set_level-other reserves i x j h = rw h refl

set_level-here :
    (reserves : FeeLevelsArray (ℕ × ℕ)) (i : ℕ) (x : ℕ × ℕ) (j : ℕ)
    → nat_beq i j ≡ true
    → set_level reserves i x j ≡ x
unfolding set_level
set_level-here reserves i x j h = rw h refl

module _ (f : ℕ × ℕ → ℕ) (reserves : FeeLevelsArray (ℕ × ℕ)) (i : ℕ) (x : ℕ × ℕ) where
  held_above :
      (rounds level : ℕ)
      → i < level
      → held f (set_level reserves i x) rounds level ≡ held f reserves rounds level
  held_above zero level h = refl
  held_above (suc n) level h =
      let other : nat_beq i level ≡ false = ground arith in
      rw (held_above n (level + 1) (omega (arith, h)), set_level-other reserves i x level other)
        refl

  -- The sum after one level has changed.
  pub held-set_level :
      (rounds level : ℕ)
      → level ≤ i
      → i < level + rounds
      → held f (set_level reserves i x) rounds level + f (reserves i)
        ≡ held f reserves rounds level + f x
  held-set_level zero level low high = absurd (omega (arith, low, high))
  held-set_level (suc n) level low high = elim (Bool-cases (nat_beq i level)) [
    | inl e ↦
        let same : i ≡ level = (nat_beq_iff i level).0 e in
        let rest = held_above n (level + 1) (omega (arith, same)) in
        let at : f (reserves i) ≡ f (reserves level) = ap (λ (j : ℕ). f (reserves j)) same in
        rw (set_level-here reserves i x level e) (omega (arith, rest, at))
    | inr e ↦
        let more : level < i = ground arith in
        let rest = held-set_level n (level + 1) (omega (arith, more)) (omega (arith, high)) in
        rw (set_level-other reserves i x level e) (omega (arith, rest))
  ]

-- The funds after a position has left with `balance`, the whole amounts of `ufp`.
pub record IsTaken {F : Type 0} (p q : Pool F) (level : ℕ) (ufp balance : ℕ × ℕ) : Type 0 where
  pub inside : level < num_fee_levels
  pub total_l :
      (balance.0 ≤ p.total_reserves.0) × (q.total_reserves.0 ≡ p.total_reserves.0 - balance.0)
  pub total_r :
      (balance.1 ≤ p.total_reserves.1) × (q.total_reserves.1 ≡ p.total_reserves.1 - balance.1)
  pub rest : ℕ × ℕ
  pub rest_l :
      (ufp.0 ≤ (p.position_reserves level).0) × (rest.0 ≡ (p.position_reserves level).0 - ufp.0)
  pub rest_r :
      (ufp.1 ≤ (p.position_reserves level).1) × (rest.1 ≡ (p.position_reserves level).1 - ufp.1)
  pub reserves : q.position_reserves ≡ set_level p.position_reserves level rest
  pub fees : q.acc_lp_fee ≡ p.acc_lp_fee

at_level-ok :
    {A : Type 0} (level : ℕ) (m : Outcome A) (a : A)
    → at_level level m ≡ ok a
    → (level < num_fee_levels) × (m ≡ ok a)
at_level-ok level m a h = elim (Bool-cases (ltb level num_fee_levels)) [
  | inl e ↦ (ground arith, (rw e at h))
  | inr e ↦ absurd (ground (arith, e))
]

module _ {F : Type 0} where
  pub take_out-IsTaken :
      (p q : Pool F) (id : ℕ) (position : Position F) (ufp balance : ℕ × ℕ)
      → take_out p id position ufp balance ≡ ok q
      → IsTaken p q position.fee_level ufp balance
  unfolding take_out
  take_out-IsTaken p q id position ufp balance run =
      let level = position.fee_level in
      let held_l = (p.position_reserves level).0 in
      let held_r = (p.position_reserves level).1 in
      let taken = λ (a b c d : ℕ). record p {
        positions = erase id p.positions;
        total_reserves = (a, b);
        position_reserves = set_level p.position_reserves level (c, d);
      } in
      let (a, sa, h1) =
        bind-ok (sub_words p.total_reserves.0 balance.0)
          (λ a. sub_words p.total_reserves.1 balance.1 >>= λ b.
            at_level level (sub_words held_l ufp.0) >>= λ c.
            sub_words held_r ufp.1 >>= λ d. ok (taken a b c d))
          q run in
      let (b, sb, h2) =
        bind-ok (sub_words p.total_reserves.1 balance.1)
          (λ b. at_level level (sub_words held_l ufp.0) >>= λ c.
            sub_words held_r ufp.1 >>= λ d. ok (taken a b c d))
          q h1 in
      let (c, sc, h3) =
        bind-ok (at_level level (sub_words held_l ufp.0))
          (λ c. sub_words held_r ufp.1 >>= λ d. ok (taken a b c d)) q h2 in
      let (d, sd, h4) = bind-ok (sub_words held_r ufp.1) (λ d. ok (taken a b c d)) q h3 in
      let (inside, sc') = at_level-ok level (sub_words held_l ufp.0) c sc in
      let same = ok_injective h4 in
      let ea = sub_words-ok p.total_reserves.0 balance.0 a sa in
      let eb = sub_words-ok p.total_reserves.1 balance.1 b sb in
      record {
        inside = inside;
        total_l = (ea.0, sym (ap (λ (r : Pool F). r.total_reserves.0) same) ∙ ea.1);
        total_r = (eb.0, sym (ap (λ (r : Pool F). r.total_reserves.1) same) ∙ eb.1);
        rest = (c, d);
        rest_l = sub_words-ok held_l ufp.0 c sc';
        rest_r = sub_words-ok held_r ufp.1 d sd;
        reserves = sym (ap (λ (r : Pool F). r.position_reserves) same);
        fees = sym (ap (λ (r : Pool F). r.acc_lp_fee) same);
      }
