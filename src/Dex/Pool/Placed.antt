-- ===== src/Dex/Pool/Placed.antt =====
-- Where the price of a level stands among its ticks: between the next ticks on its two sides, with the
-- liquidity that the ticks below it sum up to. `tick_crossing` keeps this.
use veax.Base.{ℕ, ◌≡◌, refl, true, not, Option, some, [], ◌∷◌, arith, Bool-cases, inl, inr}
use veax.Base.Int.{ℤ, pos, negsuc, neg, ◌+ℤ◌, int_laws}
use veax.Base.Eq.{◌==◌}
use veax.Maps.Entries.{lookup, has, replace, is_unique, has-replace, lookup-has, is_unique-replace}
use veax.Dex.Tick.{Tick}
use veax.Dex.Pool.{Pool, TickState, tick_eq, tick_beq_iff}
use veax.Dex.Pool.Ticks.{key_above, key_below}
use veax.Dex.Pool.Liquidity.{
  TickStates, is_below, is_above, change_below, change_below-Extends, key_above-has,
  key_above-nearest, key_below-has, key_below-nearest,
}
use veax.Dex.Pool.Crossing.{apply_change}
use veax.Errors.{ok}

-- The next ticks of the two sides, the ticks and the liquidity of a level.
pub record Placed (above below : Option Tick) (xs : TickStates) (net : ℕ) : Type 0 where
  pub unique : is_unique xs ≡ true
  pub sided : (t : Tick) → has t xs ≡ true → is_below below t ≡ not (is_above above t)
  pub above_there : (t : Tick) → above ≡ some t → has t xs ≡ true
  pub below_there : (t : Tick) → below ≡ some t → has t xs ≡ true
  pub liquid : pos net ≡ change_below below xs

abbrev pub IsPlaced : {F : Type 0} → Pool F → ℕ → Type 0
IsPlaced p level =
    Placed (p.next_active_ticks_left level) (p.next_active_ticks_right level) (p.tick_states level)
      (p.net_liquidities level)

key_above-replace :
    (b x : Tick) (s : TickState) (xs : TickStates) → key_above b (replace x s xs) ≡ key_above b xs
key_above-replace b x s [] = refl
key_above-replace b x s ((t, u) ∷ xs) = elim (Bool-cases (x == t)) [
  | inl e ↦ rw e refl
  | inr e ↦ rw (e, key_above-replace b x s xs) refl
]

pub key_below-replace :
    (b x : Tick) (s : TickState) (xs : TickStates) → key_below b (replace x s xs) ≡ key_below b xs
key_below-replace b x s [] = refl
key_below-replace b x s ((t, u) ∷ xs) = elim (Bool-cases (x == t)) [
  | inl e ↦ rw e refl
  | inr e ↦ rw (e, key_below-replace b x s xs) refl
]

change_below-replace :
    (b : Option Tick) (x : Tick) (s u : TickState) (xs : TickStates)
    → lookup x xs ≡ some u
    → s.net_liquidity_change ≡ u.net_liquidity_change
    → change_below b (replace x s xs) ≡ change_below b xs
change_below-replace b x s u [] there same = refl
change_below-replace b x s u ((t, v) ∷ xs) there same = elim (Bool-cases (x == t)) [
  | inl e ↦ let it : v ≡ u = ground (arith, e) in rw (e, same, it) refl
  | inr e ↦ rw (e, change_below-replace b x s u xs (ground (arith, e)) same) refl
]

pub apply_change-ok : (net n : ℕ) (d : ℤ) → apply_change net d ≡ ok n → pos n ≡ pos net +ℤ d
unfolding apply_change ◌+ℤ◌
apply_change-ok net n (pos k) h = ground arith
apply_change-ok net n (negsuc k) h = ground arith

module _ (x : Tick) (s u : TickState) (xs : TickStates) (n net : ℕ) where
  -- The price passes the next tick above it.
  pub Placed-left :
      (below : Option Tick)
      → Placed (some x) below xs net
      → lookup x xs ≡ some u
      → s.net_liquidity_change ≡ u.net_liquidity_change
      → pos n ≡ pos net +ℤ u.net_liquidity_change
      → Placed (key_above x (replace x s xs)) (some x) (replace x s xs) n
  Placed-left below p there same added = record {
    unique = rw (is_unique-replace x s xs) p.unique;
    sided = λ t h.
        let h' : has t xs ≡ true = rw (← has-replace t x s xs) h in
        rw (key_above-replace x x s xs, key_above-nearest x t xs h') (ground arith);
    above_there = λ t h.
        let h' : key_above x xs ≡ some t = rw (← key_above-replace x x s xs) h in
        rw (has-replace t x s xs) (key_above-has x t xs h');
    below_there = λ t h.
        let e : x ≡ t = ground arith in rw (has-replace t x s xs, ← e) (lookup-has x u xs there);
    liquid =
        rw
          (
            change_below-replace (some x) x s u xs there same,
            change_below-Extends below (some x) x u xs
                (λ t h. ground (arith, p.sided t h, tick_beq_iff x t)) p.unique
                (ground (arith, p.sided x (lookup-has x u xs there))) there,
          )
          (rw (← p.liquid) added);
  }

  -- The price passes the next tick below it.
  pub Placed-right :
      (above : Option Tick)
      → Placed above (some x) xs net
      → lookup x xs ≡ some u
      → s.net_liquidity_change ≡ u.net_liquidity_change
      → pos n ≡ pos net +ℤ neg u.net_liquidity_change
      → Placed (some x) (key_below x (replace x s xs)) (replace x s xs) n
  Placed-right above p there same taken =
      let extended =
        change_below-Extends (key_below x xs) (some x) x u xs
          (λ t h. ground (arith, key_below-nearest x t xs h, tick_beq_iff x t)) p.unique
          (ground (arith, key_below-nearest x x xs (lookup-has x u xs there))) there in
      record {
        unique = rw (is_unique-replace x s xs) p.unique;
        sided = λ t h.
            let h' : has t xs ≡ true = rw (← has-replace t x s xs) h in
            rw (key_below-replace x x s xs, key_below-nearest x t xs h') (ground arith);
        above_there = λ t h.
            let e : x ≡ t = ground arith in
            rw (has-replace t x s xs, ← e) (lookup-has x u xs there);
        below_there = λ t h.
            let h' : key_below x xs ≡ some t = rw (← key_below-replace x x s xs) h in
            rw (has-replace t x s xs) (key_below-has x t xs h');
        liquid =
            rw
              (
                key_below-replace x x s xs,
                change_below-replace (key_below x xs) x s u xs there same,
              )
              (grind (int_laws, p.liquid, extended, taken));
      }
