-- ===== src/Dex/Pool/Ranges.antt =====
-- v0/pool_state_ex.rs: where the price stands to a range of active ticks, and the fees of a range as
-- a difference of the fees below its two ticks.
use veax.Base.{ℕ, ◌≡◌, refl, Bool, true, false, not, Option, none, some, arith, if◌then◌else◌, ltb}
use veax.Base.Int.{ℤ, ◌-ℤ◌, int_laws}
use veax.Maps.Entries.{lookup, has}
use veax.Dex.Tick.{Tick}
use veax.Dex.Side.{left, right}
use veax.Dex.Pool.{Pool, tick_eq, signed_words, num_fee_levels}
use veax.Dex.Pool.Ticks.{
  Ordering, less, equal, greater, tick_lt, compare_range, cmp_spot_price_to_position_range,
}
use veax.Dex.Pool.Fees.{
  outside_of, range_fee, acc_lp_fee_per_fee_liquidity, acc_lp_fees_per_fee_liquidity,
  acc_range_lp_fees_per_fee_liquidity,
}
use veax.Dex.Pool.Liquidity.{is_below, is_above}
use veax.Dex.Pool.Placed.{IsPlaced}
use veax.Errors.{Outcome, ok, ◌>>=◌, bind-ok}

-- The place of the price, from whether the lower and the upper tick are at or below it.
abbrev pub place_of : Bool → Bool → Ordering
place_of true true = greater
place_of true false = equal
place_of false b = less

compare_range-place_of :
    (l r : Option Tick) (low high : Tick)
    → tick_lt low high ≡ true
    → is_below r low ≡ not (is_above l low)
    → is_below r high ≡ not (is_above l high)
    → compare_range l r (low, high) ≡ ok (place_of (is_below r low) (is_below r high))
unfolding compare_range
compare_range-place_of none none low high h p q = ground arith
compare_range-place_of none (some r) low high h p q = ground arith
compare_range-place_of (some l) none low high h p q = ground arith
compare_range-place_of (some l) (some r) low high h p q = ground arith

module _ {F : Type 0} (p : Pool F) (level : ℕ) (low high : Tick) where
  -- For a level in order and a range of two of its ticks, the lower one first, the price is
  -- compared with the range without an error: it is above the range where both ticks are at or
  -- below the next tick on the right side, in the range where the lower one alone is, and below it
  -- where neither is.
  pub cmp_spot_price_to_position_range-place_of :
      ltb level num_fee_levels ≡ true
      → IsPlaced p level
      → has low (p.tick_states level) ≡ true
      → has high (p.tick_states level) ≡ true
      → tick_lt low high ≡ true
      → cmp_spot_price_to_position_range p level (low, high)
        ≡ ok (
            place_of
              (is_below (p.next_active_ticks_right level) low)
              (is_below (p.next_active_ticks_right level) high))
  unfolding cmp_spot_price_to_position_range
  cmp_spot_price_to_position_range-place_of inside placed l h order =
      rw inside
        (compare_range-place_of _ _ low high order (placed.sided low l) (placed.sided high h))

-- The fees below a tick of which `outside` are stored, where `global` is the fee of all time: the stored
-- fees lie on the side of the tick where the price does not stand.
abbrev pub fee_below : Bool → ℤ → ℤ → ℤ
fee_below below global outside = if below then outside else global -ℤ outside

pub signed_words-ok : (a v : ℤ) → signed_words a ≡ ok v → v ≡ a
signed_words-ok a v h = ground arith

range_fee-difference :
    (g v low high : ℤ) (below_low below_high : Bool) (global : Outcome ℤ)
    → global ≡ ok g
    → (below_high ≡ true → below_low ≡ true)
    → range_fee global low high (place_of below_low below_high) ≡ ok v
    → v ≡ fee_below below_high g high -ℤ fee_below below_low g low
unfolding range_fee
range_fee-difference g v low high true true global e order h = signed_words-ok _ v h
range_fee-difference g v low high true false global e order h =
    let h' : (signed_words (g -ℤ low) >>= λ d. signed_words (d -ℤ high)) ≡ ok v = rw e at h in
    let (d, first, second) =
      bind-ok (signed_words (g -ℤ low)) (λ d. signed_words (d -ℤ high)) v h' in
    let d_is = signed_words-ok (g -ℤ low) d first in
    let v_is = signed_words-ok (d -ℤ high) v second in grind (int_laws, d_is, v_is)
range_fee-difference g v low high false true global e order h = absurd (ground (arith, order refl))
range_fee-difference g v low high false false global e order h =
    let v_is = signed_words-ok (low -ℤ high) v h in grind (int_laws, v_is)

below_mono :
    (l r : Option Tick) (low high : Tick)
    → tick_lt low high ≡ true
    → is_below r high ≡ true
    → is_below r low ≡ true
below_mono l none low high h p = ground arith
below_mono l (some r) low high h p = ground arith

-- The fees of the two sides below a tick.
abbrev pub fees_below : {F : Type 0} → Pool F → ℕ → ℤ × ℤ → Tick → ℤ × ℤ
fees_below p level global t = (
  fee_below (is_below (p.next_active_ticks_right level) t) global.0
      (outside_of (lookup t (p.tick_states level))).0,
  fee_below (is_below (p.next_active_ticks_right level) t) global.1
      (outside_of (lookup t (p.tick_states level))).1,
)

module _ {F : Type 0} (p : Pool F) (level : ℕ) (low high : Tick) (global v : ℤ × ℤ) where
  -- Take as the fees below a tick those stored with it, where it is at or below the next tick on
  -- the right side, and else the fees of all time less those. For a level in order and a range of
  -- two of its ticks, the lower one first: the fee per liquidity of the range, where it is given,
  -- is for both sides the difference of the fees below its upper and below its lower tick,
  -- wherever the price stands.
  pub acc_range-fees_below :
      ltb level num_fee_levels ≡ true
      → IsPlaced p level
      → has low (p.tick_states level) ≡ true
      → has high (p.tick_states level) ≡ true
      → tick_lt low high ≡ true
      → acc_lp_fees_per_fee_liquidity p level ≡ ok global
      → acc_range_lp_fees_per_fee_liquidity p level (low, high) ≡ ok v
      → (v.0 ≡ (fees_below p level global high).0 -ℤ (fees_below p level global low).0)
        × (v.1 ≡ (fees_below p level global high).1 -ℤ (fees_below p level global low).1)
  unfolding acc_range_lp_fees_per_fee_liquidity acc_lp_fees_per_fee_liquidity
  acc_range-fees_below inside placed l h order all run =
      let lower = outside_of (lookup low (p.tick_states level)) in
      let upper = outside_of (lookup high (p.tick_states level)) in
      let gl = acc_lp_fee_per_fee_liquidity p left level in
      let gr = acc_lp_fee_per_fee_liquidity p right level in
      let below = is_below (p.next_active_ticks_right level) in
      let (a, first, more) = bind-ok gl (λ a. gr >>= λ b. ok (a, b)) global all in
      let (b, second, both) = bind-ok gr (λ b. ok (a, b)) global more in
      let place = place_of (below low) (below high) in
      let run' : (range_fee gl lower.0 upper.0 place >>= λ x.
      range_fee gr lower.1 upper.1 place >>= λ y. ok (x, y))
          ≡ ok v =
        rw (cmp_spot_price_to_position_range-place_of p level low high inside placed l h order) at
          run in
      let (x, left_ok, rest) =
        bind-ok (range_fee gl lower.0 upper.0 place)
          (λ x. range_fee gr lower.1 upper.1 place >>= λ y. ok (x, y)) v run' in
      let (y, right_ok, out) =
        bind-ok (range_fee gr lower.1 upper.1 place) (λ y. ok (x, y)) v rest in
      let mono =
        below_mono (p.next_active_ticks_left level) (p.next_active_ticks_right level) low high
          order in
      let vx : v.0 ≡ x = ground arith in
      let vy : v.1 ≡ y = ground arith in
      let ga : global.0 ≡ a = ground arith in
      let gb : global.1 ≡ b = ground arith in
      (
        rw (vx, ga)
            (range_fee-difference a x lower.0 upper.0 (below low) (below high) gl first mono
              left_ok),
        rw (vy, gb)
            (range_fee-difference b y lower.1 upper.1 (below low) (below high) gr second mono
              right_ok),
      )
