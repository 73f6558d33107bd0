-- ===== src/Dex/Pool/CrossedFees.antt =====
-- v0/pool_state_ex.rs: a crossing keeps the fees below every active tick, and so those of every range.
use veax.Base.{
  ℕ, ◌≡◌, refl, ◌∙◌, Bool, true, false, not, some, arith, if◌then◌else◌, ltb, nat_beq_iff,
  Bool-cases, inl, inr, subst,
}
use veax.Base.Int.{ℤ, ◌-ℤ◌, int_laws}
use veax.Base.Eq.{◌==◌, eq_of_beq}
use veax.Maps.Entries.{lookup, has, lookup-put, lookup-has, has-replace}
use veax.Dex.Tick.{Tick}
use veax.Dex.Side.{Side, left, right}
use veax.Dex.Pool.{Pool, TickState, tick_eq, set_level, num_fee_levels}
use veax.Dex.Pool.Ticks.{tick_lt, find_next_active_tick_on_level}
use veax.Dex.Pool.Fees.{
  acc_lp_fee_per_fee_liquidity, acc_lp_fees_per_fee_liquidity, acc_range_lp_fees_per_fee_liquidity,
}
use veax.Dex.Pool.Crossing.{flip_outside, with_crossed, advance, cross_tick}
use veax.Dex.Pool.Liquidity.{is_below, is_above, key_below-nearest}
use veax.Dex.Pool.Placed.{IsPlaced, key_below-replace}
use veax.Dex.Pool.Crossed.{
  Crossed, cross_tick-Crossed, next_tick, next_tick-there, cross_tick-IsPlaced,
}
use veax.Dex.Pool.Ranges.{fee_below, fees_below, acc_range-fees_below}
use veax.Errors.{ok}

flip_outside-ok :
    (acc : ℤ × ℤ) (u s : TickState)
    → flip_outside acc u ≡ ok s
    → (s.acc_lp_fees_per_fee_liquidity_outside.0
        ≡ acc.0 -ℤ u.acc_lp_fees_per_fee_liquidity_outside.0)
      × (s.acc_lp_fees_per_fee_liquidity_outside.1
          ≡ acc.1 -ℤ u.acc_lp_fees_per_fee_liquidity_outside.1)
unfolding flip_outside
flip_outside-ok acc u s h = (ground arith, ground arith)

flip_back : (acc o o' : ℤ) → o' ≡ acc -ℤ o → acc -ℤ o' ≡ o
flip_back acc o o' h = grind (int_laws, h)

-- The fees of the two sides below a tick that stores `outside`.
abbrev fees_at : Bool → ℤ × ℤ → ℤ × ℤ → ℤ × ℤ
fees_at below global outside =
    (fee_below below global.0 outside.0, fee_below below global.1 outside.1)

fees_at-flipped :
    (below : Bool) (acc : ℤ × ℤ) (u s : TickState)
    → flip_outside acc u ≡ ok s
    → fees_at (not below) acc s.acc_lp_fees_per_fee_liquidity_outside
      ≡ fees_at below acc u.acc_lp_fees_per_fee_liquidity_outside
fees_at-flipped true acc u s h =
    let (l, r) = flip_outside-ok acc u s h in
    let l' = flip_back acc.0 u.acc_lp_fees_per_fee_liquidity_outside.0 _ l in
    let r' = flip_back acc.1 u.acc_lp_fees_per_fee_liquidity_outside.1 _ r in ground (arith, l', r')
fees_at-flipped false acc u s h = let (l, r) = flip_outside-ok acc u s h in ground (arith, l, r)

difference_same :
    (v w a a' b b' : ℤ × ℤ)
    → v.0 ≡ a.0 -ℤ b.0
    → v.1 ≡ a.1 -ℤ b.1
    → w.0 ≡ a'.0 -ℤ b'.0
    → w.1 ≡ a'.1 -ℤ b'.1
    → a' ≡ a
    → b' ≡ b
    → w ≡ v
difference_same (v0, v1) (w0, w1) a a' b b' h0 h1 k0 k1 e f = rw (k0, k1, h0, h1, e, f) refl

module _ {F : Type 0} (p q : Pool F) (level : ℕ) (x : Tick) where
  global_same :
      (side : Side) (u : TickState) (j : ℕ)
      → Crossed p q level x side u
      → acc_lp_fees_per_fee_liquidity q j ≡ acc_lp_fees_per_fee_liquidity p j
  unfolding acc_lp_fees_per_fee_liquidity acc_lp_fee_per_fee_liquidity advance with_crossed
  global_same left u j c = rw c.result refl
  global_same right u j c = rw c.result refl

  -- The tick that is crossed changes sides, and no other does.
  turned_left :
      (t : Tick) (u : TickState)
      → p.next_active_ticks_left level ≡ some x
      → IsPlaced p level
      → has t (p.tick_states level) ≡ true
      → Crossed p q level x left u
      → is_below (q.next_active_ticks_right level) t ≡ (
          if t == x
          then not (is_below (p.next_active_ticks_right level) t)
          else is_below (p.next_active_ticks_right level) t)
  unfolding advance with_crossed set_level
  turned_left t u next placed active c =
      let side : is_below (p.next_active_ticks_right level) t ≡ not (is_above (some x) t) =
        subst (λ o. is_below (p.next_active_ticks_right level) t ≡ not (is_above o t)) next
          (placed.sided t active) in
      rw (c.result, (nat_beq_iff level level).1 refl, next, side) (ground arith)

  turned_right :
      (t : Tick) (u : TickState)
      → p.next_active_ticks_right level ≡ some x
      → IsPlaced p level
      → has x (p.tick_states level) ≡ true
      → has t (p.tick_states level) ≡ true
      → Crossed p q level x right u
      → is_below (q.next_active_ticks_right level) t ≡ (
          if t == x
          then not (is_below (p.next_active_ticks_right level) t)
          else is_below (p.next_active_ticks_right level) t)
  unfolding advance with_crossed set_level find_next_active_tick_on_level
  turned_right t u next placed here active c =
      rw
        (
          c.result,
          (nat_beq_iff level level).1 refl,
          here,
          key_below-replace,
          key_below-nearest x t (p.tick_states level) active,
          next,
        )
        (ground arith)

  states_of :
      (side : Side) (u : TickState) (t : Tick)
      → (c : Crossed p q level x side u)
      → lookup t (q.tick_states level)
        ≡ (if t == x then some c.after else lookup t (p.tick_states level))
  unfolding advance with_crossed set_level
  states_of left u t c =
      rw (c.result, (nat_beq_iff level level).1 refl) (lookup-put t x c.after (p.tick_states level))
  states_of right u t c =
      rw (c.result, (nat_beq_iff level level).1 refl) (lookup-put t x c.after (p.tick_states level))

  has_same :
      (side : Side) (u : TickState) (t : Tick)
      → lookup x (p.tick_states level) ≡ some u
      → Crossed p q level x side u
      → has t (q.tick_states level) ≡ has t (p.tick_states level)
  unfolding advance with_crossed set_level
  has_same left u t there c =
      rw (c.result, (nat_beq_iff level level).1 refl, lookup-has x u (p.tick_states level) there)
        (has-replace t x c.after (p.tick_states level))
  has_same right u t there c =
      rw (c.result, (nat_beq_iff level level).1 refl, lookup-has x u (p.tick_states level) there)
        (has-replace t x c.after (p.tick_states level))

  turned :
      (side : Side) (t : Tick) (u : TickState)
      → next_tick p level side ≡ some x
      → IsPlaced p level
      → lookup x (p.tick_states level) ≡ some u
      → has t (p.tick_states level) ≡ true
      → Crossed p q level x side u
      → is_below (q.next_active_ticks_right level) t ≡ (
          if t == x
          then not (is_below (p.next_active_ticks_right level) t)
          else is_below (p.next_active_ticks_right level) t)
  turned left t u next placed there active c = turned_left t u next placed active c
  turned right t u next placed there active c =
      turned_right t u next placed (lookup-has x u (p.tick_states level) there) active c

  fees_below_same :
      (side : Side) (t : Tick) (u : TickState)
      → next_tick p level side ≡ some x
      → IsPlaced p level
      → lookup x (p.tick_states level) ≡ some u
      → has t (p.tick_states level) ≡ true
      → (c : Crossed p q level x side u) → fees_below q level c.acc t ≡ fees_below p level c.acc t
  fees_below_same side t u next placed there active c =
      let turn = turned side t u next placed there active c in
      let state = states_of side u t c in
      elim (Bool-cases (t == x)) [
        | inl e ↦
            let same : t ≡ x = eq_of_beq t x e in
            let found : lookup t (p.tick_states level) ≡ some u = rw same there in
            rw (turn, state, e, found)
              (fees_at-flipped (is_below (p.next_active_ticks_right level) t) c.acc u c.after
                c.flipped)
        | inr e ↦ rw (turn, state, e) refl
      ]

  -- For a level in order and a range of two of its ticks, the lower one first: where passing the
  -- next tick of the direction of a swap succeeds, the fee per liquidity in the range, where it is
  -- given before and afterwards, is the same.
  pub cross_tick-range :
      (side : Side) (low high : Tick) (v w : ℤ × ℤ)
      → ltb level num_fee_levels ≡ true
      → next_tick p level side ≡ some x
      → IsPlaced p level
      → cross_tick p level x side ≡ ok q
      → has low (p.tick_states level) ≡ true
      → has high (p.tick_states level) ≡ true
      → tick_lt low high ≡ true
      → acc_range_lp_fees_per_fee_liquidity p level (low, high) ≡ ok v
      → acc_range_lp_fees_per_fee_liquidity q level (low, high) ≡ ok w
      → w ≡ v
  cross_tick-range side low high v w inside next placed run l h order before after =
      let (u, there) = next_tick-there p q level x side next placed in
      let c = cross_tick-Crossed p q level x side u there run in
      let placed' = cross_tick-IsPlaced p q level x side level next placed placed run in
      let global' : acc_lp_fees_per_fee_liquidity q level ≡ ok c.acc =
        global_same side u level c ∙ c.global in
      let l' = has_same side u low there c ∙ l in
      let h' = has_same side u high there c ∙ h in
      let (v0, v1) =
        acc_range-fees_below p level low high c.acc v inside placed l h order c.global before in
      let (w0, w1) =
        acc_range-fees_below q level low high c.acc w inside placed' l' h' order global' after in
      let low_same = fees_below_same side low u next placed there l c in
      let high_same = fees_below_same side high u next placed there h c in
      difference_same v w _ _ _ _ v0 v1 w0 w1 high_same low_same
