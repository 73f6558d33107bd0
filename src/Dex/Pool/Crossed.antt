-- ===== src/Dex/Pool/Crossed.antt =====
-- v0/pool_state_ex.rs: a crossing of the next tick keeps the place of the price.
use veax.Base.{
  ℕ, ◌≡◌, refl, false, Option, some, arith, nat_beq, nat_beq_iff, subst, Bool-cases, inl, inr,
}
use veax.Base.Int.{ℤ}
use veax.Maps.Entries.{lookup, lookup-has, lookup-some}
use veax.Dex.Tick.{Tick}
use veax.Dex.Side.{Side, left, right}
use veax.Dex.Pool.{Pool, TickState, tick_eq, set_level, at_level}
use veax.Dex.Pool.Ticks.{find_next_active_tick_on_level}
use veax.Dex.Pool.Fees.{acc_lp_fees_per_fee_liquidity}
use veax.Dex.Pool.Crossing.{
  directed_change, apply_change, flip_outside, with_crossed, cross_state, cross_entry, advance,
  cross_tick,
}
use veax.Dex.Pool.Placed.{Placed, IsPlaced, Placed-left, Placed-right, apply_change-ok}
use veax.Errors.{Outcome, ok, ◌>>=◌, bind-ok}

pub set_level-same : {A : Type 0} (levels : ℕ → A) (i : ℕ) (a : A) → set_level levels i a i ≡ a
unfolding set_level
set_level-same levels i a = rw ((nat_beq_iff i i).1 refl) refl

pub set_level-other :
    {A : Type 0} (levels : ℕ → A) (i j : ℕ) (a : A)
    → nat_beq i j ≡ false
    → set_level levels i a j ≡ levels j
unfolding set_level
set_level-other levels i j a h = rw h refl

-- A successful crossing of a tick that is there.
pub record Crossed {F : Type 0} (p q : Pool F) (level : ℕ) (x : Tick) (side : Side) (u : TickState)
    : Type 0 where
  pub acc : ℤ × ℤ
  pub after : TickState
  pub net : ℕ
  pub global : acc_lp_fees_per_fee_liquidity p level ≡ ok acc
  pub moved : apply_change (p.net_liquidities level) (directed_change side u) ≡ ok net
  pub flipped : flip_outside acc u ≡ ok after
  pub result : q ≡ advance (with_crossed p level x net after) level x side

at_level-ok : {A : Type 0} (level : ℕ) (k : Outcome A) (a : A) → at_level level k ≡ ok a → k ≡ ok a
at_level-ok level k a h = ground arith

ok-injective : {A : Type 0} {a b : A} → ok a ≡ ok b → a ≡ b
ok-injective h = cc

module _ {F : Type 0} (p q : Pool F) (level : ℕ) (x : Tick) (side : Side) (u : TickState) where
  pub cross_tick-Crossed :
      lookup x (p.tick_states level) ≡ some u
      → cross_tick p level x side ≡ ok q
      → Crossed p q level x side u
  unfolding cross_tick cross_entry cross_state
  cross_tick-Crossed there run =
      let finish = λ (r : Pool F). ok (advance r level x side) in
      let (acc, global, h) =
        bind-ok (acc_lp_fees_per_fee_liquidity p level)
          (λ a.
            at_level level
              (cross_entry p level x side a (lookup x (p.tick_states level)) >>= finish))
          q run in
      let (r, crossed, e) =
        bind-ok (cross_entry p level x side acc (lookup x (p.tick_states level))) finish q
          (at_level-ok level _ q h) in
      let crossed' : cross_state p level x side acc u ≡ ok r =
        subst (λ o. cross_entry p level x side acc o ≡ ok r) there crossed in
      let (net, moved, g) =
        bind-ok (apply_change (p.net_liquidities level) (directed_change side u))
          (λ n. flip_outside acc u >>= λ f. ok (with_crossed p level x n f)) r crossed' in
      let (after, flipped, d) =
        bind-ok (flip_outside acc u) (λ f. ok (with_crossed p level x net f)) r g in
      record {
        acc = acc;
        after = after;
        net = net;
        global = global;
        moved = moved;
        flipped = flipped;
        result = cc;
      }

flip_outside-change :
    (acc : ℤ × ℤ) (u s : TickState)
    → flip_outside acc u ≡ ok s
    → s.net_liquidity_change ≡ u.net_liquidity_change
unfolding flip_outside
flip_outside-change acc u s h = ground arith

-- The tick that a swap crosses is the next one in its direction.
abbrev pub next_tick : {F : Type 0} → Pool F → ℕ → Side → Option Tick
next_tick p level left = p.next_active_ticks_left level
next_tick p level right = p.next_active_ticks_right level

module _ {F : Type 0} (p q : Pool F) (level : ℕ) (x : Tick) where
  after_left :
      (u : TickState)
      → p.next_active_ticks_left level ≡ some x
      → IsPlaced p level
      → lookup x (p.tick_states level) ≡ some u
      → Crossed p q level x left u
      → IsPlaced q level
  unfolding advance with_crossed find_next_active_tick_on_level directed_change set_level
  after_left u next placed there c =
      let here = lookup-has x u (p.tick_states level) there in
      let placed' =
        subst
          (λ o.
            Placed o (p.next_active_ticks_right level) (p.tick_states level)
              (p.net_liquidities level))
          next placed in
      rw (c.result, (nat_beq_iff level level).1 refl, next, here)
        (Placed-left x c.after u (p.tick_states level) c.net (p.net_liquidities level) _ placed'
          there (flip_outside-change c.acc u c.after c.flipped) (apply_change-ok _ _ _ c.moved))

  after_right :
      (u : TickState)
      → p.next_active_ticks_right level ≡ some x
      → IsPlaced p level
      → lookup x (p.tick_states level) ≡ some u
      → Crossed p q level x right u
      → IsPlaced q level
  unfolding advance with_crossed find_next_active_tick_on_level directed_change set_level
  after_right u next placed there c =
      let here = lookup-has x u (p.tick_states level) there in
      let placed' =
        subst
          (λ o.
            Placed (p.next_active_ticks_left level) o (p.tick_states level)
              (p.net_liquidities level))
          next placed in
      rw (c.result, (nat_beq_iff level level).1 refl, next, here)
        (Placed-right x c.after u (p.tick_states level) c.net (p.net_liquidities level) _ placed'
          there (flip_outside-change c.acc u c.after c.flipped) (apply_change-ok _ _ _ c.moved))

module _ {F : Type 0} (p q : Pool F) (level : ℕ) (x : Tick) where
  -- A crossing changes nothing on another level.
  after_other :
      (side : Side) (u : TickState) (j : ℕ)
      → nat_beq level j ≡ false
      → Crossed p q level x side u
      → IsPlaced p j
      → IsPlaced q j
  unfolding advance with_crossed set_level
  after_other left u j apart c placed = rw (c.result, apart) placed
  after_other right u j apart c placed = rw (c.result, apart) placed

  after_here :
      (side : Side) (u : TickState)
      → next_tick p level side ≡ some x
      → IsPlaced p level
      → lookup x (p.tick_states level) ≡ some u
      → Crossed p q level x side u
      → IsPlaced q level
  after_here left u next placed there c = after_left p q level x u next placed there c
  after_here right u next placed there c = after_right p q level x u next placed there c

  pub next_tick-there :
      (side : Side)
      → next_tick p level side ≡ some x
      → IsPlaced p level
      → (u : TickState) × (lookup x (p.tick_states level) ≡ some u)
  next_tick-there left next placed = lookup-some x (p.tick_states level) (placed.above_there x next)
  next_tick-there right next placed =
      lookup-some x (p.tick_states level) (placed.below_there x next)

  -- A level is in order where its ticks have different indices, every tick is either at or below
  -- the next tick on the right side or at or above the one on the left, those two are ticks of the
  -- level, and the liquidity is the sum of the changes of the ticks below the price. For a level
  -- in order, where passing the next tick of the direction of a swap succeeds, every level that
  -- was in order is so afterwards.
  pub cross_tick-IsPlaced :
      (side : Side) (j : ℕ)
      → next_tick p level side ≡ some x
      → IsPlaced p level
      → IsPlaced p j
      → cross_tick p level x side ≡ ok q
      → IsPlaced q j
  cross_tick-IsPlaced side j next placed placed_j run =
      let (u, there) = next_tick-there side next placed in
      let c = cross_tick-Crossed p q level x side u there run in
      elim (Bool-cases (nat_beq level j)) [
        | inl e ↦
            let same : level ≡ j = (nat_beq_iff level j).0 e in
            subst (IsPlaced q) same (after_here side u next placed there c)
        | inr e ↦ after_other side u j e c placed_j
      ]
