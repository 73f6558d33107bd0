-- ===== src/Dex/Pool/Funds.antt =====
-- v0/pool_state_ex.rs: releasing the ticks of a position leaves the funds of the pool alone.
use veax.Base.{ℕ, ◌≡◌, refl, ◌∙◌, Bool, List, true, false, not, nat_beq, if◌then◌else◌, subst}
use veax.Base.Eq.{nat_eq}
use veax.Base.Int.{ℤ, pos, ◌+ℤ◌, ◌-ℤ◌}
use veax.Maps.Entries.{lookup, put, erase, has}
use veax.Dex.Tick.{Tick}
use veax.Dex.Pool.{
  Pool, Position, TickState, tick_eq, set_level, sub_words, signed_words, num_fee_levels,
}
use veax.Dex.Pool.Ticks.{Ordering, less, equal, greater, cmp_spot_price_to_position_range}
use veax.Dex.Pool.Closing.{
  Prices, reduce_where, reduce_liquidity, with_states, remove_tick, renew_next, release_state,
  release_tick, reset_if_empty, contains_any_positions, all_none, release,
}
use veax.Errors.{
  ok, ◌>>=◌, ◌>>◌, bind-ok, ensure_here, ensure_here-ok, ok_or, ok_injective, ErrorKind,
}

-- The funds of a pool: what it has, and what it owes.
pub record SameFunds {F : Type 0} (p q : Pool F) : Type 0 where
  pub total : q.total_reserves ≡ p.total_reserves
  pub reserves : q.position_reserves ≡ p.position_reserves
  pub fees : q.acc_lp_fee ≡ p.acc_lp_fee

module _ {F : Type 0} where
  SameFunds-trans : (p q r : Pool F) → SameFunds p q → SameFunds q r → SameFunds p r
  SameFunds-trans p q r a b = record {
    total = b.total ∙ a.total;
    reserves = b.reserves ∙ a.reserves;
    fees = b.fees ∙ a.fees;
  }

  SameFunds-ok : (p q r : Pool F) → ok r ≡ ok q → SameFunds p r → SameFunds p q
  SameFunds-ok p q r e same = subst (SameFunds p) (ok_injective e) same

  reduce_where-SameFunds :
      (p q : Pool F) (level net : ℕ) (place : Ordering)
      → reduce_where p level net place ≡ ok q
      → SameFunds p q
  unfolding reduce_where
  reduce_where-SameFunds p q level net equal run =
      let changed =
        λ (rest : ℕ). record p { net_liquidities = set_level p.net_liquidities level rest } in
      let (rest, _, e) =
        bind-ok (sub_words (p.net_liquidities level) net) (λ rest. ok (changed rest)) q run in
      SameFunds-ok p q (changed rest) e (record { total = refl; reserves = refl; fees = refl })
  reduce_where-SameFunds p q level net less run =
      SameFunds-ok p q p run (record { total = refl; reserves = refl; fees = refl })
  reduce_where-SameFunds p q level net greater run =
      SameFunds-ok p q p run (record { total = refl; reserves = refl; fees = refl })

  reduce_liquidity-SameFunds :
      (p q : Pool F) (level net : ℕ) (range : Tick × Tick)
      → reduce_liquidity p level range net ≡ ok q
      → SameFunds p q
  unfolding reduce_liquidity
  reduce_liquidity-SameFunds p q level net range run =
      let (place, _, e) =
        bind-ok (cmp_spot_price_to_position_range p level range)
          (λ place. reduce_where p level net place) q run in
      reduce_where-SameFunds p q level net place e

  remove_tick-SameFunds :
      (p q : Pool F) (level : ℕ) (tick : Tick) → remove_tick p level tick ≡ ok q → SameFunds p q
  unfolding remove_tick with_states renew_next
  remove_tick-SameFunds p q level tick run =
      let r = with_states p level (erase tick (p.tick_states level)) in
      let (_, e) =
        ensure_here-ok (not (has tick (r.tick_states level))) ErrorKind.internal_tick_not_deleted
          (ok (renew_next r level tick)) q run in
      SameFunds-ok p q (renew_next r level tick) e
        (record { total = refl; reserves = refl; fees = refl })

  counted-SameFunds :
      (p q : Pool F) (level : ℕ) (tick : Tick) (states : List (Tick × TickState)) (gone : Bool)
      → (if gone
          then remove_tick (with_states p level states) level tick
          else ok (with_states p level states))
        ≡ ok q
      → SameFunds p q
  unfolding with_states
  counted-SameFunds p q level tick states true run =
      let r = with_states p level states in
      SameFunds-trans p r q (record { total = refl; reserves = refl; fees = refl })
        (remove_tick-SameFunds r q level tick run)
  counted-SameFunds p q level tick states false run =
      SameFunds-ok p q (with_states p level states) run
        (record { total = refl; reserves = refl; fees = refl })

  release_state-SameFunds :
      (p q : Pool F) (level : ℕ) (tick : Tick) (is_lower : Bool) (net : ℕ) (s : TickState)
      → release_state p level tick is_lower net s ≡ ok q
      → SameFunds p q
  unfolding release_state
  release_state-SameFunds p q level tick is_lower net s run =
      let states = λ (change : ℤ) (count : ℕ).
        put tick (record s { net_liquidity_change = change; reference_counter = count })
          (p.tick_states level) in
      let finish = λ (change : ℤ) (count : ℕ).
        if nat_beq count 0
        then remove_tick (with_states p level (states change count)) level tick
        else ok (with_states p level (states change count)) in
      let changed = signed_words (
        if is_lower
        then s.net_liquidity_change -ℤ pos net
        else s.net_liquidity_change +ℤ pos net) in
      let (change, _, h) =
        bind-ok changed (λ change. sub_words s.reference_counter 1 >>= λ count. finish change count)
          q run in
      let (count, _, e) =
        bind-ok (sub_words s.reference_counter 1) (λ count. finish change count) q h in
      counted-SameFunds p q level tick (states change count) (nat_beq count 0) e

  release_tick-SameFunds :
      (p q : Pool F) (level : ℕ) (tick : Tick) (is_lower : Bool) (net : ℕ)
      → release_tick p level tick is_lower net ≡ ok q
      → SameFunds p q
  unfolding release_tick
  release_tick-SameFunds p q level tick is_lower net run =
      let (s, _, e) =
        bind-ok (ok_or (lookup tick (p.tick_states level)) ErrorKind.internal_tick_not_found)
          (λ s. release_state p level tick is_lower net s) q run in
      release_state-SameFunds p q level tick is_lower net s e

  reset_where-SameFunds :
      (p q reset : Pool F) (some_left left_none right_none : Bool)
      → SameFunds p reset
      → (if some_left
          then ok p
          else ensure_here left_none ErrorKind.internal_logic_error
            >> (ensure_here right_none ErrorKind.internal_logic_error >> ok reset))
        ≡ ok q
      → SameFunds p q
  reset_where-SameFunds p q reset true left_none right_none same e =
      SameFunds-ok p q p e (record { total = refl; reserves = refl; fees = refl })
  reset_where-SameFunds p q reset false left_none right_none same e =
      let (_, h) =
        ensure_here-ok left_none ErrorKind.internal_logic_error
          (ensure_here right_none ErrorKind.internal_logic_error >> ok reset) q e in
      let (_, k) = ensure_here-ok right_none ErrorKind.internal_logic_error (ok reset) q h in
      SameFunds-ok p q reset k same

module _ (prices : Prices) where
  open prices use {F, zero_price}

  reset_if_empty-SameFunds : (p q : Pool F) → reset_if_empty prices p ≡ ok q → SameFunds p q
  unfolding reset_if_empty
  reset_if_empty-SameFunds p q run =
      reset_where-SameFunds p q
        (record p { eff_sqrtprices = λ _. (zero_price, zero_price); top_active_level = 0 })
        (contains_any_positions p) (all_none p.next_active_ticks_left num_fee_levels 0)
        (all_none p.next_active_ticks_right num_fee_levels 0)
        (record { total = refl; reserves = refl; fees = refl }) run

  pub release-SameFunds :
      (p q : Pool F) (position : Position F) → release prices p position ≡ ok q → SameFunds p q
  unfolding release
  release-SameFunds p q position run =
      let level = position.fee_level in
      let net = position.net_liquidity in
      let low = position.tick_bounds.0 in
      let high = position.tick_bounds.1 in
      let (p1, e1, h1) =
        bind-ok (reduce_liquidity p level position.tick_bounds net)
          (λ a. release_tick a level low true net >>= λ b.
            release_tick b level high false net >>= λ c. reset_if_empty prices c)
          q run in
      let (p2, e2, h2) =
        bind-ok (release_tick p1 level low true net)
          (λ b. release_tick b level high false net >>= λ c. reset_if_empty prices c) q h1 in
      let (p3, e3, h3) =
        bind-ok (release_tick p2 level high false net) (λ c. reset_if_empty prices c) q h2 in
      SameFunds-trans p p1 q (reduce_liquidity-SameFunds p p1 level net position.tick_bounds e1) (
        SameFunds-trans p1 p2 q (release_tick-SameFunds p1 p2 level low true net e2) (
          SameFunds-trans p2 p3 q (release_tick-SameFunds p2 p3 level high false net e3)
            (reset_if_empty-SameFunds p3 q h3)))
