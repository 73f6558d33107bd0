-- ===== src/Dex/Tick/Range.antt =====
-- dex/tick.rs: open ends of a range of ticks.
use veax.Base.{◌≡◌, refl, true, none, some, arith, if◌then◌else◌}
use veax.Base.Int.{leb_ℤ}
use veax.Errors.{ok}
use veax.Dex.Tick.{Tick, is_valid, new, bound_or, unwrap_range, wrap_range, min_tick, max_tick}

bound_or-low :
    (t : Tick)
    → is_valid t.index ≡ true
    → bound_or (if leb_ℤ t.index min_tick then none else some t.index) min_tick ≡ ok t
unfolding new
bound_or-low t valid = ground arith

bound_or-high :
    (t : Tick)
    → is_valid t.index ≡ true
    → bound_or (if leb_ℤ max_tick t.index then none else some t.index) max_tick ≡ ok t
unfolding new
bound_or-high t valid = ground arith

-- A pair of valid ticks, written with open ends for the lowest and the highest tick, is read back
-- as the same pair.
pub unwrap_range-wrap_range :
    (low high : Tick)
    → is_valid low.index ≡ true
    → is_valid high.index ≡ true
    → unwrap_range (wrap_range (low, high)) ≡ ok (low, high)
unfolding unwrap_range wrap_range
unwrap_range-wrap_range low high valid other =
    rw (bound_or-low low valid, bound_or-high high other) refl
