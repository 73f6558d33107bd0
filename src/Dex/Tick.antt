-- ===== src/Dex/Tick.antt =====
-- veax/dex/src/dex/tick.rs: points on the price scale, on the scale of spot prices and on that of
-- effective prices. The bounds are those of chain/mod.rs, the ticks of a fee level `fee_rate_ticks` of
-- dex/dex_impl/mod.rs.
pub mod Convert
pub mod Range
pub mod Price
pub mod Examples
use veax.Base.{
  ℕ, zero, suc, ◌+◌, ◌-◌, ◌/◌, ◌%◌, ◌^◌, Bool, ◌&&◌, Option, none, some, List, [], ◌∷◌, ltb,
  nat_beq, if◌then◌else◌, map, get_elem?,
}
use veax.Base.Int.{ℤ, pos, negsuc, pos_part, neg_part, ◌+ℤ◌, ◌-ℤ◌, neg, leb_ℤ, ltb_ℤ}
use veax.Dex.Side.{Side, left, right}
use veax.Errors.{Outcome, ok, panicked, err, ◌>>=◌, ErrorKind, unwrap_ok}

abbrev pub max_tick : ℤ
max_tick = pos 887273

abbrev pub min_tick : ℤ
min_tick = negsuc 887272

-- min_tick - 2 ^ (NUM_FEE_LEVELS - 1) and max_tick + 2 ^ (NUM_FEE_LEVELS - 1), for 8 levels.
abbrev pub min_eff_tick : ℤ
min_eff_tick = negsuc 887400

abbrev pub max_eff_tick : ℤ
max_eff_tick = pos 887401

-- An `i32` result: an overflow panics.
abbrev pub i32 : ℤ → Outcome ℤ
i32 a = if leb_ℤ (negsuc 2147483647) a && leb_ℤ a (pos 2147483647) then ok a else panicked

-- `2_u16.pow(level)`
unfoldable pub fee_rate_ticks : ℕ → Outcome ℕ
fee_rate_ticks level = if ltb level 16 then ok (2 ^ level) else panicked

pub record Tick : Type 0 where
  pub index : ℤ

pub record EffTick : Type 0 where
  pub index : ℤ

abbrev pub is_valid : ℤ → Bool
is_valid value = leb_ℤ min_tick value && leb_ℤ value max_tick

unfoldable pub new : ℤ → Outcome Tick
new value =
    if is_valid value then ok (record { index = value }) else err ErrorKind.price_tick_out_of_bounds

unfoldable pub to_opt_index : Tick → Option ℤ
to_opt_index t = if ltb_ℤ min_tick t.index && ltb_ℤ t.index max_tick then some t.index else none

-- `EffTick::is_valid` and `EffTick::new`
abbrev pub is_valid_eff : ℤ → Bool
is_valid_eff index = leb_ℤ min_eff_tick index && leb_ℤ index max_eff_tick

unfoldable pub new_eff : ℤ → Outcome EffTick
new_eff i =
    if is_valid_eff i then ok (record { index = i }) else err ErrorKind.price_tick_out_of_bounds

unfoldable pub from_tick : Tick → ℕ → Side → Outcome EffTick
from_tick tick fee_level left =
    fee_rate_ticks fee_level >>= λ f. i32 (tick.index +ℤ pos f) >>= λ i. unwrap_ok (new_eff i)
from_tick tick fee_level right = fee_rate_ticks fee_level >>= λ f.
    i32 (neg tick.index) >>= λ n. i32 (n +ℤ pos f) >>= λ i. unwrap_ok (new_eff i)

unfoldable pub to_tick : EffTick → ℕ → Side → Outcome Tick
to_tick eff fee_level left =
    fee_rate_ticks fee_level >>= λ f. i32 (eff.index -ℤ pos f) >>= λ i. new i
to_tick eff fee_level right =
    fee_rate_ticks fee_level >>= λ f. i32 (neg eff.index) >>= λ n. i32 (n +ℤ pos f) >>= λ i. new i

-- `EffTick::opposite`: `2_i32.pow(fee_level + 1)`. The release profile drops the debug assertion.
unfoldable pub opposite_eff : EffTick → ℕ → Outcome EffTick
opposite_eff eff fee_level = do
  n ← i32 (neg eff.index)
  p ← i32 (pos (2 ^ (fee_level + 1)))
  i ← i32 (n +ℤ p)
  unwrap_ok (new_eff i)

unfoldable pub shifted : EffTick → ℤ → Outcome EffTick
shifted eff step = i32 (eff.index +ℤ step) >>= λ i. new_eff i

unfoldable pub with_same_eff_price : Tick → ℕ → ℕ → Side → Outcome Tick
with_same_eff_price tick this_level other_level swap_direction =
    from_tick tick this_level swap_direction >>= λ eff. to_tick eff other_level swap_direction

-- `Tick::opposite`
unfoldable pub opposite : Tick → Outcome Tick
opposite t = i32 (neg t.index) >>= λ i. unwrap_ok (new i)

unfoldable pub opposite_if : Tick → Bool → Outcome Tick
opposite_if t is_opposite = if is_opposite then opposite t else ok t

abbrev bound_or : Option ℤ → ℤ → Outcome Tick
unfolding new
bound_or none limit = ok (record { index = limit })
bound_or (some i) limit = new i

unfoldable pub unwrap_range : Option ℤ × Option ℤ → Outcome (Tick × Tick)
unfolding bound_or
unwrap_range as_options = do
  low ← bound_or as_options.0 min_tick
  high ← bound_or as_options.1 max_tick
  ok (low, high)

unfoldable pub wrap_range : Tick × Tick → Option ℤ × Option ℤ
wrap_range as_ticks = (
  if leb_ℤ (as_ticks.0).index min_tick then none else some (as_ticks.0).index,
  if leb_ℤ max_tick (as_ticks.1).index then none else some (as_ticks.1).index,
)
