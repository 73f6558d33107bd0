-- ===== src/Dex/Pool/Ticks.antt =====
-- v0/pool_state_ex.rs: which ticks are next to the price, and where the price stands to a range.
use veax.Base.{ℕ, Bool, ◌&&◌, Option, none, some, List, [], ◌∷◌, if◌then◌else◌}
use veax.Base.Int.{ltb_ℤ, leb_ℤ}
use veax.Dex.Tick.{Tick}
use veax.Dex.Side.{Side, left, right}
use veax.Dex.Pool.{Pool, TickState, at_level}
use veax.Errors.{Outcome, ok, err, ErrorKind}

-- `Ordering` of the price and a range.
pub data Ordering : Type 0 where
  less equal greater : Ordering

abbrev pub tick_lt : Tick → Tick → Bool
tick_lt s t = ltb_ℤ s.index t.index

abbrev pub tick_le : Tick → Tick → Bool
tick_le s t = leb_ℤ s.index t.index

abbrev pub min_some : Option Tick → Option Tick → Option Tick
min_some a none = a
min_some none (some b) = some b
min_some (some a) (some b) = if tick_lt b a then some b else some a

-- `Option::max`, for which `None` is the least.
abbrev pub max_option : Option Tick → Option Tick → Option Tick
max_option a none = a
max_option none (some b) = some b
max_option (some a) (some b) = if tick_lt b a then some a else some b

-- `inspect_above` and `inspect_below` of the tree map: the nearest key on a side of a given one.
abbrev pub key_above : Tick → List (Tick × TickState) → Option Tick
key_above begin [] = none
key_above begin ((t, s) ∷ rest) =
    if tick_lt begin t then min_some (some t) (key_above begin rest) else key_above begin rest

abbrev pub key_below : Tick → List (Tick × TickState) → Option Tick
key_below begin [] = none
key_below begin ((t, s) ∷ rest) =
    if tick_lt t begin then max_option (some t) (key_below begin rest) else key_below begin rest

-- The match on the two next ticks and on the range.
unfoldable pub compare_range : Option Tick → Option Tick → Tick × Tick → Outcome Ordering
compare_range (some l) (some r) range =
    if tick_le range.0 r && tick_le l range.1
    then ok equal
    else if tick_le range.1 r
    then ok greater
    else if tick_le l range.0
    then ok less
    else err ErrorKind.internal_logic_error
compare_range (some l) none range =
    if tick_le l range.0 then ok less else err ErrorKind.internal_tick_not_found
compare_range none (some r) range =
    if tick_le range.1 r then ok greater else err ErrorKind.internal_tick_not_found
compare_range none none range = err ErrorKind.internal_tick_not_found

module _ {F : Type 0} where
  unfoldable pub find_next_active_tick_on_level : Pool F → Tick → ℕ → Side → Option Tick
  find_next_active_tick_on_level p begin_excluding fee_level left =
      key_above begin_excluding (p.tick_states fee_level)
  find_next_active_tick_on_level p begin_excluding fee_level right =
      key_below begin_excluding (p.tick_states fee_level)

  unfoldable pub cmp_spot_price_to_position_range : Pool F → ℕ → Tick × Tick → Outcome Ordering
  unfolding compare_range
  cmp_spot_price_to_position_range p fee_level ticks_range = at_level fee_level (
      compare_range (p.next_active_ticks_left fee_level) (p.next_active_ticks_right fee_level)
        ticks_range)
