-- ===== src/Dex/Side.antt =====
-- veax/dex/src/dex/util_types.rs: the side of a pair.
use veax.Base.{Bool, if◌then◌else◌}

pub data Side : Type 0 where
  left : Side
  right : Side

unfoldable pub opposite : Side → Side
opposite left = right
opposite right = left

unfoldable pub opposite_if : Side → Bool → Side
unfolding opposite
opposite_if side cond = if cond then opposite side else side

unfoldable pub from_swapped : Bool → Side
from_swapped swapped = if swapped then right else left

-- `Index<Side>` and `IndexMut<Side>` of a pair.
unfoldable pub index : {A : Type 0} → A × A → Side → A
index pair left = pair.0
index pair right = pair.1

unfoldable pub set_index : {A : Type 0} → A × A → Side → A → A × A
set_index pair left a = (a, pair.1)
set_index pair right a = (pair.0, a)
