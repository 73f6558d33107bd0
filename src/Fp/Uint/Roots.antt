-- ===== src/Fp/Uint/Roots.antt =====
-- The square root of a number that is scaled by a power of two: the root of the words, scaled by
-- half that power.
use veax.Base.{ℕ, ◌+◌, ◌*◌, ◌≤◌, ◌<◌, ◌≡◌, arith}
use veax.Fp.Uint.Laws.{IsRoot}

-- `r` is below the root of `a * unit * unit`, by less than a `unit`.
abbrev pub IsRootWithin : ℕ → ℕ → ℕ → Type 0
IsRootWithin unit r a = (r * r ≤ a * (unit * unit)) × (a * (unit * unit) < (r + unit) * (r + unit))

pub lt_of_square_lt : (s b : ℕ) → s * s < b * b → s < b
lt_of_square_lt s b h = grind arith

square_scaled : (u s : ℕ) → (u * s) * (u * s) ≡ (s * s) * (u * u)
square_scaled u s = grind arith

square_scaled_above : (u s : ℕ) → (u * s + u) * (u * s + u) ≡ ((s + 1) * (s + 1)) * (u * u)
square_scaled_above u s = grind arith

le_scaled : (a b u : ℕ) → a ≤ b → a * u ≤ b * u
le_scaled a b u h = grind arith

lt_scaled : (a b u : ℕ) → 0 < u → a < b → a * u < b * u
lt_scaled a b u p h = grind arith

pub IsRoot-scaled : (u s a : ℕ) → 0 < u → IsRoot s a → IsRootWithin u (u * s) a
IsRoot-scaled u s a p (low, high) = (
  rw (square_scaled u s) (le_scaled (s * s) a (u * u) low),
  rw (square_scaled_above u s) (lt_scaled a ((s + 1) * (s + 1)) (u * u) (grind arith) high),
)
