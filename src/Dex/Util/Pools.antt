-- ===== src/Dex/Util/Pools.antt =====
-- dex/util_types.rs: how pool identifiers order a pair of tokens, and what transposing does to a position.
use veax.Base.{◌<◌, ◌≡◌, refl, Bool, true, false, not, Option, none, some, ◌⊎◌, arith}
use veax.Base.Int.{ℤ, pos, negsuc, neg, ◌≤ℤ◌}
use veax.Dex.Side.{from_swapped, index}
use veax.Dex.Util.{
  TokenId, PoolId, PositionInit, try_from_pair, side, swap_if, transpose_if, saturating_neg,
  map_option,
}
use veax.Errors.{ok, err, ErrorKind}

-- Two equal tokens are refused with `TokenDuplicates`; two different ones give an identifier with
-- the tokens in descending order, which the flag swaps back to the given pair.
pub try_from_pair-ordered :
    (a b : TokenId)
    → ((a ≡ b) × (try_from_pair (a, b) ≡ err ErrorKind.token_duplicates))
      ⊎ ((id : PoolId) × (swapped : Bool) × (try_from_pair (a, b) ≡ ok (id, swapped))
          × ((id.pair).1 < (id.pair).0)
          × (swap_if swapped id.pair ≡ (a, b)))
unfolding try_from_pair swap_if
try_from_pair-ordered a b = ground arith

-- Where a pair of tokens has a pool identifier, the pair in the other order has the same
-- identifier with the opposite flag; the flag is the side of the first token, its negation that of
-- the second, and at each side the identifier has that token.
pub try_from_pair-symmetric :
    (a b : TokenId) (id : PoolId) (swapped : Bool)
    → try_from_pair (a, b) ≡ ok (id, swapped)
    → (try_from_pair (b, a) ≡ ok (id, not swapped))
      × (side id a ≡ from_swapped swapped)
      × (side id b ≡ from_swapped (not swapped))
      × (index id.pair (side id a) ≡ a)
      × (index id.pair (side id b) ≡ b)
unfolding try_from_pair swap_if side from_swapped index
try_from_pair-symmetric a b id swapped h = ground arith

abbrev pub InI32 : Option ℤ → Type 0
InI32 none = Unit {0}
InI32 (some t) = (negsuc 2147483646 ≤ℤ t) × (t ≤ℤ pos 2147483647)

saturating_neg-twice :
    (o : Option ℤ) → InI32 o → map_option saturating_neg (map_option saturating_neg o) ≡ o
unfolding saturating_neg neg
saturating_neg-twice none inside = refl
saturating_neg-twice (some t) inside = ground arith

-- Transposing a position twice gives it back, where each bound of its range of ticks that is there
-- is an `i32` other than `i32::MIN`.
pub transpose_if-twice :
    (p : PositionInit) (b : Bool)
    → InI32 (p.ticks_range).0
    → InI32 (p.ticks_range).1
    → transpose_if (transpose_if p b) b ≡ p
unfolding transpose_if swap_if
transpose_if-twice p true low high =
    rw (saturating_neg-twice (p.ticks_range).0 low, saturating_neg-twice (p.ticks_range).1 high)
      refl
transpose_if-twice p false low high = refl
