-- ===== src/Dex/Trackers.antt =====
-- veax/dex/src/dex/withdraw_trackers.rs: which withdrawals of an account are in flight.
-- A vector is a list. `Vec::binary_search_by_key` is modelled by the position that its documentation
-- promises on a sorted vector: that of an equal key, or the one where the key keeps the order.
pub mod Order
use veax.Base.{
  ℕ, zero, suc, ◌+◌, ◌-◌, ◌^◌, Bool, true, false, not, ◌&&◌, ◌||◌, List, [], ◌∷◌, ltb, nat_beq,
  if◌then◌else◌,
}
use veax.Base.Panic.{Run, done, panic, ◌>>=◌, add_below}

-- A token and an amount, in the order of Rust's tuples.
abbrev pub Entry : Type 0
Entry = ℕ × ℕ

abbrev pub entry_ltb : Entry → Entry → Bool
entry_ltb a b = ltb a.0 b.0 || (nat_beq a.0 b.0 && ltb a.1 b.1)

abbrev pub entry_beq : Entry → Entry → Bool
entry_beq a b = nat_beq a.0 b.0 && nat_beq a.1 b.1

-- `Ok(at)` and `Err(at)` of the search.
pub data Search : Type 0 where
  found_at : ℕ → Search
  missing_at : ℕ → Search

abbrev one_later : Search → Search
one_later (found_at i) = found_at (suc i)
one_later (missing_at i) = missing_at (suc i)

unfoldable pub binary_search : Entry → List Entry → Search
binary_search key [] = missing_at 0
binary_search key (x ∷ xs) =
    if entry_ltb x key
    then one_later (binary_search key xs)
    else if entry_beq x key
    then found_at 0
    else missing_at 0

unfoldable pub binary_search_token : ℕ → List Entry → Search
binary_search_token token [] = missing_at 0
binary_search_token token (x ∷ xs) =
    if ltb x.0 token
    then one_later (binary_search_token token xs)
    else if nat_beq x.0 token
    then found_at 0
    else missing_at 0

abbrev pub is_ok : Search → Bool
is_ok (found_at i) = true
is_ok (missing_at i) = false

-- `Vec::insert` and `Vec::remove`, which panic past the end.
unfoldable pub vec_insert : List Entry → ℕ → Entry → Run (List Entry)
vec_insert xs zero e = done (e ∷ xs)
vec_insert [] (suc i) e = panic
vec_insert (x ∷ xs) (suc i) e = vec_insert xs i e >>= λ ys. done (x ∷ ys)

unfoldable pub vec_remove : List Entry → ℕ → Run (List Entry)
vec_remove [] i = panic
vec_remove (x ∷ xs) zero = done xs
vec_remove (x ∷ xs) (suc i) = vec_remove xs i >>= λ ys. done (x ∷ ys)

-- `FullTracker`
unfoldable pub track : List Entry → ℕ → ℕ → Run (List Entry)
unfolding binary_search
track tracker token_id amount = elim (binary_search (token_id, amount) tracker) [
  | found_at at ↦ vec_insert tracker at (token_id, amount)
  | missing_at at ↦ vec_insert tracker at (token_id, amount)
]

unfoldable pub is_tracked : List Entry → ℕ → ℕ → Bool
unfolding binary_search
is_tracked tracker token_id amount = is_ok (binary_search (token_id, amount) tracker)

unfoldable pub untrack : List Entry → ℕ → ℕ → Run (List Entry)
unfolding binary_search
untrack tracker token_id amount = elim (binary_search (token_id, amount) tracker) [
  | found_at at ↦ vec_remove tracker at
  | missing_at at ↦ done tracker
]

unfoldable pub is_any_withdraw_in_progress : List Entry → Bool
is_any_withdraw_in_progress [] = false
is_any_withdraw_in_progress (x ∷ xs) = true

unfoldable pub is_token_withdraw_in_progress : List Entry → ℕ → Bool
unfolding binary_search_token
is_token_withdraw_in_progress tracker token_id = is_ok (binary_search_token token_id tracker)

-- `CountingTracker`: a `u32`.
unfoldable pub track_count : ℕ → Run ℕ
track_count n = add_below (2 ^ 32) n 1

unfoldable pub untrack_count : ℕ → Bool × ℕ
untrack_count n = if ltb 0 n then (true, n - 1) else (false, n)
