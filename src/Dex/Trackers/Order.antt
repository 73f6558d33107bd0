-- ===== src/Dex/Trackers/Order.antt =====
-- dex/withdraw_trackers.rs: the vector stays sorted, and tracking and untracking undo each other.
use veax.Base.{
  ℕ, ◌<◌, ◌≡◌, refl, Bool, Bool-cases, true, false, List, [], ◌∷◌, ltb, nat_beq, if◌then◌else◌, inl,
  inr, ap, sym, ◌∙◌, arith, ◌&&◌, ◌||◌,
}
use veax.Base.Panic.{Run, done, ◌>>=◌}
use veax.Dex.Trackers.{
  Entry, entry_ltb, entry_beq, Search, found_at, missing_at, one_later, binary_search,
  binary_search_token, is_ok, vec_insert, vec_remove, track, untrack, is_tracked,
  is_token_withdraw_in_progress,
}

-- No entry is less than the bound.
abbrev pub from_below : Entry → List Entry → Bool
from_below b [] = true
from_below b (x ∷ xs) = if entry_ltb x b then false else true

abbrev pub is_sorted : List Entry → Bool
is_sorted [] = true
is_sorted (x ∷ xs) = from_below x xs && is_sorted xs

-- The place of an entry in a sorted list.
insert_sorted : Entry → List Entry → List Entry
insert_sorted e [] = e ∷ []
insert_sorted e (x ∷ xs) = if entry_ltb x e then x ∷ insert_sorted e xs else e ∷ x ∷ xs

remove_sorted : Entry → List Entry → List Entry
remove_sorted e [] = []
remove_sorted e (x ∷ xs) =
    if entry_ltb x e then x ∷ remove_sorted e xs else if entry_beq x e then xs else x ∷ xs

track-later :
    (s : Search) (x e : Entry) (xs : List Entry)
    → elim (one_later s) as (λ z. Run (List Entry)) [
      | found_at at ↦ vec_insert (x ∷ xs) at e
      | missing_at at ↦ vec_insert (x ∷ xs) at e
    ]
      ≡ (elim s as (λ z. Run (List Entry)) [
        | found_at at ↦ vec_insert xs at e
        | missing_at at ↦ vec_insert xs at e
      ]
          >>= λ ys. done (x ∷ ys))
unfolding vec_insert
track-later (found_at i) x e xs = refl
track-later (missing_at i) x e xs = refl

untrack-later :
    (s : Search) (x : Entry) (xs : List Entry)
    → elim (one_later s) as (λ z. Run (List Entry)) [
      | found_at at ↦ vec_remove (x ∷ xs) at
      | missing_at at ↦ done (x ∷ xs)
    ]
      ≡ (elim s as (λ z. Run (List Entry)) [
        | found_at at ↦ vec_remove xs at
        | missing_at at ↦ done xs
      ]
          >>= λ ys. done (x ∷ ys))
unfolding vec_remove
untrack-later (found_at i) x xs = refl
untrack-later (missing_at i) x xs = refl

track-insert_sorted : (t a : ℕ) (xs : List Entry) → track xs t a ≡ done (insert_sorted (t, a) xs)
unfolding track insert_sorted vec_insert binary_search
track-insert_sorted t a [] = refl
track-insert_sorted t a (x ∷ xs) = elim (Bool-cases (entry_ltb x (t, a))) [
  | inl less ↦
      rw (less, track, binary_search)
        (track-later (binary_search (t, a) xs) x (t, a) xs
          ∙ ap (λ r. r >>= λ ys. done (x ∷ ys)) (track-insert_sorted t a xs))
  | inr more ↦
      rw (more, track, binary_search)
        (elim (Bool-cases (entry_beq x (t, a))) [
          | inl same ↦ rw (same, vec_insert) refl
          | inr other ↦ rw (other, vec_insert) refl
        ])
]

untrack-remove_sorted :
    (t a : ℕ) (xs : List Entry) → untrack xs t a ≡ done (remove_sorted (t, a) xs)
unfolding untrack remove_sorted vec_remove binary_search
untrack-remove_sorted t a [] = refl
untrack-remove_sorted t a (x ∷ xs) = elim (Bool-cases (entry_ltb x (t, a))) [
  | inl less ↦
      rw (less, untrack, binary_search)
        (untrack-later (binary_search (t, a) xs) x xs
          ∙ ap (λ r. r >>= λ ys. done (x ∷ ys)) (untrack-remove_sorted t a xs))
  | inr more ↦
      rw (more, untrack, binary_search)
        (elim (Bool-cases (entry_beq x (t, a))) [
          | inl same ↦ rw (same, vec_remove) refl
          | inr other ↦ rw other refl
        ])
]

remove_sorted-insert_sorted :
    (e : Entry) (xs : List Entry) → remove_sorted e (insert_sorted e xs) ≡ xs
unfolding remove_sorted insert_sorted
remove_sorted-insert_sorted e [] = ground arith
remove_sorted-insert_sorted e (x ∷ xs) = ground (arith, remove_sorted-insert_sorted e xs)

insert_sorted-from_below :
    (b e : Entry) (xs : List Entry)
    → from_below b xs ≡ true
    → entry_ltb e b ≡ false
    → from_below b (insert_sorted e xs) ≡ true
unfolding insert_sorted
insert_sorted-from_below b e [] below more = ground arith
insert_sorted-from_below b e (x ∷ xs) below more = ground arith

insert_sorted-is_sorted :
    (e : Entry) (xs : List Entry) → is_sorted xs ≡ true → is_sorted (insert_sorted e xs) ≡ true
unfolding insert_sorted
insert_sorted-is_sorted e [] sorted = refl
insert_sorted-is_sorted e (x ∷ xs) sorted =
    ground (arith, insert_sorted-is_sorted e xs, insert_sorted-from_below x e xs)

remove_sorted-from_below :
    (b e : Entry) (xs : List Entry)
    → from_below b xs ≡ true
    → is_sorted xs ≡ true
    → from_below b (remove_sorted e xs) ≡ true
unfolding remove_sorted
remove_sorted-from_below b e [] below sorted = refl
remove_sorted-from_below b e (x ∷ []) below sorted = ground arith
remove_sorted-from_below b e (x ∷ y ∷ ys) below sorted = ground arith

remove_sorted-is_sorted :
    (e : Entry) (xs : List Entry) → is_sorted xs ≡ true → is_sorted (remove_sorted e xs) ≡ true
unfolding remove_sorted
remove_sorted-is_sorted e [] sorted = refl
remove_sorted-is_sorted e (x ∷ xs) sorted =
    ground (arith, remove_sorted-is_sorted e xs, remove_sorted-from_below x e xs)

is_ok-later : (s : Search) → is_ok (one_later s) ≡ is_ok s
is_ok-later (found_at i) = refl
is_ok-later (missing_at i) = refl

-- Whether a token has an entry, wherever it stands.
abbrev pub any_token : ℕ → List Entry → Bool
any_token t [] = false
any_token t (x ∷ xs) = nat_beq x.0 t || any_token t xs

any_token-above :
    (t : ℕ) (b : Entry) (xs : List Entry)
    → t < b.0
    → from_below b xs ≡ true
    → is_sorted xs ≡ true
    → any_token t xs ≡ false
any_token-above t b [] more below sorted = refl
any_token-above t b (x ∷ xs) more below sorted = ground (arith, any_token-above t x xs)

is_token_withdraw_in_progress-any :
    (t : ℕ) (xs : List Entry)
    → is_sorted xs ≡ true
    → is_token_withdraw_in_progress xs t ≡ any_token t xs
unfolding is_token_withdraw_in_progress binary_search_token
is_token_withdraw_in_progress-any t [] sorted = refl
is_token_withdraw_in_progress-any t (x ∷ xs) sorted = elim (Bool-cases (ltb x.0 t)) [
  | inl less ↦
      rw (less, is_token_withdraw_in_progress, binary_search_token)
        (is_ok-later (binary_search_token t xs)
          ∙ is_token_withdraw_in_progress-any t xs (ground arith)
          ∙ ground arith)
  | inr more ↦
      rw (more, is_token_withdraw_in_progress, binary_search_token)
        (ground (arith, any_token-above t x xs))
]

any_token-insert_sorted :
    (t : ℕ) (e : Entry) (xs : List Entry)
    → any_token t (insert_sorted e xs) ≡ (nat_beq e.0 t || any_token t xs)
unfolding insert_sorted
any_token-insert_sorted t e [] = ground arith
any_token-insert_sorted t e (x ∷ xs) = ground (arith, any_token-insert_sorted t e xs)

is_tracked-insert_sorted :
    (t a : ℕ) (xs : List Entry) → is_tracked (insert_sorted (t, a) xs) t a ≡ true
unfolding is_tracked insert_sorted binary_search
is_tracked-insert_sorted t a [] = ground arith
is_tracked-insert_sorted t a (x ∷ xs) = elim (Bool-cases (entry_ltb x (t, a))) [
  | inl less ↦ rw less (
      rw (less, is_tracked, binary_search)
        (is_ok-later (binary_search (t, a) (insert_sorted (t, a) xs))
          ∙ is_tracked-insert_sorted t a xs))
  | inr more ↦ rw more (ground arith)
]

-- Tracking a withdrawal and untracking it gives the vector back; neither panics.
pub untrack-track : (xs : List Entry) (t a : ℕ) → (track xs t a >>= λ ys. untrack ys t a) ≡ done xs
untrack-track xs t a = rw (track-insert_sorted t a xs) (
    untrack-remove_sorted t a (insert_sorted (t, a) xs)
    ∙ ap done (remove_sorted-insert_sorted (t, a) xs))

pub track-done :
    (xs : List Entry) (t a : ℕ)
    → (ys : List Entry) × (track xs t a ≡ done ys) × (untrack ys t a ≡ done xs)
track-done xs t a = (
  insert_sorted (t, a) xs,
  track-insert_sorted t a xs,
  untrack-remove_sorted t a (insert_sorted (t, a) xs)
      ∙ ap done (remove_sorted-insert_sorted (t, a) xs),
)

-- Tracking a withdrawal in a sorted vector does not panic and keeps it sorted; afterwards the
-- withdrawal is tracked and its token is in progress, while every other token has the answer that
-- it had.
pub track-is_sorted :
    (xs : List Entry) (t a : ℕ)
    → is_sorted xs ≡ true
    → (ys : List Entry) × (track xs t a ≡ done ys)
      × (is_sorted ys ≡ true)
      × (is_tracked ys t a ≡ true)
      × ((u : ℕ)
          → is_token_withdraw_in_progress ys u
            ≡ (nat_beq t u || is_token_withdraw_in_progress xs u))
track-is_sorted xs t a sorted =
    let kept = insert_sorted-is_sorted (t, a) xs sorted in
    (
      insert_sorted (t, a) xs,
      track-insert_sorted t a xs,
      kept,
      is_tracked-insert_sorted t a xs,
      λ u.
          is_token_withdraw_in_progress-any u _ kept
          ∙ any_token-insert_sorted u (t, a) xs
          ∙ ap (λ b. nat_beq t u || b) (sym (is_token_withdraw_in_progress-any u xs sorted)),
    )

-- Untracking keeps the order.
pub untrack-is_sorted :
    (xs : List Entry) (t a : ℕ)
    → is_sorted xs ≡ true
    → (ys : List Entry) × (untrack xs t a ≡ done ys) × (is_sorted ys ≡ true)
untrack-is_sorted xs t a sorted = (
  remove_sorted (t, a) xs,
  untrack-remove_sorted t a xs,
  remove_sorted-is_sorted (t, a) xs sorted,
)
