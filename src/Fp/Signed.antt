-- ===== src/Fp/Signed.antt =====
-- veax/dex/src/fp/signed.rs: a sign beside an unsigned number. Zero has two representations, with
-- `non_negative` set and without.
pub mod Value
pub mod Sum
use Prim.Native.Nat.{compare, Ordering}
use veax.Base.{ℕ, Bool, true, false, not, ◌&&◌, ◌||◌, List, [], ◌∷◌, ltb, nat_beq, if◌then◌else◌}
use veax.Base.Panic.{Run, done, ◌>>=◌}
use veax.Fp.Unsigned.{Unsigned}

-- `Result<T, Error>`: the one error that this file raises.
pub data Converted (A : Type 0) : Type 0 where
  converted : A → Converted A
  negative_to_unsigned : Converted A

abbrev pub bool_beq : Bool → Bool → Bool
bool_beq true b = b
bool_beq false b = not b

abbrev pub reverse : Ordering → Ordering
reverse Ordering.lt = Ordering.gt
reverse Ordering.eq = Ordering.eq
reverse Ordering.gt = Ordering.lt

pub record Signed (T : Type 0) : Type 0 where
  pub value : T
  pub non_negative : Bool

abbrev pub signed : {T : Type 0} → T → Bool → Signed T
signed v b = record { value = v; non_negative = b }

module _ (u : Unsigned) where
  open u use {T, raw}

  abbrev pub is_zero_value : T → Bool
  is_zero_value a = nat_beq (raw a) 0

  unfoldable pub cmp : Signed T → Signed T → Ordering
  cmp a b =
      if is_zero_value a.value && is_zero_value b.value
      then Ordering.eq
      else if a.non_negative
      then if b.non_negative then compare (raw a.value) (raw b.value) else Ordering.gt
      else if b.non_negative
      then Ordering.lt
      else reverse (compare (raw a.value) (raw b.value))

  unfoldable pub add : Signed T → Signed T → Run (Signed T)
  add a b =
      if bool_beq a.non_negative b.non_negative
      then (u.add a.value b.value >>= λ v. done (signed v a.non_negative))
      else if ltb (raw b.value) (raw a.value)
      then (u.sub a.value b.value >>= λ v. done (signed v a.non_negative))
      else (u.sub b.value a.value >>= λ v. done (signed v b.non_negative))

  -- The assigning form swaps the two values where the right one is the larger.
  unfoldable pub add_assign : Signed T → Signed T → Run (Signed T)
  add_assign a b =
      if bool_beq a.non_negative b.non_negative
      then (u.add a.value b.value >>= λ v. done (record a { value = v }))
      else if ltb (raw b.value) (raw a.value)
      then (u.sub a.value b.value >>= λ v. done (record a { value = v }))
      else let swapped = record a { value = b.value } in
        let rhs = record b { value = a.value } in
        u.sub swapped.value rhs.value >>= λ v.
        done (record swapped { value = v; non_negative = rhs.non_negative })

  unfoldable pub neg : Signed T → Signed T
  neg a = record a { non_negative = is_zero_value a.value || not a.non_negative }

  unfoldable pub is_zero : Signed T → Bool
  is_zero a = is_zero_value a.value

  unfoldable pub zero : Signed T
  zero = signed u.zero true

  unfoldable pub set_zero : Signed T → Signed T
  set_zero a = signed u.zero true

  unfoldable pub sub : Signed T → Signed T → Run (Signed T)
  sub a b = let rhs_negated = signed b.value (not b.non_negative) in add a rhs_negated

  unfoldable pub mul : Signed T → Signed T → Run (Signed T)
  mul a b = u.mul a.value b.value >>= λ v. done (signed v (bool_beq a.non_negative b.non_negative))

  unfoldable pub div : Signed T → Signed T → Run (Signed T)
  div a b = u.div a.value b.value >>= λ v. done (signed v (bool_beq a.non_negative b.non_negative))

  -- `iter.fold(Self::zero(), |sum, item| sum + item)`
  unfoldable pub fold : Signed T → List (Signed T) → Run (Signed T)
  fold total [] = done total
  fold total (item ∷ items) = add total item >>= λ next. fold next items

  unfoldable pub sum : List (Signed T) → Run (Signed T)
  unfolding zero
  sum items = fold zero items

  unfoldable pub from : T → Signed T
  from value = signed value true

  unfoldable pub try_into_unsigned : Signed T → Converted T
  try_into_unsigned a =
      if a.non_negative || is_zero_value a.value then converted a.value else negative_to_unsigned

  unfoldable pub neg_from : Signed T → Signed T
  neg_from a = if not a.non_negative then a else signed a.value (not a.non_negative)

  unfoldable pub pos_from : Signed T → Signed T
  pos_from a = if a.non_negative then a else signed a.value a.non_negative
