-- ===== src/Fp/Signed/Value.antt =====
-- fp/signed.rs: the integer that a signed number stands for, and its operations on it.
use Prim.Native.Nat.{compare, Ordering}
use veax.Base.{
  ℕ, ◌+◌, ◌≤◌, ◌<◌, ◌≡◌, Bool, Bool-cases, true, false, not, ltb, nat_beq, arith, if◌then◌else◌,
  ◌⊎◌, inl, inr, refl, ◌∙◌, subst,
}
use veax.Base.Int as Int
use veax.Base.Int.{ℤ, pos, ◌+ℤ◌, ◌-ℤ◌, ◌*ℤ◌, pos_part, neg_part, sub_ℕ}
use veax.Base.Panic.{Run, done, ◌>>=◌}
use veax.Fp.Unsigned.{Unsigned}
use veax.Fp.Signed.{
  Signed, signed, converted, negative_to_unsigned, cmp, add, add_assign, neg, sub,
  try_into_unsigned, neg_from, pos_from,
}

abbrev pub signed_int : ℕ → Bool → ℤ
signed_int n b = if b then pos n else sub_ℕ 0 n

abbrev pub compare_ℤ : ℤ → ℤ → Ordering
compare_ℤ a b = compare (pos_part a + neg_part b) (pos_part b + neg_part a)

add-negated :
    (n m : ℕ) (p q : Bool)
    → signed_int n p +ℤ signed_int m (not q) ≡ signed_int n p -ℤ signed_int m q
unfolding ◌+ℤ◌ ◌-ℤ◌
add-negated n m p true = ground arith
add-negated n m p false = ground arith

magnitude-sum :
    (n l m : ℕ) (p q r : Bool) → signed_int n p ≡ signed_int l q +ℤ signed_int m r → n ≤ l + m
unfolding ◌+ℤ◌
magnitude-sum n l m p q r h = ground arith

module _ (u : Unsigned) where
  open u use {T, raw, bound}

  -- The integer that the limbs and the sign stand for.
  abbrev pub to_int : Signed T → ℤ
  to_int a = signed_int (raw a.value) a.non_negative

  -- A result of the unsigned type under a sign.
  under_sign :
      (r : Run T) (n : ℕ) (s : Bool)
      → (v : T) × (r ≡ done v) × (raw v ≡ n)
      → (c : Signed T) × ((r >>= λ v. done (signed v s)) ≡ done c) × (to_int c ≡ signed_int n s)
  under_sign r n s (v, returned, exact) = (signed v s, rw returned, rw exact)

  add_signed :
      (x y : T) (p q : Bool)
      → raw x + raw y < bound
      → (c : Signed T) × (add u (signed x p) (signed y q) ≡ done c)
        × (to_int c ≡ signed_int (raw x) p +ℤ signed_int (raw y) q)
  unfolding add ◌+ℤ◌
  add_signed x y true true room =
      let (c, e, v) = under_sign (u.add x y) _ true (u.add_below x y room) in
      (c, e, ground (arith, v))
  add_signed x y false false room =
      let (c, e, v) = under_sign (u.add x y) _ false (u.add_below x y room) in
      (c, e, ground (arith, v))
  add_signed x y true false room = elim (Bool-cases (ltb (raw y) (raw x))) [
    | inl less ↦
        let (c, e, v) = under_sign (u.sub x y) _ true (u.sub_above x y (ground arith)) in
        (c, rw less e, ground (arith, v))
    | inr more ↦
        let (c, e, v) = under_sign (u.sub y x) _ false (u.sub_above y x (ground arith)) in
        (c, rw more e, ground (arith, v))
  ]
  add_signed x y false true room = elim (Bool-cases (ltb (raw y) (raw x))) [
    | inl less ↦
        let (c, e, v) = under_sign (u.sub x y) _ false (u.sub_above x y (ground arith)) in
        (c, rw less e, ground (arith, v))
    | inr more ↦
        let (c, e, v) = under_sign (u.sub y x) _ true (u.sub_above y x (ground arith)) in
        (c, rw more e, ground (arith, v))
  ]

  -- The sum of two signed numbers whose distances from zero sum to less than the bound does not
  -- panic and stands for the sum of the two integers, for all signs.
  pub add-to_int :
      (a b : Signed T)
      → raw a.value + raw b.value < bound
      → (c : Signed T) × (add u a b ≡ done c) × (to_int c ≡ to_int a +ℤ to_int b)
  add-to_int a b room = add_signed a.value b.value a.non_negative b.non_negative room

  -- A sum is no further from zero than both summands together.
  pub add-magnitude :
      (a b : Signed T)
      → raw a.value + raw b.value < bound
      → (c : Signed T) → add u a b ≡ done c
      → raw c.value ≤ raw a.value + raw b.value
  add-magnitude a b room c returned =
      let (t, e, v) = add-to_int a b room in
      let same : t ≡ c = cc in
      subst (λ d. raw d.value ≤ raw a.value + raw b.value) same (magnitude-sum _ _ _ _ _ _ v)

  -- The assigning addition, which swaps the two values where the right one is not the smaller,
  -- leaves what the addition returns.
  pub add_assign-add : (a b : Signed T) → add_assign u a b ≡ add u a b
  unfolding add add_assign
  add_assign-add a b = refl

  -- The difference of two signed numbers whose distances from zero sum to less than the bound does
  -- not panic and stands for the difference of the two integers.
  pub sub-to_int :
      (a b : Signed T)
      → raw a.value + raw b.value < bound
      → (c : Signed T) × (sub u a b ≡ done c) × (to_int c ≡ to_int a -ℤ to_int b)
  unfolding sub
  sub-to_int a b room =
      let (c, e, v) = add_signed a.value b.value a.non_negative (not b.non_negative) room in
      (c, e, v ∙ add-negated (raw a.value) (raw b.value) a.non_negative b.non_negative)

  pub neg-to_int : (a : Signed T) → to_int (neg u a) ≡ Int.neg (to_int a)
  unfolding neg Int.neg
  neg-to_int a = ground arith

  -- `cmp` orders two signed numbers as the integers that they stand for, whichever of its two
  -- representations a zero has.
  pub cmp-to_int : (a b : Signed T) → cmp u a b ≡ compare_ℤ (to_int a) (to_int b)
  unfolding cmp
  cmp-to_int a b = ground arith

  into_signed :
      (x : T) (p : Bool)
      → (((v : T) × (try_into_unsigned u (signed x p) ≡ converted v)
            × (signed_int (raw x) p ≡ pos (raw v)))
          ⊎ ((try_into_unsigned u (signed x p) ≡ negative_to_unsigned)
              × (signed_int (raw x) p ≡ sub_ℕ 0 (raw x))
              × (0 < raw x)))
  unfolding try_into_unsigned
  into_signed x true = inl (x, refl, refl)
  into_signed x false = elim (Bool-cases (nat_beq (raw x) 0)) [
    | inl nought ↦ inl (x, rw nought refl, ground arith)
    | inr more ↦ inr (rw more refl, refl, ground arith)
  ]

  -- The conversion to the unsigned type returns the number that stands for the same integer, or is
  -- refused, and then the integer is below zero.
  pub try_into_unsigned-to_int :
      (a : Signed T)
      → (((v : T) × (try_into_unsigned u a ≡ converted v) × (to_int a ≡ pos (raw v)))
          ⊎ ((try_into_unsigned u a ≡ negative_to_unsigned)
              × (to_int a ≡ sub_ℕ 0 (raw a.value))
              × (0 < raw a.value)))
  try_into_unsigned-to_int a = into_signed a.value a.non_negative

  pub neg_from-to_int : (a : Signed T) → to_int (neg_from u a) ≡ sub_ℕ 0 (raw a.value)
  unfolding neg_from
  neg_from-to_int a = ground arith

  -- `pos_from` returns every signed number as it is, so a negative number stays negative.
  pub pos_from-id : (a : Signed T) → pos_from u a ≡ a
  unfolding pos_from
  pos_from-id a = ground arith
