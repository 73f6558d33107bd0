-- ===== src/Dex/Pool/Liquidity.antt =====
-- The liquidity that the ticks at or below a bound sum up to, and how it grows from tick to tick.
use veax.Base.{
  ◌≡◌, refl, sym, Bool, true, false, ◌||◌, Option, none, some, List, [], ◌∷◌, arith, if◌then◌else◌,
  Bool-cases, inl, inr, Option-cases,
}
use veax.Base.Int.{ℤ, pos, ◌+ℤ◌, int_laws, +ℤ_assoc}
use veax.Base.Eq.{◌==◌, beq_refl, eq_of_beq}
use veax.Maps.Entries.{lookup, has, is_unique}
use veax.Dex.Tick.{Tick}
use veax.Dex.Pool.{TickState, tick_eq}
use veax.Dex.Pool.Ticks.{tick_lt, tick_le, key_above, key_below}

abbrev pub TickStates : Type 0
TickStates = List (Tick × TickState)

abbrev pub is_below : Option Tick → Tick → Bool
is_below none t = false
is_below (some r) t = tick_le t r

abbrev pub is_above : Option Tick → Tick → Bool
is_above none t = false
is_above (some l) t = tick_le l t

abbrev pub change_below : Option Tick → TickStates → ℤ
change_below b [] = pos 0
change_below b ((t, s) ∷ rest) =
    (if is_below b t then s.net_liquidity_change else pos 0) +ℤ change_below b rest

-- A bound that takes in one more tick, `x`.
abbrev pub Extends : Option Tick → Option Tick → Tick → TickStates → Type 0
Extends a b x xs = (t : Tick) → has t xs ≡ true → is_below b t ≡ (is_below a t || (x == t))

Extends-tail :
    (a b : Option Tick) (x t : Tick) (s : TickState) (xs : TickStates)
    → Extends a b x ((t, s) ∷ xs)
    → Extends a b x xs
Extends-tail a b x t s xs h u there = h u (ground arith)

change_below-absent :
    (a b : Option Tick) (x : Tick) (xs : TickStates)
    → Extends a b x xs
    → has x xs ≡ false
    → change_below b xs ≡ change_below a xs
change_below-absent a b x [] h absent = refl
change_below-absent a b x ((t, s) ∷ xs) h absent =
    let head : is_below b t ≡ is_below a t = ground (arith, h t (ground (arith, beq_refl t))) in
    rw (head, change_below-absent a b x xs (Extends-tail a b x t s xs h) (ground arith)) refl

pub change_below-Extends :
    (a b : Option Tick) (x : Tick) (s : TickState) (xs : TickStates)
    → Extends a b x xs
    → is_unique xs ≡ true
    → is_below a x ≡ false
    → lookup x xs ≡ some s
    → change_below b xs ≡ change_below a xs +ℤ s.net_liquidity_change
change_below-Extends a b x s [] h unique low there = ground arith
change_below-Extends a b x s ((t, u) ∷ xs) h unique low there = elim (Bool-cases (x == t)) [
  | inl e ↦
      let same : x ≡ t = eq_of_beq x t e in
      let us : u ≡ s = ground (arith, e) in
      let high : is_below b t ≡ true = ground (arith, h t (ground (arith, beq_refl t)), e) in
      let low' : is_below a t ≡ false = rw (← same) low in
      let gone : has x xs ≡ false = rw same (ground arith) in
      rw (high, low', us, change_below-absent a b x xs (Extends-tail a b x t u xs h) gone)
        (grind int_laws)
  | inr e ↦
      let head : is_below b t ≡ is_below a t =
        ground (arith, h t (ground (arith, beq_refl t)), e) in
      let later : lookup x xs ≡ some s = ground (arith, e) in
      let unique' : is_unique xs ≡ true = ground arith in
      rw (head, change_below-Extends a b x s xs (Extends-tail a b x t u xs h) unique' low later)
        (sym (+ℤ_assoc _ (change_below a xs) s.net_liquidity_change))
]

-- The nearest key above a bound: it is there, above the bound, and no other key stands between.
pub key_above-lt : (b k : Tick) (xs : TickStates) → key_above b xs ≡ some k → tick_lt b k ≡ true
key_above-lt b k [] h = ground arith
key_above-lt b k ((t, s) ∷ xs) h = elim (Option-cases (key_above b xs)) [
  | inl e ↦ let h' = rw e at h in ground (arith, h')
  | inr (j, e) ↦ let h' = rw e at h in ground (arith, h', key_above-lt b j xs e)
]

pub key_above-has : (b k : Tick) (xs : TickStates) → key_above b xs ≡ some k → has k xs ≡ true
key_above-has b k [] h = ground arith
key_above-has b k ((t, s) ∷ xs) h = elim (Option-cases (key_above b xs)) [
  | inl e ↦ let h' = rw e at h in ground (arith, h', beq_refl k)
  | inr (j, e) ↦ let h' = rw e at h in ground (arith, h', key_above-has b j xs e, beq_refl k)
]

pub key_above-nearest :
    (b t : Tick) (xs : TickStates) → has t xs ≡ true → is_above (key_above b xs) t ≡ tick_lt b t
key_above-nearest b t [] h = ground arith
key_above-nearest b t ((u, s) ∷ xs) h = elim (Bool-cases (t == u)) [
  | inl e ↦
      let same : t ≡ u = eq_of_beq t u e in
      rw same (elim (Option-cases (key_above b xs)) [
        | inl k ↦ rw k (ground arith)
        | inr (j, k) ↦ rw k (ground (arith, key_above-lt b j xs k))
      ])
  | inr e ↦
      let ih = key_above-nearest b t xs (ground (arith, e)) in
      elim (Option-cases (key_above b xs)) [
        | inl k ↦ let ih' = rw k at ih in rw k (ground (arith, ih'))
        | inr (j, k) ↦ let ih' = rw k at ih in rw k (ground (arith, ih'))
      ]
]

-- The nearest key below a bound.
pub key_below-lt : (b k : Tick) (xs : TickStates) → key_below b xs ≡ some k → tick_lt k b ≡ true
key_below-lt b k [] h = ground arith
key_below-lt b k ((t, s) ∷ xs) h = elim (Option-cases (key_below b xs)) [
  | inl e ↦ let h' = rw e at h in ground (arith, h')
  | inr (j, e) ↦ let h' = rw e at h in ground (arith, h', key_below-lt b j xs e)
]

pub key_below-has : (b k : Tick) (xs : TickStates) → key_below b xs ≡ some k → has k xs ≡ true
key_below-has b k [] h = ground arith
key_below-has b k ((t, s) ∷ xs) h = elim (Option-cases (key_below b xs)) [
  | inl e ↦ let h' = rw e at h in ground (arith, h', beq_refl k)
  | inr (j, e) ↦ let h' = rw e at h in ground (arith, h', key_below-has b j xs e, beq_refl k)
]

pub key_below-nearest :
    (b t : Tick) (xs : TickStates) → has t xs ≡ true → is_below (key_below b xs) t ≡ tick_lt t b
key_below-nearest b t [] h = ground arith
key_below-nearest b t ((u, s) ∷ xs) h = elim (Bool-cases (t == u)) [
  | inl e ↦
      let same : t ≡ u = eq_of_beq t u e in
      rw same (elim (Option-cases (key_below b xs)) [
        | inl k ↦ rw k (ground arith)
        | inr (j, k) ↦ rw k (ground (arith, key_below-lt b j xs k))
      ])
  | inr e ↦
      let ih = key_below-nearest b t xs (ground (arith, e)) in
      elim (Option-cases (key_below b xs)) [
        | inl k ↦ let ih' = rw k at ih in rw k (ground (arith, ih'))
        | inr (j, k) ↦ let ih' = rw k at ih in rw k (ground (arith, ih'))
      ]
]
