-- ===== src/Dex/Tick/Convert.antt =====
-- dex/tick.rs: conversions between ticks and effective ticks.
use veax.Base.{
  ◌⊎◌, inl, inr, Bool-cases, false, ◌≢◌, sym, ap, ◌∙◌, ℕ, zero, suc, ◌+◌, ◌*◌, ◌^◌, ◌≤◌, ◌<◌, ◌≡◌,
  refl, true, arith,
}
use veax.Base.Int.{ℤ, pos, ◌+ℤ◌, ◌-ℤ◌, neg, pos_part, neg_part}
use veax.Dex.Side.{Side, left, right}
use veax.Dex.Tick.{
  Tick, EffTick, is_valid, is_valid_eff, fee_rate_ticks, from_tick, to_tick, opposite_eff, opposite,
  new, new_eff, with_same_eff_price, i32,
}
use veax.Errors.{Outcome, ok, err, ErrorKind, ◌>>=◌}

-- On the eight fee levels.
fee_rate_ticks-level :
    (level : ℕ)
    → level < 8
    → (f : ℕ) × (fee_rate_ticks level ≡ ok f) × (1 ≤ f) × (f ≤ 128) × (2 ^ (level + 1) ≡ 2 * f)
unfolding fee_rate_ticks
fee_rate_ticks-level zero small = (1, refl, omega arith, omega arith, refl)
fee_rate_ticks-level (suc zero) small = (2, refl, omega arith, omega arith, refl)
fee_rate_ticks-level (suc (suc zero)) small = (4, refl, omega arith, omega arith, refl)
fee_rate_ticks-level (suc (suc (suc zero))) small = (8, refl, omega arith, omega arith, refl)
fee_rate_ticks-level (suc (suc (suc (suc zero)))) small = (16, refl, omega arith, omega arith, refl)
fee_rate_ticks-level (suc (suc (suc (suc (suc zero))))) small =
    (32, refl, omega arith, omega arith, refl)
fee_rate_ticks-level (suc (suc (suc (suc (suc (suc zero)))))) small =
    (64, refl, omega arith, omega arith, refl)
fee_rate_ticks-level (suc (suc (suc (suc (suc (suc (suc zero))))))) small =
    (128, refl, omega arith, omega arith, refl)
fee_rate_ticks-level (suc (suc (suc (suc (suc (suc (suc (suc n)))))))) small = grind arith

-- The effective index of a tick on a level with `f` ticks.
abbrev pub eff_index : ℤ → ℕ → Side → ℤ
eff_index t f left = t +ℤ pos f
eff_index t f right = neg t +ℤ pos f

pub from_tick-valid :
    (t : Tick) (level f : ℕ) (s : Side)
    → is_valid t.index ≡ true
    → fee_rate_ticks level ≡ ok f
    → f ≤ 128
    → from_tick t level s ≡ ok (record { index = eff_index t.index f s })
unfolding from_tick new_eff ◌+ℤ◌ neg
from_tick-valid t level f left valid fee small = rw fee (ground arith)
from_tick-valid t level f right valid fee small = rw fee (ground arith)

pub to_tick-effective :
    (t : Tick) (level f : ℕ) (s : Side)
    → is_valid t.index ≡ true
    → fee_rate_ticks level ≡ ok f
    → f ≤ 128
    → to_tick (record { index = eff_index t.index f s }) level s ≡ ok t
unfolding to_tick new ◌+ℤ◌ ◌-ℤ◌ neg
to_tick-effective t level f left valid fee small = rw fee (ground arith)
to_tick-effective t level f right valid fee small = rw fee (ground arith)

-- For a valid tick on one of the eight fee levels and either side, `from_tick` does not panic, and
-- `to_tick` gives the tick back.
pub to_tick-from_tick :
    (t : Tick) (level : ℕ) (s : Side)
    → is_valid t.index ≡ true
    → level < 8
    → (e : EffTick) × (from_tick t level s ≡ ok e) × (to_tick e level s ≡ ok t)
to_tick-from_tick t level s valid small =
    let (f, fee, _, bounded, _) = fee_rate_ticks-level level small in
    (
      record { index = eff_index t.index f s },
      from_tick-valid t level f s valid fee bounded,
      to_tick-effective t level f s valid fee bounded,
    )

opposite_eff-index :
    (t : ℤ) (level f : ℕ)
    → is_valid t ≡ true
    → f ≤ 128
    → 2 ^ (level + 1) ≡ 2 * f
    → opposite_eff (record { index = eff_index t f left }) level
      ≡ ok (record { index = eff_index t f right })
unfolding opposite_eff new_eff ◌+ℤ◌ neg
opposite_eff-index t level f valid small twice = rw twice (ground arith)

-- For a valid tick on one of the eight fee levels, the opposite of the effective tick of a left-
-- side swap is the effective tick of a right-side swap; neither panics.
pub opposite_eff-from_tick :
    (t : Tick) (level : ℕ)
    → is_valid t.index ≡ true
    → level < 8
    → (from_tick t level left >>= λ e. opposite_eff e level) ≡ from_tick t level right
opposite_eff-from_tick t level valid small =
    let (f, fee, _, bounded, twice) = fee_rate_ticks-level level small in
    rw
      (
        from_tick-valid t level f left valid fee bounded,
        from_tick-valid t level f right valid fee bounded,
      )
      (opposite_eff-index t.index level f valid bounded twice)

-- The opposite of a valid tick does not panic, is the valid tick with the negated index, and has
-- the tick as its opposite.
pub opposite-opposite :
    (t : Tick)
    → is_valid t.index ≡ true
    → (o : Tick) × (opposite t ≡ ok o)
      × (o.index ≡ neg t.index)
      × (is_valid o.index ≡ true)
      × (opposite o ≡ ok t)
unfolding opposite new neg
opposite-opposite t valid =
    (record { index = neg t.index }, ground arith, refl, ground arith, ground arith)

-- The spot index at which level `g` has the effective index `e`.
abbrev spot_index : ℤ → ℕ → Side → ℤ
spot_index e g left = e -ℤ pos g
spot_index e g right = neg e +ℤ pos g

eff_index-spot_index : (e : ℤ) (g : ℕ) (s : Side) → eff_index (spot_index e g s) g s ≡ e
unfolding ◌+ℤ◌ ◌-ℤ◌ neg
eff_index-spot_index e g left = ground arith
eff_index-spot_index e g right = ground arith

spot_index-eff_index : (t : ℤ) (g : ℕ) (s : Side) → spot_index (eff_index t g s) g s ≡ t
unfolding ◌+ℤ◌ ◌-ℤ◌ neg
spot_index-eff_index t g left = ground arith
spot_index-eff_index t g right = ground arith

i32-small : (a : ℤ) → pos_part a ≤ 1000000 → neg_part a ≤ 1000000 → i32 a ≡ ok a
i32-small a high low = ground arith

-- No operation on an effective tick in range overflows.
to_tick-new :
    (e : ℤ) (b g : ℕ) (s : Side)
    → is_valid_eff e ≡ true
    → fee_rate_ticks b ≡ ok g
    → g ≤ 128
    → to_tick (record { index = e }) b s ≡ new (spot_index e g s)
unfolding to_tick ◌+ℤ◌ ◌-ℤ◌ neg
to_tick-new e b g left valid fee small = rw fee (ground arith)
to_tick-new e b g right valid fee small =
    rw
      (
        fee,
        i32-small (neg e) (ground arith) (ground arith),
        i32-small (neg e +ℤ pos g) (ground arith) (ground arith),
      )
      refl

eff_index-is_valid_eff :
    (t : ℤ) (f : ℕ) (s : Side) → is_valid t ≡ true → f ≤ 128 → is_valid_eff (eff_index t f s) ≡ true
unfolding ◌+ℤ◌ neg
eff_index-is_valid_eff t f left valid small = ground arith
eff_index-is_valid_eff t f right valid small = ground arith

ok-injective :
    {i j : ℤ}
    → ◌≡◌ {A = Outcome EffTick} (ok (record { index = i })) (ok (record { index = j }))
    → i ≡ j
ok-injective h = cc

new-cases :
    (i : ℤ)
    → ((new i ≡ ok (record { index = i })) × (is_valid i ≡ true))
      ⊎ ((new i ≡ err ErrorKind.price_tick_out_of_bounds) × (is_valid i ≡ false))
unfolding new
new-cases i = elim (Bool-cases (is_valid i)) [
  | inl good ↦ inl (rw good refl, good)
  | inr bad ↦ inr (rw bad refl, bad)
]

-- For a valid tick and two of the eight fee levels, on either side: the result is a valid tick
-- that has on the other level the effective tick that the given one has on its own, or it is
-- `PriceTickOutOfBounds`, and then no valid tick has it.
pub with_same_eff_price-from_tick :
    (t : Tick) (a b : ℕ) (s : Side)
    → is_valid t.index ≡ true
    → a < 8
    → b < 8
    → ((u : Tick) × (with_same_eff_price t a b s ≡ ok u)
        × (is_valid u.index ≡ true)
        × (from_tick u b s ≡ from_tick t a s))
      ⊎ ((with_same_eff_price t a b s ≡ err ErrorKind.price_tick_out_of_bounds)
          × ((u : Tick) → is_valid u.index ≡ true → from_tick u b s ≢ from_tick t a s))
unfolding with_same_eff_price
with_same_eff_price-from_tick t a b s valid low high =
    let (f, fee, _, small, _) = fee_rate_ticks-level a low in
    let (g, other, _, smaller, _) = fee_rate_ticks-level b high in
    let from = from_tick-valid t a f s valid fee small in
    let to =
      to_tick-new (eff_index t.index f s) b g s (eff_index-is_valid_eff t.index f s valid small)
        other smaller in
    let e : ℤ = eff_index t.index f s in
    elim (new-cases (spot_index e g s)) [
      | inl (made, good) ↦ inl (
        record { index = spot_index e g s },
        rw (from, to, made) refl,
        good,
        from_tick-valid _ b g s good other smaller
            ∙ ap (λ i. ok (record { index = i })) (eff_index-spot_index e g s)
            ∙ sym from,
      )
      | inr (refused, bad) ↦ inr (
        rw (from, to, refused) refl,
        λ u fits same.
            let reached : eff_index u.index g s ≡ e =
              ok-injective (sym (from_tick-valid u b g s fits other smaller) ∙ same ∙ from) in
            let back = ap (λ i. is_valid (spot_index i g s)) reached in
            let here = ap (λ i. is_valid i) (spot_index-eff_index u.index g s) in cc,
      )
    ]
