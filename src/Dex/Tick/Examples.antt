-- ===== src/Dex/Tick/Examples.antt =====
-- Runs of the tick conversions, with the theorems' conditions met.
use veax.Base.{ℕ, ◌≡◌, ◌≢◌, refl, true, some, List, [], ◌∷◌, ◌++◌, arith, ◌⊎◌}
use veax.Base.Int.{pos, negsuc, neg}
use veax.Dex.Side.{left, right}
use veax.Dex.Tick.{
  Tick, EffTick, is_valid, from_tick, to_tick, opposite, opposite_eff, with_same_eff_price,
  wrap_range, unwrap_range,
}
use veax.Dex.Tick.Convert.{
  to_tick-from_tick, opposite_eff-from_tick, opposite-opposite, with_same_eff_price-from_tick,
}
use veax.Dex.Tick.Range.{unwrap_range-wrap_range}
use veax.Dex.Tick.Price.{Float, spot_sqrtprice, product1, product_from, iter_ones}
use veax.Dex.Tick.Price.Bits.{weight}
use veax.Dex.Tick.Price.Product.{Factors, price, spot_sqrtprice-Factors}
use veax.Errors.{ok, err, ErrorKind, ◌>>=◌}

abbrev tick : Tick
tick = record { index = negsuc 99 }

abbrev top : Tick
top = record { index = pos 887273 }

to_tick-from_tick_example :
    (e : EffTick) × (from_tick tick 3 right ≡ ok e) × (to_tick e 3 right ≡ ok tick)
to_tick-from_tick_example = to_tick-from_tick tick 3 right refl (omega arith)

opposite_eff-from_tick_example :
    (from_tick tick 3 left >>= λ e. opposite_eff e 3) ≡ from_tick tick 3 right
opposite_eff-from_tick_example = opposite_eff-from_tick tick 3 refl (omega arith)

opposite-opposite_example :
    (o : Tick) × (opposite tick ≡ ok o)
    × (o.index ≡ neg (negsuc 99))
    × (is_valid o.index ≡ true)
    × (opposite o ≡ ok tick)
opposite-opposite_example = opposite-opposite tick refl

with_same_eff_price-from_tick_example :
    ((u : Tick) × (with_same_eff_price top 7 0 left ≡ ok u)
      × (is_valid u.index ≡ true)
      × (from_tick u 0 left ≡ from_tick top 7 left))
    ⊎ ((with_same_eff_price top 7 0 left ≡ err ErrorKind.price_tick_out_of_bounds)
        × ((u : Tick) → is_valid u.index ≡ true → from_tick u 0 left ≢ from_tick top 7 left))
with_same_eff_price-from_tick_example =
    with_same_eff_price-from_tick top 7 0 left refl (omega arith) (omega arith)

unwrap_range-wrap_range_example : unwrap_range (wrap_range (tick, top)) ≡ ok (tick, top)
unwrap_range-wrap_range_example = unwrap_range-wrap_range tick top refl refl

-- The list of the doubles that a product takes, in place of floating point.
abbrev traced : Float
traced = record {
  F = List ℕ;
  from_bits = λ bits. bits ∷ [];
  one = [];
  times = λ a b. a ++ b;
  recip = λ a. 0 ∷ a;
}

-- 100 = 2 ^ 2 + 2 ^ 5 + 2 ^ 6, at a negative index.
traced_price :
    spot_sqrtprice traced tick
    ≡ some (0 ∷ (4607183319564978878 ∷ (4607189629966263589 ∷ (4607196852679033204 ∷ []))))
unfolding spot_sqrtprice product1 product_from iter_ones
traced_price = refl

spot_sqrtprice-Factors_example :
    (is : List ℕ) × ((xs : List ℕ) × (Factors 0 is xs
        × ((weight is ≡ 100) × (spot_sqrtprice traced tick ≡ some (price traced (negsuc 99) xs)))))
spot_sqrtprice-Factors_example = spot_sqrtprice-Factors traced tick refl
