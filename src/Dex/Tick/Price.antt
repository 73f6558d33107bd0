-- ===== src/Dex/Tick/Price.antt =====
-- dex/tick.rs: the square root of the price at a tick, as a product over the bits of its index.
-- Floating point is a parameter.
pub mod Bits
pub mod Product
pub mod Table
use veax.Base.{
  ℕ, zero, suc, ◌+◌, ◌*◌, ◌/◌, ◌%◌, ◌^◌, ◌<◌, ◌≡◌, refl, ap, sym, ◌∙◌, Bool, true, Option, none,
  some, List, [], ◌∷◌, ltb, nat_beq, if◌then◌else◌, get_elem?, arith,
}
use veax.Base.Int.{ℤ, pos_part, neg_part}
use veax.Dex.Tick.{Tick, EffTick, is_valid_eff}

-- `Float`: `from_bits`, one, the product and `recip`.
pub record Float : Type 1 where
  pub F : Type 0
  pub from_bits : ℕ → F
  pub one : F
  pub times : F → F → F
  pub recip : F → F

abbrev pub precalculated_ticks : List ℕ
precalculated_ticks =
    (4607182643974369558
      ∷ (4607182869159980145
          ∷ (4607183319564978878
              ∷ (4607184220510102349
                  ∷ (4607186022940979433
                      ∷ (4607189629966263589
                          ∷ (4607196852679033204
                              ∷ (4607211332818125533
                                  ∷ (4607240432470062669
                                      ∷ (4607299193450302128
                                          ∷ (4607418995971640537
                                              ∷ (4607668000704051496
                                                  ∷ (4608205938457857923
                                                      ∷ (4609462070376259803
                                                          ∷ (4612290832146940624
                                                            ∷ (4617480469329378893
                                                            ∷ (4628148512120721768
                                                            ∷ (4649381992504848318
                                                            ∷ (4692198734602598674
                                                            ∷ (4777248888797670312
                                                            ∷ (4947442543280771895
                                                            ∷ [])))))))))))))))))))))

-- `iter_ones` of the lowest `width` bits, least significant first, from bit `at`.
unfoldable pub iter_ones : ℕ → ℕ → ℕ → List ℕ
iter_ones zero at n = []
iter_ones (suc width) at n =
    let rest = iter_ones width (at + 1) (n / 2) in if nat_beq (n % 2) 1 then at ∷ rest else rest

-- `index().abs().as_u32()`
abbrev pub abs : ℤ → ℕ
abs a = pos_part a + neg_part a

module _ (float : Float) where
  open float use {F, from_bits, one, times, recip}

  -- `map` of the precalculated value over the bits and `product1`, from the product so far. The outer
  -- option is none where `get_unchecked` would read past the table.
  unfoldable pub product_from : F → List ℕ → Option F
  product_from total [] = some total
  product_from total (i ∷ is) = elim (get_elem? precalculated_ticks i) [
    | none ↦ none
    | some bits ↦ product_from (times total (from_bits bits)) is
  ]

  unfoldable pub product1 : List ℕ → Option (Option F)
  product1 [] = some none
  product1 (i ∷ is) = elim (get_elem? precalculated_ticks i) [
    | none ↦ none
    | some bits ↦ elim (product_from (from_bits bits) is) [ none ↦ none | some f ↦ some (some f) ]
  ]

  unfoldable pub spot_sqrtprice : Tick → Option F
  spot_sqrtprice t = elim (product1 (iter_ones 32 0 (abs t.index))) [
    | none ↦ none
    | some none ↦ some one
    | some (some scale_by) ↦ some (if ltb 0 (pos_part t.index) then scale_by else recip scale_by)
  ]

  unfoldable pub eff_sqrtprice : EffTick → Option F
  unfolding spot_sqrtprice
  eff_sqrtprice e = spot_sqrtprice (record { index = e.index })
