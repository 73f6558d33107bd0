-- ===== src/Fp/Sums.antt =====
-- `impl Sum` of the unsigned fixed point types, which is the same text in each file of
-- veax/dex/src/fp: a loop that adds the items to zero.
pub mod Laws
use veax.Base.{List, [], ◌∷◌}
use veax.Base.Panic.{Run, done, ◌>>=◌}
use veax.Fp.Uint.Words.{Limbs}

module _ (l : Limbs) (add : l.N → l.N → Run l.N) where
  unfoldable pub sum_from : l.N → List l.N → Run l.N
  sum_from s [] = done s
  sum_from s (i ∷ items) = add s i >>= λ next. sum_from next items
