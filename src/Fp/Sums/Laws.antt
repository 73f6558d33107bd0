-- ===== src/Fp/Sums/Laws.antt =====
-- A sum by checked additions is the exact sum, and panics exactly where that is too large.
use veax.Base.{ℕ, ◌+◌, ◌≡◌, refl, subst, List, [], ◌∷◌, arith}
use veax.Base.Panic.{Run, ◌>>=◌}
use veax.Fp.Uint.Words.{Limbs}
use veax.Fp.Uint.Laws.{Gives, fits, overflows}
use veax.Fp.Sums.{sum_from}

module _ (l : Limbs) where
  abbrev pub AllValid : List l.N → Type 0
  AllValid [] = Unit
  AllValid (x ∷ xs) = l.IsValid x × AllValid xs

  abbrev pub total : List l.N → ℕ
  total [] = 0
  total (x ∷ xs) = l.value x + total xs

  pub Gives-at : (r : Run l.N) {v w : ℕ} → v ≡ w → Gives l r v → Gives l r w
  Gives-at r e g = subst (Gives l r) e g

module _ (l : Limbs) (add : l.N → l.N → Run l.N) where
  pub sum_from-Gives :
      ((a b : l.N) → l.IsValid a → l.IsValid b → Gives l (add a b) (l.value a + l.value b))
      → (s : l.N) (xs : List l.N) → l.IsValid s
      → AllValid l xs
      → Gives l (sum_from l add s xs) (l.value s + total l xs)
  unfolding sum_from
  sum_from-Gives exact s [] ok all = fits s refl ok (omega arith)
  sum_from-Gives exact s (x ∷ xs) ok all =
      rest (add s x) (exact s x ok all.0) (λ c good. sum_from-Gives exact c xs good all.1)
    where
      rest :
          (r : Run l.N)
          → Gives l r (l.value s + l.value x)
          → ((c : l.N) → l.IsValid c → Gives l (sum_from l add c xs) (l.value c + total l xs))
          → Gives l (r >>= λ next. sum_from l add next xs) (l.value s + (l.value x + total l xs))
      rest r (overflows e h) again = overflows (rw e refl) (omega arith)
      rest r (fits c e good h) again = rw e (Gives-at l _ (omega (arith, h)) (again c good))
