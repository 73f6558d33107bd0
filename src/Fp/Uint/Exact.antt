-- ===== src/Fp/Uint/Exact.antt =====
-- An implementation of the interface: the words of a number, with the operations on numbers.
use veax.Base.{
  ℕ, zero, suc, ◌+◌, ◌-◌, ◌*◌, ◌/◌, ◌%◌, ◌^◌, ◌≤◌, ◌<◌, ◌≡◌, refl, Bool, true, false, arith, ltb,
  leb, nat_beq, if◌then◌else◌, Bool-cases, inl, inr,
}
use veax.Base.Panic.{Run, done, panic}
use veax.Fp.Uint.Words.{Limbs}
use veax.Fp.Uint.Laws.{
  Uint, Gives, fits, overflows, Differs, least, below, Divides, by_some, by_zero, Product, whole,
  lossy, IsRoot,
}

isqrt : ℕ → ℕ
isqrt zero = 0
isqrt (suc n) = let r = isqrt n in if leb ((r + 1) * (r + 1)) (suc n) then r + 1 else r

isqrt-IsRoot : (n : ℕ) → IsRoot (isqrt n) n
unfolding isqrt
isqrt-IsRoot zero = (omega arith, omega arith)
isqrt-IsRoot (suc n) = grind (arith, isqrt-IsRoot n)

isqrt_le : (n : ℕ) → isqrt n ≤ n
isqrt_le n = grind (arith, isqrt-IsRoot n)

-- The words of a number that is in range, and that of a number modulo the bound.
pub record Split (l : Limbs) : Type 0 where
  pub of : ℕ → l.N
  pub of_IsValid : (v : ℕ) → l.IsValid (of v)
  pub value_of : (v : ℕ) → v < l.bound → l.value (of v) ≡ v
  pub value_below : (a : l.N) → l.IsValid a → l.value a < l.bound
  pub bound_two : 1 < l.bound

module _ (l : Limbs) (s : Split l) where
  checked : ℕ → Run l.N
  checked v = if ltb v l.bound then done (s.of v) else panic

  checked-Gives : (v : ℕ) → Gives l (checked v) v
  unfolding checked
  checked-Gives v = elim (Bool-cases (ltb v l.bound)) [
    | inl t ↦ fits (s.of v) (rw t refl) (s.of_IsValid v) (s.value_of v (ground arith))
    | inr t ↦ overflows (rw t refl) (ground arith)
  ]

  sub : l.N → l.N → Run l.N
  sub a b = if leb (l.value b) (l.value a) then checked (l.value a - l.value b) else panic

  sub-Differs : (a b : l.N) → Differs l (sub a b) (l.value a) (l.value b)
  unfolding sub
  sub-Differs a b = elim (Bool-cases (leb (l.value b) (l.value a))) [
    | inl t ↦ least (ground arith) (rw t (checked-Gives _))
    | inr t ↦ below (ground arith) (rw t refl)
  ]

  div : l.N → l.N → Run l.N
  div a b = if nat_beq (l.value b) 0 then panic else checked (l.value a / l.value b)

  div-Divides : (a b : l.N) → Divides l (div a b) (l.value a) (l.value b)
  unfolding div
  div-Divides a b = elim (Bool-cases (nat_beq (l.value b) 0)) [
    | inl t ↦ by_zero (ground arith) (rw t refl)
    | inr t ↦ by_some (ground arith) (rw t (checked-Gives _))
  ]

  product : l.N → l.N → l.N × Bool
  product a b =
      let v = l.value a * l.value b in if ltb v l.bound then (s.of v, false) else (s.of 0, true)

  product-Product : (a b : l.N) → Product l (product a b) (l.value a * l.value b)
  unfolding product
  product-Product a b = elim (Bool-cases (ltb (l.value a * l.value b) l.bound)) [
    | inl t ↦ rw t (whole refl (s.of_IsValid _) (s.value_of _ (ground arith)))
    | inr t ↦ rw t (lossy refl (ground arith))
  ]

  root : l.N → l.N
  root a = s.of (isqrt (l.value a))

  root_value : (a : l.N) → l.IsValid a → l.value (root a) ≡ isqrt (l.value a)
  unfolding root
  root_value a ok = s.value_of _ (omega (arith, isqrt_le (l.value a), s.value_below a ok))

  root-IsRoot : (a : l.N) → l.IsValid a → IsRoot (l.value (root a)) (l.value a)
  root-IsRoot a ok = rw (root_value a ok) (isqrt-IsRoot (l.value a))

  shl : l.N → ℕ → l.N
  shl a k = s.of ((l.value a * 2 ^ k) % l.bound)

  zero_is : l.value (s.of 0) ≡ 0
  zero_is = s.value_of 0 (omega (arith, s.bound_two))

  one_is : l.value (s.of 1) ≡ 1
  one_is = s.value_of 1 (omega (arith, s.bound_two))

  root_ok : (a : l.N) → l.IsValid (root a)
  unfolding root
  root_ok a = s.of_IsValid _

  shl_ok : (a : l.N) (k : ℕ) → l.IsValid (shl a k)
  unfolding shl
  shl_ok a k = s.of_IsValid _

  shl_is : (a : l.N) (k : ℕ) → l.value (shl a k) ≡ (l.value a * 2 ^ k) % l.bound
  unfolding shl
  shl_is a k = s.value_of _ (grind (arith, s.bound_two))

  -- The interface holds of any type whose words can be computed from a number.
  pub exact : Uint l
  exact = record {
    zero = s.of 0;
    one = s.of 1;
    add = λ a b. checked (l.value a + l.value b);
    sub = sub;
    div = div;
    overflowing_mul = product;
    integer_sqrt = root;
    shl = shl;
    zero_IsValid = s.of_IsValid 0;
    zero_value = zero_is;
    one_IsValid = s.of_IsValid 1;
    one_value = one_is;
    add_gives = λ a b va vb. checked-Gives _;
    sub_differs = λ a b va vb. sub-Differs a b;
    div_divides = λ a b va vb. div-Divides a b;
    mul_gives = λ a b va vb. product-Product a b;
    sqrt_IsValid = λ a ok. root_ok a;
    sqrt_IsRoot = root-IsRoot;
    shl_IsValid = λ a k ok. shl_ok a k;
    shl_value = λ a k ok. shl_is a k;
  }
