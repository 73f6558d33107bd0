-- ===== src/Fp/Uint/Laws.antt =====
-- The crate `uint`, as an interface over the words of a type: what `construct_uint!` gives.
use veax.Base.{
  ℕ, ◌+◌, ◌-◌, ◌*◌, ◌/◌, ◌%◌, ◌^◌, ◌≤◌, ◌<◌, ◌≡◌, refl, Bool, true, false, ◌&&◌, List, [], ◌∷◌,
  arith, nat_beq,
}
use veax.Base.Panic.{Run, done, panic}
use veax.Fp.Uint.Words.{Limbs}

-- A checked operation returns the number `v`, or panics where `v` is too large for the type.
pub data Gives (l : Limbs) (r : Run l.N) (v : ℕ) : Type 0 where
  fits : (c : l.N) → r ≡ done c → l.IsValid c → l.value c ≡ v → Gives l r v
  overflows : r ≡ panic → l.bound ≤ v → Gives l r v

-- A checked difference.
pub data Differs (l : Limbs) (r : Run l.N) (a b : ℕ) : Type 0 where
  least : b ≤ a → Gives l r (a - b) → Differs l r a b
  below : a < b → r ≡ panic → Differs l r a b

-- A checked quotient, rounded down.
pub data Divides (l : Limbs) (r : Run l.N) (a b : ℕ) : Type 0 where
  by_some : 0 < b → Gives l r (a / b) → Divides l r a b
  by_zero : b ≡ 0 → r ≡ panic → Divides l r a b

-- The words of a product, and whether some of it is lost.
pub data Product (l : Limbs) (r : l.N × Bool) (v : ℕ) : Type 0 where
  whole : r.1 ≡ false → l.IsValid r.0 → l.value r.0 ≡ v → Product l r v
  lossy : r.1 ≡ true → l.bound ≤ v → Product l r v

-- `v` is the square root of `a`, rounded down.
abbrev pub IsRoot : ℕ → ℕ → Type 0
IsRoot v a = (v * v ≤ a) × (a < (v + 1) * (v + 1))

pub record Uint (l : Limbs) : Type 0 where
  pub zero : l.N
  pub one : l.N
  pub add : l.N → l.N → Run l.N
  pub sub : l.N → l.N → Run l.N
  pub div : l.N → l.N → Run l.N
  pub overflowing_mul : l.N → l.N → l.N × Bool
  pub integer_sqrt : l.N → l.N
  pub shl : l.N → ℕ → l.N
  pub zero_IsValid : l.IsValid zero
  pub zero_value : l.value zero ≡ 0
  pub one_IsValid : l.IsValid one
  pub one_value : l.value one ≡ 1
  pub add_gives :
      (a b : l.N) → l.IsValid a → l.IsValid b → Gives l (add a b) (l.value a + l.value b)
  pub sub_differs :
      (a b : l.N) → l.IsValid a → l.IsValid b → Differs l (sub a b) (l.value a) (l.value b)
  pub div_divides :
      (a b : l.N) → l.IsValid a → l.IsValid b → Divides l (div a b) (l.value a) (l.value b)
  pub mul_gives :
      (a b : l.N)
      → l.IsValid a
      → l.IsValid b
      → Product l (overflowing_mul a b) (l.value a * l.value b)
  pub sqrt_IsValid : (a : l.N) → l.IsValid a → l.IsValid (integer_sqrt a)
  pub sqrt_IsRoot : (a : l.N) → l.IsValid a → IsRoot (l.value (integer_sqrt a)) (l.value a)
  pub shl_IsValid : (a : l.N) (k : ℕ) → l.IsValid a → l.IsValid (shl a k)
  pub shl_value :
      (a : l.N) (k : ℕ) → l.IsValid a → l.value (shl a k) ≡ (l.value a * 2 ^ k) % l.bound

-- `words.all(|word| *word == 0)`
abbrev pub all_zero : List ℕ → Bool
all_zero [] = true
all_zero (w ∷ ws) = nat_beq w 0 && all_zero ws

abbrev pub total : List ℕ → ℕ
total [] = 0
total (w ∷ ws) = w + total ws

pub all_zero-total : (ws : List ℕ) → all_zero ws ≡ true → total ws ≡ 0
all_zero-total [] h = refl
all_zero-total (w ∷ ws) h = ground (arith, all_zero-total ws)

pub not_all_zero-total : (ws : List ℕ) → all_zero ws ≡ false → 0 < total ws
not_all_zero-total [] h = ground arith
not_all_zero-total (w ∷ ws) h = ground (arith, not_all_zero-total ws)

pub Product-at :
    (l : Limbs) (r : l.N × Bool) {a a' b b' : ℕ}
    → a ≡ a'
    → b ≡ b'
    → Product l r (a * b)
    → Product l r (a' * b')
Product-at l r e f h = rw (← e, ← f) h

pub Divides-at :
    (l : Limbs) (r : Run l.N) {a a' b b' : ℕ}
    → a ≡ a'
    → b ≡ b'
    → Divides l r a b
    → Divides l r a' b'
Divides-at l r e f h = rw (← e, ← f) h
