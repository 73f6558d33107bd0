-- ===== src/Dex/Tick/Price/Bits.antt =====
-- dex/tick.rs: the bits of an index are bits of the table, and their weights sum to the index.
use veax.Base.{
  ℕ, zero, suc, ◌+◌, ◌*◌, ◌/◌, ◌%◌, ◌^◌, ◌<◌, ◌≤◌, ◌≡◌, refl, ap, sym, subst, ◌∙◌, Bool-cases, List,
  [], ◌∷◌, nat_beq, inl, inr, arith,
}
use veax.Dex.Tick.Price.{iter_ones}

-- The sum of 2 ^ i over the list.
abbrev pub weight : List ℕ → ℕ
weight [] = 0
weight (i ∷ is) = 2 ^ i + weight is

pub data Below (k : ℕ) : List ℕ → Type 0 where
  none_left : Below k []
  one_more : {i : ℕ} {is : List ℕ} → i < k → Below k is → Below k (i ∷ is)

arrive : (at k : ℕ) → at + 1 + k ≡ at + suc k
arrive at k = omega arith

halves_odd : (x n : ℕ) → n % 2 ≡ 1 → x + x * 2 * (n / 2) ≡ x * n
halves_odd x n odd =
    let whole : n ≡ 1 + 2 * (n / 2) = ground arith in
    let split : x * (1 + 2 * (n / 2)) ≡ x * n = ap (λ m. x * m) (sym whole) in grind (arith, split)

halves_even : (x n : ℕ) → n % 2 ≡ 0 → x * 2 * (n / 2) ≡ x * n
halves_even x n even =
    let whole : n ≡ 2 * (n / 2) = ground arith in
    let split : x * (2 * (n / 2)) ≡ x * n = ap (λ m. x * m) (sym whole) in grind (arith, split)

pow_double : (k : ℕ) → 2 ^ (k + 1) ≡ 2 ^ k * 2
pow_double k =
    let next : k + 1 ≡ suc k = omega arith in
    let twice : 2 ^ suc k ≡ 2 ^ k * 2 = omega arith in ap (λ j. 2 ^ j) next ∙ twice

half_below : (n k : ℕ) → n < 2 ^ suc k → n / 2 < 2 ^ k
half_below n k small = omega arith

pub weight-iter_ones : (w at n : ℕ) → n < 2 ^ w → weight (iter_ones w at n) ≡ 2 ^ at * n
unfolding iter_ones
weight-iter_ones zero at n small = let nought : n ≡ 0 = omega arith in rw nought (omega arith)
weight-iter_ones (suc w) at n small =
    let ih = weight-iter_ones w (at + 1) (n / 2) (half_below n w small) in
    elim (Bool-cases (nat_beq (n % 2) 1)) [
      | inl odd ↦ rw (odd, ih, pow_double) (halves_odd (2 ^ at) n (ground arith))
      | inr even ↦ rw (even, ih, pow_double) (halves_even (2 ^ at) n (ground arith))
    ]

no_ones : (w at : ℕ) → iter_ones w at 0 ≡ []
unfolding iter_ones
no_ones zero at = refl
no_ones (suc w) at = no_ones w (at + 1)

pub iter_ones-Below : (w at k n : ℕ) → n < 2 ^ k → Below (at + k) (iter_ones w at n)
unfolding iter_ones
iter_ones-Below zero at k n small = none_left
iter_ones-Below (suc w) at zero n small =
    let nought : n ≡ 0 = omega arith in rw (nought, no_ones) none_left
iter_ones-Below (suc w) at (suc k) n small =
    let ih =
      subst (λ b. Below b (iter_ones w (at + 1) (n / 2))) (arrive at k)
        (iter_ones-Below w (at + 1) k (n / 2) (half_below n k small)) in
    elim (Bool-cases (nat_beq (n % 2) 1)) [
      | inl odd ↦ rw odd (one_more (omega arith) ih)
      | inr even ↦ rw even ih
    ]

-- Distinct bits in order, from `at` on.
pub data Ascending : ℕ → List ℕ → Type 0 where
  no_bits : {at : ℕ} → Ascending at []
  then_bits : {at i : ℕ} {is : List ℕ} → at ≤ i → Ascending (i + 1) is → Ascending at (i ∷ is)

from_earlier : (at : ℕ) (is : List ℕ) → Ascending (at + 1) is → Ascending at is
from_earlier at [] no_bits = no_bits
from_earlier at (i ∷ is) (then_bits later rest) = then_bits (omega (arith, later)) rest

pub iter_ones-Ascending : (w at n : ℕ) → Ascending at (iter_ones w at n)
unfolding iter_ones
iter_ones-Ascending zero at n = no_bits
iter_ones-Ascending (suc w) at n =
    let ih = iter_ones-Ascending w (at + 1) (n / 2) in
    elim (Bool-cases (nat_beq (n % 2) 1)) [
      | inl odd ↦ rw odd (then_bits (omega arith) ih)
      | inr even ↦ rw even (from_earlier at (iter_ones w (at + 1) (n / 2)) ih)
    ]
