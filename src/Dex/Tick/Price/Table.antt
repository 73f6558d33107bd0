-- ===== src/Dex/Tick/Price/Table.antt =====
-- dex/tick.rs: every entry of the table of prices is the double nearest to a power of the square root
-- of 1.0001.
use veax.Base.{
  ℕ, zero, suc, ◌+◌, ◌-◌, ◌*◌, ◌/◌, ◌%◌, ◌^◌, ◌≤◌, ◌<◌, ◌≡◌, refl, subst, Bool, true, ◌&&◌, Option,
  some, List, [], ◌∷◌, leb, get_elem?, arith,
}
use native.Mathlib.Nat.{
  pow-zero, pow-suc, lt-div-mul-add, mul-le-mul, mul-le-mul_right, le_of_mul-le-mul_right,
  div-mul-le_self,
}
use veax.Dex.Tick.Price.{precalculated_ticks}

-- A double of at least 2 ^ -140 with the bits x is `significand x * ulp x`, here with 192 bits of fraction.
abbrev pub significand : ℕ → ℕ
significand x = 2 ^ 52 + x % 2 ^ 52

abbrev pub ulp : ℕ → ℕ
ulp x = 2 ^ (x / 2 ^ 52 - 883)

-- `l` is at most, and `h` at least, the square root of 1.0001 to the power 2 ^ i, with 192 bits of
-- fraction.
abbrev pub IsBelow : ℕ → ℕ → Type 0
IsBelow l i = l * l * 10000 ^ (2 ^ i) ≤ 10001 ^ (2 ^ i) * (2 ^ 192 * 2 ^ 192)

abbrev pub IsAbove : ℕ → ℕ → Type 0
IsAbove h i = 10001 ^ (2 ^ i) * (2 ^ 192 * 2 ^ 192) ≤ h * h * 10000 ^ (2 ^ i)

pow_add : (a m n : ℕ) → a ^ (m + n) ≡ a ^ m * a ^ n
pow_add a m zero =
    let none_more : m + zero ≡ m = omega arith in rw (none_more, pow-zero a) (omega arith)
pow_add a m (suc n) =
    let one_more : m + suc n ≡ suc (m + n) = omega arith in
    let ih = pow_add a m n in rw (one_more, pow-suc a (m + n), pow-suc a n, ih) (grind arith)

pow_twice : (a i : ℕ) → a ^ (2 ^ suc i) ≡ a ^ (2 ^ i) * a ^ (2 ^ i)
pow_twice a i =
    let two : 2 ^ suc i ≡ 2 ^ i + 2 ^ i = omega arith in rw two (pow_add a (2 ^ i) (2 ^ i))

le_trans : (a b c : ℕ) → a ≤ b → b ≤ c → a ≤ c
le_trans a b c x y = omega arith

last_swapped : (a b c : ℕ) → a * b * c ≡ a * c * b
last_swapped a b c = grind arith

regrouped : (a b : ℕ) → a * b * b ≡ a * (b * b)
regrouped a b = grind arith

squares : (a b : ℕ) → a * a * (b * b) ≡ a * b * (a * b)
squares a b = grind arith

-- A square that is cut off is below, one that is cut off and raised by one is above.
square_below :
    (l m s q p : ℕ)
    → 0 < s
    → m * s ≤ l * l
    → l * l * q ≤ p * (s * s)
    → m * m * (q * q) ≤ p * p * (s * s)
square_below l m s q p some_scale cut low =
    let wide : m * q * s ≤ p * s * s =
      rw (last_swapped m q s, regrouped p s)
        (le_trans (m * s * q) (l * l * q) (p * (s * s)) (mul-le-mul_right q cut) low) in
    let half : m * q ≤ p * s = le_of_mul-le-mul_right wide some_scale in
    rw (squares m q, squares p s) (mul-le-mul half half)

square_above :
    (h m s q p : ℕ)
    → 0 < s
    → h * h ≤ m * s
    → p * (s * s) ≤ h * h * q
    → p * p * (s * s) ≤ m * m * (q * q)
square_above h m s q p some_scale cut high =
    let wide : p * s * s ≤ m * q * s =
      rw (last_swapped m q s, regrouped p s)
        (le_trans (p * (s * s)) (h * h * q) (m * s * q) high (mul-le-mul_right q cut)) in
    let half : p * s ≤ m * q = le_of_mul-le-mul_right wide some_scale in
    rw (squares m q, squares p s) (mul-le-mul half half)

abbrev next_below : ℕ → ℕ
next_below l = l * l / 2 ^ 192

abbrev next_above : ℕ → ℕ
next_above h = h * h / 2 ^ 192 + 1

next_below-IsBelow : (l i : ℕ) → IsBelow l i → IsBelow (next_below l) (suc i)
next_below-IsBelow l i low =
    rw (pow_twice 10000 i, pow_twice 10001 i)
      (square_below l (next_below l) (2 ^ 192) (10000 ^ (2 ^ i)) (10001 ^ (2 ^ i)) (omega arith)
        (div-mul-le_self (l * l) (2 ^ 192)) low)

add_mul : (q s : ℕ) → (q + 1) * s ≡ q * s + s
add_mul q s = grind arith

divided : (a s : ℕ) → 0 < s → a ≤ (a / s + 1) * s
divided a s some_scale =
    rw (add_mul (a / s) s)
      (let close : a < a / s * s + s = lt-div-mul-add some_scale in omega (arith, close))

next_above-IsAbove : (h i : ℕ) → IsAbove h i → IsAbove (next_above h) (suc i)
next_above-IsAbove h i high =
    rw (pow_twice 10000 i, pow_twice 10001 i)
      (square_above h (next_above h) (2 ^ 192) (10000 ^ (2 ^ i)) (10001 ^ (2 ^ i)) (omega arith)
        (divided (h * h) (2 ^ 192) (omega arith)) high)

-- The double of the bits x, which is not a power of two, is the one nearest to the square root of
-- 1.0001 to the power 2 ^ i: that lies within half a last place below and above the double. Both
-- sides are doubled and squared.
abbrev pub IsNearest : ℕ → ℕ → Type 0
IsNearest i x =
    ((2 * significand x - 1) * ulp x * ((2 * significand x - 1) * ulp x) * 10000 ^ (2 ^ i)
      ≤ 10001 ^ (2 ^ i) * (2 ^ 193 * 2 ^ 193))
    × (10001 ^ (2 ^ i) * (2 ^ 193 * 2 ^ 193)
        ≤ (2 * significand x + 1) * ulp x * ((2 * significand x + 1) * ulp x) * 10000 ^ (2 ^ i))

four_times : (p s : ℕ) → p * (4 * s) ≡ 4 * (p * s)
four_times p s = grind arith

doubled_square : (l q : ℕ) → 2 * l * (2 * l) * q ≡ 4 * (l * l * q)
doubled_square l q = grind arith

doubled_below : (a l q p s : ℕ) → a ≤ 2 * l → l * l * q ≤ p * s → a * a * q ≤ p * (4 * s)
doubled_below a l q p s small low =
    le_trans (a * a * q) (2 * l * (2 * l) * q) (p * (4 * s))
      (mul-le-mul_right q (mul-le-mul small small))
      (rw (doubled_square l q, four_times p s) (omega (arith, low)))

doubled_above : (a h q p s : ℕ) → 2 * h ≤ a → p * s ≤ h * h * q → p * (4 * s) ≤ a * a * q
doubled_above a h q p s large high =
    le_trans (p * (4 * s)) (2 * h * (2 * h) * q) (a * a * q)
      (rw (doubled_square h q, four_times p s) (omega (arith, high)))
      (mul-le-mul_right q (mul-le-mul large large))

-- The loop over the table, with the bounds of the roots.
abbrev all_nearest : ℕ → ℕ → List ℕ → Bool
all_nearest l h [] = true
all_nearest l h (x ∷ xs) =
    leb ((2 * significand x - 1) * ulp x) (2 * l)
    && leb (2 * h) ((2 * significand x + 1) * ulp x)
    && all_nearest (next_below l) (next_above h) xs

abbrev root : ℕ
root = 6277415582627465222980879537863866035143131484452495518431

table_holds : all_nearest root (root + 1) precalculated_ticks ≡ true
table_holds = refl

root-IsBelow : IsBelow root 0
root-IsBelow = omega arith

root-IsAbove : IsAbove (root + 1) 0
root-IsAbove = omega arith

rounded_double :
    (x l h i : ℕ)
    → (2 * significand x - 1) * ulp x ≤ 2 * l
    → 2 * h ≤ (2 * significand x + 1) * ulp x
    → IsBelow l i
    → IsAbove h i
    → IsNearest i x
rounded_double x l h i small large low high = (
  doubled_below ((2 * significand x - 1) * ulp x) l (10000 ^ (2 ^ i)) (10001 ^ (2 ^ i))
      (2 ^ 192 * 2 ^ 192) small low,
  doubled_above ((2 * significand x + 1) * ulp x) h (10000 ^ (2 ^ i)) (10001 ^ (2 ^ i))
      (2 ^ 192 * 2 ^ 192) large high,
)

leb_le : (a b : ℕ) → leb a b ≡ true → a ≤ b
leb_le a b h = ground arith

all_three : (a b c : Bool) → (a && b && c) ≡ true → (a ≡ true) × ((b ≡ true) × (c ≡ true))
all_three a b c h = ground arith

some_injective : {a b : ℕ} → ◌≡◌ {A = Option ℕ} (some a) (some b) → a ≡ b
some_injective h = ground arith

all_nearest-IsNearest :
    (l h i : ℕ) (xs : List ℕ)
    → IsBelow l i
    → IsAbove h i
    → all_nearest l h xs ≡ true
    → (k j x : ℕ) → i + k ≡ j
    → get_elem? xs k ≡ some x
    → IsNearest j x
all_nearest-IsNearest l h i [] low high holds k j x at found = absurd (ground arith)
all_nearest-IsNearest l h i (x ∷ xs) low high holds zero j y at found =
    let (small, (large, _)) =
      all_three (leb ((2 * significand x - 1) * ulp x) (2 * l))
        (leb (2 * h) ((2 * significand x + 1) * ulp x))
        (all_nearest (next_below l) (next_above h) xs) holds in
    let here : i ≡ j = omega (arith, at) in
    let same : x ≡ y = some_injective found in
    subst (λ m. IsNearest m y) here
      (subst (IsNearest i) same
        (rounded_double x l h i (leb_le _ _ small) (leb_le _ _ large) low high))
all_nearest-IsNearest l h i (x ∷ xs) low high holds (suc k) j y at found =
    let (_, (_, rest)) =
      all_three (leb ((2 * significand x - 1) * ulp x) (2 * l))
        (leb (2 * h) ((2 * significand x + 1) * ulp x))
        (all_nearest (next_below l) (next_above h) xs) holds in
    all_nearest-IsNearest (next_below l) (next_above h) (suc i) xs (next_below-IsBelow l i low)
      (next_above-IsAbove h i high) rest k j y (omega (arith, at)) found

pub precalculated_ticks-IsNearest :
    (i x : ℕ) → get_elem? precalculated_ticks i ≡ some x → IsNearest i x
precalculated_ticks-IsNearest i x found =
    all_nearest-IsNearest root (root + 1) 0 precalculated_ticks root-IsBelow root-IsAbove
      table_holds i i x (omega arith) found
