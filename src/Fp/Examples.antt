-- ===== src/Fp/Examples.antt =====
-- Runs of the signed numbers over 256-bit values, with the theorems' conditions met.
use veax.Base.{
  ℕ, ◌+◌, ◌-◌, ◌*◌, ◌/◌, ◌^◌, ◌≤◌, ◌<◌, ◌≡◌, refl, true, false, [], ◌∷◌, arith, ltb, if◌then◌else◌,
  nat_beq, ◌⊎◌,
}
use veax.Base.Int as Int
use veax.Base.Int.{ℤ, pos, negsuc, ◌+ℤ◌, ◌-ℤ◌}
use veax.Base.Panic.{done, panic, add_below, sub_checked}
use veax.Fp.Unsigned.{Unsigned}
use veax.Fp.Signed.{
  Signed, signed, cmp, add, add_assign, sub, neg, sum, converted, negative_to_unsigned,
  try_into_unsigned, pos_from,
}
use veax.Fp.Signed.Value.{
  to_int, add-to_int, sub-to_int, neg-to_int, cmp-to_int, compare_ℤ, add_assign-add,
  try_into_unsigned-to_int, pos_from-id,
}
use veax.Fp.Signed.Sum.{sum-total, total}

add_fits : (a b : ℕ) → a + b < 2 ^ 256 → (c : ℕ) × (add_below (2 ^ 256) a b ≡ done c) × (c ≡ a + b)
add_fits a b room = (a + b, ground arith, refl)

sub_fits : (a b : ℕ) → b ≤ a → (c : ℕ) × (sub_checked a b ≡ done c) × (c ≡ a - b)
sub_fits a b more = (a - b, ground arith, refl)

-- 256 bits, of which 128 are the fraction.
abbrev words : Unsigned
words = record {
  T = ℕ;
  raw = λ a. a;
  bound = 2 ^ 256;
  zero = 0;
  add = add_below (2 ^ 256);
  sub = sub_checked;
  mul = λ a b. if ltb (a * b / 2 ^ 128) (2 ^ 256) then done (a * b / 2 ^ 128) else panic;
  div = λ a b. if nat_beq b 0 then panic else done (a * 2 ^ 128 / b);
  raw_injective = λ a b h. h;
  raw_zero = refl;
  add_below = add_fits;
  sub_above = sub_fits;
}

abbrev three : Signed ℕ
three = signed 3 true

abbrev minus_five : Signed ℕ
minus_five = signed 5 false

add-to_int_example :
    (c : Signed ℕ) × (add words three minus_five ≡ done c) × (to_int words c ≡ pos 3 +ℤ negsuc 4)
add-to_int_example = add-to_int words three minus_five (omega arith)

sub-to_int_example :
    (c : Signed ℕ) × (sub words three minus_five ≡ done c) × (to_int words c ≡ pos 3 -ℤ negsuc 4)
sub-to_int_example = sub-to_int words three minus_five (omega arith)

neg-to_int_example : to_int words (neg words minus_five) ≡ Int.neg (negsuc 4)
neg-to_int_example = neg-to_int words minus_five

cmp-to_int_example : cmp words minus_five three ≡ compare_ℤ (negsuc 4) (pos 3)
cmp-to_int_example = cmp-to_int words minus_five three

add_assign-add_example : add_assign words three minus_five ≡ add words three minus_five
add_assign-add_example = add_assign-add words three minus_five

try_into_unsigned-to_int_example :
    ((v : ℕ) × (try_into_unsigned words minus_five ≡ converted v)
      × (to_int words minus_five ≡ pos v))
    ⊎ ((try_into_unsigned words minus_five ≡ negative_to_unsigned)
        × (to_int words minus_five ≡ negsuc 4)
        × (0 < 5))
try_into_unsigned-to_int_example = try_into_unsigned-to_int words minus_five

pos_from-id_example : pos_from words minus_five ≡ minus_five
pos_from-id_example = pos_from-id words minus_five

sum-total_example :
    (c : Signed ℕ) × (sum words (three ∷ minus_five ∷ []) ≡ done c)
    × (to_int words c ≡ total words (three ∷ minus_five ∷ []))
sum-total_example = sum-total words (three ∷ minus_five ∷ []) (omega arith)
