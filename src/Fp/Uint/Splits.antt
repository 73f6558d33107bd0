-- ===== src/Fp/Uint/Splits.antt =====
-- The interface of `uint` at the word counts that fp/types.rs declares and the fixed point types use.
use veax.Base.{ℕ, ◌/◌, ◌%◌, ◌^◌, ◌<◌, ◌≡◌, arith}
use veax.Fp.Uint.Words.{
  word, U256, u256, u256_words, IsU256, u256_value, U320, u320, u320_words, IsU320, u320_value,
  U384, u384, u384_words, IsU384, u384_value, U448, u448, u448_words, IsU448, u448_value, U512,
  u512, u512_words, IsU512, u512_value, U576, u576, u576_words, IsU576, u576_value, U768, u768,
  u768_words, IsU768, u768_value, U896, u896, u896_words, IsU896, u896_value,
}
use veax.Fp.Uint.Laws.{Uint}
use veax.Fp.Uint.Exact.{exact}

u256_of : ℕ → U256
u256_of v =
    u256 (v % word) (v / word % word) (v / word / word % word) (v / word / word / word % word)

u256_of-IsValid : (v : ℕ) → IsU256 (u256_of v)
unfolding u256_of
u256_of-IsValid v = omega arith

u256_value-of : (v : ℕ) → v < 2 ^ 256 → u256_value (u256_of v) ≡ v
unfolding u256_of
u256_value-of v h = omega arith

pub u256_value-lt : (a : U256) → IsU256 a → u256_value a < 2 ^ 256
u256_value-lt (u256 w0 w1 w2 w3) ok = omega arith

pub u256_exact : Uint u256_words
u256_exact = exact u256_words (record {
  of = u256_of;
  of_IsValid = u256_of-IsValid;
  value_of = u256_value-of;
  value_below = u256_value-lt;
  bound_two = omega arith;
})

u320_of : ℕ → U320
u320_of v =
    u320 (v % word) (v / word % word) (v / word / word % word) (v / word / word / word % word)
      (v / word / word / word / word % word)

u320_of-IsValid : (v : ℕ) → IsU320 (u320_of v)
unfolding u320_of
u320_of-IsValid v = omega arith

u320_value-of : (v : ℕ) → v < 2 ^ 320 → u320_value (u320_of v) ≡ v
unfolding u320_of
u320_value-of v h = omega arith

pub u320_value-lt : (a : U320) → IsU320 a → u320_value a < 2 ^ 320
u320_value-lt (u320 w0 w1 w2 w3 w4) ok = omega arith

pub u320_exact : Uint u320_words
u320_exact = exact u320_words (record {
  of = u320_of;
  of_IsValid = u320_of-IsValid;
  value_of = u320_value-of;
  value_below = u320_value-lt;
  bound_two = omega arith;
})

u384_of : ℕ → U384
u384_of v =
    u384 (v % word) (v / word % word) (v / word / word % word) (v / word / word / word % word)
      (v / word / word / word / word % word) (v / word / word / word / word / word % word)

u384_of-IsValid : (v : ℕ) → IsU384 (u384_of v)
unfolding u384_of
u384_of-IsValid v = omega arith

u384_value-of : (v : ℕ) → v < 2 ^ 384 → u384_value (u384_of v) ≡ v
unfolding u384_of
u384_value-of v h = omega arith

pub u384_value-lt : (a : U384) → IsU384 a → u384_value a < 2 ^ 384
u384_value-lt (u384 w0 w1 w2 w3 w4 w5) ok = omega arith

pub u384_exact : Uint u384_words
u384_exact = exact u384_words (record {
  of = u384_of;
  of_IsValid = u384_of-IsValid;
  value_of = u384_value-of;
  value_below = u384_value-lt;
  bound_two = omega arith;
})

u448_of : ℕ → U448
u448_of v =
    u448 (v % word) (v / word % word) (v / word / word % word) (v / word / word / word % word)
      (v / word / word / word / word % word) (v / word / word / word / word / word % word)
      (v / word / word / word / word / word / word % word)

u448_of-IsValid : (v : ℕ) → IsU448 (u448_of v)
unfolding u448_of
u448_of-IsValid v = omega arith

u448_value-of : (v : ℕ) → v < 2 ^ 448 → u448_value (u448_of v) ≡ v
unfolding u448_of
u448_value-of v h = omega arith

pub u448_value-lt : (a : U448) → IsU448 a → u448_value a < 2 ^ 448
u448_value-lt (u448 w0 w1 w2 w3 w4 w5 w6) ok = omega arith

pub u448_exact : Uint u448_words
u448_exact = exact u448_words (record {
  of = u448_of;
  of_IsValid = u448_of-IsValid;
  value_of = u448_value-of;
  value_below = u448_value-lt;
  bound_two = omega arith;
})

u512_of : ℕ → U512
u512_of v =
    u512 (v % word) (v / word % word) (v / word / word % word) (v / word / word / word % word)
      (v / word / word / word / word % word) (v / word / word / word / word / word % word)
      (v / word / word / word / word / word / word % word)
      (v / word / word / word / word / word / word / word % word)

u512_of-IsValid : (v : ℕ) → IsU512 (u512_of v)
unfolding u512_of
u512_of-IsValid v = omega arith

u512_value-of : (v : ℕ) → v < 2 ^ 512 → u512_value (u512_of v) ≡ v
unfolding u512_of
u512_value-of v h = omega arith

pub u512_value-lt : (a : U512) → IsU512 a → u512_value a < 2 ^ 512
u512_value-lt (u512 w0 w1 w2 w3 w4 w5 w6 w7) ok = omega arith

pub u512_exact : Uint u512_words
u512_exact = exact u512_words (record {
  of = u512_of;
  of_IsValid = u512_of-IsValid;
  value_of = u512_value-of;
  value_below = u512_value-lt;
  bound_two = omega arith;
})

u576_of : ℕ → U576
u576_of v =
    u576 (v % word) (v / word % word) (v / word / word % word) (v / word / word / word % word)
      (v / word / word / word / word % word) (v / word / word / word / word / word % word)
      (v / word / word / word / word / word / word % word)
      (v / word / word / word / word / word / word / word % word)
      (v / word / word / word / word / word / word / word / word % word)

u576_of-IsValid : (v : ℕ) → IsU576 (u576_of v)
unfolding u576_of
u576_of-IsValid v = omega arith

u576_value-of : (v : ℕ) → v < 2 ^ 576 → u576_value (u576_of v) ≡ v
unfolding u576_of
u576_value-of v h = omega arith

pub u576_value-lt : (a : U576) → IsU576 a → u576_value a < 2 ^ 576
u576_value-lt (u576 w0 w1 w2 w3 w4 w5 w6 w7 w8) ok = omega arith

pub u576_exact : Uint u576_words
u576_exact = exact u576_words (record {
  of = u576_of;
  of_IsValid = u576_of-IsValid;
  value_of = u576_value-of;
  value_below = u576_value-lt;
  bound_two = omega arith;
})

u768_of : ℕ → U768
u768_of v =
    u768 (v % word) (v / word % word) (v / word / word % word) (v / word / word / word % word)
      (v / word / word / word / word % word) (v / word / word / word / word / word % word)
      (v / word / word / word / word / word / word % word)
      (v / word / word / word / word / word / word / word % word)
      (v / word / word / word / word / word / word / word / word % word)
      (v / word / word / word / word / word / word / word / word / word % word)
      (v / word / word / word / word / word / word / word / word / word / word % word)
      (v / word / word / word / word / word / word / word / word / word / word / word % word)

u768_of-IsValid : (v : ℕ) → IsU768 (u768_of v)
unfolding u768_of
u768_of-IsValid v = omega arith

u768_value-of : (v : ℕ) → v < 2 ^ 768 → u768_value (u768_of v) ≡ v
unfolding u768_of
u768_value-of v h = omega arith

pub u768_value-lt : (a : U768) → IsU768 a → u768_value a < 2 ^ 768
u768_value-lt (u768 w0 w1 w2 w3 w4 w5 w6 w7 w8 w9 w10 w11) ok = omega arith

pub u768_exact : Uint u768_words
u768_exact = exact u768_words (record {
  of = u768_of;
  of_IsValid = u768_of-IsValid;
  value_of = u768_value-of;
  value_below = u768_value-lt;
  bound_two = omega arith;
})

u896_of : ℕ → U896
u896_of v =
    u896 (v % word) (v / word % word) (v / word / word % word) (v / word / word / word % word)
      (v / word / word / word / word % word) (v / word / word / word / word / word % word)
      (v / word / word / word / word / word / word % word)
      (v / word / word / word / word / word / word / word % word)
      (v / word / word / word / word / word / word / word / word % word)
      (v / word / word / word / word / word / word / word / word / word % word)
      (v / word / word / word / word / word / word / word / word / word / word % word)
      (v / word / word / word / word / word / word / word / word / word / word / word % word)
      (v / word / word / word / word / word / word / word / word / word / word / word / word % word)
      (v / word / word / word / word / word / word / word / word / word / word / word / word / word
        % word)

u896_of-IsValid : (v : ℕ) → IsU896 (u896_of v)
unfolding u896_of
u896_of-IsValid v = omega arith

u896_value-of : (v : ℕ) → v < 2 ^ 896 → u896_value (u896_of v) ≡ v
unfolding u896_of
u896_value-of v h = omega arith

pub u896_value-lt : (a : U896) → IsU896 a → u896_value a < 2 ^ 896
u896_value-lt (u896 w0 w1 w2 w3 w4 w5 w6 w7 w8 w9 w10 w11 w12 w13) ok = omega arith

pub u896_exact : Uint u896_words
u896_exact = exact u896_words (record {
  of = u896_of;
  of_IsValid = u896_of-IsValid;
  value_of = u896_value-of;
  value_below = u896_value-lt;
  bound_two = omega arith;
})
