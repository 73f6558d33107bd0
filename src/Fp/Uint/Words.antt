-- ===== src/Fp/Uint/Words.antt =====
-- veax/dex/src/fp/types.rs: the words of each integer type, the number that they stand for, and the
-- range of a word.
use veax.Base.{ℕ, ◌+◌, ◌*◌, ◌^◌, ◌<◌}

abbrev pub word : ℕ
word = 2 ^ 64

-- An integer type: its values, the number that one stands for, and the first number that is too large.
pub record Limbs : Type 1 where
  pub N : Type 0
  pub value : N → ℕ
  pub IsValid : N → Type 0
  pub bound : ℕ

pub data U128 : Type 0 where
  u128 : ℕ → ℕ → U128

abbrev pub u128_value : U128 → ℕ
u128_value (u128 w0 w1) = w0 + word * w1

abbrev pub IsU128 : U128 → Type 0
IsU128 (u128 w0 w1) = (w0 < word) × (w1 < word)

abbrev pub u128_words : Limbs
u128_words = record { N = U128; value = u128_value; IsValid = IsU128; bound = 2 ^ 128 }

pub data U256 : Type 0 where
  u256 : ℕ → ℕ → ℕ → ℕ → U256

abbrev pub u256_value : U256 → ℕ
u256_value (u256 w0 w1 w2 w3) = w0 + word * (w1 + word * (w2 + word * w3))

abbrev pub IsU256 : U256 → Type 0
IsU256 (u256 w0 w1 w2 w3) = (w0 < word) × (w1 < word) × (w2 < word) × (w3 < word)

abbrev pub u256_words : Limbs
u256_words = record { N = U256; value = u256_value; IsValid = IsU256; bound = 2 ^ 256 }

pub data U320 : Type 0 where
  u320 : ℕ → ℕ → ℕ → ℕ → ℕ → U320

abbrev pub u320_value : U320 → ℕ
u320_value (u320 w0 w1 w2 w3 w4) = w0 + word * (w1 + word * (w2 + word * (w3 + word * w4)))

abbrev pub IsU320 : U320 → Type 0
IsU320 (u320 w0 w1 w2 w3 w4) = (w0 < word) × (w1 < word) × (w2 < word) × (w3 < word) × (w4 < word)

abbrev pub u320_words : Limbs
u320_words = record { N = U320; value = u320_value; IsValid = IsU320; bound = 2 ^ 320 }

pub data U384 : Type 0 where
  u384 : ℕ → ℕ → ℕ → ℕ → ℕ → ℕ → U384

abbrev pub u384_value : U384 → ℕ
u384_value (u384 w0 w1 w2 w3 w4 w5) =
    w0 + word * (w1 + word * (w2 + word * (w3 + word * (w4 + word * w5))))

abbrev pub IsU384 : U384 → Type 0
IsU384 (u384 w0 w1 w2 w3 w4 w5) =
    (w0 < word) × (w1 < word) × (w2 < word) × (w3 < word) × (w4 < word) × (w5 < word)

abbrev pub u384_words : Limbs
u384_words = record { N = U384; value = u384_value; IsValid = IsU384; bound = 2 ^ 384 }

pub data U448 : Type 0 where
  u448 : ℕ → ℕ → ℕ → ℕ → ℕ → ℕ → ℕ → U448

abbrev pub u448_value : U448 → ℕ
u448_value (u448 w0 w1 w2 w3 w4 w5 w6) =
    w0 + word * (w1 + word * (w2 + word * (w3 + word * (w4 + word * (w5 + word * w6)))))

abbrev pub IsU448 : U448 → Type 0
IsU448 (u448 w0 w1 w2 w3 w4 w5 w6) =
    (w0 < word) × (w1 < word) × (w2 < word) × (w3 < word) × (w4 < word) × (w5 < word) × (w6 < word)

abbrev pub u448_words : Limbs
u448_words = record { N = U448; value = u448_value; IsValid = IsU448; bound = 2 ^ 448 }

pub data U512 : Type 0 where
  u512 : ℕ → ℕ → ℕ → ℕ → ℕ → ℕ → ℕ → ℕ → U512

abbrev pub u512_value : U512 → ℕ
u512_value (u512 w0 w1 w2 w3 w4 w5 w6 w7) =
    w0
    + word * (w1 + word * (w2 + word * (w3 + word * (w4 + word * (w5 + word * (w6 + word * w7))))))

abbrev pub IsU512 : U512 → Type 0
IsU512 (u512 w0 w1 w2 w3 w4 w5 w6 w7) =
    (w0 < word)
    × (w1 < word)
    × (w2 < word)
    × (w3 < word)
    × (w4 < word)
    × (w5 < word)
    × (w6 < word)
    × (w7 < word)

abbrev pub u512_words : Limbs
u512_words = record { N = U512; value = u512_value; IsValid = IsU512; bound = 2 ^ 512 }

pub data U576 : Type 0 where
  u576 : ℕ → ℕ → ℕ → ℕ → ℕ → ℕ → ℕ → ℕ → ℕ → U576

abbrev pub u576_value : U576 → ℕ
u576_value (u576 w0 w1 w2 w3 w4 w5 w6 w7 w8) =
    w0
    + word
      * (w1
          + word
            * (w2
                + word * (w3 + word * (w4 + word * (w5 + word * (w6 + word * (w7 + word * w8)))))))

abbrev pub IsU576 : U576 → Type 0
IsU576 (u576 w0 w1 w2 w3 w4 w5 w6 w7 w8) =
    (w0 < word)
    × (w1 < word)
    × (w2 < word)
    × (w3 < word)
    × (w4 < word)
    × (w5 < word)
    × (w6 < word)
    × (w7 < word)
    × (w8 < word)

abbrev pub u576_words : Limbs
u576_words = record { N = U576; value = u576_value; IsValid = IsU576; bound = 2 ^ 576 }

pub data U768 : Type 0 where
  u768 : ℕ → ℕ → ℕ → ℕ → ℕ → ℕ → ℕ → ℕ → ℕ → ℕ → ℕ → ℕ → U768

abbrev pub u768_value : U768 → ℕ
u768_value (u768 w0 w1 w2 w3 w4 w5 w6 w7 w8 w9 w10 w11) =
    w0
    + word
      * (w1
          + word
            * (w2
                + word
                  * (w3
                      + word
                        * (w4
                            + word
                              * (w5
                                  + word
                                    * (w6
                                        + word
                                          * (w7
                                              + word
                                                * (w8
                                                    + word
                                                      * (w9 + word * (w10 + word * w11))))))))))

abbrev pub IsU768 : U768 → Type 0
IsU768 (u768 w0 w1 w2 w3 w4 w5 w6 w7 w8 w9 w10 w11) =
    (w0 < word)
    × (w1 < word)
    × (w2 < word)
    × (w3 < word)
    × (w4 < word)
    × (w5 < word)
    × (w6 < word)
    × (w7 < word)
    × (w8 < word)
    × (w9 < word)
    × (w10 < word)
    × (w11 < word)

abbrev pub u768_words : Limbs
u768_words = record { N = U768; value = u768_value; IsValid = IsU768; bound = 2 ^ 768 }

pub data U896 : Type 0 where
  u896 : ℕ → ℕ → ℕ → ℕ → ℕ → ℕ → ℕ → ℕ → ℕ → ℕ → ℕ → ℕ → ℕ → ℕ → U896

abbrev pub u896_value : U896 → ℕ
u896_value (u896 w0 w1 w2 w3 w4 w5 w6 w7 w8 w9 w10 w11 w12 w13) =
    w0
    + word
      * (w1
          + word
            * (w2
                + word
                  * (w3
                      + word
                        * (w4
                            + word
                              * (w5
                                  + word
                                    * (w6
                                        + word
                                          * (w7
                                              + word
                                                * (w8
                                                    + word
                                                      * (w9
                                                          + word
                                                            * (w10
                                                            + word
                                                            * (w11
                                                            + word * (w12 + word * w13))))))))))))

abbrev pub IsU896 : U896 → Type 0
IsU896 (u896 w0 w1 w2 w3 w4 w5 w6 w7 w8 w9 w10 w11 w12 w13) =
    (w0 < word)
    × (w1 < word)
    × (w2 < word)
    × (w3 < word)
    × (w4 < word)
    × (w5 < word)
    × (w6 < word)
    × (w7 < word)
    × (w8 < word)
    × (w9 < word)
    × (w10 < word)
    × (w11 < word)
    × (w12 < word)
    × (w13 < word)

abbrev pub u896_words : Limbs
u896_words = record { N = U896; value = u896_value; IsValid = IsU896; bound = 2 ^ 896 }
