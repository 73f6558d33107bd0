-- ===== src/Fp/Errors.antt =====
-- veax/dex/src/fp/error.rs: why a conversion fails.
pub data Error : Type 0 where
  nan negative_to_unsigned overflow precision_loss : Error

-- `Result<T, Error>`
pub data Result (A : Type 0) : Type 0 where
  ok : A → Result A
  err : Error → Result A
