-- ===== src/Dex/Accounts.antt =====
-- veax/dex/src/dex/v0/account_state_ex.rs, chain/account.rs and dex/map_with_context.rs: one account,
-- its balances, its withdrawals in flight and the storage that it pays for.
-- A map is its entries (Maps/Entries.antt); an amount is a `u128`, an overflow of which panics.
pub mod Balances
pub mod Registration
use veax.Base.{
  ℕ, ◌+◌, ◌-◌, ◌*◌, ◌^◌, Bool, true, false, not, Option, none, some, List, [], ◌∷◌, ltb, leb,
  nat_beq, length, if◌then◌else◌,
}
use veax.Base.Eq.{nat_eq}
use veax.Maps.Entries.{lookup, has, put, erase}
use veax.Dex.Trackers.{Entry, is_any_withdraw_in_progress, is_token_withdraw_in_progress}
use veax.Errors.{Outcome, ok, err, panicked, ◌>>=◌, ◌>>◌, ensure_here, ok_or, ErrorKind, ChainError}

-- `AccountV0`, with the account's `extra` written out.
pub record Account : Type 0 where
  pub token_balances : List (ℕ × ℕ)
  pub positions : List ℕ
  pub withdraw_tracker : List Entry
  pub near_amount : ℕ

-- `MapWithContext::try_update`: the value under a key, updated in place if the function succeeds.
unfoldable pub try_update :
    {V R : Type 0}
    → ErrorKind
    → List (ℕ × V)
    → ℕ
    → (V → Outcome (R × V))
    → Outcome (R × List (ℕ × V))
try_update error entries key update_fn = elim (lookup key entries) [
  | none ↦ err error
  | some v ↦ update_fn v >>= λ r. ok (r.0, put key r.1 entries)
]

unfoldable pub try_inspect : {V : Type 0} → ErrorKind → List (ℕ × V) → ℕ → Outcome V
try_inspect error entries key = ok_or (lookup key entries) error

unfoldable pub ensure_no_withdraw_in_progress : Account → Outcome (Unit {0})
ensure_no_withdraw_in_progress acc =
    ensure_here (not (is_any_withdraw_in_progress acc.withdraw_tracker))
      ErrorKind.withdraw_in_progress

unfoldable pub register_token : Account → ℕ → Account
register_token acc token_id =
    if not (has token_id acc.token_balances)
    then record acc { token_balances = put token_id 0 acc.token_balances }
    else acc

unfoldable pub register_tokens : Account → List ℕ → Account
register_tokens acc [] = acc
register_tokens acc (token ∷ tokens) = register_tokens (register_token acc token) tokens

unfoldable pub unregister_token : Account → ℕ → Outcome Account
unregister_token acc token_id = elim (lookup token_id acc.token_balances) [
  | none ↦ ok acc
  | some balance ↦
      ensure_here (nat_beq balance 0) ErrorKind.non_zero_token_balance
      >> ok (record acc { token_balances = erase token_id acc.token_balances })
]

unfoldable pub unregister_tokens : Account → List ℕ → Outcome Account
unregister_tokens acc [] = ok acc
unregister_tokens acc (token ∷ tokens) =
    ensure_here (not (is_token_withdraw_in_progress acc.withdraw_tracker token))
      ErrorKind.withdraw_in_progress
    >> (unregister_token acc token >>= λ next. unregister_tokens next tokens)

-- `checked_add` and `checked_sub` on `u128`.
unfoldable pub deposit : Account → ℕ → ℕ → Outcome (ℕ × Account)
unfolding try_update
deposit acc token_id amount = do
  r ← try_update ErrorKind.token_not_registered acc.token_balances token_id λ balance.
      if ltb (balance + amount) (2 ^ 128)
      then ok (balance + amount, balance + amount)
      else err ErrorKind.deposit_would_overflow
  ok (r.0, record acc { token_balances = r.1 })

unfoldable pub withdraw : Account → ℕ → ℕ → Outcome (ℕ × Account)
unfolding try_update
withdraw acc token_id amount = do
  r ← try_update ErrorKind.token_not_registered acc.token_balances token_id λ balance.
      if leb amount balance
      then ok (balance - amount, balance - amount)
      else err ErrorKind.not_enough_tokens
  ok (r.0, record acc { token_balances = r.1 })

-- A result in `w` bits, or a panic.
abbrev pub in_bits : ℕ → ℕ → Outcome ℕ
in_bits w n = if ltb n (2 ^ w) then ok n else panicked

-- The price of a byte is the chain's.
module _ (storage_byte_cost : ℕ) where
  unfoldable pub storage_usage : Account → Outcome ℕ
  storage_usage acc = do
    tokens ← in_bits 64 (length acc.token_balances * 284)
    held ← in_bits 64 (366 + tokens)
    positions ← in_bits 64 (length acc.positions * 1087)
    bytes ← in_bits 64 (held + positions)
    in_bits 128 (bytes * storage_byte_cost)

  -- `saturating_sub`
  unfoldable pub storage_available : Account → Outcome ℕ
  unfolding storage_usage
  storage_available acc = storage_usage acc >>= λ usage. ok (acc.near_amount - usage)

  unfoldable pub ensure_storage_usage : Account → Outcome (Unit {0})
  unfolding storage_usage
  ensure_storage_usage acc = storage_usage acc >>= λ usage.
      ensure_here (leb usage acc.near_amount) (ErrorKind.custom ChainError.insufficient_storage)

  unfoldable pub min_storage_usage : Outcome ℕ
  min_storage_usage = in_bits 128 (366 * storage_byte_cost)

  -- `AccountExtra::on_pool_created`
  unfoldable pub on_pool_created : Account → Outcome Account
  on_pool_created acc = do
    cost ← in_bits 128 (4457 * storage_byte_cost)
    ensure_here (leb cost acc.near_amount) (ErrorKind.custom ChainError.insufficient_storage)
    ok (record acc { near_amount = acc.near_amount - cost })
