-- ===== src/Errors.antt =====
-- veax/dex/src/dex/errors.rs: the kinds of errors, and the outcome of a fallible call.
-- The location that an `Error` carries beside its kind and the payloads
-- of the chain's errors are texts for the log and are left out.
use veax.Base.{◌≡◌, refl, Bool, true, false, Option, none, some, arith, ap}
use veax.Base.Panic.{Run, done, panic, out_of_fuel}

pub data ChainError : Type 0 where
  insufficient_storage no_storage_can_withdraw storage_withdraw_too_much
        deposit_less_than_min_storage not_enough_storage_deposit :
      ChainError
  at_least_one_yocto invalid_argument wrong_msg_format register_account_not_allowed_on_deposit
        promise_wrong_results_count :
      ChainError
  promise_not_ready promise_failed promise_result_parse_failed : ChainError

pub data ErrorKind : Type 0 where
  custom : ChainError → ErrorKind
  account_not_registered tokens_storage_not_empty token_not_registered not_enough_tokens
        non_zero_token_balance :
      ErrorKind
  illegal_withdraw_amount deposit_sender_must_be_signer unexpected_register_account
        deposit_already_handled deposit_not_handled :
      ErrorKind
  deposit_not_allowed withdraw_in_progress deposit_would_overflow wrong_action_result slippage :
      ErrorKind
  at_least_one_swap insufficient_liquidity swap_amount_too_small swap_amount_too_large
        invalid_params :
      ErrorKind
  pool_not_registered token_duplicates permission_denied guard_change_state_denied illegal_fee :
      ErrorKind
  wrong_ratio liquidity_too_small liquidity_too_big position_already_exists
        position_does_not_exist :
      ErrorKind
  user_has_positions not_your_position conv_overflow conv_source_nan conv_negative_to_unsigned :
      ErrorKind
  conv_precision_loss payable_api_suspended internal_tick_not_found internal_tick_not_deleted
        internal_deposit_more_than_max :
      ErrorKind
  internal_top_pools_number_mismatch internal_logic_error price_tick_out_of_bounds : ErrorKind

-- A fallible call returns, fails with an error, or panics.
pub data Outcome {ℓ} (A : Type ℓ) : Type ℓ where
  ok : A → Outcome A
  err : ErrorKind → Outcome A
  panicked : Outcome A
  starved : Outcome A

infixl 5 ◌>>=◌ ◌>>◌
abbrev pub ◌>>=◌ {ℓ κ} : {A : Type ℓ} {B : Type κ} → Outcome A → (A → Outcome B) → Outcome B
ok a >>= f = f a
err e >>= f = err e
panicked >>= f = panicked
starved >>= f = starved

abbrev pub ◌>>◌ {ℓ} : {B : Type ℓ} → Outcome (Unit {0}) → Outcome B → Outcome B
m >> k = m >>= λ _. k

-- `ensure_here!`
abbrev pub ensure_here : Bool → ErrorKind → Outcome (Unit {0})
ensure_here true e = ok tt
ensure_here false e = err e

-- `Option::ok_or`
abbrev pub ok_or {ℓ} : {A : Type ℓ} → Option A → ErrorKind → Outcome A
ok_or none e = err e
ok_or (some a) e = ok a

-- A call that does not fail but may panic.
abbrev pub lift {ℓ} : {A : Type ℓ} → Run A → Outcome A
lift (done a) = ok a
lift panic = panicked
lift out_of_fuel = starved

-- `unwrap` of a `Result`.
abbrev pub unwrap_ok {ℓ} : {A : Type ℓ} → Outcome A → Outcome A
unwrap_ok (ok a) = ok a
unwrap_ok (err e) = panicked
unwrap_ok panicked = panicked
unwrap_ok starved = starved

-- Where a chain of calls returns, each of them returned.
pub bind-ok {ℓ κ} :
    {A : Type ℓ} {B : Type κ} (m : Outcome A) (f : A → Outcome B) (b : B)
    → (m >>= f) ≡ ok b
    → (a : A) × (m ≡ ok a) × (f a ≡ ok b)
bind-ok (ok a) f b h = (a, refl, h)
bind-ok (err e) f b h = ground arith
bind-ok panicked f b h = ground arith
bind-ok starved f b h = ground arith

pub ensure_here-ok :
    {B : Type 0} (c : Bool) (e : ErrorKind) (k : Outcome B) (b : B)
    → (ensure_here c e >> k) ≡ ok b
    → (c ≡ true) × (k ≡ ok b)
ensure_here-ok true e k b h = (refl, h)
ensure_here-ok false e k b h = ground arith

abbrev pub or_else {ℓ} : {A : Type ℓ} → A → Outcome A → A
or_else d (ok a) = a
or_else d (err e) = d
or_else d panicked = d
or_else d starved = d

pub ok_injective {ℓ} : {A : Type ℓ} {a b : A} → ok a ≡ ok b → a ≡ b
ok_injective {a = a} h = ap (or_else a) h
