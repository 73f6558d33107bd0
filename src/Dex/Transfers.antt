-- ===== src/Dex/Transfers.antt =====
-- dex/dex_impl/mod.rs, and chain/mod.rs and chain/wasm.rs for the transfer itself: deposits and
-- withdrawals. A withdrawal takes the tokens from the balance, tracks them and starts the transfer; the
-- callback after the transfer untracks them, and gives them back where it failed.
pub mod Rollback
pub mod Suspension
use veax.Base.{
  ℕ, ◌-◌, Bool, true, false, Option, none, some, List, [], ◌∷◌, ltb, nat_beq, if◌then◌else◌,
}
use veax.Base.Eq.{nat_eq}
use veax.Maps.Entries.{lookup}
use veax.Dex.Trackers.{track, untrack}
use veax.Dex.Accounts as Acc
use veax.Dex.Accounts.{Account}
use veax.Dex.Contract.{
  Contract, Call, update_account, ensure_payable_api_resumed, ensure_caller_is_owner, owner_call,
}
use veax.Errors.{
  Outcome, ok, err, panicked, starved, ◌>>=◌, ◌>>◌, ensure_here, lift, unwrap_ok, ErrorKind,
}

-- The arguments of the callback: the transfer that is under way.
pub record Transfer : Type 0 where
  pub token_id : ℕ
  pub sender_id : ℕ
  pub amount : ℕ
  pub unregister : Bool

-- What `withdraw_impl` does to the account, and the amount that is to be sent.
unfoldable pub withdraw_known : Account → ℕ → ℕ → Outcome (Option ℕ × Account)
withdraw_known account token_id amount =
    Acc.withdraw account token_id amount >>= λ r. ok (some amount, r.1)

unfoldable pub withdraw_impl : Account → ℕ → ℕ → Bool → Outcome (Option ℕ × Account)
unfolding withdraw_known
withdraw_impl account token_id amount unregister =
    if nat_beq amount 0
    then elim (lookup token_id account.token_balances) [
      | none ↦ ok (none, account)
      | some balance ↦
          if nat_beq balance 0
          then if unregister
            then (Acc.unregister_tokens account (token_id ∷ []) >>= λ acc. ok (none, acc))
            else ok (none, account)
          else withdraw_known account token_id balance
    ]
    else withdraw_known account token_id amount

-- What `send_tokens` does to the account.
unfoldable pub start_tracking : ℕ → ℕ → Account → Outcome (Unit {0} × Account)
start_tracking token_id amount acc =
    lift (track acc.withdraw_tracker token_id amount) >>= λ tracker.
    ok (tt, record acc { withdraw_tracker = tracker })

-- `let _ignore = acc.unregister_tokens([token_id])`: for one token an error leaves the account as it was.
unfoldable pub or_unchanged : Account → Outcome Account → Outcome Account
or_unchanged acc (ok after) = ok after
or_unchanged acc (err e) = ok acc
or_unchanged acc panicked = panicked
or_unchanged acc starved = starved

-- What the callback does to the account.
unfoldable pub settle : Transfer → Bool → Account → Outcome (Unit {0} × Account)
unfolding or_unchanged
settle t succeeded acc = do
  tracker ← lift (untrack acc.withdraw_tracker t.token_id t.amount)
  let untracked = record acc { withdraw_tracker = tracker }
  if succeeded
      then if t.unregister
        then (or_unchanged untracked (Acc.unregister_tokens untracked (t.token_id ∷ []))
            >>= λ after. ok (tt, after))
        else ok (tt, untracked)
      else (Acc.deposit untracked t.token_id t.amount >>= λ r. ok (tt, r.1))

module _ (storage_byte_cost : ℕ) where
  unfoldable pub send_tokens : Contract → ℕ → ℕ → ℕ → Bool → Call Transfer
  unfolding start_tracking
  send_tokens c account_id token_id amount unregister =
      unwrap_ok (update_account storage_byte_cost c account_id (start_tracking token_id amount))
      >>= λ r. ok (
        record {
          token_id = token_id;
          sender_id = account_id;
          amount = amount;
          unregister = unregister;
        },
        r.1,
      )

  unfoldable pub send_if : Contract → ℕ → ℕ → Option ℕ → Bool → Call (Option Transfer)
  unfolding send_tokens
  send_if c account_id token_id none unregister = ok (none, c)
  send_if c account_id token_id (some amount) unregister =
      send_tokens c account_id token_id amount unregister >>= λ r. ok (some r.0, r.1)

  unfoldable pub withdraw : Contract → ℕ → ℕ → ℕ → Bool → Call (Option Transfer)
  unfolding withdraw_impl send_if
  withdraw c account_id token_id amount unregister = do
    ensure_payable_api_resumed c
    r ←
        update_account storage_byte_cost c account_id
          λ account. withdraw_impl account token_id amount unregister
    send_if r.1 account_id token_id r.0 unregister

  unfoldable pub owner_withdraw : Contract → ℕ → ℕ → ℕ → Call Transfer
  unfolding send_tokens
  owner_withdraw c caller token_id amount = do
    owner_call c caller
    ensure_here (ltb 0 amount) ErrorKind.illegal_withdraw_amount
    r ←
        update_account storage_byte_cost c c.owner_id
          λ account. Acc.withdraw account token_id amount
    send_tokens r.1 c.owner_id token_id amount false

  unfoldable pub deposit : Contract → ℕ → ℕ → ℕ → Call ℕ
  deposit c account_id token_id amount = do
    ensure_payable_api_resumed c
    update_account storage_byte_cost c account_id λ account. Acc.deposit account token_id amount

  unfoldable pub register_tokens : Contract → ℕ → List ℕ → Call (Unit {0})
  register_tokens c account_id tokens = do
    ensure_payable_api_resumed c
    update_account storage_byte_cost c account_id
        λ account. ok (tt, Acc.register_tokens account tokens)

  unfoldable pub unregister_tokens : Contract → ℕ → List ℕ → Call (Unit {0})
  unregister_tokens c account_id tokens = do
    ensure_payable_api_resumed c
    update_account storage_byte_cost c account_id
        λ account. Acc.unregister_tokens account tokens >>= λ acc. ok (tt, acc)

  -- `#[private]`: a caller other than the contract's own account panics.
  unfoldable pub exchange_callback_post_withdraw :
      Contract → ℕ → ℕ → Transfer → Bool → Call (Unit {0})
  unfolding settle
  exchange_callback_post_withdraw c current_account_id predecessor_account_id t succeeded =
      if nat_beq predecessor_account_id current_account_id
      then unwrap_ok (update_account storage_byte_cost c t.sender_id (settle t succeeded))
      else panicked
