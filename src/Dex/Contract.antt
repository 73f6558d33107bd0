-- ===== src/Dex/Contract.antt =====
-- veax/dex/src/dex/dex_impl/mod.rs: the contract's state, who may change it, and the calls that touch
-- accounts; with them the map of accounts and `send_tokens` of chain/mod.rs, and the callback after a
-- transfer and the storage calls of chain/wasm.rs.
-- An account identifier is a number: the code only compares identifiers. Events for the log are left
-- out. The pools and positions, which none of these calls reads, are left out of the record.
pub mod Access
pub mod Update
pub mod Storage
use veax.Base.{
  ℕ, ◌+◌, ◌-◌, ◌^◌, Bool, true, false, not, ◌&&◌, ◌||◌, Option, none, some, List, [], ◌∷◌, ltb, leb,
  nat_beq, if◌then◌else◌,
}
use veax.Base.Eq.{nat_eq}
use veax.Maps.Entries.{lookup, put, erase}
use veax.Dex.Trackers.{track, untrack, is_any_withdraw_in_progress}
use veax.Dex.Accounts as Acc
use veax.Dex.Accounts.{Account, ensure_storage_usage, storage_available, min_storage_usage, in_bits}
use veax.Errors.{
  Outcome, ok, err, panicked, starved, ◌>>=◌, ◌>>◌, ensure_here, lift, unwrap_ok, ErrorKind,
  ChainError,
}

pub record Contract : Type 0 where
  pub owner_id : ℕ
  pub guards : List ℕ
  pub suspended : Bool
  pub accounts : List (ℕ × Account)
  pub verified_tokens : List ℕ
  pub protocol_fee_fraction : ℕ

-- A result and the contract after the call.
abbrev pub Call : Type 0 → Type 0
Call R = Outcome (R × Contract)

unfoldable pub ensure_caller_is_owner : Contract → ℕ → Outcome (Unit {0})
ensure_caller_is_owner c caller =
    ensure_here (nat_beq c.owner_id caller) ErrorKind.permission_denied

-- `UnorderedSet`
abbrev pub contains_item : ℕ → List ℕ → Bool
contains_item a [] = false
contains_item a (x ∷ xs) = nat_beq a x || contains_item a xs

abbrev pub remove_item : ℕ → List ℕ → List ℕ
remove_item a [] = []
remove_item a (x ∷ xs) = if nat_beq a x then xs else x ∷ remove_item a xs

unfoldable pub ensure_caller_is_guard : Contract → ℕ → Outcome (Unit {0})
ensure_caller_is_guard c caller =
    ensure_here (nat_beq c.owner_id caller || contains_item caller c.guards)
      ErrorKind.permission_denied

unfoldable pub ensure_suspended : Contract → Outcome (Unit {0})
ensure_suspended c = ensure_here c.suspended ErrorKind.guard_change_state_denied

unfoldable pub ensure_resumed : Contract → Outcome (Unit {0})
ensure_resumed c = ensure_here (not c.suspended) ErrorKind.guard_change_state_denied

unfoldable pub ensure_payable_api_resumed : Contract → Outcome (Unit {0})
ensure_payable_api_resumed c = ensure_here (not c.suspended) ErrorKind.payable_api_suspended

unfoldable pub suspend_payable_api : Contract → ℕ → Outcome Contract
unfolding ensure_caller_is_guard ensure_resumed
suspend_payable_api c caller = do
  ensure_caller_is_guard c caller
  ensure_resumed c
  ok (record c { suspended = true })

unfoldable pub resume_payable_api : Contract → ℕ → Outcome Contract
unfolding ensure_caller_is_guard ensure_suspended
resume_payable_api c caller = do
  ensure_caller_is_guard c caller
  ensure_suspended c
  ok (record c { suspended = false })

-- The items of a list that a set does not have, added one after the other; and the reverse. The first
-- component lists the items that were new, or that were there, in order: the event reports them.
unfoldable pub add_items : List ℕ → List ℕ → List ℕ × List ℕ
add_items set [] = ([], set)
add_items set (x ∷ xs) =
    let fresh = add_items (x ∷ set) xs in
    let old = add_items set xs in if not (contains_item x set) then (x ∷ fresh.0, fresh.1) else old

unfoldable pub remove_items : List ℕ → List ℕ → List ℕ × List ℕ
remove_items set [] = ([], set)
remove_items set (x ∷ xs) =
    let gone = remove_items (remove_item x set) xs in
    let old = remove_items set xs in if contains_item x set then (x ∷ gone.0, gone.1) else old

-- `ensure_payable_api_resumed`, then `ensure_caller_is_owner`
unfoldable pub owner_call : Contract → ℕ → Outcome (Unit {0})
unfolding ensure_payable_api_resumed ensure_caller_is_owner
owner_call c caller = ensure_payable_api_resumed c >> ensure_caller_is_owner c caller

unfoldable pub add_verified_tokens : Contract → ℕ → List ℕ → Call (List ℕ)
unfolding owner_call add_items
add_verified_tokens c caller tokens = do
  owner_call c caller
  let r = add_items c.verified_tokens tokens
  ok (r.0, record c { verified_tokens = r.1 })

unfoldable pub remove_verified_tokens : Contract → ℕ → List ℕ → Call (List ℕ)
unfolding owner_call remove_items
remove_verified_tokens c caller tokens = do
  owner_call c caller
  let r = remove_items c.verified_tokens tokens
  ok (r.0, record c { verified_tokens = r.1 })

unfoldable pub add_guard_accounts : Contract → ℕ → List ℕ → Call (List ℕ)
unfolding owner_call add_items
add_guard_accounts c caller accounts = do
  owner_call c caller
  let r = add_items c.guards accounts
  ok (r.0, record c { guards = r.1 })

unfoldable pub remove_guard_accounts : Contract → ℕ → List ℕ → Call (List ℕ)
unfolding owner_call remove_items
remove_guard_accounts c caller accounts = do
  owner_call c caller
  let r = remove_items c.guards accounts
  ok (r.0, record c { guards = r.1 })

-- `BASIS_POINT_DIVISOR / 2` is 5000.
unfoldable pub set_protocol_fee_fraction : Contract → ℕ → ℕ → Outcome Contract
unfolding owner_call
set_protocol_fee_fraction c caller fraction = do
  owner_call c caller
  ensure_here (ltb 0 fraction) ErrorKind.illegal_fee
  ensure_here (leb fraction 5000) ErrorKind.illegal_fee
  ok (record c { protocol_fee_fraction = fraction })

abbrev is_empty : {A : Type 0} → List A → Bool
is_empty [] = true
is_empty (x ∷ xs) = false

-- The callback of chain/wasm.rs, for the minimum that `storage_balance_bounds` gave: the result is what
-- is refunded.
unfoldable pub on_register_account : ℕ → Bool → ℕ → Account → Bool → Outcome (ℕ × Account)
on_register_account min_balance registration_only attached account already_registered =
    ensure_here (leb min_balance attached || already_registered)
      (ErrorKind.custom ChainError.deposit_less_than_min_storage)
    >> (if not registration_only
        then (in_bits 128 (account.near_amount + attached) >>= λ total.
            ok (0, record account { near_amount = total }))
        else if not already_registered
        then (let required = min_balance - account.near_amount in
            in_bits 128 (account.near_amount + required) >>= λ total.
            if leb required attached
            then ok (attached - required, record account { near_amount = total })
            else panicked)
        else ok (0, account))

-- `near_sdk::assert_one_yocto`: a call without exactly one yoctoNEAR attached panics.
abbrev pub assert_one_yocto : ℕ → Outcome (Unit {0})
assert_one_yocto attached = if nat_beq attached 1 then ok tt else panicked

module _ (storage_byte_cost : ℕ) where
  unfoldable pub save_account : List (ℕ × Account) → ℕ → Account → Outcome (List (ℕ × Account))
  save_account accounts account_id account = do
    ensure_storage_usage storage_byte_cost account
    logged ← storage_available storage_byte_cost account
    ok (put account_id account accounts)

  -- `accounts.try_update`: the account is saved where the function succeeds.
  unfoldable pub update_account :
      {R : Type 0} → Contract → ℕ → (Account → Outcome (R × Account)) → Call R
  unfolding save_account
  update_account c account_id update_fn = elim (lookup account_id c.accounts) [
    | none ↦ err ErrorKind.account_not_registered
    | some account ↦ do
      r ← update_fn account
      accounts ← save_account c.accounts account_id r.1
      ok (r.0, record c { accounts = accounts })
  ]

  -- `new_account` of the item factory.
  unfoldable pub new_account : Account
  new_account = record {
    token_balances = [];
    positions = [];
    withdraw_tracker = [];
    near_amount = 0;
  }

  -- `register_account_and_then` and the map's `update_or_insert`.
  unfoldable pub register_account_and_then :
      {R : Type 0} → Contract → ℕ → (Account → Bool → Outcome (R × Account)) → Call R
  unfolding ensure_payable_api_resumed save_account new_account
  register_account_and_then c account_id register_cb = do
    ensure_payable_api_resumed c
    r ← elim (lookup account_id c.accounts) [
      | none ↦ register_cb new_account false
      | some account ↦ register_cb account true
    ]
    accounts ← save_account c.accounts account_id r.1
    ok (r.0, record c { accounts = accounts })

  unfoldable pub storage_deposit : Contract → ℕ → Bool → ℕ → Call ℕ
  unfolding register_account_and_then on_register_account
  storage_deposit c account_id registration_only attached =
      min_storage_usage storage_byte_cost >>= λ min_balance.
      register_account_and_then c account_id
        (on_register_account min_balance registration_only attached)

  -- The result is what is paid out.
  unfoldable pub storage_withdraw : Contract → ℕ → ℕ → ℕ → Call ℕ
  unfolding ensure_payable_api_resumed update_account
  storage_withdraw c caller attached amount = do
    assert_one_yocto attached
    ensure_payable_api_resumed c
    update_account c caller λ account. do
      available ← storage_available storage_byte_cost account
      ensure_here (ltb 0 available) (ErrorKind.custom ChainError.no_storage_can_withdraw)
      let withdraw_amount = if nat_beq amount 0 then available else amount
      ensure_here (leb withdraw_amount available)
          (ErrorKind.custom ChainError.storage_withdraw_too_much)
      ok (withdraw_amount, record account { near_amount = account.near_amount - withdraw_amount })

  -- `unregister_account_with_cb` with the callback of `storage_unregister`: the NEAR to return.
  unfoldable pub unregister_account : Contract → ℕ → Call (Option ℕ)
  unfolding ensure_payable_api_resumed
  unregister_account c account_id = do
    ensure_payable_api_resumed c
    elim (lookup account_id c.accounts) [
      | none ↦ ok (none, c)
      | some acc ↦ do
        ensure_here (is_empty acc.token_balances) ErrorKind.tokens_storage_not_empty
        ensure_here (is_empty acc.positions) ErrorKind.user_has_positions
        ensure_here (not (is_any_withdraw_in_progress acc.withdraw_tracker))
            ErrorKind.withdraw_in_progress
        ok (some acc.near_amount, record c { accounts = erase account_id c.accounts })
    ]

  -- The result is what is paid out, if the account was there.
  unfoldable pub storage_unregister : Contract → ℕ → ℕ → Call (Option ℕ)
  unfolding unregister_account
  storage_unregister c caller attached = assert_one_yocto attached >> unregister_account c caller
