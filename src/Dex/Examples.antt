-- ===== src/Dex/Examples.antt =====
-- Runs of pool identifiers, trackers, accounts and the contract, with the theorems' conditions met.
use veax.Base.{
  ℕ, ◌+◌, ◌^◌, ◌≤◌, ◌<◌, ◌≡◌, ◌≢◌, refl, subst, Bool, true, false, not, ◌&&◌, ◌||◌, Option, none,
  some, List, [], ◌∷◌, arith, if◌then◌else◌, nat_beq, inl, inr, ◌⊎◌,
}
use veax.Base.Eq.{nat_eq, ◌==◌}
use veax.Base.Int.{negsuc}
use veax.Base.Panic.{done, ◌>>=◌ as ◌>>=run◌}
use veax.Maps.Entries.{lookup, has}
use veax.Dex.Side.{from_swapped, index}
use veax.Dex.Util.{PoolId, PositionInit, try_from_pair, side, swap_if, transpose_if}
use veax.Dex.Util.Pools.{try_from_pair-ordered, try_from_pair-symmetric, transpose_if-twice}
use veax.Dex.Trackers.{
  Entry, track, untrack, is_tracked, is_token_withdraw_in_progress, binary_search_token,
}
use veax.Dex.Trackers.Order.{is_sorted, track-is_sorted, untrack-track}
use veax.Dex.Accounts as Acc
use veax.Dex.Accounts.{
  Account, storage_usage, min_storage_usage, ensure_storage_usage, storage_available,
}
use veax.Dex.Accounts.Balances.{balance_of, with_balance, deposit-balances, deposit-withdraw}
use veax.Dex.Accounts.Registration.{in_list, register_tokens-balances, unregister_tokens-balances}
use veax.Dex.Contract.{
  Contract, contains_item, suspend_payable_api, resume_payable_api, set_protocol_fee_fraction,
  add_guard_accounts, update_account, save_account, owner_call, ensure_payable_api_resumed,
  ensure_caller_is_owner,
}
use veax.Dex.Contract.Access.{
  resume_payable_api-suspend, set_protocol_fee_fraction-ok, add_guard_accounts-members,
}
use veax.Dex.Contract.Storage.{storage_deposit-near, storage_deposit-lost}
use veax.Dex.Contract.Update.{IsCovered, AllCovered, with_account, update_account-AllCovered}
use veax.Dex.Transfers.{Transfer, withdraw, exchange_callback_post_withdraw}
use veax.Dex.Transfers.Rollback.{callback-withdraw_failed, callback-withdraw_succeeded}
use veax.Dex.Transfers as Transfers
use veax.Dex.Transfers.Suspension.{Refused, withdraw-Refused, set_protocol_fee_fraction-Refused}
use veax.Dex.Contract.{
  storage_deposit, storage_withdraw, storage_unregister, new_account, unregister_account,
  remove_guard_accounts, add_verified_tokens, remove_verified_tokens,
}
use veax.Errors.{Outcome, ok, err, panicked, ◌>>=◌, ErrorKind}

-- Pool identifiers.
abbrev pool : PoolId
pool = record { pair = (5, 2) }

try_from_pair-ordered_example :
    (((◌≡◌ {A = ℕ} 2 5) × (try_from_pair (2, 5) ≡ err ErrorKind.token_duplicates))
      ⊎ ((id : PoolId) × (swapped : Bool) × (try_from_pair (2, 5) ≡ ok (id, swapped))
          × ((id.pair).1 < (id.pair).0)
          × (swap_if swapped id.pair ≡ (2, 5))))
try_from_pair-ordered_example = try_from_pair-ordered 2 5

swapped_pair : try_from_pair (2, 5) ≡ ok (pool, true)
unfolding try_from_pair swap_if
swapped_pair = refl

try_from_pair-symmetric_example :
    (try_from_pair (5, 2) ≡ ok (pool, false))
    × (side pool 2 ≡ from_swapped true)
    × (side pool 5 ≡ from_swapped false)
    × (index pool.pair (side pool 2) ≡ 2)
    × (index pool.pair (side pool 5) ≡ 5)
try_from_pair-symmetric_example = try_from_pair-symmetric 2 5 pool true swapped_pair

abbrev position : PositionInit
position = record {
  amount_ranges = (record { min = 1; max = 2 }, record { min = 3; max = 4 });
  ticks_range = (some (negsuc 9), none);
}

transpose_if-twice_example : transpose_if (transpose_if position true) true ≡ position
transpose_if-twice_example = transpose_if-twice position true (omega arith, omega arith) tt

-- Trackers.
abbrev tracker : List Entry
tracker = (2, 10) ∷ (2, 30) ∷ (5, 1) ∷ []

untrack-track_example : (track tracker 2 20 >>=run λ ys. untrack ys 2 20) ≡ done tracker
untrack-track_example = untrack-track tracker 2 20

track-is_sorted_example :
    (ys : List Entry) × (track tracker 2 20 ≡ done ys)
    × (is_sorted ys ≡ true)
    × (is_tracked ys 2 20 ≡ true)
    × ((u : ℕ)
        → is_token_withdraw_in_progress ys u
          ≡ (nat_beq 2 u || is_token_withdraw_in_progress tracker u))
track-is_sorted_example = track-is_sorted tracker 2 20 refl

-- Accounts.
abbrev account : Account
account = record {
  token_balances = (2, 100) ∷ (5, 0) ∷ [];
  positions = [];
  withdraw_tracker = (7, 3) ∷ [];
  near_amount = 2000;
}

deposit-balances_example :
    ((◌≡◌ {A = Option ℕ} (some 100) none)
      × (Acc.deposit account 2 11 ≡ err ErrorKind.token_not_registered))
    ⊎ (((2 ^ 128 ≤ 111) × (Acc.deposit account 2 11 ≡ err ErrorKind.deposit_would_overflow))
        ⊎ ((acc' : Account) × (Acc.deposit account 2 11 ≡ ok (111, acc'))
            × ((u : ℕ) → balance_of acc' u ≡ (if u == 2 then 111 else balance_of account u))
            × (acc'.positions ≡ account.positions)
            × (acc'.withdraw_tracker ≡ account.withdraw_tracker)
            × (acc'.near_amount ≡ account.near_amount)))
deposit-balances_example = deposit-balances account 2 11

withdrawn : Acc.withdraw account 2 30 ≡ ok (70, with_balance account 2 70)
unfolding Acc.withdraw Acc.try_update
withdrawn = refl

deposit-withdraw_example : Acc.deposit (with_balance account 2 70) 2 30 ≡ ok (100, account)
deposit-withdraw_example =
    deposit-withdraw account (with_balance account 2 70) 2 30 70 withdrawn (omega arith)

register_tokens-balances_example :
    (balance_of (Acc.register_tokens account (9 ∷ 2 ∷ [])) 2 ≡ 100)
    × (has 2 (Acc.register_tokens account (9 ∷ 2 ∷ [])).token_balances ≡ true)
register_tokens-balances_example = register_tokens-balances account (9 ∷ 2 ∷ []) 2

abbrev smaller : Account
smaller = record account { token_balances = (2, 100) ∷ [] }

unregistered : Acc.unregister_tokens account (5 ∷ []) ≡ ok smaller
unfolding Acc.unregister_tokens Acc.unregister_token is_token_withdraw_in_progress
    binary_search_token
unregistered = refl

unregister_tokens-balances_example :
    ((u : ℕ) → balance_of smaller u ≡ balance_of account u)
    × ((u : ℕ)
        → lookup u smaller.token_balances
          ≡ (if in_list u (5 ∷ []) then none else lookup u account.token_balances))
    × ((u : ℕ)
        → in_list u (5 ∷ []) ≡ true
        → is_token_withdraw_in_progress account.withdraw_tracker u ≡ false)
unregister_tokens-balances_example =
    unregister_tokens-balances account smaller (5 ∷ []) unregistered refl

-- The contract, with a price of one for a byte.
abbrev contract : Contract
contract = record {
  owner_id = 1;
  guards = 8 ∷ [];
  suspended = false;
  accounts = (4, account) ∷ [];
  verified_tokens = [];
  protocol_fee_fraction = 1300;
}

account-IsCovered : IsCovered 1 account
unfolding storage_usage
account-IsCovered = (934, refl, refl)

abbrev sent : Transfer
sent = record { token_id = 2; sender_id = 4; amount = 30; unregister = true }

callback-withdraw_failed_example :
    (c' : Contract) × (withdraw 1 contract 4 2 30 true ≡ ok (some sent, c'))
    × (exchange_callback_post_withdraw 1 c' 77 77 sent false ≡ ok (tt, contract))
callback-withdraw_failed_example =
    callback-withdraw_failed 1 contract 77 4 2 30 30 70 true account refl refl refl (omega arith)
      (omega arith, inl refl) account-IsCovered

abbrev all_sent : Transfer
all_sent = record { token_id = 2; sender_id = 4; amount = 100; unregister = false }

callback-withdraw_succeeded_example :
    (c' : Contract) × (withdraw 1 contract 4 2 0 false ≡ ok (some all_sent, c'))
    × (exchange_callback_post_withdraw 1 c' 77 77 all_sent true
        ≡ ok (tt, with_account contract 4 (with_balance account 2 0)))
callback-withdraw_succeeded_example =
    callback-withdraw_succeeded 1 contract 77 4 2 0 100 0 account refl refl refl
      (omega arith, inr (refl, refl)) account-IsCovered

resume_payable_api-suspend_example :
    (suspend_payable_api contract 8 >>= λ c'. resume_payable_api c' 8) ≡ ok contract
resume_payable_api-suspend_example = resume_payable_api-suspend contract 8 refl refl

fee_changed :
    set_protocol_fee_fraction contract 1 2000
    ≡ ok (record contract { protocol_fee_fraction = 2000 })
unfolding set_protocol_fee_fraction owner_call ensure_payable_api_resumed ensure_caller_is_owner
fee_changed = refl

set_protocol_fee_fraction-ok_example :
    (◌≡◌ {A = ℕ} 1 1)
    × (contract.suspended ≡ false)
    × (0 < 2000)
    × (2000 ≤ 5000)
    × (◌≡◌ {A = Contract}
        (record contract { protocol_fee_fraction = 2000 })
        (record contract { protocol_fee_fraction = 2000 }))
set_protocol_fee_fraction-ok_example =
    set_protocol_fee_fraction-ok contract (record contract { protocol_fee_fraction = 2000 }) 1 2000
      fee_changed

add_guard_accounts-members_example :
    (report : List ℕ) × (guards : List ℕ) × (add_guard_accounts contract 1 (8 ∷ 9 ∷ [])
      ≡ ok (report, record contract { guards = guards }))
    × ((u : ℕ)
        → contains_item u guards ≡ (contains_item u (8 ∷ 9 ∷ []) || contains_item u (8 ∷ [])))
    × ((u : ℕ)
        → contains_item u report ≡ (contains_item u (8 ∷ 9 ∷ []) && not (contains_item u (8 ∷ []))))
add_guard_accounts-members_example = add_guard_accounts-members contract 1 (8 ∷ 9 ∷ []) refl refl

minimal : min_storage_usage 1 ≡ ok 366
unfolding min_storage_usage
minimal = refl

-- For an account that is registered, `registration_only` keeps the deposit of 1000 back.
deposit_lost : storage_deposit 1 contract 4 true 1000 ≡ ok (0, contract)
deposit_lost =
    storage_deposit-lost 1 contract 4 1000 366 account refl refl account-IsCovered minimal

storage_deposit-near_example :
    (2000 + 0 + 1000 ≡ 2000 + 1000)
    × ((other : ℕ) → 4 ≢ other → lookup other contract.accounts ≡ lookup other contract.accounts)
    × (contract ≡ record contract { accounts = contract.accounts })
storage_deposit-near_example = storage_deposit-near 1 contract contract 4 1000 0 true deposit_lost

abbrev opened : Contract
unfolding new_account
opened = with_account contract 6 (record (new_account 1) { near_amount = 366 })

deposit_refunded : storage_deposit 1 contract 6 true 1000 ≡ ok (634, opened)
unfolding storage_deposit min_storage_usage ensure_payable_api_resumed save_account
    ensure_storage_usage storage_available storage_usage
deposit_refunded = refl

contract-AllCovered : AllCovered 1 contract.accounts
contract-AllCovered id acc found =
    let same : account ≡ acc = ground arith in subst (IsCovered 1) same account-IsCovered

abbrev paying : Account → Outcome (ℕ × Account)
paying acc = ok (0, record acc { near_amount = 1000 })

paid :
    update_account 1 contract 4 paying
    ≡ ok (0, with_account contract 4 (record account { near_amount = 1000 }))
unfolding update_account save_account ensure_storage_usage storage_available storage_usage
paid = refl

update_account-AllCovered_example :
    AllCovered 1 (with_account contract 4 (record account { near_amount = 1000 })).accounts
update_account-AllCovered_example =
    update_account-AllCovered 1 contract
      (with_account contract 4 (record account { near_amount = 1000 })) 4 paying 0
      contract-AllCovered paid

abbrev halted : Contract
halted = record contract { suspended = true }

withdraw-Refused_example :
    Refused (Transfers.deposit 1 halted 4 2 30)
    × Refused (withdraw 1 halted 4 2 30 true)
    × Refused (Transfers.owner_withdraw 1 halted 4 2 30)
    × Refused (Transfers.register_tokens 1 halted 4 (9 ∷ []))
    × Refused (Transfers.unregister_tokens 1 halted 4 (9 ∷ []))
    × Refused (unregister_account 1 halted 4)
    × Refused (storage_deposit 1 halted 4 true 1)
    × Refused (storage_withdraw 1 halted 4 1 30)
    × Refused (storage_unregister 1 halted 4 1)
unfolding min_storage_usage
withdraw-Refused_example = withdraw-Refused 1 halted 4 2 30 1 (9 ∷ []) true refl

without_yocto : storage_withdraw 1 halted 4 0 30 ≡ panicked
unfolding storage_withdraw
without_yocto = refl

set_protocol_fee_fraction-Refused_example :
    Refused (set_protocol_fee_fraction halted 1 2000)
    × Refused (add_guard_accounts halted 1 (9 ∷ []))
    × Refused (remove_guard_accounts halted 1 (9 ∷ []))
    × Refused (add_verified_tokens halted 1 (9 ∷ []))
    × Refused (remove_verified_tokens halted 1 (9 ∷ []))
set_protocol_fee_fraction-Refused_example =
    set_protocol_fee_fraction-Refused halted 1 2000 (9 ∷ []) refl
