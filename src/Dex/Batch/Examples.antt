-- ===== src/Dex/Batch/Examples.antt =====
-- A batch with a registration of tokens, a deposit, two swaps in a row and a withdrawal.
use veax.Base.{ℕ, ◌+◌, ◌/◌, ◌≡◌, refl, false, none, some, List, [], ◌∷◌}
use veax.Base.Eq.{nat_eq}
use veax.Dex.Util.{try_from_pair}
use veax.Dex.Accounts as Acc
use veax.Dex.Accounts.{Account}
use veax.Dex.Contract.{Contract, update_account}
use veax.Dex.Transfers.{Transfer, withdraw_impl}
use veax.Dex.Trackers.{track, vec_insert}
use veax.Dex.Actions.{Pools, Action, ActionResult}
use veax.Dex.Batch.{execute_actions_impl, pending}
use veax.Dex.Batch.Counts.{is_deposit, is_registration, count, unregistered}
use veax.Dex.Batch.Deposits.{execute_actions_impl-count}
use veax.Errors.{ok, err, or_else, ErrorKind}

-- Every swap gives half of its amount; the state counts the swaps.
abbrev ops : Pools
ops = record {
  P = ℕ;
  swap = λ pools id side exact amount fraction. ok (pools + 1, amount / 2);
  open_position_impl = λ pools account tokens fee_rate position. err ErrorKind.pool_not_registered;
  close_position_impl = λ pools account id. err ErrorKind.position_does_not_exist;
  withdraw_fee_impl = λ pools account id. err ErrorKind.position_does_not_exist;
}

abbrev account : Account
account = record {
  token_balances = (2, 100) ∷ (5, 0) ∷ [];
  positions = [];
  withdraw_tracker = [];
  near_amount = 4000;
}

abbrev contract : Contract
contract = record {
  owner_id = 1;
  guards = [];
  suspended = false;
  accounts = (4, account) ∷ [];
  verified_tokens = [];
  protocol_fee_fraction = 1300;
}

abbrev actions : List Action
actions =
    Action.register_tokens (9 ∷ [])
    ∷ Action.deposit
    ∷ Action.swap_exact_in
        (record { token_in = 2; token_out = 5; amount = some 40; amount_limit = 20 })
    ∷ Action.swap_exact_in (record { token_in = 5; token_out = 9; amount = none; amount_limit = 1 })
    ∷ Action.withdraw 9 10
    ∷ []

abbrev Result : Type 0
Result = (List Transfer × List ActionResult) × (ℕ × Contract)

abbrev result : Result
unfolding execute_actions_impl
result =
    or_else (([], []), (0, contract))
      (execute_actions_impl ops 1 contract 0 4 (some (2, 7)) (λ a exists. ok (tt, a)) actions)

batch_runs :
    execute_actions_impl ops 1 contract 0 4 (some (2, 7)) (λ a exists. ok (tt, a)) actions
    ≡ ok result
unfolding execute_actions_impl update_account Acc.deposit Acc.register_tokens Acc.register_token
    try_from_pair Acc.withdraw withdraw_impl Acc.ensure_storage_usage Acc.storage_available track
    vec_insert
batch_runs = refl

sent : result.0.0 ≡ record { token_id = 9; sender_id = 4; amount = 10; unregister = false } ∷ []
unfolding execute_actions_impl update_account Acc.deposit Acc.register_tokens Acc.register_token
    try_from_pair Acc.withdraw withdraw_impl Acc.ensure_storage_usage Acc.storage_available track
    vec_insert
sent = refl

execute_actions_impl-count_example :
    (count is_deposit actions ≡ 1) × (count is_registration (unregistered actions) ≡ 0)
unfolding pending
execute_actions_impl-count_example =
    execute_actions_impl-count ops 1 0 4 (some (2, 7)) contract (λ a exists. ok (tt, a)) actions
      result batch_runs

-- A second deposit is refused.
deposit_twice :
    execute_actions_impl ops 1 contract 0 4
      (some (2, 7))
      (λ a exists. ok (tt, a))
      (Action.deposit ∷ Action.deposit ∷ [])
    ≡ err ErrorKind.deposit_already_handled
unfolding execute_actions_impl update_account Acc.deposit
deposit_twice = refl

deposit_forgotten :
    execute_actions_impl ops 1 contract 0 4 (some (2, 7)) (λ a exists. ok (tt, a)) []
    ≡ err ErrorKind.deposit_not_handled
unfolding execute_actions_impl update_account Acc.ensure_storage_usage Acc.storage_available
deposit_forgotten = refl
