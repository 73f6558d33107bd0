-- ===== src/Dex/Batch.antt =====
-- dex/dex_impl/mod.rs, `execute_actions_impl`: a batch of actions on one account.
pub mod Counts
pub mod Deposits
pub mod Examples
use veax.Base.{
  ℕ, Bool, true, false, not, Option, none, some, List, [], ◌∷◌, ◌++◌, nat_beq, leb, if◌then◌else◌,
}
use veax.Base.Eq.{nat_eq}
use veax.Maps.Entries.{has}
use veax.Dex.Side.{Side, left, right}
use veax.Dex.Util.{Exact, in_amount, out_amount, PoolId, PositionInit, try_from_pair}
use veax.Dex.Accounts as Acc
use veax.Dex.Accounts.{Account}
use veax.Dex.Contract.{
  Contract, Call, update_account, register_account_and_then, ensure_payable_api_resumed,
}
use veax.Dex.Transfers.{Transfer, withdraw_impl, send_tokens}
use veax.Errors.{Outcome, ok, err, ◌>>=◌, ◌>>◌, ensure_here, ErrorKind}
use veax.Dex.Actions.{
  SwapAction, Action, ActionResult, Pools, Batch, chained_amount, within_limit, swap_result,
  execute_swap_action, swap_step,
}

-- `deposit_data.map(Some)`
unfoldable pub pending : Option (ℕ × ℕ) → Option (Option (ℕ × ℕ))
pending none = none
pending (some given) = some (some given)

-- What a deposit takes: there is none, it is taken already, or it is there.
unfoldable pub take_deposit : Option (Option (ℕ × ℕ)) → Outcome (ℕ × ℕ)
take_deposit none = err ErrorKind.deposit_not_allowed
take_deposit (some none) = err ErrorKind.deposit_already_handled
take_deposit (some (some given)) = ok given

unfoldable pub ensure_deposit_handled : Option (Option (ℕ × ℕ)) → Outcome (Unit {0})
ensure_deposit_handled (some (some given)) = err ErrorKind.deposit_not_handled
ensure_deposit_handled (some none) = ok tt
ensure_deposit_handled none = ok tt

module _ (ops : Pools) (protocol_fee_fraction : ℕ) where
  open ops use {P, swap, open_position_impl, close_position_impl, withdraw_fee_impl}

  -- One round of the loop over the actions.
  unfoldable pub execute_action : Batch P → Action → Outcome (Batch P)
  unfolding swap_step take_deposit
  execute_action b Action.register_account = err ErrorKind.unexpected_register_account
  execute_action b (Action.register_tokens tokens) = ok (record b {
    account = Acc.register_tokens b.account tokens;
    results = b.results ++ (ActionResult.register_tokens ∷ []);
  })
  execute_action b (Action.swap_exact_in action) =
      swap_step ops protocol_fee_fraction b in_amount action ActionResult.swap_exact_in
  execute_action b (Action.swap_exact_out action) =
      swap_step ops protocol_fee_fraction b out_amount action ActionResult.swap_exact_out
  execute_action b Action.deposit = do
    given ← take_deposit b.deposit_data
    r ← Acc.deposit b.account given.0 given.1
    ok (record b {
      account = r.1;
      deposit_data = some none;
      results = b.results ++ (ActionResult.deposit ∷ []);
    })
  execute_action b (Action.withdraw token_id amount) = do
    r ← withdraw_impl b.account token_id amount false
    ok (record b {
      account = r.1;
      results = b.results ++ (ActionResult.withdraw token_id r.0 ∷ []);
    })
  execute_action b (Action.open_position tokens fee_rate position) = do
    r ← open_position_impl b.pools b.account tokens fee_rate position
    ok (record b {
      pools = r.0;
      account = r.1;
      results = b.results ++ (ActionResult.open_position ∷ []);
    })
  execute_action b (Action.close_position position_id) = do
    r ← close_position_impl b.pools b.account position_id
    ok (record b {
      pools = r.0;
      account = r.1;
      results = b.results ++ (ActionResult.close_position ∷ []);
    })
  execute_action b (Action.withdraw_fee position_id) = do
    r ← withdraw_fee_impl b.pools b.account position_id
    ok (record b {
      pools = r.0;
      account = r.1;
      results = b.results ++ (ActionResult.withdraw_fee ∷ []);
    })

  unfoldable pub execute_each : Batch P → List Action → Outcome (Batch P)
  unfolding execute_action
  execute_each b [] = ok b
  execute_each b (action ∷ actions) =
      execute_action b action >>= λ after. execute_each after actions

-- `out_amount`: the amount of the last swap.
unfoldable pub last_swap : Option ℕ → List ActionResult → Option ℕ
last_swap amount_out [] = amount_out
last_swap amount_out (ActionResult.swap_exact_in amount ∷ results) = last_swap (some amount) results
last_swap amount_out (ActionResult.swap_exact_out amount ∷ results) =
    last_swap (some amount) results
last_swap amount_out (result ∷ results) = last_swap amount_out results

module _ (ops : Pools) (storage_byte_cost : ℕ) where
  open ops use {P}

  -- The withdrawals of the batch are sent once the account is saved.
  unfoldable pub send_results : Contract → ℕ → List ActionResult → Call (List Transfer)
  unfolding send_tokens
  send_results c account_id [] = ok ([], c)
  send_results c account_id (ActionResult.withdraw token_id (some amount) ∷ results) = do
    sent ← send_tokens storage_byte_cost c account_id token_id amount false
    rest ← send_results sent.1 account_id results
    ok (sent.0 ∷ rest.0, rest.1)
  send_results c account_id (result ∷ results) = send_results c account_id results

  -- The actions after a possible registration.
  unfoldable pub execute_rest :
      Contract
      → P
      → ℕ
      → Option (ℕ × ℕ)
      → List ActionResult
      → List Action
      → Outcome ((List Transfer × List ActionResult) × (P × Contract))
  unfolding execute_each pending ensure_deposit_handled send_results
  execute_rest c pools account_id deposit_data results actions = do
    r ← update_account storage_byte_cost c account_id λ account.
        execute_each ops c.protocol_fee_fraction
          (record {
            account = account;
            pools = pools;
            deposit_data = pending deposit_data;
            prev_swap_action = none;
            results = results;
          })
          actions
        >>= λ b. ok (b, b.account)
    ensure_deposit_handled r.0.deposit_data
    sent ← send_results r.1 account_id r.0.results
    ok ((sent.0, r.0.results), (r.0.pools, sent.1))

  unfoldable pub execute_actions_impl :
      Contract
      → P
      → ℕ
      → Option (ℕ × ℕ)
      → (Account → Bool → Outcome (Unit {0} × Account))
      → List Action
      → Outcome ((List Transfer × List ActionResult) × (P × Contract))
  unfolding execute_rest
  execute_actions_impl c pools account_id deposit_data register_account_cb
        (Action.register_account ∷ actions) =
      register_account_and_then storage_byte_cost c account_id register_account_cb >>= λ r.
      execute_rest r.1 pools account_id deposit_data (ActionResult.register_account ∷ []) actions
  execute_actions_impl c pools account_id deposit_data register_account_cb actions =
      execute_rest c pools account_id deposit_data [] actions

  unfoldable pub deposit_execute_actions :
      Contract
      → P
      → ℕ
      → ℕ
      → ℕ × ℕ
      → (Account → Bool → Outcome (Unit {0} × Account))
      → List Action
      → Outcome (List Transfer × (P × Contract))
  unfolding execute_actions_impl
  deposit_execute_actions c pools initiator account_id deposit_data register_account_cb actions = do
    ensure_payable_api_resumed c
    ensure_here (nat_beq account_id initiator) ErrorKind.deposit_sender_must_be_signer
    r ← execute_actions_impl c pools account_id (some deposit_data) register_account_cb actions
    ok (r.0.0, r.1)

  unfoldable pub execute_actions :
      Contract
      → P
      → ℕ
      → (Account → Bool → Outcome (Unit {0} × Account))
      → List Action
      → Outcome ((List Transfer × Option ℕ) × (P × Contract))
  unfolding execute_actions_impl last_swap
  execute_actions c pools caller register_account_cb actions = do
    ensure_payable_api_resumed c
    r ← execute_actions_impl c pools caller none register_account_cb actions
    ok ((r.0.0, last_swap none r.0.1), r.1)
