-- ===== src/Dex/Actions.antt =====
-- dex/util_types.rs and dex/dex_impl/mod.rs: the actions of a batch, and a swap among them.
-- The pools are an interface: a swap, and the three actions on positions.
use veax.Base.{
  ℕ, Bool, true, false, Option, none, some, List, [], ◌∷◌, ◌++◌, nat_beq, leb, if◌then◌else◌,
}
use veax.Base.Eq.{nat_eq}
use veax.Maps.Entries.{has}
use veax.Dex.Side.{Side, left, right}
use veax.Dex.Util.{Exact, in_amount, out_amount, PoolId, PositionInit, try_from_pair}
use veax.Dex.Accounts as Acc
use veax.Dex.Accounts.{Account}
use veax.Errors.{Outcome, ok, err, ◌>>=◌, ◌>>◌, ensure_here, ErrorKind}

pub record SwapAction : Type 0 where
  pub token_in : ℕ
  pub token_out : ℕ
  pub amount : Option ℕ
  pub amount_limit : ℕ

pub data Action : Type 0 where
  register_account : Action
  register_tokens : List ℕ → Action
  swap_exact_in swap_exact_out : SwapAction → Action
  deposit : Action
  withdraw : ℕ → ℕ → Action
  open_position : ℕ × ℕ → ℕ → PositionInit → Action
  close_position withdraw_fee : ℕ → Action

-- The result of an action; a withdrawal has the amount of its token that is still to be sent.
pub data ActionResult : Type 0 where
  register_account register_tokens deposit open_position close_position withdraw_fee : ActionResult
  swap_exact_in swap_exact_out : ℕ → ActionResult
  withdraw : ℕ → Option ℕ → ActionResult

-- What the actions use of the pools: `Pool::swap` on the pool of an identifier, and the actions on
-- positions, which change the account too.
pub record Pools : Type 1 where
  pub P : Type 0
  pub swap : P → PoolId → Side → Exact → ℕ → ℕ → Outcome (P × ℕ)
  pub open_position_impl : P → Account → ℕ × ℕ → ℕ → PositionInit → Outcome (P × Account)
  pub close_position_impl : P → Account → ℕ → Outcome (P × Account)
  pub withdraw_fee_impl : P → Account → ℕ → Outcome (P × Account)

-- What the loop over the actions changes.
pub record Batch (P : Type 0) : Type 0 where
  pub account : Account
  pub pools : P
  pub deposit_data : Option (Option (ℕ × ℕ))
  pub prev_swap_action : Option (ℕ × (Exact × ℕ))
  pub results : List ActionResult

abbrev pub same_exact : Exact → Exact → Bool
same_exact in_amount in_amount = true
same_exact in_amount out_amount = false
same_exact out_amount in_amount = false
same_exact out_amount out_amount = true

-- The token in which a swap follows the one before.
unfoldable pub chain_token : Exact → SwapAction → ℕ
chain_token in_amount action = action.token_in
chain_token out_amount action = action.token_out

-- The amount of a swap: given, or the result of the swap before, of the same kind and token.
unfoldable pub chained_amount : Option (ℕ × (Exact × ℕ)) → Exact → SwapAction → Option ℕ → Outcome ℕ
unfolding chain_token
chained_amount prev exact action (some amount) = ok amount
chained_amount none exact action none = err ErrorKind.wrong_action_result
chained_amount (some (token_id, (prev_exact, amount))) exact action none =
    ensure_here (same_exact exact prev_exact) ErrorKind.wrong_action_result
    >> (ensure_here (nat_beq token_id (chain_token exact action)) ErrorKind.wrong_action_result
        >> ok amount)

-- The amounts in and out of a swap, of which one is `amount` and the pool gave the `other`.
unfoldable pub within_limit : Exact → ℕ → ℕ → ℕ → Outcome (ℕ × ℕ)
within_limit in_amount amount other amount_limit =
    ensure_here (leb amount_limit other) ErrorKind.slippage >> ok (amount, other)
within_limit out_amount amount other amount_limit =
    ensure_here (leb other amount_limit) ErrorKind.slippage >> ok (other, amount)

unfoldable pub swap_result : Exact → SwapAction → ℕ × ℕ → ℕ × (Exact × ℕ)
swap_result in_amount action amounts = (action.token_out, (in_amount, amounts.1))
swap_result out_amount action amounts = (action.token_in, (out_amount, amounts.0))

module _ (ops : Pools) (protocol_fee_fraction : ℕ) where
  open ops use {P, swap, open_position_impl, close_position_impl, withdraw_fee_impl}

  unfoldable pub execute_swap_action :
      Account
      → P
      → Option (ℕ × (Exact × ℕ))
      → Exact
      → SwapAction
      → Outcome (Account × (P × (ℕ × (Exact × ℕ))))
  unfolding chained_amount within_limit swap_result
  execute_swap_action account pools prev exact action = do
    ensure_here (has action.token_in account.token_balances) ErrorKind.token_not_registered
    ensure_here (has action.token_out account.token_balances) ErrorKind.token_not_registered
    amount ← chained_amount prev exact action action.amount
    id ← try_from_pair (action.token_in, action.token_out)
    swapped ← swap pools id.0 (if id.1 then right else left) exact amount protocol_fee_fraction
    amounts ← within_limit exact amount swapped.1 action.amount_limit
    paid ← Acc.withdraw account action.token_in amounts.0
    received ← Acc.deposit paid.1 action.token_out amounts.1
    ok (received.1, (swapped.0, swap_result exact action amounts))

  unfoldable pub swap_step : Batch P → Exact → SwapAction → (ℕ → ActionResult) → Outcome (Batch P)
  unfolding execute_swap_action
  swap_step b exact action result = do
    r ← execute_swap_action b.account b.pools b.prev_swap_action exact action
    ok (record b {
      account = r.0;
      pools = r.1.0;
      prev_swap_action = some r.1.1;
      results = b.results ++ (result r.1.1.1.1 ∷ []);
    })
