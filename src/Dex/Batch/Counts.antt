-- ===== src/Dex/Batch/Counts.antt =====
-- dex/dex_impl/mod.rs, `execute_actions_impl`: how often the loop over the actions deposits.
use veax.Base.{
  ℕ, ◌+◌, ◌≡◌, refl, ap, sym, ◌∙◌, arith, false, Option, none, some, List, [], ◌∷◌, ◌++◌,
}
use veax.Dex.Accounts as Acc
use veax.Dex.Accounts.{Account}
use veax.Dex.Transfers.{withdraw_impl}
use veax.Base.Eq.{nat_eq}
use veax.Dex.Util.{Exact, in_amount, out_amount}
use veax.Dex.Actions.{
  Pools, Batch, Action, ActionResult, SwapAction, swap_step, execute_swap_action,
}
use veax.Dex.Batch.{take_deposit, execute_action, execute_each}
use veax.Errors.{ok, ◌>>=◌, bind-ok, ok_injective}

abbrev pub is_deposit : Action → ℕ
is_deposit Action.deposit = 1
is_deposit action = 0

abbrev pub is_registration : Action → ℕ
is_registration Action.register_account = 1
is_registration action = 0

-- How many actions of a batch are of one kind.
abbrev pub count : (Action → ℕ) → List Action → ℕ
count kind [] = 0
count kind (action ∷ actions) = kind action + count kind actions

-- The actions after a registration in the first place.
abbrev pub unregistered : List Action → List Action
unregistered (Action.register_account ∷ actions) = actions
unregistered actions = actions

-- The deposits that are still to be handled.
abbrev pub open_deposits : Option (Option (ℕ × ℕ)) → ℕ
open_deposits none = 0
open_deposits (some none) = 0
open_deposits (some (some given)) = 1

-- One action against the batch before and after it.
abbrev Counts : {P : Type 0} → Batch P → Action → Batch P → Type 0
Counts a action b =
    (open_deposits a.deposit_data ≡ is_deposit action + open_deposits b.deposit_data)
    × (is_registration action ≡ 0)

take_deposit-open :
    (d : Option (Option (ℕ × ℕ))) (given : ℕ × ℕ) → take_deposit d ≡ ok given → open_deposits d ≡ 1
unfolding take_deposit
take_deposit-open none given h = ground arith
take_deposit-open (some none) given h = ground arith
take_deposit-open (some (some d)) given h = refl

module _ (ops : Pools) (fraction : ℕ) where
  open ops use {P, open_position_impl, close_position_impl, withdraw_fee_impl}

  kept :
      (a b c : Batch P)
      → ok c ≡ ok b
      → c.deposit_data ≡ a.deposit_data
      → open_deposits a.deposit_data ≡ open_deposits b.deposit_data
  kept a b c e same =
      sym (ap open_deposits same)
      ∙ ap (λ (x : Batch P). open_deposits x.deposit_data) (ok_injective e)

  swap_step-kept :
      (a b : Batch P) (exact : Exact) (action : SwapAction) (result : ℕ → ActionResult)
      → swap_step ops fraction a exact action result ≡ ok b
      → open_deposits a.deposit_data ≡ open_deposits b.deposit_data
  unfolding swap_step
  swap_step-kept a b exact action result run =
      let (r, _, e) =
        bind-ok (execute_swap_action ops fraction a.account a.pools a.prev_swap_action exact action)
          (λ r. ok (record a {
            account = r.0;
            pools = r.1.0;
            prev_swap_action = some r.1.1;
            results = a.results ++ (result r.1.1.1.1 ∷ []);
          }))
          b run in
      kept a b _ e refl

  execute_action-Counts :
      (a b : Batch P) (action : Action)
      → execute_action ops fraction a action ≡ ok b
      → Counts a action b
  unfolding execute_action
  execute_action-Counts a b Action.register_account run = ground arith
  execute_action-Counts a b (Action.register_tokens tokens) run =
      (omega (arith, kept a b _ run refl), refl)
  execute_action-Counts a b (Action.swap_exact_in action) run =
      (omega (arith, swap_step-kept a b in_amount action ActionResult.swap_exact_in run), refl)
  execute_action-Counts a b (Action.swap_exact_out action) run =
      (omega (arith, swap_step-kept a b out_amount action ActionResult.swap_exact_out run), refl)
  execute_action-Counts a b Action.deposit run =
      let finish = λ (r : ℕ × Account). record a {
        account = r.1;
        deposit_data = some none;
        results = a.results ++ (ActionResult.deposit ∷ []);
      } in
      let (given, taken, h) =
        bind-ok (take_deposit a.deposit_data)
          (λ given. Acc.deposit a.account given.0 given.1 >>= λ r. ok (finish r)) b run in
      let (r, _, e) = bind-ok (Acc.deposit a.account given.0 given.1) (λ r. ok (finish r)) b h in
      let after : open_deposits b.deposit_data ≡ 0 =
        sym (ap (λ (x : Batch P). open_deposits x.deposit_data) (ok_injective e)) in
      (omega (arith, after, take_deposit-open a.deposit_data given taken), refl)
  execute_action-Counts a b (Action.withdraw token_id amount) run =
      let (r, _, e) =
        bind-ok (withdraw_impl a.account token_id amount false)
          (λ r. ok (record a {
            account = r.1;
            results = a.results ++ (ActionResult.withdraw token_id r.0 ∷ []);
          }))
          b run in
      (omega (arith, kept a b _ e refl), refl)
  execute_action-Counts a b (Action.open_position tokens fee_rate position) run =
      let (r, _, e) =
        bind-ok (open_position_impl a.pools a.account tokens fee_rate position)
          (λ r. ok (record a {
            pools = r.0;
            account = r.1;
            results = a.results ++ (ActionResult.open_position ∷ []);
          }))
          b run in
      (omega (arith, kept a b _ e refl), refl)
  execute_action-Counts a b (Action.close_position position_id) run =
      let (r, _, e) =
        bind-ok (close_position_impl a.pools a.account position_id)
          (λ r. ok (record a {
            pools = r.0;
            account = r.1;
            results = a.results ++ (ActionResult.close_position ∷ []);
          }))
          b run in
      (omega (arith, kept a b _ e refl), refl)
  execute_action-Counts a b (Action.withdraw_fee position_id) run =
      let (r, _, e) =
        bind-ok (withdraw_fee_impl a.pools a.account position_id)
          (λ r. ok (record a {
            pools = r.0;
            account = r.1;
            results = a.results ++ (ActionResult.withdraw_fee ∷ []);
          }))
          b run in
      (omega (arith, kept a b _ e refl), refl)

  pub execute_each-count :
      (a b : Batch P) (actions : List Action)
      → execute_each ops fraction a actions ≡ ok b
      → (open_deposits a.deposit_data ≡ count is_deposit actions + open_deposits b.deposit_data)
        × (count is_registration actions ≡ 0)
  unfolding execute_each
  execute_each-count a b [] run =
      (omega (arith, ap (λ (x : Batch P). open_deposits x.deposit_data) (ok_injective run)), refl)
  execute_each-count a b (action ∷ actions) run =
      let (after, first, rest) =
        bind-ok (execute_action ops fraction a action)
          (λ after. execute_each ops fraction after actions) b run in
      let (d, r) = execute_action-Counts a after action first in
      let (ds, rs) = execute_each-count after b actions rest in
      (omega (arith, d, ds), omega (arith, r, rs))
