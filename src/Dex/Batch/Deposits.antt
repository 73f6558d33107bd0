-- ===== src/Dex/Batch/Deposits.antt =====
-- dex/dex_impl/mod.rs, `execute_actions_impl`: a batch handles its deposit exactly once.
use veax.Base.{ℕ, ◌≡◌, refl, ap, ◌∙◌, arith, Bool, Option, none, some, List, [], ◌∷◌}
use veax.Dex.Accounts.{Account}
use veax.Dex.Contract.{Contract, update_account, register_account_and_then, save_account}
use veax.Dex.Transfers.{Transfer}
use veax.Base.Eq.{nat_eq}
use veax.Maps.Entries.{lookup}
use veax.Dex.Actions.{Pools, Batch, Action, ActionResult}
use veax.Dex.Batch.{
  ensure_deposit_handled, pending, execute_each, send_results, execute_rest, execute_actions_impl,
}
use veax.Errors.{Outcome, ok, err, ◌>>=◌, bind-ok, ok_injective, ErrorKind}
use veax.Dex.Batch.Counts.{
  is_deposit, is_registration, count, unregistered, open_deposits, execute_each-count,
}

module _ (cost : ℕ) {R : Type 0} (c d : Contract) (id : ℕ) (f : Account → Outcome (R × Account))
    (r : R) where
  saved_after : R × Account → Outcome (R × Contract)
  saved_after x =
      save_account cost c.accounts id x.1 >>= λ accounts. ok (x.0, record c { accounts = accounts })

  ran_on :
      (known : Option Account)
      → ◌≡◌ {A = Outcome (R × Contract)}
          (elim known as (λ _. Outcome (R × Contract)) [
            | none ↦ err ErrorKind.account_not_registered
            | some account ↦ f account >>= λ x. saved_after x
          ])
          (ok (r, d))
      → (account : Account) × ((after : Account) × (f account ≡ ok (r, after)))
  unfolding saved_after
  ran_on none h = absurd (ground arith)
  ran_on (some account) h =
      let (x, e, rest) = bind-ok (f account) (λ x. saved_after x) (r, d) h in
      let (accounts, _, last) =
        bind-ok (save_account cost c.accounts id x.1) (λ a. ok (x.0, record c { accounts = a }))
          (r, d) rest in
      let same : x.0 ≡ r = ap (λ (y : R × Contract). y.0) (ok_injective last) in
      (account, (x.1, e ∙ (λ i. ok (same i, x.1))))

  -- An update that succeeds has run on an account.
  update_account-ran :
      update_account cost c id f ≡ ok (r, d)
      → (account : Account) × ((after : Account) × (f account ≡ ok (r, after)))
  unfolding update_account saved_after
  update_account-ran run = ran_on (lookup id c.accounts) run

handled-none :
    (d : Option (Option (ℕ × ℕ))) → ensure_deposit_handled d ≡ ok tt → open_deposits d ≡ 0
unfolding ensure_deposit_handled
handled-none none h = refl
handled-none (some none) h = refl
handled-none (some (some given)) h = ground arith

module _ (ops : Pools) (cost : ℕ) (pools : ops.P) (id : ℕ) (deposit_data : Option (ℕ × ℕ)) where
  open ops use {P}

  abbrev Returned : Type 0
  Returned = (List Transfer × List ActionResult) × (P × Contract)

  execute_rest-count :
      (c : Contract) (results : List ActionResult) (actions : List Action) (r : Returned)
      → execute_rest ops cost c pools id deposit_data results actions ≡ ok r
      → (count is_deposit actions ≡ open_deposits (pending deposit_data))
        × (count is_registration actions ≡ 0)
  unfolding execute_rest
  execute_rest-count c results actions r run =
      let start : Account → Batch P = λ account. record {
        account = account;
        pools = pools;
        deposit_data = pending deposit_data;
        prev_swap_action = none;
        results = results;
      } in
      let each : Account → Outcome (Batch P × Account) = λ account.
        execute_each ops c.protocol_fee_fraction (start account) actions >>= λ b.
        ok (b, b.account) in
      let send : Batch P × Contract → Outcome Returned = λ x.
        send_results ops cost x.1 id x.0.results >>= λ sent.
        ok ((sent.0, x.0.results), (x.0.pools, sent.1)) in
      let (x, updated, h) =
        bind-ok (update_account cost c id each)
          (λ x. ensure_deposit_handled x.0.deposit_data >>= λ _. send x) r run in
      let (_, handled, _) = bind-ok (ensure_deposit_handled x.0.deposit_data) (λ _. send x) r h in
      let (account, (after, ran)) = update_account-ran cost c x.1 id each x.0 updated in
      let (b, looped, out) =
        bind-ok (execute_each ops c.protocol_fee_fraction (start account) actions)
          (λ b. ok (b, b.account)) (x.0, after) ran in
      let last : open_deposits b.deposit_data ≡ open_deposits x.0.deposit_data =
        ap (λ (y : Batch P × Account). open_deposits y.0.deposit_data) (ok_injective out) in
      let (ds, rs) =
        execute_each-count ops c.protocol_fee_fraction (start account) b actions looped in
      (omega (arith, ds, last, handled-none x.0.deposit_data handled), rs)

  -- Where a batch of actions succeeds, it deposits exactly once if a deposit came with it and not
  -- at all otherwise, and it asks for registration in the first place or not at all, whatever
  -- swaps and positions do.
  pub execute_actions_impl-count :
      (c : Contract) (register_account_cb : Account → Bool → Outcome (Unit {0} × Account))
      (actions : List Action) (r : Returned)
      → execute_actions_impl ops cost c pools id deposit_data register_account_cb actions ≡ ok r
      → (count is_deposit actions ≡ open_deposits (pending deposit_data))
        × (count is_registration (unregistered actions) ≡ 0)
  unfolding execute_actions_impl
  execute_actions_impl-count c cb (Action.register_account ∷ actions) r run =
      let (x, _, h) =
        bind-ok (register_account_and_then cost c id cb)
          (λ x.
            execute_rest ops cost x.1 pools id deposit_data (ActionResult.register_account ∷ [])
              actions)
          r run in
      let (ds, rs) = execute_rest-count x.1 (ActionResult.register_account ∷ []) actions r h in
      (omega (arith, ds), rs)
  execute_actions_impl-count c cb [] r run = execute_rest-count c [] [] r run
  execute_actions_impl-count c cb (Action.register_tokens x ∷ xs) r run =
      execute_rest-count c [] (Action.register_tokens x ∷ xs) r run
  execute_actions_impl-count c cb (Action.swap_exact_in x ∷ xs) r run =
      execute_rest-count c [] (Action.swap_exact_in x ∷ xs) r run
  execute_actions_impl-count c cb (Action.swap_exact_out x ∷ xs) r run =
      execute_rest-count c [] (Action.swap_exact_out x ∷ xs) r run
  execute_actions_impl-count c cb (Action.deposit ∷ xs) r run =
      execute_rest-count c [] (Action.deposit ∷ xs) r run
  execute_actions_impl-count c cb (Action.withdraw x y ∷ xs) r run =
      execute_rest-count c [] (Action.withdraw x y ∷ xs) r run
  execute_actions_impl-count c cb (Action.open_position x y z ∷ xs) r run =
      execute_rest-count c [] (Action.open_position x y z ∷ xs) r run
  execute_actions_impl-count c cb (Action.close_position x ∷ xs) r run =
      execute_rest-count c [] (Action.close_position x ∷ xs) r run
  execute_actions_impl-count c cb (Action.withdraw_fee x ∷ xs) r run =
      execute_rest-count c [] (Action.withdraw_fee x ∷ xs) r run
