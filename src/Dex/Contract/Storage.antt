-- ===== src/Dex/Contract/Storage.antt =====
-- chain/wasm.rs: the NEAR that comes with a registration, and what is paid out again.
use veax.Base.{
  ℕ, ◌+◌, ◌≡◌, ◌≢◌, refl, sym, ap, ◌∙◌, Bool, true, false, ◌&&◌, ◌||◌, Option, none, some, leb,
  arith, if◌then◌else◌,
}
use veax.Base.Eq.{nat_eq}
use veax.Maps.Entries.{lookup, put, lookup-put, put-same}
use veax.Dex.Accounts.{Account, min_storage_usage}
use veax.Dex.Contract.{
  Contract, on_register_account, ensure_payable_api_resumed, save_account, new_account,
  register_account_and_then, storage_deposit,
}
use veax.Dex.Contract.Update.{IsCovered, save_account-ok, save_account-run, with_account}
use veax.Errors.{Outcome, ok, ◌>>=◌, bind-ok, ok_injective}

-- The NEAR of an account, none where it is not registered.
abbrev pub near_in : Option Account → ℕ
near_in none = 0
near_in (some account) = account.near_amount

abbrev pub is_registered : Option Account → Bool
is_registered none = false
is_registered (some account) = true

-- What a deposit leaves out of the books: all of it, for `registration_only` of a known account.
abbrev pub kept_back : Bool → Bool → ℕ → ℕ
kept_back registration_only registered attached =
    if registration_only && registered then attached else 0

on_register_account-balance :
    (registration_only exists : Bool) (account : Account) (r : ℕ × Account) (attached min : ℕ)
    → on_register_account min registration_only attached account exists ≡ ok r
    → r.1.near_amount + r.0 + kept_back registration_only exists attached
      ≡ account.near_amount + attached
unfolding on_register_account
on_register_account-balance registration_only exists account r attached min done = ground arith

resumed : (c : Contract) → c.suspended ≡ false → ensure_payable_api_resumed c ≡ ok tt
unfolding ensure_payable_api_resumed
resumed c live = rw live refl

module _ (cost : ℕ) where
  registered-balance :
      (min attached : ℕ) (registration_only : Bool) (known : Option Account) (r : ℕ × Account)
      → ◌≡◌ {A = Outcome (ℕ × Account)}
          (elim known as (λ _. Outcome (ℕ × Account)) [
            | none ↦ on_register_account min registration_only attached (new_account cost) false
            | some account ↦ on_register_account min registration_only attached account true
          ])
          (ok r)
      → r.1.near_amount + r.0 + kept_back registration_only (is_registered known) attached
        ≡ near_in known + attached
  unfolding new_account
  registered-balance min attached registration_only none r run =
      on_register_account-balance registration_only false (new_account cost) r attached min run
  registered-balance min attached registration_only (some account) r run =
      on_register_account-balance registration_only true account r attached min run

  put_elsewhere :
      (c : Contract) (id other : ℕ) (account : Account)
      → id ≢ other
      → lookup other (put id account c.accounts) ≡ lookup other c.accounts
  put_elsewhere c id other account apart = lookup-put other id account c.accounts ∙ ground arith

  -- What a registration with the callback saves.
  saves :
      (c c' : Contract) (id min attached refund : ℕ) (registration_only : Bool)
      → register_account_and_then cost c id (on_register_account min registration_only attached)
        ≡ ok (refund, c')
      → (account : Account) × (c' ≡ with_account c id account)
        × (account.near_amount
              + refund
              + kept_back registration_only (is_registered (lookup id c.accounts)) attached
            ≡ near_in (lookup id c.accounts) + attached)
  unfolding register_account_and_then
  saves c c' id min attached refund registration_only run =
      let called : Outcome (ℕ × Account) = elim (lookup id c.accounts) [
        | none ↦ on_register_account min registration_only attached (new_account cost) false
        | some account ↦ on_register_account min registration_only attached account true
      ] in
      let save : ℕ × Account → Outcome (ℕ × Contract) = λ r.
        save_account cost c.accounts id r.1 >>= λ accounts.
        ok (r.0, record c { accounts = accounts }) in
      let (_, _, h1) =
        bind-ok (ensure_payable_api_resumed c) (λ _. called >>= λ r. save r) (refund, c') run in
      let (r, by_callback, h2) = bind-ok called (λ r. save r) (refund, c') h1 in
      let (accounts, saved, h3) =
        bind-ok (save_account cost c.accounts id r.1)
          (λ accounts. ok (r.0, record c { accounts = accounts })) (refund, c') h2 in
      let put_there = (save_account-ok cost c.accounts accounts id r.1 saved).1 in
      let returned : r.0 ≡ refund = ap (λ (x : ℕ × Contract). x.0) (ok_injective h3) in
      let balance =
        registered-balance min attached registration_only (lookup id c.accounts) r by_callback in
      (
        r.1,
        sym (ap (λ (x : ℕ × Contract). x.1) (ok_injective h3))
            ∙ (λ i. record c { accounts = sym put_there i }),
        omega (arith, balance, returned),
      )

  -- Where `storage_deposit` succeeds: the NEAR of the account afterwards and the refund sum to its
  -- NEAR before, none if it was not registered, and the deposit, except that with
  -- `registration_only` for a registered account the whole deposit is missing from that sum,
  -- neither credited nor refunded; every other account is as before, and nothing of the contract
  -- but the accounts has changed.
  pub storage_deposit-near :
      (c c' : Contract) (id attached refund : ℕ) (registration_only : Bool)
      → storage_deposit cost c id registration_only attached ≡ ok (refund, c')
      → (near_in (lookup id c'.accounts)
            + refund
            + kept_back registration_only (is_registered (lookup id c.accounts)) attached
          ≡ near_in (lookup id c.accounts) + attached)
        × ((other : ℕ) → id ≢ other → lookup other c'.accounts ≡ lookup other c.accounts)
        × (c' ≡ record c { accounts = c'.accounts })
  unfolding storage_deposit
  storage_deposit-near c c' id attached refund registration_only run =
      let (min, _, h) =
        bind-ok (min_storage_usage cost)
          (λ min.
            register_account_and_then cost c id
              (on_register_account min registration_only attached))
          (refund, c') run in
      let (account, after, balance) = saves c c' id min attached refund registration_only h in
      let found : lookup id (put id account c.accounts) ≡ some account =
        lookup-put id id account c.accounts ∙ ground arith in
      let near : near_in (lookup id c'.accounts) ≡ account.near_amount =
        ap (λ (d : Contract). near_in (lookup id d.accounts)) after ∙ ap near_in found in
      (
        omega (arith, balance, near),
        λ other apart.
            ap (λ (d : Contract). lookup other d.accounts) after
            ∙ put_elsewhere c id other account apart,
        after ∙ (λ i. record c { accounts = (sym after i).accounts }),
      )

  -- The same call succeeds for every account that is registered and pays for its storage, and then
  -- nothing of the contract changes and nothing is refunded.
  pub storage_deposit-lost :
      (c : Contract) (id attached min : ℕ) (account : Account)
      → c.suspended ≡ false
      → lookup id c.accounts ≡ some account
      → IsCovered cost account
      → min_storage_usage cost ≡ ok min
      → storage_deposit cost c id true attached ≡ ok (0, c)
  unfolding storage_deposit register_account_and_then on_register_account
  storage_deposit-lost c id attached min account live known covered minimal =
      let passes : leb min attached || true ≡ true = ground arith in
      rw
        (
          minimal,
          resumed c live,
          known,
          passes,
          save_account-run cost c.accounts id account covered,
        )
        (ap (λ l. ok (0, record c { accounts = l })) (put-same id account c.accounts known))
