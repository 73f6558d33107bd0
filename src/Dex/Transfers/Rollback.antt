-- ===== src/Dex/Transfers/Rollback.antt =====
-- dex/dex_impl/mod.rs and chain/wasm.rs: a withdrawal and the callback after its transfer.
use veax.Base.{
  ℕ, ◌+◌, ◌-◌, ◌^◌, ◌<◌, ◌≡◌, refl, ap, ◌∙◌, Bool, true, false, some, List, leb, nat_beq, arith,
  inl, inr, ◌⊎◌,
}
use veax.Base.Eq.{nat_eq}
use veax.Base.Panic.{done}
use veax.Maps.Entries.{lookup, put, put-undo, put-put, length-put}
use veax.Dex.Trackers.{Entry, track, untrack}
use veax.Dex.Trackers.Order.{track-done}
use veax.Dex.Accounts.{Account, storage_usage}
use veax.Dex.Accounts.Balances.{with_balance, withdraw-registered, deposit-with_balance}
use veax.Dex.Contract.{Contract, ensure_payable_api_resumed}
use veax.Dex.Contract.Update.{with_account, IsCovered, update_account-run, lookup-with_account}
use veax.Dex.Transfers.{
  Transfer, withdraw_known, withdraw_impl, start_tracking, settle, send_tokens, send_if, withdraw,
  exchange_callback_post_withdraw,
}
use veax.Errors.{ok}

-- The amount that a request means: all of the balance for zero.
abbrev pub Requests : ℕ → ℕ → ℕ → Type 0
Requests requested amount rest =
    (0 < amount) × ((requested ≡ amount) ⊎ ((requested ≡ 0) × (rest ≡ 0)))

withdraw_known-run :
    (acc : Account) (t n b : ℕ)
    → lookup t acc.token_balances ≡ some (b + n)
    → withdraw_known acc t n ≡ ok (some n, with_balance acc t b)
unfolding withdraw_known
withdraw_known-run acc t n b known =
    let enough : leb n (b + n) ≡ true = ground arith in
    let left : b + n - n ≡ b = omega arith in
    rw (withdraw-registered acc t n (b + n) known, enough, left) refl

withdraw_impl-run :
    (acc : Account) (t requested n b : ℕ) (unregister : Bool)
    → lookup t acc.token_balances ≡ some (b + n)
    → Requests requested n b
    → withdraw_impl acc t requested unregister ≡ ok (some n, with_balance acc t b)
unfolding withdraw_impl
withdraw_impl-run acc t requested n b unregister known (some_amount, inl exact) =
    let nonzero : nat_beq requested 0 ≡ false = ground arith in
    rw (nonzero, exact, withdraw_impl) (withdraw_known-run acc t n b known)
withdraw_impl-run acc t requested n b unregister known (some_amount, inr (nothing, whole)) =
    let zero_amount : nat_beq requested 0 ≡ true = ground arith in
    let held : nat_beq (b + n) 0 ≡ false = ground arith in
    let all : b + n ≡ n = omega arith in
    rw (zero_amount, known, held, withdraw_impl)
      (ap (λ m. withdraw_known acc t m) all ∙ withdraw_known-run acc t n b known)

module _ (cost : ℕ) where
  with_balance-IsCovered :
      (acc : Account) (t b w : ℕ)
      → lookup t acc.token_balances ≡ some w
      → IsCovered cost acc
      → IsCovered cost (with_balance acc t b)
  unfolding storage_usage
  with_balance-IsCovered acc t b w known (usage, used, paid) =
      (usage, rw (length-put t w b acc.token_balances known) used, paid)

  tracking-IsCovered :
      (acc : Account) (ys : List Entry)
      → IsCovered cost acc
      → IsCovered cost (record acc { withdraw_tracker = ys })
  unfolding storage_usage
  tracking-IsCovered acc ys covered = covered

  -- The account while the transfer is under way.
  abbrev in_flight : Account → ℕ → ℕ → List Entry → Account
  in_flight acc t b ys = record (with_balance acc t b) { withdraw_tracker = ys }

  abbrev sending : ℕ → ℕ → ℕ → Bool → Transfer
  sending id t n unregister = record {
    token_id = t;
    sender_id = id;
    amount = n;
    unregister = unregister;
  }

  send_tokens-run :
      (c : Contract) (id t n : ℕ) (unregister : Bool) (acc : Account) (ys : List Entry)
      → lookup id c.accounts ≡ some acc
      → track acc.withdraw_tracker t n ≡ done ys
      → IsCovered cost acc
      → send_tokens cost c id t n unregister
        ≡ ok (sending id t n unregister, with_account c id (record acc { withdraw_tracker = ys }))
  unfolding send_tokens start_tracking
  send_tokens-run c id t n unregister acc ys known tracked covered =
      rw
        (update_account-run cost c id (start_tracking t n) acc
          (record acc { withdraw_tracker = ys }) tt known (rw tracked refl)
          (tracking-IsCovered acc ys covered))
        refl

  withdraw-run :
      (c : Contract) (id t requested n b : ℕ) (unregister : Bool) (acc : Account) (ys : List Entry)
      → c.suspended ≡ false
      → lookup id c.accounts ≡ some acc
      → lookup t acc.token_balances ≡ some (b + n)
      → Requests requested n b
      → track acc.withdraw_tracker t n ≡ done ys
      → IsCovered cost acc
      → withdraw cost c id t requested unregister
        ≡ ok (
          some (sending id t n unregister),
          with_account (with_account c id (with_balance acc t b)) id (in_flight acc t b ys),
        )
  unfolding withdraw send_if ensure_payable_api_resumed
  withdraw-run c id t requested n b unregister acc ys resumed known balance request tracked
        covered =
      let paid = with_balance-IsCovered acc t b (b + n) balance covered in
      let live : ensure_payable_api_resumed c ≡ ok tt = rw resumed refl in
      let taken =
        update_account-run cost c id (λ a. withdraw_impl a t requested unregister) acc
          (with_balance acc t b) (some n) known
          (withdraw_impl-run acc t requested n b unregister balance request) paid in
      let mid = with_account c id (with_balance acc t b) in
      let sent =
        send_tokens-run mid id t n unregister (with_balance acc t b) ys
          (lookup-with_account c id (with_balance acc t b)) tracked paid in
      rw (live, taken, sent, withdraw) refl

  settle-failed :
      (acc : Account) (id t n b : ℕ) (unregister : Bool) (ys : List Entry)
      → untrack ys t n ≡ done acc.withdraw_tracker
      → lookup t acc.token_balances ≡ some (b + n)
      → b + n < 2 ^ 128
      → settle (sending id t n unregister) false (in_flight acc t b ys) ≡ ok (tt, acc)
  unfolding settle
  settle-failed acc id t n b unregister ys untracked balance room =
      rw (untracked, deposit-with_balance acc t n b balance room) refl

  settle-succeeded :
      (acc : Account) (id t n b : ℕ) (ys : List Entry)
      → untrack ys t n ≡ done acc.withdraw_tracker
      → settle (sending id t n false) true (in_flight acc t b ys) ≡ ok (tt, with_balance acc t b)
  unfolding settle
  settle-succeeded acc id t n b ys untracked = rw untracked refl

  -- Three changes of one account, the last of which restores it.
  restored :
      (c : Contract) (id : ℕ) (acc one two : Account)
      → lookup id c.accounts ≡ some acc
      → with_account (with_account (with_account c id one) id two) id acc ≡ c
  restored c id acc one two known =
      ap (λ l. record c { accounts = l })
        (put-put id acc two (put id one c.accounts) ∙ put-undo id acc one c.accounts known)

  -- While the payable calls run, for a registered account that pays for its storage and a token
  -- with the balance b + n below 2 ^ 128: a withdrawal of n > 0 (asked for as n, or as 0 with b =
  -- 0) starts a transfer of n, and the callback after that transfer failed, called by the contract
  -- itself, returns the contract exactly as it was before the withdrawal.
  pub callback-withdraw_failed :
      (c : Contract) (self id t requested n b : ℕ) (unregister : Bool) (acc : Account)
      → c.suspended ≡ false
      → lookup id c.accounts ≡ some acc
      → lookup t acc.token_balances ≡ some (b + n)
      → b + n < 2 ^ 128
      → Requests requested n b
      → IsCovered cost acc
      → (c' : Contract) × (withdraw cost c id t requested unregister
          ≡ ok (some (sending id t n unregister), c'))
        × (exchange_callback_post_withdraw cost c' self self (sending id t n unregister) false
            ≡ ok (tt, c))
  unfolding exchange_callback_post_withdraw
  callback-withdraw_failed c self id t requested n b unregister acc resumed known balance room
        request covered =
      let own : nat_beq self self ≡ true = ground arith in
      let (ys, tracked, untracked) = track-done acc.withdraw_tracker t n in
      let mid = with_account c id (with_balance acc t b) in
      let flying = in_flight acc t b ys in
      let undone =
        update_account-run cost (with_account mid id flying) id
          (settle (sending id t n unregister) false) flying acc tt
          (lookup-with_account mid id flying)
          (settle-failed acc id t n b unregister ys untracked balance room) covered in
      (
        with_account mid id flying,
        withdraw-run c id t requested n b unregister acc ys resumed known balance request tracked
            covered,
        rw (own, undone)
            (ap (λ d. ok (tt, d)) (restored c id acc (with_balance acc t b) flying known)),
      )

  -- While the payable calls run, for a registered account that pays for its storage and a token
  -- with the balance b + n: after a withdrawal of n > 0 (asked for as n, or as 0 with b = 0)
  -- without unregistering and the callback of its successful transfer, called by the contract
  -- itself, the contract differs from the one before in that balance alone, which is b.
  pub callback-withdraw_succeeded :
      (c : Contract) (self id t requested n b : ℕ) (acc : Account)
      → c.suspended ≡ false
      → lookup id c.accounts ≡ some acc
      → lookup t acc.token_balances ≡ some (b + n)
      → Requests requested n b
      → IsCovered cost acc
      → (c' : Contract) × (withdraw cost c id t requested false
          ≡ ok (some (sending id t n false), c'))
        × (exchange_callback_post_withdraw cost c' self self (sending id t n false) true
            ≡ ok (tt, with_account c id (with_balance acc t b)))
  unfolding exchange_callback_post_withdraw
  callback-withdraw_succeeded c self id t requested n b acc resumed known balance request covered =
      let own : nat_beq self self ≡ true = ground arith in
      let (ys, tracked, untracked) = track-done acc.withdraw_tracker t n in
      let paid = with_balance acc t b in
      let mid = with_account c id paid in
      let flying = in_flight acc t b ys in
      let settled =
        update_account-run cost (with_account mid id flying) id (settle (sending id t n false) true)
          flying paid tt (lookup-with_account mid id flying)
          (settle-succeeded acc id t n b ys untracked)
          (with_balance-IsCovered acc t b (b + n) balance covered) in
      let same =
        put-put id paid flying (put id paid c.accounts) ∙ put-put id paid paid c.accounts in
      (
        with_account mid id flying,
        withdraw-run c id t requested n b false acc ys resumed known balance request tracked
            covered,
        rw (own, settled) (ap (λ l. ok (tt, record c { accounts = l })) same),
      )
