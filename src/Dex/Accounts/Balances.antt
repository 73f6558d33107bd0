-- ===== src/Dex/Accounts/Balances.antt =====
-- v0/account_state_ex.rs: what deposits, withdrawals and registrations do to the balances.
use veax.Base.{
  ℕ, ◌+◌, ◌-◌, ◌^◌, ◌≤◌, ◌<◌, ◌≡◌, refl, ap, ◌∙◌, Bool-cases, Option-cases, true, Option, none,
  some, ltb, leb, if◌then◌else◌, arith, inl, inr, ◌⊎◌,
}
use veax.Base.Eq.{nat_eq, ◌==◌}
use veax.Maps.Entries.{lookup, put, lookup-put, put-undo}
use veax.Dex.Accounts.{Account, try_update, deposit, withdraw}
use veax.Errors.{ok, err, ErrorKind}

-- A token that is not registered has the balance zero.
abbrev pub or_zero : Option ℕ → ℕ
or_zero none = 0
or_zero (some n) = n

abbrev pub balance_of : Account → ℕ → ℕ
balance_of acc token = or_zero (lookup token acc.token_balances)

pub deposit-registered :
    (acc : Account) (t n b : ℕ)
    → lookup t acc.token_balances ≡ some b
    → deposit acc t n ≡ (
        if ltb (b + n) (2 ^ 128)
        then ok (b + n, record acc { token_balances = put t (b + n) acc.token_balances })
        else err ErrorKind.deposit_would_overflow)
unfolding deposit try_update
deposit-registered acc t n b known = elim (Bool-cases (ltb (b + n) (2 ^ 128))) [
  | inl fits ↦ rw (known, fits, deposit, try_update) refl
  | inr over ↦ rw (known, over, deposit, try_update) refl
]

pub withdraw-registered :
    (acc : Account) (t n b : ℕ)
    → lookup t acc.token_balances ≡ some b
    → withdraw acc t n ≡ (
        if leb n b
        then ok (b - n, record acc { token_balances = put t (b - n) acc.token_balances })
        else err ErrorKind.not_enough_tokens)
unfolding withdraw try_update
withdraw-registered acc t n b known = elim (Bool-cases (leb n b)) [
  | inl fits ↦ rw (known, fits, withdraw, try_update) refl
  | inr over ↦ rw (known, over, withdraw, try_update) refl
]

deposit-missing :
    (acc : Account) (t n : ℕ)
    → lookup t acc.token_balances ≡ none
    → deposit acc t n ≡ err ErrorKind.token_not_registered
unfolding deposit try_update
deposit-missing acc t n unknown = rw (unknown, deposit, try_update) refl

withdraw-missing :
    (acc : Account) (t n : ℕ)
    → lookup t acc.token_balances ≡ none
    → withdraw acc t n ≡ err ErrorKind.token_not_registered
unfolding withdraw try_update
withdraw-missing acc t n unknown = rw (unknown, withdraw, try_update) refl

-- The account with another balance of one token.
abbrev pub with_balance : Account → ℕ → ℕ → Account
with_balance acc t b = record acc { token_balances = put t b acc.token_balances }

pub balance_of-with_balance :
    (acc : Account) (t b u : ℕ)
    → balance_of (with_balance acc t b) u ≡ (if u == t then b else balance_of acc u)
balance_of-with_balance acc t b u = ap or_zero (lookup-put u t b acc.token_balances) ∙ ground arith

-- A withdrawal that succeeds took no more than the balance, and left the rest.
pub withdraw-ok :
    (acc acc' : Account) (t n b : ℕ)
    → withdraw acc t n ≡ ok (b, acc')
    → (lookup t acc.token_balances ≡ some (b + n)) × (acc' ≡ with_balance acc t b)
withdraw-ok acc acc' t n b done = elim (Option-cases (lookup t acc.token_balances)) [
  | inl unknown ↦ ground (arith, withdraw-missing acc t n unknown)
  | inr (old, known) ↦ elim (Bool-cases (leb n old)) [
    | inl fits ↦ ground (arith, withdraw-registered acc t n old known)
    | inr over ↦ ground (arith, withdraw-registered acc t n old known)
  ]
]

lookup-with_balance : (acc : Account) (t b : ℕ) → lookup t (put t b acc.token_balances) ≡ some b
lookup-with_balance acc t b = lookup-put t t b acc.token_balances ∙ ground arith

pub deposit-with_balance :
    (acc : Account) (t n b : ℕ)
    → lookup t acc.token_balances ≡ some (b + n)
    → b + n < 2 ^ 128
    → deposit (with_balance acc t b) t n ≡ ok (b + n, acc)
deposit-with_balance acc t n b known room =
    let fits : ltb (b + n) (2 ^ 128) ≡ true = ground arith in
    deposit-registered (with_balance acc t b) t n b (lookup-with_balance acc t b)
    ∙ rw (fits, put-undo t (b + n) b acc.token_balances known) refl

-- Depositing what a successful withdrawal took, where the sum is below 2 ^ 128, returns the old
-- balance and gives the account back.
pub deposit-withdraw :
    (acc acc' : Account) (t n b : ℕ)
    → withdraw acc t n ≡ ok (b, acc')
    → b + n < 2 ^ 128
    → deposit acc' t n ≡ ok (b + n, acc)
deposit-withdraw acc acc' t n b done room =
    let (known, shape) = withdraw-ok acc acc' t n b done in
    rw shape (deposit-with_balance acc t n b known room)

-- A deposit is refused with `TokenNotRegistered` for a token that is not registered and with
-- `DepositWouldOverflow` where the sum reaches 2 ^ 128; else it returns the sum, which is the
-- token's new balance, and changes neither another balance nor another field.
pub deposit-balances :
    (acc : Account) (t n : ℕ)
    → ((lookup t acc.token_balances ≡ none)
        × (deposit acc t n ≡ err ErrorKind.token_not_registered))
      ⊎ (((2 ^ 128 ≤ balance_of acc t + n)
            × (deposit acc t n ≡ err ErrorKind.deposit_would_overflow))
          ⊎ ((acc' : Account) × (deposit acc t n ≡ ok (balance_of acc t + n, acc'))
              × ((u : ℕ)
                  → balance_of acc' u ≡ (if u == t then balance_of acc t + n else balance_of acc u))
              × (acc'.positions ≡ acc.positions)
              × (acc'.withdraw_tracker ≡ acc.withdraw_tracker)
              × (acc'.near_amount ≡ acc.near_amount)))
deposit-balances acc t n = elim (Option-cases (lookup t acc.token_balances)) [
  | inl unknown ↦ inl (unknown, deposit-missing acc t n unknown)
  | inr (b, known) ↦
      let held : balance_of acc t ≡ b = ap or_zero known in
      inr (elim (Bool-cases (ltb (b + n) (2 ^ 128))) [
        | inl fits ↦ inr (
          with_balance acc t (b + n),
          deposit-registered acc t n b known ∙ rw (fits, held) refl,
          λ u. rw held (balance_of-with_balance acc t (b + n) u),
          refl,
          refl,
          refl,
        )
        | inr over ↦ inl (ground arith, deposit-registered acc t n b known ∙ rw over refl)
      ])
]
