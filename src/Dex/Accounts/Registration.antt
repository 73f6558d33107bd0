-- ===== src/Dex/Accounts/Registration.antt =====
-- v0/account_state_ex.rs: registering and unregistering tokens.
use veax.Base.{
  ℕ, ◌≡◌, refl, ap, ◌∙◌, sym, subst, Bool, Bool-cases, Option-cases, true, false, not, ◌||◌, none,
  some, List, [], ◌∷◌, nat_beq, if◌then◌else◌, arith, inl, inr, ◌⊎◌,
}
use veax.Base.Eq.{nat_eq, ◌==◌}
use veax.Maps.Entries.{lookup, has, erase, is_unique, lookup-erase, erase-is_unique, lookup-none}
use veax.Dex.Trackers.{is_token_withdraw_in_progress}
use veax.Dex.Accounts.{
  Account, register_token, register_tokens, unregister_token, unregister_tokens,
}
use veax.Dex.Accounts.Balances.{balance_of, or_zero}
use veax.Errors.{ok, err, ◌>>=◌, ErrorKind, bind-ok, ensure_here-ok}

-- Whether a token is in a list.
abbrev pub in_list : ℕ → List ℕ → Bool
in_list t [] = false
in_list t (x ∷ xs) = nat_beq t x || in_list t xs

register_token-lookup :
    (acc : Account) (t u : ℕ)
    → (balance_of (register_token acc t) u ≡ balance_of acc u)
      × (has u (register_token acc t).token_balances ≡ (nat_beq u t || has u acc.token_balances))
unfolding register_token
register_token-lookup acc t u = elim (Bool-cases (has t acc.token_balances)) [
  | inl known ↦ rw (known, register_token) (refl, ground arith)
  | inr unknown ↦
      rw (unknown, register_token) (ground (arith, lookup-none t acc.token_balances unknown), refl)
]

-- Registering a list of tokens changes no balance, and afterwards exactly the tokens of the list
-- and the old ones are registered.
pub register_tokens-balances :
    (acc : Account) (ts : List ℕ) (u : ℕ)
    → (balance_of (register_tokens acc ts) u ≡ balance_of acc u)
      × (has u (register_tokens acc ts).token_balances ≡ (in_list u ts || has u acc.token_balances))
unfolding register_tokens
register_tokens-balances acc [] u = (refl, refl)
register_tokens-balances acc (t ∷ ts) u =
    let (same, known) = register_token-lookup acc t u in
    let (later, all) = register_tokens-balances (register_token acc t) ts u in
    (later ∙ same, all ∙ ground arith)

abbrev without : Account → ℕ → Account
without acc t = record acc { token_balances = erase t acc.token_balances }

unregister_token-shape :
    (acc acc' : Account) (t : ℕ)
    → unregister_token acc t ≡ ok acc'
    → ((lookup t acc.token_balances ≡ none) × (acc ≡ acc'))
      ⊎ ((lookup t acc.token_balances ≡ some 0) × (without acc t ≡ acc'))
unfolding unregister_token
unregister_token-shape acc acc' t done = elim (Option-cases (lookup t acc.token_balances)) [
  | inl unknown ↦
      let returned : unregister_token acc t ≡ ok acc = rw (unknown, unregister_token) refl in
      inl (unknown, cc)
  | inr (b, known) ↦ elim (Bool-cases (nat_beq b 0)) [
    | inl empty ↦
        let nought : b ≡ 0 = ground arith in
        let returned : unregister_token acc t ≡ ok (without acc t) =
          rw (known, empty, unregister_token) refl in
        inr (known ∙ ap some nought, cc)
    | inr held ↦
        let refused : unregister_token acc t ≡ err ErrorKind.non_zero_token_balance =
          rw (known, held, unregister_token) refl in
        ground arith
  ]
]

-- One step: the token is gone, and its balance was zero.
abbrev Unregisters : Account → ℕ → Account → Type 0
Unregisters acc t acc' =
    ((u : ℕ)
      → lookup u acc'.token_balances ≡ (if u == t then none else lookup u acc.token_balances))
    × (balance_of acc t ≡ 0)
    × (is_unique acc'.token_balances ≡ true)
    × (acc'.withdraw_tracker ≡ acc.withdraw_tracker)

unregister_token-ok :
    (acc acc' : Account) (t : ℕ)
    → unregister_token acc t ≡ ok acc'
    → is_unique acc.token_balances ≡ true
    → Unregisters acc t acc'
unregister_token-ok acc acc' t done unique = elim (unregister_token-shape acc acc' t done) [
  | inl (unknown, same) ↦
      subst (Unregisters acc t) same (λ u. ground arith, ap or_zero unknown, unique, refl)
  | inr (known, same) ↦ subst (Unregisters acc t) same (
    λ u. lookup-erase u t acc.token_balances unique,
    ap or_zero known,
    erase-is_unique t acc.token_balances unique,
    refl,
  )
]

unregister_tokens-step :
    (acc acc' : Account) (t : ℕ) (ts : List ℕ)
    → unregister_tokens acc (t ∷ ts) ≡ ok acc'
    → (mid : Account) × (is_token_withdraw_in_progress acc.withdraw_tracker t ≡ false)
      × (unregister_token acc t ≡ ok mid)
      × (unregister_tokens mid ts ≡ ok acc')
unfolding unregister_tokens
unregister_tokens-step acc acc' t ts done =
    let next = λ (a : Account). unregister_tokens a ts in
    let (idle, rest) =
      ensure_here-ok (not (is_token_withdraw_in_progress acc.withdraw_tracker t))
        ErrorKind.withdraw_in_progress (unregister_token acc t >>= next) acc' done in
    let (mid, one, later) = bind-ok (unregister_token acc t) next acc' rest in
    (mid, ground (arith, idle), one, later)

-- For an account that has each token once: where unregistering a list of tokens succeeds, none of
-- them has a withdrawal in flight, exactly they are gone from the balances, and every balance
-- (zero for a token that is not registered) is what it was.
pub unregister_tokens-balances :
    (acc acc' : Account) (ts : List ℕ)
    → unregister_tokens acc ts ≡ ok acc'
    → is_unique acc.token_balances ≡ true
    → ((u : ℕ) → balance_of acc' u ≡ balance_of acc u)
      × ((u : ℕ)
          → lookup u acc'.token_balances
            ≡ (if in_list u ts then none else lookup u acc.token_balances))
      × ((u : ℕ)
          → in_list u ts ≡ true
          → is_token_withdraw_in_progress acc.withdraw_tracker u ≡ false)
unfolding unregister_tokens
unregister_tokens-balances acc acc' [] done unique =
    let same : acc ≡ acc' = cc in
    (
      λ u. ap (λ a. balance_of a u) (sym same),
      λ u. ap (λ a. lookup u a.token_balances) (sym same),
      λ u none_there. ground arith,
    )
unregister_tokens-balances acc acc' (t ∷ ts) done unique =
    let (mid, idle, one, later) = unregister_tokens-step acc acc' t ts done in
    let (gone, empty, unique', tracker) = unregister_token-ok acc mid t one unique in
    let (same, all, quiet) = unregister_tokens-balances mid acc' ts later unique' in
    (
      λ u. same u ∙ ap or_zero (gone u) ∙ ground arith,
      λ u. all u ∙ rw (gone u) (ground arith),
      λ u listed. elim (Bool-cases (nat_beq u t)) [
        | inl here ↦
            ap (λ v. is_token_withdraw_in_progress acc.withdraw_tracker v) (ground arith) ∙ idle
        | inr other ↦
            ap (λ w. is_token_withdraw_in_progress w u) (sym tracker) ∙ quiet u (ground arith)
      ],
    )
