-- ===== src/Dex/Contract/Access.antt =====
-- dex/dex_impl/mod.rs: who may change the contract, and when.
use veax.Base.{
  ℕ, ◌≤◌, ◌<◌, ◌≡◌, refl, ap, ◌∙◌, Bool, Bool-cases, true, false, not, ◌||◌, ◌&&◌, List, [], ◌∷◌,
  nat_beq, if◌then◌else◌, arith, inl, inr,
}
use veax.Dex.Contract.{
  Contract, contains_item, ensure_caller_is_owner, ensure_caller_is_guard, ensure_suspended,
  ensure_resumed, ensure_payable_api_resumed, owner_call, suspend_payable_api, resume_payable_api,
  add_items, add_guard_accounts, set_protocol_fee_fraction,
}
use veax.Errors.{ok, err, ◌>>=◌, ErrorKind}

abbrev pub is_guard : Contract → ℕ → Bool
is_guard c caller = nat_beq c.owner_id caller || contains_item caller c.guards

-- Only the owner and the guards suspend the payable calls, and only while they are not suspended;
-- resuming them again gives the contract back.
pub suspend_payable_api-cases :
    (c : Contract) (caller : ℕ)
    → suspend_payable_api c caller ≡ (
        if is_guard c caller
        then if c.suspended
          then err ErrorKind.guard_change_state_denied
          else ok (record c { suspended = true })
        else err ErrorKind.permission_denied)
unfolding suspend_payable_api ensure_caller_is_guard ensure_resumed
suspend_payable_api-cases c caller = ground arith

-- The owner or a guard can suspend the payable calls while they run and then resume them, which
-- gives the contract back.
pub resume_payable_api-suspend :
    (c : Contract) (caller : ℕ)
    → is_guard c caller ≡ true
    → c.suspended ≡ false
    → (suspend_payable_api c caller >>= λ c'. resume_payable_api c' caller) ≡ ok c
unfolding suspend_payable_api resume_payable_api ensure_caller_is_guard ensure_resumed
    ensure_suspended
resume_payable_api-suspend c caller guard live = rw (guard, live) (rw guard refl)

-- The owner's calls are refused to everyone else, and to the owner while the payable calls are suspended.
pub owner_call-cases :
    (c : Contract) (caller : ℕ)
    → owner_call c caller ≡ (
        if c.suspended
        then err ErrorKind.payable_api_suspended
        else if nat_beq c.owner_id caller
        then ok tt
        else err ErrorKind.permission_denied)
unfolding owner_call ensure_payable_api_resumed ensure_caller_is_owner
owner_call-cases c caller = ground arith

-- Where changing the protocol's fraction of the fee succeeds, the caller is the owner, the payable
-- calls are not suspended, the fraction is positive and at most 5000, and the contract differs in
-- the fraction alone.
pub set_protocol_fee_fraction-ok :
    (c c' : Contract) (caller f : ℕ)
    → set_protocol_fee_fraction c caller f ≡ ok c'
    → (c.owner_id ≡ caller)
      × (c.suspended ≡ false)
      × (0 < f)
      × (f ≤ 5000)
      × (record c { protocol_fee_fraction = f } ≡ c')
unfolding set_protocol_fee_fraction owner_call ensure_payable_api_resumed ensure_caller_is_owner
set_protocol_fee_fraction-ok c c' caller f done = ground arith

already :
    (u x : ℕ) (set xs : List ℕ)
    → contains_item x set ≡ true
    → (contains_item u xs || contains_item u set)
      ≡ (nat_beq u x || contains_item u xs || contains_item u set)
already u x set xs old = elim (Bool-cases (nat_beq u x)) [
  | inl same ↦
      let there : contains_item u set ≡ true = ap (λ v. contains_item v set) (ground arith) ∙ old in
      ground (arith, there)
  | inr other ↦ ground arith
]

-- A set that items were added to.
add_items-contains :
    (set xs : List ℕ) (u : ℕ)
    → contains_item u (add_items set xs).1 ≡ (contains_item u xs || contains_item u set)
unfolding add_items
add_items-contains set [] u = refl
add_items-contains set (x ∷ xs) u = elim (Bool-cases (contains_item x set)) [
  | inl old ↦ rw (old, add_items) (add_items-contains set xs u ∙ already u x set xs old)
  | inr fresh ↦ rw (fresh, add_items) (add_items-contains (x ∷ set) xs u ∙ ground arith)
]

reported_old :
    (u x : ℕ) (set xs : List ℕ)
    → contains_item x set ≡ true
    → (contains_item u xs && not (contains_item u set))
      ≡ ((nat_beq u x || contains_item u xs) && not (contains_item u set))
reported_old u x set xs old = elim (Bool-cases (nat_beq u x)) [
  | inl same ↦
      let there : contains_item u set ≡ true = ap (λ v. contains_item v set) (ground arith) ∙ old in
      ground (arith, there)
  | inr other ↦ ground arith
]

reported_new :
    (u x : ℕ) (set xs : List ℕ)
    → contains_item x set ≡ false
    → (nat_beq u x || (contains_item u xs && not (nat_beq u x || contains_item u set)))
      ≡ ((nat_beq u x || contains_item u xs) && not (contains_item u set))
reported_new u x set xs fresh = elim (Bool-cases (nat_beq u x)) [
  | inl same ↦
      let missing : contains_item u set ≡ false =
        ap (λ v. contains_item v set) (ground arith) ∙ fresh in
      ground (arith, missing)
  | inr other ↦ ground arith
]

add_items-report :
    (set xs : List ℕ) (u : ℕ)
    → contains_item u (add_items set xs).0 ≡ (contains_item u xs && not (contains_item u set))
unfolding add_items
add_items-report set [] u = refl
add_items-report set (x ∷ xs) u = elim (Bool-cases (contains_item x set)) [
  | inl old ↦ rw (old, add_items) (add_items-report set xs u ∙ reported_old u x set xs old)
  | inr fresh ↦
      rw (fresh, add_items)
        (ap (λ b. nat_beq u x || b) (add_items-report (x ∷ set) xs u)
          ∙ reported_new u x set xs fresh)
]

-- As the owner and while the payable calls run, adding guards succeeds, makes guards of exactly
-- the old guards and the listed accounts, and reports exactly those listed that were not guards.
pub add_guard_accounts-members :
    (c : Contract) (caller : ℕ) (xs : List ℕ)
    → c.suspended ≡ false
    → c.owner_id ≡ caller
    → (report : List ℕ) × (guards : List ℕ) × (add_guard_accounts c caller xs
        ≡ ok (report, record c { guards = guards }))
      × ((u : ℕ) → contains_item u guards ≡ (contains_item u xs || contains_item u c.guards))
      × ((u : ℕ) → contains_item u report ≡ (contains_item u xs && not (contains_item u c.guards)))
unfolding add_guard_accounts
add_guard_accounts-members c caller xs live owner =
    let allowed : owner_call c caller ≡ ok tt = ground (arith, owner_call-cases c caller) in
    (
      (add_items c.guards xs).0,
      (add_items c.guards xs).1,
      rw (allowed, add_guard_accounts) refl,
      λ u. add_items-contains c.guards xs u,
      λ u. add_items-report c.guards xs u,
    )
