-- ===== src/Dex/Transfers/Suspension.antt =====
-- dex/dex_impl/mod.rs: what a suspension stops.
use veax.Base.{ℕ, ◌≡◌, refl, Bool, true, List, nat_beq, if◌then◌else◌, Bool-cases, inl, inr}
use veax.Dex.Contract.{
  Contract, ensure_payable_api_resumed, owner_call, add_verified_tokens, remove_verified_tokens,
  add_guard_accounts, remove_guard_accounts, set_protocol_fee_fraction, storage_deposit,
  storage_withdraw, storage_unregister, unregister_account, Call, assert_one_yocto,
  register_account_and_then,
}
use veax.Dex.Transfers.{deposit, withdraw, owner_withdraw, register_tokens, unregister_tokens}
use veax.Dex.Accounts.{min_storage_usage}
use veax.Errors.{Outcome, err, panicked, ◌>>=◌, ◌>>◌, ErrorKind}

abbrev pub Refused : {A : Type 0} → Outcome A → Type 0
Refused r = r ≡ err ErrorKind.payable_api_suspended

live-Refused : (c : Contract) → c.suspended ≡ true → Refused (ensure_payable_api_resumed c)
unfolding ensure_payable_api_resumed
live-Refused c off = rw off refl

owner_call-Refused :
    (c : Contract) (caller : ℕ) → c.suspended ≡ true → Refused (owner_call c caller)
unfolding owner_call
owner_call-Refused c caller off = rw (live-Refused c off) refl

-- A call that wants exactly one yoctoNEAR panics without it, and is refused with it.
abbrev pub refused_for_one_yocto : {R : Type 0} → ℕ → Call R
refused_for_one_yocto attached =
    if nat_beq attached 1 then err ErrorKind.payable_api_suspended else panicked

one_yocto-Refused :
    {R : Type 0} (attached : ℕ) (k : Call R)
    → Refused k
    → (assert_one_yocto attached >> k) ≡ refused_for_one_yocto attached
one_yocto-Refused attached k refused = elim (Bool-cases (nat_beq attached 1)) [
  | inl e ↦ rw e refused
  | inr e ↦ rw e refl
]

module _ (cost : ℕ) where
  -- While the payable calls are suspended, for every account, token and amount: deposits,
  -- withdrawals, the owner's withdrawals, registering and unregistering tokens and unregistering
  -- an account are refused with `PayableAPISuspended`; so is `storage_deposit`, unless computing
  -- the minimum for storage, which comes first, panics; `storage_withdraw` and
  -- `storage_unregister` are refused with it where exactly one yoctoNEAR is attached, and panic
  -- otherwise.
  pub withdraw-Refused :
      (c : Contract) (id t n attached : ℕ) (ts : List ℕ) (flag : Bool)
      → c.suspended ≡ true
      → Refused (deposit cost c id t n)
        × Refused (withdraw cost c id t n flag)
        × Refused (owner_withdraw cost c id t n)
        × Refused (register_tokens cost c id ts)
        × Refused (unregister_tokens cost c id ts)
        × Refused (unregister_account cost c id)
        × (storage_deposit cost c id flag attached
            ≡ (min_storage_usage cost >>= λ _. err ErrorKind.payable_api_suspended))
        × (storage_withdraw cost c id attached n ≡ refused_for_one_yocto attached)
        × (storage_unregister cost c id attached ≡ refused_for_one_yocto attached)
  unfolding deposit withdraw owner_withdraw register_tokens unregister_tokens storage_deposit
      storage_withdraw storage_unregister unregister_account register_account_and_then
  withdraw-Refused c id t n attached ts flag off =
      let live = live-Refused c off in
      let owner = owner_call-Refused c id off in
      (
        rw live refl,
        rw live refl,
        rw owner refl,
        rw live refl,
        rw live refl,
        rw live refl,
        rw live refl,
        one_yocto-Refused attached _ (rw live refl),
        one_yocto-Refused attached _ (rw live refl),
      )

-- While the payable calls are suspended, changing the fraction of the fee, the guards or the
-- verified tokens is refused with `PayableAPISuspended`, to every caller, the owner included.
pub set_protocol_fee_fraction-Refused :
    (c : Contract) (caller f : ℕ) (xs : List ℕ)
    → c.suspended ≡ true
    → Refused (set_protocol_fee_fraction c caller f)
      × Refused (add_guard_accounts c caller xs)
      × Refused (remove_guard_accounts c caller xs)
      × Refused (add_verified_tokens c caller xs)
      × Refused (remove_verified_tokens c caller xs)
unfolding set_protocol_fee_fraction add_guard_accounts remove_guard_accounts add_verified_tokens
    remove_verified_tokens
set_protocol_fee_fraction-Refused c caller f xs off =
    let owner = owner_call-Refused c caller off in
    (rw owner refl, rw owner refl, rw owner refl, rw owner refl, rw owner refl)
