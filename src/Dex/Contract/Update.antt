-- ===== src/Dex/Contract/Update.antt =====
-- dex/dex_impl/mod.rs: an update of an account that goes through, and what it saves.
use veax.Base.{
  ℕ, ◌≡◌, refl, ap, ◌∙◌, sym, subst, Bool, Bool-cases, Option-cases, nat_beq, inl, inr, true, false,
  some, List, leb, arith,
}
use veax.Base.Eq.{nat_eq}
use veax.Maps.Entries.{lookup, put, lookup-put}
use veax.Dex.Accounts.{Account, storage_usage, storage_available, ensure_storage_usage}
use veax.Dex.Contract.{Contract, save_account, update_account}
use veax.Errors.{Outcome, ok, err, ◌>>=◌, ensure_here, bind-ok, ErrorKind, ChainError}

abbrev pub with_account : Contract → ℕ → Account → Contract
with_account c id acc = record c { accounts = put id acc c.accounts }

pub lookup-with_account :
    (c : Contract) (id : ℕ) (acc : Account) → lookup id (with_account c id acc).accounts ≡ some acc
lookup-with_account c id acc = lookup-put id id acc c.accounts ∙ ground arith

ensured : (b : Bool) (e : ErrorKind) → ensure_here b e ≡ ok tt → b ≡ true
ensured true e done = refl
ensured false e done = ground arith

module _ (cost : ℕ) where
  -- The account pays for the storage that it uses.
  abbrev pub IsCovered : Account → Type 0
  IsCovered acc =
      (usage : ℕ) × (storage_usage cost acc ≡ ok usage) × (leb usage acc.near_amount ≡ true)

  pub save_account-run :
      (accounts : List (ℕ × Account)) (id : ℕ) (acc : Account)
      → IsCovered acc
      → save_account cost accounts id acc ≡ ok (put id acc accounts)
  unfolding save_account ensure_storage_usage storage_available
  save_account-run accounts id acc (usage, used, paid) = rw (used, paid) refl

  pub update_account-run :
      {R : Type 0} (c : Contract) (id : ℕ) (f : Account → Outcome (R × Account))
      (acc acc' : Account) (r : R)
      → lookup id c.accounts ≡ some acc
      → f acc ≡ ok (r, acc')
      → IsCovered acc'
      → update_account cost c id f ≡ ok (r, with_account c id acc')
  unfolding update_account
  update_account-run c id f acc acc' r known runs covered =
      rw (known, runs, save_account-run c.accounts id acc' covered, update_account) refl

  -- Every account that is saved pays for its storage.
  abbrev pub AllCovered : List (ℕ × Account) → Type 0
  AllCovered accounts = (id : ℕ) (acc : Account) → lookup id accounts ≡ some acc → IsCovered acc

  ensure_storage_usage-ok : (acc : Account) → ensure_storage_usage cost acc ≡ ok tt → IsCovered acc
  unfolding ensure_storage_usage
  ensure_storage_usage-ok acc done =
      let (usage, used, paid) =
        bind-ok (storage_usage cost acc)
          (λ n.
            ensure_here (leb n acc.near_amount) (ErrorKind.custom ChainError.insufficient_storage))
          tt done in
      (usage, used, ensured _ _ paid)

  pub save_account-ok :
      (accounts after : List (ℕ × Account)) (id : ℕ) (acc : Account)
      → save_account cost accounts id acc ≡ ok after
      → IsCovered acc × (put id acc accounts ≡ after)
  unfolding save_account
  save_account-ok accounts after id acc done =
      let (_, covered, rest) =
        bind-ok (ensure_storage_usage cost acc)
          (λ _. storage_available cost acc >>= λ logged. ok (put id acc accounts)) after done in
      let (_, _, saved) =
        bind-ok (storage_available cost acc) (λ logged. ok (put id acc accounts)) after rest in
      (ensure_storage_usage-ok acc covered, cc)

  put-AllCovered :
      (accounts : List (ℕ × Account)) (id : ℕ) (acc : Account)
      → AllCovered accounts
      → IsCovered acc
      → AllCovered (put id acc accounts)
  put-AllCovered accounts id acc all covered j other found = elim (Bool-cases (nat_beq j id)) [
    | inl here ↦
        let stored : lookup j (put id acc accounts) ≡ some acc =
          lookup-put j id acc accounts ∙ rw here refl in
        let same : acc ≡ other = cc in subst IsCovered same covered
    | inr there ↦
        let kept : lookup j (put id acc accounts) ≡ lookup j accounts =
          lookup-put j id acc accounts ∙ rw there refl in
        all j other (sym kept ∙ found)
  ]

  -- An update that succeeds found the account, ran the function on it and saved what it made of it.
  pub update_account-ok :
      {R : Type 0} (c c' : Contract) (id : ℕ) (f : Account → Outcome (R × Account)) (r : R)
      → update_account cost c id f ≡ ok (r, c')
      → (acc : Account) × (acc' : Account) × (lookup id c.accounts ≡ some acc)
        × (f acc ≡ ok (r, acc'))
        × IsCovered acc'
        × (with_account c id acc' ≡ c')
  unfolding update_account
  update_account-ok {R} c c' id f r done = elim (Option-cases (lookup id c.accounts)) [
    | inl unknown ↦
        let refused : update_account cost c id f ≡ err ErrorKind.account_not_registered =
          rw (unknown, update_account) refl in
        ground arith
    | inr (acc, known) ↦
        let store = λ (q : R × Account). save_account cost c.accounts id q.1 >>= λ accounts.
        ok (q.0, record c { accounts = accounts }) in
        let opened : (f acc >>= store) ≡ ok (r, c') =
          sym (rw (known, update_account) refl) ∙ done in
        let (q, ran, stored) = bind-ok (f acc) store (r, c') opened in
        let (after, saved, last) =
          bind-ok (save_account cost c.accounts id q.1)
            (λ accounts. ok (q.0, record c { accounts = accounts })) (r, c') stored in
        let (covered, written) = save_account-ok c.accounts after id q.1 saved in
        let result : q.0 ≡ r = cc in
        (
          acc,
          q.1,
          known,
          ran ∙ ap (λ x. ok (x, q.1)) result,
          covered,
          ap (λ l. record c { accounts = l }) written ∙ cc,
        )
  ]

  -- If every account of the contract pays for its storage, then so it is after any update of an
  -- account that succeeds, whatever the update does to the account.
  pub update_account-AllCovered :
      {R : Type 0} (c c' : Contract) (id : ℕ) (f : Account → Outcome (R × Account)) (r : R)
      → AllCovered c.accounts
      → update_account cost c id f ≡ ok (r, c')
      → AllCovered c'.accounts
  update_account-AllCovered {R} c c' id f r all done =
      let (_, acc', _, _, covered, written) = update_account-ok c c' id f r done in
      subst (λ d. AllCovered d.accounts) written (put-AllCovered c.accounts id acc' all covered)
