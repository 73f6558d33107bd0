-- ===== src/Maps/Storage.antt =====
-- veax/near-iterable-maps/src/lib.rs, and what it uses of near_sdk: the storage calls of `env`
-- and the Borsh encoding, both as interfaces with the laws that their documentation states.
use mathlib.Core.List.{append_cancel_left}
use veax.Base.{
  ◌≡◌, ◌≢◌, sym, ap, ◌∙◌, inl, inr, Bool, true, false, Option, none, some, ◌++◌, arith,
  if◌then◌else◌, Bool-cases,
}
use veax.Base.Eq.{Eq, ◌==◌, beq_refl, beq_ne, eq_of_beq, Bytes, bytes_eq}
use veax.Base.Panic.{Run, done, panic}

-- `BorshSerialize` and `BorshDeserialize` of one type: what is written can be read back.
pub record Borsh (A : Type 0) : Type 0 where
  pub serialize : A → Bytes
  pub deserialize : Bytes → Option A
  pub deserialize-serialize : (a : A) → deserialize (serialize a) ≡ some a

abbrev pub is_some {ℓ} : {A : Type ℓ} → Option A → Bool
is_some none = false
is_some (some _) = true

-- `near_sdk::env`: the contract's key-value storage.
pub record Env : Type 1 where
  pub Store : Type 0
  pub storage_read : Bytes → Store → Option Bytes
  pub storage_write : Bytes → Bytes → Store → Store
  pub storage_remove : Bytes → Store → Store
  pub storage_has_key : Bytes → Store → Bool
  pub read-write :
      (j k b : Bytes) (s : Store)
      → storage_read j (storage_write k b s) ≡ (if j == k then some b else storage_read j s)
  pub read-remove :
      (j k : Bytes) (s : Store)
      → storage_read j (storage_remove k s) ≡ (if j == k then none else storage_read j s)
  pub has_key-read : (k : Bytes) (s : Store) → storage_has_key k s ≡ is_some (storage_read k s)

module _ {K : Type 0} ⦃e : Eq K⦄ (keys : Borsh K) where
  pub raw_storage_key : Bytes → K → Bytes
  raw_storage_key prefix key = prefix ++ keys.serialize key

  -- Different keys are stored under different raw keys.
  raw_storage_key-injective :
      (p : Bytes) (j k : K) → raw_storage_key p j ≡ raw_storage_key p k → j ≡ k
  unfolding raw_storage_key
  raw_storage_key-injective p j k h =
      let stored : some j ≡ some k =
        sym (keys.deserialize-serialize j)
        ∙ ap keys.deserialize (append_cancel_left p _ _ h)
        ∙ keys.deserialize-serialize k in
      cc

  raw_storage_key-ne :
      (p : Bytes) (j k : K) → (j == k) ≡ false → raw_storage_key p j ≢ raw_storage_key p k
  raw_storage_key-ne p j k other h =
      cc (beq_refl j, ap (λ x. j == x) (raw_storage_key-injective p j k h))

  beq-raw_storage_key :
      (p : Bytes) (j k : K) → (raw_storage_key p j == raw_storage_key p k) ≡ (j == k)
  beq-raw_storage_key p j k = elim (Bool-cases (j == k)) [
    | inl same ↦ rw (same, eq_of_beq j k same) (beq_refl (raw_storage_key p k))
    | inr other ↦ rw other (beq_ne _ _ (raw_storage_key-ne p j k other))
  ]

module _ (env : Env) {K N : Type 0} ⦃e : Eq K⦄ (keys : Borsh K) (nodes : Borsh N) where
  open env use {
    Store, storage_read, storage_write, storage_remove, storage_has_key, read-write, read-remove,
    has_key-read,
  }

  -- `deserialize(..).unwrap()`
  decode : Option Bytes → Run (Option N)
  decode none = done none
  decode (some b) = elim (nodes.deserialize b) [ none ↦ panic | some n ↦ done (some n) ]

  pub read_node : Bytes → K → Store → Run (Option N)
  unfolding decode
  read_node prefix key s = decode (storage_read (raw_storage_key keys prefix key) s)

  pub write_node : Bytes → K → N → Store → Store
  write_node prefix key n s = storage_write (raw_storage_key keys prefix key) (nodes.serialize n) s

  pub erase_node : Bytes → K → Store → Store
  erase_node prefix key s = storage_remove (raw_storage_key keys prefix key) s

  pub has_node : Bytes → K → Store → Bool
  has_node prefix key s = storage_has_key (raw_storage_key keys prefix key) s

  pub read_node-write :
      (p : Bytes) (j k : K) (n : N) (s : Store)
      → read_node p j (write_node p k n s) ≡ (if j == k then done (some n) else read_node p j s)
  unfolding read_node write_node
  read_node-write p j k n s =
      rw (read-write, beq-raw_storage_key)
        (elim (Bool-cases (j == k)) [
          | inl same ↦ rw same (rw nodes.deserialize-serialize)
          | inr other ↦ rw other
        ])

  pub read_node-erase :
      (p : Bytes) (j k : K) (s : Store)
      → read_node p j (erase_node p k s) ≡ (if j == k then done none else read_node p j s)
  unfolding read_node erase_node
  read_node-erase p j k s =
      rw (read-remove, beq-raw_storage_key)
        (elim (Bool-cases (j == k)) [ inl same ↦ rw same | inr other ↦ rw other ])

  is_some-decode : (b : Option Bytes) {o : Option N} → decode b ≡ done o → is_some b ≡ is_some o
  unfolding decode
  is_some-decode none h = ground arith
  is_some-decode (some b) h = ground arith

  -- Where a key's bytes decode, the presence test agrees with the read.
  pub has_node-read :
      (p : Bytes) (k : K) (s : Store) {o : Option N}
      → read_node p k s ≡ done o
      → has_node p k s ≡ is_some o
  unfolding read_node has_node
  has_node-read p k s h =
      rw has_key-read (is_some-decode (storage_read (raw_storage_key keys p k) s) h)

  -- A key that nothing is stored under reads as none.
  pub read_node-unused :
      (p : Bytes) (k : K) (s : Store)
      → storage_read (raw_storage_key keys p k) s ≡ none
      → read_node p k s ≡ done none
  unfolding read_node
  read_node-unused p k s unused = rw unused
