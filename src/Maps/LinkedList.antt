-- ===== src/Maps/LinkedList.antt =====
-- veax/near-iterable-maps/src/linked_list_map.rs: a singly linked list of storage nodes.
-- The map's own fields are a record; the nodes are in the contract's storage.
pub mod Chain
pub mod Insert
pub mod Drain
pub mod Examples
use veax.Base.{
  ℕ, zero, suc, ◌+◌, ◌-◌, ◌^◌, Bool, true, Option, none, some, List, [], ◌∷◌, ltb, nat_beq,
  if◌then◌else◌,
}
use veax.Base.Eq.{Eq, Bytes}
use veax.Base.Panic.{Run, done, panic, out_of_fuel, ◌>>=◌, unwrap, add_below, sub_checked}
use veax.Maps.Storage.{Env, Borsh, read_node, write_node, erase_node, has_node}

pub record Node (K V : Type 0) : Type 0 where
  pub value : V
  pub next_key : Option K

abbrev pub node : {K V : Type 0} → V → Option K → Node K V
node v q = record { value = v; next_key = q }

pub record LinkedListMap (K : Type 0) : Type 0 where
  pub key_prefix : Bytes
  pub length : ℕ
  pub next_key : Option K

pub new : {K : Type 0} → Bytes → LinkedListMap K
new prefix = record { key_prefix = prefix; length = 0; next_key = none }

-- `usize` has 32 bits on wasm32.
abbrev pub length : {K : Type 0} → LinkedListMap K → Run ℕ
length m = if ltb m.length (2 ^ 32) then done m.length else panic

abbrev pub is_empty : {K : Type 0} → LinkedListMap K → Bool
is_empty m = nat_beq m.length 0

-- The iterator: the map and the key of the next entry.
pub record Iter (K : Type 0) : Type 0 where
  pub map : LinkedListMap K
  pub key : Option K

pub iter : {K : Type 0} → LinkedListMap K → Iter K
iter m = record { map = m; key = m.next_key }

module _ (env : Env) {K V : Type 0} ⦃e : Eq K⦄ (keys : Borsh K) (nodes : Borsh (Node K V)) where
  open env use {Store}

  pub get_node : LinkedListMap K → K → Store → Run (Option (Node K V))
  get_node m key = read_node env keys nodes m.key_prefix key

  pub set_node : LinkedListMap K → K → Node K V → Store → Store
  set_node m key = write_node env keys nodes m.key_prefix key

  pub remove_node : LinkedListMap K → K → Store → Store
  remove_node m key = erase_node env keys nodes m.key_prefix key

  pub contains_key : LinkedListMap K → K → Store → Bool
  contains_key m key = has_node env keys nodes m.key_prefix key

  pub get : LinkedListMap K → K → Store → Run (Option V)
  get m key s = do
    found ← get_node m key s
    elim found [ none ↦ done none | some n ↦ done (some n.value) ]

  -- An operation returns its result, the map and the storage.
  pub insert : LinkedListMap K → K → V → Store → Run (Option V × LinkedListMap K × Store)
  insert m key value s = do
    found ← get_node m key s
    elim found [
      | some old ↦ done (some old.value, m, set_node m key (node value old.next_key) s)
      | none ↦ do
        length ← add_below (2 ^ 64) m.length 1
        done (
          none,
          record m { length = length; next_key = some key },
          set_node m key (node value m.next_key) s,
        )
    ]

  pub pop : LinkedListMap K → Store → Run (Option (K × V) × LinkedListMap K × Store)
  pop m s = elim m.next_key [
    | none ↦ done (none, m, s)
    | some key ↦ do
      found ← get_node m key s
      n ← unwrap found
      length ← sub_checked m.length 1
      done (
        some (key, n.value),
        record m { length = length; next_key = n.next_key },
        remove_node m key s,
      )
  ]

  -- `while let Some(_) = self.pop()`, on fuel.
  pub clear : ℕ → LinkedListMap K → Store → Run (LinkedListMap K × Store)
  clear zero m s = out_of_fuel
  clear (suc fuel) m s =
      pop m s >>= λ r. elim r.0 [ none ↦ done (r.1, r.2) | some entry ↦ clear fuel r.1 r.2 ]

  pub next : Iter K → Store → Run (Option (K × V) × Iter K)
  next it s = elim it.key [
    | none ↦ done (none, it)
    | some key ↦ do
      found ← get_node it.map key s
      n ← unwrap found
      done (some (key, n.value), record it { key = n.next_key })
  ]

  -- `for entry in &map`: the entries that `next` yields until it yields none, on fuel.
  pub collect : ℕ → Iter K → Store → Run (List (K × V))
  collect zero it s = out_of_fuel
  collect (suc fuel) it s = next it s >>= λ r. elim r.0 [
    | none ↦ done []
    | some entry ↦ collect fuel r.1 s >>= λ rest. done (entry ∷ rest)
  ]
