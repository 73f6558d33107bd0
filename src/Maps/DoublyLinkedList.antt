-- ===== src/Maps/DoublyLinkedList.antt =====
-- veax/near-iterable-maps/src/doubly_linked_list_map.rs: a doubly linked list of nodes, of which
-- the first is kept, serialized, in the map's own fields and the others in the storage.
pub mod Chain
pub mod Unlink
pub mod State
pub mod Read
pub mod Insert
pub mod Links
pub mod Remove
pub mod Drain
pub mod Examples
use veax.Base.{
  ℕ, zero, suc, ◌+◌, ◌-◌, ◌^◌, Bool, true, false, ◌||◌, Option, none, some, List, [], ◌∷◌, ltb,
  nat_beq, if◌then◌else◌,
}
use veax.Base.Eq.{Eq, ◌==◌, Bytes}
use veax.Base.Panic.{Run, done, panic, out_of_fuel, ◌>>=◌, unwrap, add_below, sub_checked}
use veax.Maps.Storage.{Env, Borsh, read_node, write_node, erase_node, has_node}

pub record Node (K V : Type 0) : Type 0 where
  pub value : V
  pub prev_key : Option K
  pub next_key : Option K

abbrev pub node : {K V : Type 0} → V → Option K → Option K → Node K V
node v p q = record { value = v; prev_key = p; next_key = q }

pub record DoublyLinkedListMap (K : Type 0) : Type 0 where
  pub key_prefix : Bytes
  pub length : ℕ
  pub head : Option (K × Bytes)

-- `self.head.as_ref().map(|(key, _)| key.clone())`
abbrev pub head_key : {K : Type 0} → Option (K × Bytes) → Option K
head_key none = none
head_key (some (k, _)) = some k

pub new : {K : Type 0} → Bytes → DoublyLinkedListMap K
new prefix = record { key_prefix = prefix; length = 0; head = none }

-- `usize` has 32 bits on wasm32.
abbrev pub length : {K : Type 0} → DoublyLinkedListMap K → Run ℕ
length m = if ltb m.length (2 ^ 32) then done m.length else panic

abbrev pub is_empty : {K : Type 0} → DoublyLinkedListMap K → Bool
is_empty m = nat_beq m.length 0

pub record Iter (K : Type 0) : Type 0 where
  pub map : DoublyLinkedListMap K
  pub key : Option K

pub iter : {K : Type 0} → DoublyLinkedListMap K → Iter K
iter m = record { map = m; key = head_key m.head }

module _ (env : Env) {K V : Type 0} ⦃e : Eq K⦄ (keys : Borsh K) (nodes : Borsh (Node K V)) where
  open env use {Store}

  pub get_stored_node : DoublyLinkedListMap K → K → Store → Run (Option (Node K V))
  get_stored_node m key = read_node env keys nodes m.key_prefix key

  pub set_stored_node : DoublyLinkedListMap K → K → Node K V → Store → Store
  set_stored_node m key = write_node env keys nodes m.key_prefix key

  pub remove_stored_node : DoublyLinkedListMap K → K → Store → Store
  remove_stored_node m key = erase_node env keys nodes m.key_prefix key

  pub contains_stored_node : DoublyLinkedListMap K → K → Store → Bool
  contains_stored_node m key = has_node env keys nodes m.key_prefix key

  pub serialize_node : Node K V → Bytes
  serialize_node n = nodes.serialize n

  pub deserialize_node : Bytes → Run (Node K V)
  deserialize_node bytes = unwrap (nodes.deserialize bytes)

  -- Gets the node either from the fields (head) or from the storage.
  pub get_node : DoublyLinkedListMap K → K → Store → Run (Option (Node K V))
  get_node m key s = elim m.head [
    | none ↦ get_stored_node m key s
    | some (head, bytes) ↦
        if head == key
        then (deserialize_node bytes >>= λ n. done (some n))
        else get_stored_node m key s
  ]

  -- Writes the node either to the fields (head) or to the storage.
  pub set_node : DoublyLinkedListMap K → K → Node K V → Store → DoublyLinkedListMap K × Store
  set_node m key n s = elim m.head [
    | none ↦ (m, set_stored_node m key n s)
    | some (head, bytes) ↦
        if head == key
        then (record m { head = some (head, serialize_node n) }, s)
        else (m, set_stored_node m key n s)
  ]

  pub contains_key : DoublyLinkedListMap K → K → Store → Bool
  contains_key m key s =
      elim (head_key m.head) [ none ↦ false | some head ↦ head == key ]
      || contains_stored_node m key s

  pub get : DoublyLinkedListMap K → K → Store → Run (Option V)
  get m key s = do
    found ← get_node m key s
    elim found [ none ↦ done none | some n ↦ done (some n.value) ]

  -- `match self.head.take()`: the old first node goes to the storage, with the new key before it.
  pub push_head : DoublyLinkedListMap K → K → Store → Run (Option K × Store)
  push_head m key s = elim m.head [
    | none ↦ done (none, s)
    | some (head, bytes) ↦ do
      n ← deserialize_node bytes
      done (some head, set_stored_node m head (record n { prev_key = some key }) s)
  ]

  pub insert :
      DoublyLinkedListMap K → K → V → Store → Run (Option V × DoublyLinkedListMap K × Store)
  insert m key value s = do
    found ← get_node m key s
    elim found [
      | some old ↦
          let (m', s') = set_node m key (record old { value = value }) s in
          done (some old.value, m', s')
      | none ↦ do
        pushed ← push_head m key s
        length ← add_below (2 ^ 64) m.length 1
        done (
          none,
          record m {
            length = length;
            head = some (key, serialize_node (node value none pushed.0));
          },
          pushed.1,
        )
    ]

  -- `if let Some(next_key) = node.next_key`: the node after the removed one.
  pub relink_next :
      Option K → Option K → DoublyLinkedListMap K → Store → Run (DoublyLinkedListMap K × Store)
  relink_next prev_key none m s = done (m, s)
  relink_next prev_key (some next) m s = do
    found ← get_node m next s
    n ← unwrap found
    done (set_node m next (record n { prev_key = prev_key }) s)

  -- Takes a node out that is not the first.
  pub unlink_inner :
      K → K → Option K → DoublyLinkedListMap K → Store → Run (DoublyLinkedListMap K × Store)
  unlink_inner key prev next_key m s = do
    let s = remove_stored_node m key s
    found ← get_node m prev s
    n ← unwrap found
    let r = set_node m prev (record n { next_key = next_key }) s
    relink_next (some prev) next_key r.0 r.1

  -- Takes the first node out: the next one comes from the storage in its place.
  pub unlink_head : Option K → DoublyLinkedListMap K → Store → Run (DoublyLinkedListMap K × Store)
  unlink_head none m s = done (record m { head = none }, s)
  unlink_head (some next) m s = do
    found ← get_node m next s
    n ← unwrap found
    done (
      record m { head = some (next, serialize_node (record n { prev_key = none })) },
      remove_stored_node m next s,
    )

  pub remove : DoublyLinkedListMap K → K → Store → Run (Option V × DoublyLinkedListMap K × Store)
  remove m key s = do
    found ← get_node m key s
    elim found [
      | none ↦ done (none, m, s)
      | some n ↦ do
        length ← sub_checked m.length 1
        let m = record m { length = length }
        r ← elim n.prev_key [
          | some prev ↦ unlink_inner key prev n.next_key m s
          | none ↦ unlink_head n.next_key m s
        ]
        done (some n.value, r.0, r.1)
    ]

  pub pop : DoublyLinkedListMap K → Store → Run (Option (K × V) × DoublyLinkedListMap K × Store)
  pop m s = elim (head_key m.head) [
    | none ↦ done (none, m, s)
    | some key ↦ do r ← remove m key s; value ← unwrap r.0; done (some (key, value), r.1, r.2)
  ]

  -- `while let Some(key) = next_key`, on fuel; the map's head has been taken.
  pub clear_loop : ℕ → DoublyLinkedListMap K → Option K → Store → Run Store
  clear_loop zero m next_key s = out_of_fuel
  clear_loop (suc fuel) m none s = done s
  clear_loop (suc fuel) m (some key) s = get_node m key s >>= λ found.
      unwrap found >>= λ n. clear_loop fuel m n.next_key (remove_stored_node m key s)

  pub clear : ℕ → DoublyLinkedListMap K → Store → Run (DoublyLinkedListMap K × Store)
  clear fuel m s = clear_loop fuel (record m { head = none }) (head_key m.head) s >>= λ s'.
      done (record m { head = none; length = 0 }, s')

  pub next : Iter K → Store → Run (Option (K × V) × Iter K)
  next it s = elim it.key [
    | none ↦ done (none, it)
    | some key ↦ do
      found ← get_node it.map key s
      n ← unwrap found
      done (some (key, n.value), record it { key = n.next_key })
  ]

  -- `for entry in &map`, on fuel.
  pub collect : ℕ → Iter K → Store → Run (List (K × V))
  collect zero it s = out_of_fuel
  collect (suc fuel) it s = next it s >>= λ r. elim r.0 [
    | none ↦ done []
    | some entry ↦ collect fuel r.1 s >>= λ rest. done (entry ∷ rest)
  ]
