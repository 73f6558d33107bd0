-- ===== src/Maps/Memory.antt =====
-- A storage in memory and codecs for numbers and nodes: the interfaces of Maps/Storage.antt can be met.
use veax.Base.{ℕ, ◌≡◌, refl, Option, none, some, [], ◌∷◌, arith, if◌then◌else◌, nat_beq, ◌++◌}
use veax.Base.Eq.{◌==◌, Bytes, bytes_eq, nat_eq}
use veax.Maps.Storage.{Borsh, Env, is_some}
use veax.Maps.LinkedList as Linked
use veax.Maps.DoublyLinkedList as Doubly

abbrev pub Memory : Type 0
Memory = Bytes → Option Bytes

abbrev pub memory_env : Env
memory_env = record {
  Store = Memory;
  storage_read = λ k s. s k;
  storage_write = λ k b s. λ (j : Bytes). if j == k then some b else s j;
  storage_remove = λ k s. λ (j : Bytes). if j == k then none else s j;
  storage_has_key = λ k s. is_some (s k);
  read-write = λ j k b s. refl;
  read-remove = λ j k s. refl;
  has_key-read = λ k s. refl;
}

abbrev pub empty : Memory
empty k = none

abbrev pub read_number : Bytes → Option ℕ
read_number (n ∷ []) = some n
read_number other = none

abbrev pub numbers : Borsh ℕ
numbers = record {
  serialize = λ n. n ∷ [];
  deserialize = read_number;
  deserialize-serialize = λ n. refl;
}

-- An option is a list of at most one number after its length.
abbrev pub write_option : Option ℕ → Bytes
write_option none = 0 ∷ 0 ∷ []
write_option (some n) = 1 ∷ n ∷ []

abbrev pub read_option : ℕ → ℕ → Option ℕ
read_option t n = if nat_beq t 0 then none else some n

abbrev pub read_linked : Bytes → Option (Linked.Node ℕ ℕ)
read_linked (v ∷ t ∷ n ∷ []) = some (Linked.node v (read_option t n))
read_linked other = none

abbrev pub write_linked : Linked.Node ℕ ℕ → Bytes
write_linked n = n.value ∷ write_option n.next_key

pub read-write_linked : (n : Linked.Node ℕ ℕ) → read_linked (write_linked n) ≡ some n
read-write_linked n = ground arith

abbrev pub linked_nodes : Borsh (Linked.Node ℕ ℕ)
linked_nodes = record {
  serialize = write_linked;
  deserialize = read_linked;
  deserialize-serialize = read-write_linked;
}

abbrev pub read_doubly : Bytes → Option (Doubly.Node ℕ ℕ)
read_doubly (v ∷ t ∷ n ∷ u ∷ m ∷ []) = some (Doubly.node v (read_option t n) (read_option u m))
read_doubly other = none

abbrev pub write_doubly : Doubly.Node ℕ ℕ → Bytes
write_doubly n = n.value ∷ (write_option n.prev_key ++ write_option n.next_key)

pub read-write_doubly : (n : Doubly.Node ℕ ℕ) → read_doubly (write_doubly n) ≡ some n
read-write_doubly n = ground arith

abbrev pub doubly_nodes : Borsh (Doubly.Node ℕ ℕ)
doubly_nodes = record {
  serialize = write_doubly;
  deserialize = read_doubly;
  deserialize-serialize = read-write_doubly;
}
