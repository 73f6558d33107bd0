-- ===== src/Maps.antt =====
-- The crate veax/near-iterable-maps: maps over the contract's storage that can be iterated.
pub mod Storage
pub mod Entries
pub mod LinkedList
pub mod DoublyLinkedList
pub mod Memory
