-- ===== src/Lib.antt =====
-- A model of the Veax exchange contract (Rust, for the NEAR chain), with the theorems about it.
--
-- The program keeps accounts with token balances and the NEAR that pays for their storage, pools of
-- token pairs, and a few owner and guard settings. Every call checks who calls and whether the payable
-- calls are suspended, changes one account at a time through a map kept in the contract's storage, and
-- starts a token transfer for a withdrawal, whose callback settles or takes the withdrawal back.
--
-- Base        helpers: numbers, Boolean tests, integers, key equality, `Run` for code that may panic.
-- Maps        veax/near-iterable-maps: the two maps over the chain's storage. `Maps/Storage` has the
--             chain's storage and the Borsh encoding as interfaces with their documented laws;
--             `Maps/Entries` the abstract view, a list of entries; `Maps/LinkedList` and
--             `Maps/DoublyLinkedList` the two maps, whose children speak of the entries.
--             `Maps/Memory` meets the interfaces by a storage in memory.
-- Errors      veax/dex/src/dex/errors.rs: the kinds of errors and the outcome of a fallible call.
-- Fp          veax/dex/src/fp: `Uint` has the words of types.rs and the crate `uint` as an interface with
--             its documented laws; `U128x128` and the other seven types are the files of their names, whose
--             children compare arithmetic and roots with the exact numbers; `Convert` the conversions
--             between them; `Signed` (signed.rs) signed numbers over an interface of the unsigned type,
--             which `Unsigned/Words` fills; `SignedTypes` the conversions of i128x128.rs to i320x64.rs.
-- Dex/Tick    veax/dex/src/dex/tick.rs: ticks and effective ticks; `Price` has the product behind a price,
--             with floating point as a parameter, and `Price/Table` sets the doubles of the table against
--             the powers of the square root of 1.0001.
-- Dex/Side, Dex/Util   veax/dex/src/dex/util_types.rs and utils.rs: sides, pool identifiers, requests.
-- Dex/Trackers   veax/dex/src/dex/withdraw_trackers.rs: withdrawals in flight, a sorted vector.
-- Dex/Accounts   veax/dex/src/dex/v0/account_state_ex.rs and veax/dex/src/chain/account.rs.
-- Dex/Pool    veax/dex/src/dex/v0/pool_state_ex.rs over the state of veax/dex/src/dex/state_types.rs:
--             `Ticks` the ticks next to the price and the place of a range, `Crossing` the passing of
--             ticks, `Fees` the fees per liquidity, `Reserves` what positions and rewards hold and the
--             two withdrawals of fees, `Closing` the closing of a position. The rate of a fee level is a
--             parameter, since the code computes it in floating point, and so are the prices. The other
--             children are about these five.
-- Dex/Actions, Dex/Batch   veax/dex/src/dex/dex_impl/mod.rs: batches of actions on one account. What they use of the
--             pools, a swap and the actions on positions, is an interface.
-- Dex/Contract   veax/dex/src/dex/dex_impl/mod.rs with the map of accounts of veax/dex/src/chain/mod.rs and the
--             storage calls of veax/dex/src/chain/wasm.rs: who may call what, and registration.
--             The attached amount and the caller, which near_sdk gives, are arguments.
-- Dex/Transfers  deposits, withdrawals, the transfer and the callback after it, from the same files.
--
-- Conventions. A stateful call takes the state and returns it with its result. `Run` adds panics (the
-- release profile checks overflow and aborts), `Outcome` adds the error kinds; an error or a panic of a
-- call drops its changes, as the chain does. Widths are explicit: lengths are below 2 ^ 64, amounts
-- below 2 ^ 128, tick indices are `i32`. Loops over the storage run on fuel, which is enough with one
-- round more than there are entries. Identifiers of accounts and tokens are numbers, since the code
-- only compares them. The unsigned fixed point types are modelled by their 64-bit words in Fp; Dex/Pool
-- takes the number that the words of an amount, a liquidity or a fee stand for, with a panic where it
-- leaves the range of its type, and signed ones as integers.
--
-- Not modelled: opening positions, the steps of a swap, prices in floating point, the packing of error
-- codes, smart routing (a build feature), the JSON interface, events and the log, conversion between
-- floats and fixed point, the cubic root, and the build helpers.
pub mod Base
pub mod Maps
pub mod Errors
pub mod Fp
pub mod Dex
