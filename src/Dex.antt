-- ===== src/Dex.antt =====
-- veax/dex/src/dex: the exchange's own logic.
pub mod Tick
pub mod Side
pub mod Util
pub mod Trackers
pub mod Accounts
pub mod Contract
pub mod Transfers
pub mod Pool
pub mod Actions
pub mod Batch
pub mod Examples
