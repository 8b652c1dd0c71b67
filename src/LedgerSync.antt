-- ===== src/LedgerSync.antt =====
-- ledger_sync/: the service that writes blockchain state to the database.
pub mod Versions
pub mod Fork
pub mod Ledger
pub mod State
pub mod Blocks
pub mod Addresses
pub mod Queue
pub mod Deltas
pub mod Events
pub mod Samples
mod Tests
