-- ===== src/Ledger.antt =====
-- packages/server/src/ledger/: the double-entry ledger over its store in memory.
pub mod Accounts
pub mod Entry
pub mod Store
pub mod Operations
pub mod Validity
pub mod Keys
pub mod History
pub mod Replay
pub mod Retry
pub mod Effects
pub mod Billed
pub mod Tests
