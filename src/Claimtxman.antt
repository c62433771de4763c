-- ===== src/Claimtxman.antt =====
-- claimtxman: the manager of the claim transactions.
pub mod Deposits
pub mod Single
pub mod Monitor
pub mod Status
pub mod Start
pub mod Tests
pub mod Types
pub mod Trigger
pub mod Groups
pub mod Pending
pub mod Compressed
pub mod NonceCache
