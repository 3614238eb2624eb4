-- ===== src/MergeGate.antt =====
-- src/safe_merge_gate: the deterministic merge gate and the local transaction.
pub mod Errors
pub mod Contract
pub mod Gate
pub mod Library
pub mod Receipt
pub mod Transaction
pub mod Sample
pub mod Tests
