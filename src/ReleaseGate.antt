-- ===== src/ReleaseGate.antt =====
-- src/shipcheck/release_gate: the decision ledger and the contracts that it records.
pub mod Errors
pub mod Services
pub mod Ledger
pub mod Engine
pub mod Risk
