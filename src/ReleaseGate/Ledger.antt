-- ===== src/ReleaseGate/Ledger.antt =====
-- release_gate/ledger.py: `DecisionLedger`.
pub mod State
pub mod AnchorFile
pub mod Anchor
pub mod Moves
pub mod Drafts
pub mod Append
pub mod Promote
pub mod Faults
pub mod Derive
pub mod Rows
pub mod Verify
pub mod Recover
pub mod Listing
pub mod Effects
pub mod Changes
pub mod Chain
pub mod Sound
pub mod Synced
pub mod Machine
pub mod Refines
pub mod Replay
pub mod Idempotent
pub mod Runs
pub mod Fencing
pub mod Recovery
pub mod Accepts
pub mod Recovered
pub mod Sample
pub mod Tests
