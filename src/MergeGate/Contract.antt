-- ===== src/MergeGate/Contract.antt =====
-- src/safe_merge_gate/contract.py: the data of a merge decision and the checks that each
-- construction makes. The parts are the children.
pub mod Fields
pub mod Change
pub mod Snapshot
pub mod Policy
pub mod Artifact
