-- ===== src/Raft.antt =====
-- raft/raft.go and raft/persister.go: one Raft peer. The model stands in the first six modules, by
-- the parts of the code; the other modules hold the proofs.
pub mod State
pub mod Vote
pub mod Append
pub mod Snapshot
pub mod Leader
pub mod Applier
pub mod Durable
pub mod Steps
pub mod Safety
pub mod Log
