-- ===== src/Mr.antt =====
-- mr/: the MapReduce coordinator and its workers. The model stands in Coordinator, Files, Worker,
-- Sequential and System. The coordinator's proofs are in Counts, Tasks and Progress; those of one map or
-- reduce task in Replace, Buckets, MapTask, Groups, Agreement and ReduceTask; those of the whole job in
-- Crash, Outputs, Invariant, Run, Stable, Start and Completion.
pub mod Coordinator
pub mod Tasks
pub mod Counts
pub mod Files
pub mod Worker
pub mod Sequential
pub mod Replace
pub mod Buckets
pub mod Groups
pub mod MapTask
pub mod Agreement
pub mod ReduceTask
pub mod Crash
pub mod System
pub mod Outputs
pub mod Progress
pub mod Invariant
pub mod Run
pub mod Stable
pub mod Start
pub mod Completion
