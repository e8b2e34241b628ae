-- ===== src/ShardCtrler.antt =====
-- shardctrler/: the shard controller. The model stands in Config, Rebalance, Server and Clerk. History
-- has the proofs about configurations; Counting, Plans, Moves, Loops, Balance and Replicas those about
-- rebalance.
pub mod Config
pub mod Rebalance
pub mod Server
pub mod Clerk
pub mod History
pub mod Counting
pub mod Plans
pub mod Moves
pub mod Loops
pub mod Balance
pub mod Replicas
