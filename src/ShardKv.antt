-- ===== src/ShardKv.antt =====
-- shardkv/: the sharded key/value service of one replica group. The model stands in Server,
-- Migrate and Clerk; the other modules hold the proofs.
pub mod Server
pub mod Migrate
pub mod Owner
pub mod Serve
pub mod Handover
pub mod Pending
pub mod Clerk
pub mod Asking
