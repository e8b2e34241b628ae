-- ===== src/KvRaft.antt =====
-- kvraft/: the key/value service replicated by Raft. The model stands in Server and
-- Clerk; the other modules hold the proofs.
pub mod Server
pub mod Clerk
pub mod ExactlyOnce
pub mod Recovery
