-- ===== src/KvSrv.antt =====
-- kvsrv/: the single key/value server and its clerk over an unreliable network. The model stands in
-- Server and Clerk; Retry holds the proofs.
pub mod Server
pub mod Clerk
pub mod Retry
