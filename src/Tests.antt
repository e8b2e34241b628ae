-- ===== src/Tests.antt =====
-- Concrete instances of the encodings, and runs of the program at concrete inputs.
mod Wire
mod Votes
mod Logs
mod Stores
mod Groups
mod Sorting
mod Jobs
mod Clerks
mod Shards
mod Networks
