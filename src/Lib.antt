-- ===== src/Lib.antt =====
-- A model of the labs of MIT 6.5840 in Go (MapReduce, a key/value server, Raft, a key/value service
-- on Raft, and a sharded one), with the theorems that make its parts correct.
--
-- The program. Raft (src/raft) is a replicated log: a service calls Start and Snapshot, and receives
-- committed commands and snapshots on a channel. The services on it (src/kvraft, src/shardctrler,
-- src/shardkv) each have an apply loop that consumes the channel, a table of clients that tells copies
-- of a request apart, and RPC handlers that start a command and wait for it to be applied. The groups of
-- shardkv follow the configurations of the shard controller and hand shards over to one another.
-- src/kvsrv is a single server without Raft, and src/mr hands out the tasks of a MapReduce job.
--
-- Which file models what:
--   Raft/State       persister.go; of raft.go the record of a peer, indexes, persist, readPersist, Make
--   Raft/Vote        RequestVote; Raft/Append: AppendEntries; Raft/Snapshot: Snapshot, InstallSnapshot
--   Raft/Leader      startElection, becomeLeader, replicateTo, advanceCommit, Start, and a round of
--                    ticker and heartbeatLoop; Raft/Applier: a round of applier
--   Raft/Steps       every step of a peer, its crash and restart included, as a relation
--   Labrpc           src/labrpc/labrpc.go: the network's switches and the way of one request
--   Clerk            the loop of the clerks of src/kvraft and src/shardctrler; KvRaft/Clerk,
--                    ShardCtrler/Clerk and ShardKv/Clerk: the client.go of each service
--   KvRaft/Server    src/kvraft/server.go; KvSrv/Server, KvSrv/Clerk: src/kvsrv
--   Mr/Coordinator   src/mr/coordinator.go; Mr/Files, Mr/Worker: src/mr/worker.go
--   Mr/System        the coordinator, any number of workers and the files together
--   Mr/Sequential    src/main/mrsequential.go
--   ShardCtrler      src/shardctrler/server.go: Config, Rebalance and Server
--   ShardKv/Server   src/shardkv/server.go: the state of a group and its apply loop
--   ShardKv/Migrate  its RPC handlers and a round of each background loop
-- The other modules of a component hold proofs. Prelude has the shared helpers, Go's maps and slices;
-- Tests has a concrete encoding and runs at concrete inputs.
--
-- How code corresponds to definitions. A function that changes a record takes the record and returns
-- the new one; a Go panic (an index out of range) is `none`. A section under a mutex is one function; a
-- handler that unlocks, waits and locks again is a function before the wait and one after, with what
-- other threads do in between as an argument. Names are those of the code in snake case. Go's int is ℕ:
-- the indexes and terms of the code are not negative, -1 is `none`, and where the code could subtract
-- below zero it panics or is guarded first; no overflow is modelled, as 63 bits are out of reach of
-- counters that rise by one. A map is an association list with unique keys, where iteration is in the
-- order of the list; the properties hold for every list, so for every order.
--
-- Parameters. encoding/gob behind labgob is a record with the round trip as its law (Codec, StoreCodec,
-- GroupCodec); encoding/json is one for pairs of valid text (Json); sort.Sort is one whose laws are that
-- the result is sorted and a permutation, not that it is stable (Sort); the map and reduce functions are
-- arguments; time.Now and rand are a Clock; Raft's answers to a service, and the fate of a message, are
-- arguments. The operating system's files are a map from names to contents, of which a rename replaces one
-- at once; a worker stops for good at an operation that fails.
--
-- Bounds and fuel. Loops are recursion on what they count down or on the list they walk. The loop of a
-- clerk, which goes on until a server answers, runs for a given number of rounds; how many are enough is
-- among the results. The release loop of rebalance takes n_shards rounds as fuel: a group owns at most
-- n_shards shards and every round releases one. A MapReduce worker reads the input of a task at once, when
-- the task is handed out: input files do not change, and a reduce task is handed out only when the files
-- of every map task are there, which a second worker on the same task can only replace by the same.
--
-- Not modelled: of labrpc the delays of a request and of a failed call (a reply that long reordering holds
-- back is modelled), the dispatch by reflection and its use of labgob; labgob itself;
-- porcupine, a copy of a library, and the test harnesses; the other commands under src/main; the plugins
-- under src/mrapps.
pub mod Prelude
pub mod Labrpc
pub mod Clerk
pub mod Raft
pub mod KvRaft
pub mod KvSrv
pub mod Mr
pub mod ShardCtrler
pub mod ShardKv
pub mod Tests
