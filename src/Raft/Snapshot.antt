-- ===== src/Raft/Snapshot.antt =====
-- raft/raft.go: Snapshot (the service compacts the log) and the InstallSnapshot RPC.
pub mod Keeps
pub mod Install
use mit_6824_raft.Prelude.{
  ℕ, ◌+◌, ◌-◌, true, false, Option, none, some, List, [], ◌∷◌, length, drop, ltb, leb, ◌==◌,
  if◌then◌else◌, ◌>>=◌,
}
use mit_6824_raft.Raft.State.{
  Bytes, Raft, Codec, Clock, LogEntry, ApplyMsg, dummy, follower, last_log_index, term_at,
  heed_leader, reset_election_timer, save, encode_state,
}

pub record InstallSnapshotArgs : Type 0 where
  pub term : ℕ
  pub leader_id : ℕ
  pub last_included_index : ℕ
  pub last_included_term : ℕ
  pub bytes : Bytes

pub record InstallSnapshotReply : Type 0 where
  pub term : ℕ

module _ {C : Type 0} where
  -- rf.log[k:], which panics past the end.
  unfoldable pub slice_from : List (LogEntry C) → ℕ → Option (List (LogEntry C))
  slice_from log k = if ltb (length log) k then none else some (drop k log)

  -- A new log with a dummy of the given term and the entries after `index`.
  unfoldable pub trimmed_log : Raft C → ℕ → ℕ → Option (List (LogEntry C))
  trimmed_log rf index term = do
    tail ← slice_from rf.log (index - rf.last_included_index + 1)
    some (dummy term ∷ tail)

  -- The log after an installed snapshot: the tail behind it where the covered entry is there.
  unfoldable pub installed_log : InstallSnapshotArgs → Raft C → Option (List (LogEntry C))
  installed_log args rf =
      let fresh = dummy args.last_included_term ∷ [] in
      if ltb args.last_included_index (last_log_index rf)
      then term_at rf args.last_included_index >>= (λ t.
        if t == args.last_included_term
        then trimmed_log rf args.last_included_index args.last_included_term
        else some fresh)
      else some fresh

  unfoldable pub raise_applied : ℕ → Raft C → Raft C
  raise_applied index rf = record rf {
    commit_index = if ltb rf.commit_index index then index else rf.commit_index;
    last_applied = if ltb rf.last_applied index then index else rf.last_applied;
  }

  unfoldable pub snapshot_msg : InstallSnapshotArgs → ApplyMsg C
  snapshot_msg args = record {
    command_valid = false;
    command = none;
    command_index = 0;
    snapshot_valid = true;
    snapshot = args.bytes;
    snapshot_term = args.last_included_term;
    snapshot_index = args.last_included_index;
  }

module _ {C : Type 0} ⦃codec : Codec C⦄ where
  unfoldable pub save_with : Bytes → Raft C → Raft C
  save_with bytes rf = record rf { persister = save (encode_state rf) bytes rf.persister }

  unfoldable pub snapshot : ℕ → Bytes → Raft C → Option (Raft C)
  snapshot index bytes rf =
      if leb index rf.last_included_index
      then some rf
      else if ltb rf.commit_index index
      then some rf
      else do
        t ← term_at rf index
        log ← trimmed_log rf index t
        some (
            save_with bytes
              (record rf { last_included_term = t; last_included_index = index; log = log }))

  -- From the test for a stale snapshot on. The message goes to applyCh after the lock is released.
  unfoldable pub adopt_snapshot :
      InstallSnapshotArgs → Raft C → Option (Raft C × (InstallSnapshotReply × Option (ApplyMsg C)))
  adopt_snapshot args rf =
      if leb args.last_included_index rf.last_included_index
      then some (rf, (record { term = rf.current_term }, none))
      else do
        log ← installed_log args rf
        let rf' = record rf {
          log = log;
          last_included_index = args.last_included_index;
          last_included_term = args.last_included_term;
        }
        some (
          save_with args.bytes (raise_applied args.last_included_index rf'),
          (record { term = rf.current_term }, some (snapshot_msg args)),
        )

  unfoldable pub install_snapshot :
      Clock
      → InstallSnapshotArgs
      → Raft C
      → Option (Raft C × (InstallSnapshotReply × Option (ApplyMsg C)))
  install_snapshot clk args rf =
      if ltb args.term rf.current_term
      then some (rf, (record { term = rf.current_term }, none))
      else adopt_snapshot args (heed_leader clk args.term rf)
