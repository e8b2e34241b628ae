-- ===== src/Raft/Append.antt =====
-- raft/raft.go: the AppendEntries RPC. -1 in the conflict fields of a reply is `none`.
pub mod Merge
pub mod Accept
pub mod Handler
pub mod Conflict
pub mod Committed
use mit_6824_raft.Prelude.{
  ℕ, zero, suc, ◌+◌, ◌-◌, Bool, true, false, Option, none, some, List, [], ◌∷◌, ◌++◌, length, take,
  drop, ltb, leb, ◌==◌, if◌then◌else◌, ◌>>=◌,
}
use mit_6824_raft.Raft.State.{
  Raft, Codec, Clock, LogEntry, follower, last_log_index, term_at, heed_leader, persist,
  reset_election_timer, min,
}

pub record AppendEntriesArgs (C : Type 0) : Type 0 where
  pub term : ℕ
  pub leader_id : ℕ
  pub prev_log_index : ℕ
  pub prev_log_term : ℕ
  pub entries : List (LogEntry C)
  pub leader_commit : ℕ

pub record AppendEntriesReply : Type 0 where
  pub term : ℕ
  pub success : Bool
  pub conflict_term : Option ℕ
  pub conflict_index : Option ℕ

module _ {C : Type 0} where
  -- `for i > rf.lastIncludedIndex && rf.termAt(i-1) == ConflictTerm { i-- }`
  unfoldable pub first_of_term : Raft C → ℕ → ℕ → Option ℕ
  first_of_term rf t zero = some zero
  first_of_term rf t (suc i) =
      let before = first_of_term rf t i in
      if ltb rf.last_included_index (suc i)
      then term_at rf i >>= (λ u. if u == t then before else some (suc i))
      else some (suc i)

  -- The loop over the new entries, `idx` the index of the first of them: the resulting log.
  unfoldable pub append_new : Raft C → ℕ → List (LogEntry C) → Option (List (LogEntry C))
  append_new rf idx [] = some rf.log
  append_new rf idx (e ∷ es) =
      let rest = append_new rf (suc idx) es in
      if leb idx (last_log_index rf)
      then term_at rf idx >>= (λ t.
        if t == e.term then rest else some (take (idx - rf.last_included_index) rf.log ++ e ∷ es))
      else some (rf.log ++ e ∷ es)

  -- PrevLogIndex inside the snapshot: the request cut so that it starts at the snapshot's end.
  unfoldable pub trim_args : Raft C → AppendEntriesArgs C → AppendEntriesArgs C
  trim_args rf args =
      let offset = rf.last_included_index - args.prev_log_index in
      record args {
        prev_log_index = rf.last_included_index;
        prev_log_term = rf.last_included_term;
        entries = if leb offset (length args.entries) then drop offset args.entries else [];
      }

  unfoldable pub advance_follower_commit : ℕ → Raft C → Raft C
  advance_follower_commit leader_commit rf =
      if ltb rf.commit_index leader_commit
      then record rf { commit_index = min leader_commit (last_log_index rf) }
      else rf

module _ {C : Type 0} ⦃codec : Codec C⦄ where
  -- After the consistency check has passed: append, persist, advance the commit index.
  unfoldable pub accept_entries :
      AppendEntriesArgs C → Option ℕ → Raft C → Option (Raft C × AppendEntriesReply)
  accept_entries args conflict_index rf = do
    log ← append_new rf (args.prev_log_index + 1) args.entries
    some (
      advance_follower_commit args.leader_commit (persist (record rf { log = log })),
      record {
        term = rf.current_term;
        success = true;
        conflict_term = none;
        conflict_index = conflict_index;
      },
    )

  -- The check on PrevLogIndex and PrevLogTerm.
  unfoldable pub check_prev :
      AppendEntriesArgs C → Option ℕ → Raft C → Option (Raft C × AppendEntriesReply)
  check_prev args conflict_index rf =
      if ltb (last_log_index rf) args.prev_log_index
      then some (
        rf,
        record {
          term = rf.current_term;
          success = false;
          conflict_term = none;
          conflict_index = some (last_log_index rf + 1);
        },
      )
      else do
        t ← term_at rf args.prev_log_index
        if t == args.prev_log_term then accept_entries args conflict_index rf else do
          i ← first_of_term rf t args.prev_log_index
          some (
            rf,
            record {
              term = rf.current_term;
              success = false;
              conflict_term = some t;
              conflict_index = some i;
            },
          )

  -- What is done for a leader of the current term.
  unfoldable pub follow_leader : AppendEntriesArgs C → Raft C → Option (Raft C × AppendEntriesReply)
  follow_leader args rf =
      if ltb args.prev_log_index rf.last_included_index
      then if leb (args.prev_log_index + length args.entries) rf.last_included_index
        then some (
          rf,
          record {
            term = rf.current_term;
            success = false;
            conflict_term = none;
            conflict_index = some (rf.last_included_index + 1);
          },
        )
        else check_prev (trim_args rf args) (some (rf.last_included_index + 1)) rf
      else check_prev args none rf

  unfoldable pub append_entries :
      Clock → AppendEntriesArgs C → Raft C → Option (Raft C × AppendEntriesReply)
  append_entries clk args rf =
      if ltb args.term rf.current_term
      then some (
        rf,
        record {
          term = rf.current_term;
          success = false;
          conflict_term = none;
          conflict_index = none;
        },
      )
      else follow_leader args (heed_leader clk args.term rf)
