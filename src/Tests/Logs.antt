-- ===== src/Tests/Logs.antt =====
-- Runs on the log: RequestVote's comparison, AppendEntries, commitment and snapshots.
use mit_6824_raft.Prelude.{
  ℕ, zero, suc, ◌+◌, ◌≡◌, refl, ap, true, Option, some, [], ◌∷◌, ◌++◌, take, drop, arith, Returns,
}
use mit_6824_raft.Raft.State.{
  Raft, Clock, LogEntry, dummy, entry_term, leader, last_log_index, term_at, entry_at,
}
use mit_6824_raft.Raft.Vote.{RequestVoteArgs, request_vote}
use mit_6824_raft.Raft.Vote.Exact.{grants, request_vote_exact}
use mit_6824_raft.Raft.Append.{
  AppendEntriesArgs, AppendEntriesReply, append_new, first_of_term, append_entries,
}
use mit_6824_raft.Raft.Append.Merge.{merge, append_new-merge}
use mit_6824_raft.Raft.Append.Accept.{Adopted}
use mit_6824_raft.Raft.Append.Committed.{RespectsCommitted}
use mit_6824_raft.Raft.Append.Conflict.{FirstOfTerm, first_of_term-FirstOfTerm}
use mit_6824_raft.Raft.Append.Handler.{append_entries_total}
use mit_6824_raft.Raft.Leader.{
  Request, append, request_from, append_request, replicate_to, advance_commit,
}
use mit_6824_raft.Raft.Leader.Commit.{Advanced, advance_commit_exact}
use mit_6824_raft.Raft.Leader.Sends.{Replicated, replicate_to_exact}
use mit_6824_raft.Raft.Snapshot.{snapshot, InstallSnapshotArgs, install_snapshot}
use mit_6824_raft.Raft.Snapshot.Install.{Installed, install_snapshot_total}
use mit_6824_raft.Raft.Snapshot.Keeps.{Snapshotted, snapshot_exact}
use mit_6824_raft.Raft.Applier.{apply_next}
use mit_6824_raft.Raft.Applier.Order.{Delivered, apply_next_exact}
use mit_6824_raft.Raft.Log.{IsValid}
use mit_6824_raft.Tests.Wire.{gob}
use mit_6824_raft.Tests.Votes.{peer}

abbrev clk : Clock
clk = record { now = 9; roll = 3 }

abbrev entry : ℕ → ℕ → LogEntry ℕ
entry t x = record { term = t; command = some x }

-- Three entries, two of them committed, of terms 1, 1 and 2.
abbrev rf : Raft ℕ
rf = record peer {
  current_term = 3;
  commit_index = 2;
  log = dummy 0 ∷ entry 1 7 ∷ entry 1 8 ∷ entry 2 9 ∷ [];
}

rf-IsValid : IsValid rf
rf-IsValid = record {
  head = refl;
  applied_le = omega arith;
  included_le = omega arith;
  commit_lt = omega arith;
}

abbrev request : RequestVoteArgs
request = record { term = 4; candidate_id = 2; last_log_index = 9; last_log_term = 1 }

request_vote_exact_example :
    (t : ℕ) × (term_at rf (last_log_index rf) ≡ some t)
    × Returns (λ r. r.1.vote_granted ≡ grants request rf t) (request_vote clk request rf)
request_vote_exact_example = request_vote_exact clk request rf rf-IsValid

-- The leader of term 3 has another entry at index 3, and a fourth.
abbrev args : AppendEntriesArgs ℕ
args = record {
  term = 3;
  leader_id = 1;
  prev_log_index = 1;
  prev_log_term = 1;
  entries = entry 1 8 ∷ entry 3 5 ∷ entry 3 6 ∷ [];
  leader_commit = 3;
}

append_new-merge_example :
    append_new rf (0 + 2) args.entries ≡ some (take 2 rf.log ++ merge (drop 2 rf.log) args.entries)
append_new-merge_example = append_new-merge rf 2 args.entries (omega arith) (omega arith)

first_of_term-FirstOfTerm_example : Returns (FirstOfTerm rf 1 2) (first_of_term rf 1 2)
first_of_term-FirstOfTerm_example =
    first_of_term-FirstOfTerm rf 1 2 (omega arith) (omega arith) (unfold term_at entry_at in refl)

args-RespectsCommitted : RespectsCommitted args rf
args-RespectsCommitted zero e at above below = unfold term_at entry_at in ap entry_term at
args-RespectsCommitted (suc i) e at above below = absurd (omega arith)

append_entries_total_example :
    (r : Raft ℕ × AppendEntriesReply) × (append_entries clk args rf ≡ some r)
    × IsValid r.0
    × (r.1.success ≡ true → Adopted args rf r.0)
append_entries_total_example = append_entries_total clk args rf rf-IsValid args-RespectsCommitted

-- A leader of term 2 of three peers, one of which has all entries.
abbrev leading : Raft ℕ
leading = record rf {
  current_term = 2;
  role = leader;
  next_index = 4 ∷ 4 ∷ 2 ∷ [];
  match_index = 0 ∷ 3 ∷ 1 ∷ [];
}

leading-IsValid : IsValid leading
leading-IsValid = record {
  head = refl;
  applied_le = omega arith;
  included_le = omega arith;
  commit_lt = omega arith;
}

advance_commit_exact_example :
    (r : Raft ℕ) × (advance_commit leading ≡ some r) × Advanced leading (last_log_index leading) r
advance_commit_exact_example = advance_commit_exact leading leading-IsValid refl

-- What goes to the last peer, whose next index is 2.
replicate_to_lem :
    replicate_to 2 2 leading
    ≡ some (
        some (
          append (record {
            term = 2;
            leader_id = 0;
            prev_log_index = 1;
            prev_log_term = 1;
            entries = entry 1 8 ∷ entry 2 9 ∷ [];
            leader_commit = 2;
          })))
unfolding replicate_to request_from append_request term_at entry_at
replicate_to_lem = refl

replicate_to_exact_example :
    (r : Option (Request ℕ)) × (replicate_to 2 2 leading ≡ some r) × Replicated leading 2 2 r
replicate_to_exact_example =
    replicate_to_exact 2 2 2 leading leading-IsValid refl (unfold last_log_index in omega arith)

snapshot_exact_example :
    (r : Raft ℕ) × (snapshot 1 (4 ∷ []) rf ≡ some r) × Snapshotted rf 1 (4 ∷ []) r
snapshot_exact_example = snapshot_exact 1 (4 ∷ []) rf rf-IsValid

-- A snapshot up to the second entry, which is committed.
abbrev sent : InstallSnapshotArgs
sent = record {
  term = 3;
  leader_id = 1;
  last_included_index = 2;
  last_included_term = 1;
  bytes = 4 ∷ 5 ∷ [];
}

install_snapshot_total_example : Returns (Installed sent rf) (install_snapshot clk sent rf)
install_snapshot_total_example =
    install_snapshot_total clk sent rf rf-IsValid
      (λ above committed. unfold term_at entry_at in refl)

apply_next_exact_example : Returns (Delivered rf) (apply_next rf)
apply_next_exact_example = apply_next_exact rf rf-IsValid
