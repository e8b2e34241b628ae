-- ===== src/Raft/Applier.antt =====
-- raft/raft.go: one round of `applier`, which delivers committed entries in index order.
pub mod Order
use mit_6824_raft.Prelude.{
  ℕ, ◌+◌, true, false, ◌&&◌, Option, none, some, [], ltb, leb, if◌then◌else◌, ◌>>=◌,
}
use mit_6824_raft.Raft.State.{Raft, LogEntry, ApplyMsg, entry_at, killed}

module _ {C : Type 0} where
  unfoldable pub command_msg : LogEntry C → ℕ → ApplyMsg C
  command_msg e index = record {
    command_valid = true;
    command = e.command;
    command_index = index;
    snapshot_valid = false;
    snapshot = [];
    snapshot_term = 0;
    snapshot_index = 0;
  }

  -- `lastApplied` has been incremented to `next`.
  unfoldable pub deliver_next : ℕ → Raft C → Option (Raft C × Option (ApplyMsg C))
  deliver_next next rf =
      if leb next rf.last_included_index
      then some (record rf { last_applied = rf.last_included_index }, none)
      else entry_at rf next
        >>= (λ e. some (record rf { last_applied = next }, some (command_msg e next)))

  -- The new state, and the message to deliver; with no message the loop waits or goes round again.
  unfoldable pub apply_next : Raft C → Option (Raft C × Option (ApplyMsg C))
  apply_next rf =
      if killed rf
      then some (rf, none)
      else if ltb rf.last_applied rf.commit_index && leb rf.last_included_index rf.last_applied
      then deliver_next (rf.last_applied + 1) rf
      else some (rf, none)
