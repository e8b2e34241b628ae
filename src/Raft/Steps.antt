-- ===== src/Raft/Steps.antt =====
-- Every step that a peer takes, its crash and restart included, and the order that the steps keep.
mod Receive
mod Lead
use mit_6824_raft.Prelude.{
  ℕ, zero, suc, not, ◌||◌, ◌/◌, get_elem?, set, ◌+◌, ◌≡◌, refl, Bool, Option, some, List, ltb, ◌==◌,
  if◌then◌else◌, arith, Bool-cases, inl, inr, ltb→lt, ◌&&◌, ◌∙◌, OnSome, on_some, OnSome-if,
  OnSome-bind, OnSome-map, OnSome-at,
}
use mit_6824_raft.Raft.State.{
  Bytes, Raft, Codec, Clock, ApplyMsg, LogEntry, term_at, make, save, persist, encode_state,
  reset_election_timer, kill, observe_term, heed_leader, is_leader, is_candidate, last_log_index,
}
use mit_6824_raft.Raft.Vote.{RequestVoteArgs, RequestVoteReply, may_vote, grant_vote, request_vote}
use mit_6824_raft.Raft.Append.{
  AppendEntriesArgs, AppendEntriesReply, advance_follower_commit, accept_entries, check_prev,
  follow_leader, append_entries,
}
use mit_6824_raft.Raft.Snapshot.{
  InstallSnapshotArgs, InstallSnapshotReply, snapshot, install_snapshot, adopt_snapshot, save_with,
  raise_applied,
}
use mit_6824_raft.Raft.Leader.{
  start, start_election, vote_reply, tick, install_reply, append_reply, become_leader,
  record_success, back_up, advance_commit, advance_commit_from,
}
use mit_6824_raft.Raft.Applier.{apply_next, deliver_next}
use mit_6824_raft.Raft.Durable.{
  IsDurable, Later, Later-refl, Later-trans, Later-volatile, Later-saved, Later-make,
  Later-become_follower, Later-observe_term,
}
use mit_6824_raft.Raft.Steps.Receive.{
  Later1, append_entries-Later, install_snapshot-Later, request_vote-Later, snapshot-Later,
}
use mit_6824_raft.Raft.Steps.Lead.{
  append_reply-Later, apply_next-Later, install_reply-Later, start-Later, tick-Later,
  vote_reply-Later,
}

module _ {C : Type 0} ⦃codec : Codec C⦄ where
  pub data Step : Raft C → Raft C → Type 0 where
    on_request_vote :
        (clk : Clock) (args : RequestVoteArgs) {rf rf' : Raft C} {reply : RequestVoteReply}
        → request_vote clk args rf ≡ some (rf', reply)
        → Step rf rf'
    on_append_entries :
        (clk : Clock) (args : AppendEntriesArgs C) {rf rf' : Raft C} {reply : AppendEntriesReply}
        → append_entries clk args rf ≡ some (rf', reply)
        → Step rf rf'
    on_install_snapshot :
        (clk : Clock) (args : InstallSnapshotArgs) {rf rf' : Raft C} {reply : InstallSnapshotReply}
        {msg : Option (ApplyMsg C)}
        → install_snapshot clk args rf ≡ some (rf', (reply, msg))
        → Step rf rf'
    on_snapshot :
        (index : ℕ) (bytes : Bytes) {rf rf' : Raft C}
        → snapshot index bytes rf ≡ some rf'
        → Step rf rf'
    on_start : (command : C) (rf : Raft C) → Step rf (start command rf).0
    on_tick :
        (clk : Clock) {rf rf' : Raft C} {sent : Option (RequestVoteArgs × List ℕ)}
        → tick clk rf ≡ some (rf', sent)
        → Step rf rf'
    on_vote_reply :
        (term votes : ℕ) (reply : RequestVoteReply) (rf : Raft C)
        → Step rf (vote_reply term votes reply rf).0
    on_install_reply :
        (server term : ℕ) (args : InstallSnapshotArgs) (reply : InstallSnapshotReply)
        {rf rf' : Raft C}
        → install_reply server term args reply rf ≡ some rf'
        → Step rf rf'
    on_append_reply :
        (server term : ℕ) (args : AppendEntriesArgs C) (reply : AppendEntriesReply)
        {rf rf' : Raft C}
        → append_reply server term args reply rf ≡ some rf'
        → Step rf rf'
    on_apply :
        {rf rf' : Raft C} {msg : Option (ApplyMsg C)}
        → apply_next rf ≡ some (rf', msg)
        → Step rf rf'
    on_kill : (rf : Raft C) → Step rf (kill rf)
    restart : (clk : Clock) (rf : Raft C) → Step rf (make clk rf.peers rf.me rf.persister)

  -- Zero or more steps.
  pub data Reach (a : Raft C) : Raft C → Type 0 where
    here : Reach a a
    next : {b c : Raft C} → Reach a b → Step b c → Reach a c

  -- Every step, a restart from durable state included, keeps the order.
  pub Step-Later : {rf rf' : Raft C} → IsDurable rf → Step rf rf' → Later rf rf'
  Step-Later d (on_request_vote clk args {rf = rf} e) =
      OnSome-at (Later1 rf) (request_vote-Later clk args rf) e
  Step-Later d (on_append_entries clk args {rf = rf} e) =
      OnSome-at (Later1 rf) (append_entries-Later clk args rf) e
  Step-Later d (on_install_snapshot clk args {rf = rf} e) =
      OnSome-at (Later1 rf) (install_snapshot-Later clk args rf) e
  Step-Later d (on_snapshot index bytes {rf = rf} e) =
      OnSome-at (Later rf) (snapshot-Later index bytes rf) e
  Step-Later d (on_start command rf) = start-Later command rf
  Step-Later d (on_tick clk {rf = rf} e) = OnSome-at (Later1 rf) (tick-Later clk rf) e
  Step-Later d (on_vote_reply term votes reply rf) = vote_reply-Later term votes reply rf
  Step-Later d (on_install_reply server term args reply {rf = rf} e) =
      OnSome-at (Later rf) (install_reply-Later server term args reply rf) e
  Step-Later d (on_append_reply server term args reply {rf = rf} e) =
      OnSome-at (Later rf) (append_reply-Later server term args reply rf) e
  Step-Later d (on_apply {rf = rf} e) = OnSome-at (Later1 rf) (apply_next-Later rf) e
  Step-Later d (on_kill rf) = unfold kill in Later-volatile rf _ refl refl
  Step-Later d (restart clk rf) = Later-make rf clk d

  pub Reach-Later : {a b : Raft C} → IsDurable a → Reach a b → Later a b
  Reach-Later {a} d here = Later-refl a
  Reach-Later {a} d (next {b = b} {c = c} r s) =
      let ab = Reach-Later d r in Later-trans a b c ab (Step-Later (ab.durable d) s)
