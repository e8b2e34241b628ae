-- ===== src/Raft/Steps/Lead.antt =====
-- Elections, the replies to a leader, and the applier: the order that each keeps.
use mit_6824_raft.Prelude.{
  ℕ, zero, suc, not, ◌||◌, ◌/◌, get_elem?, set, ◌+◌, ◌≡◌, refl, some, List, ltb, ◌==◌,
  if◌then◌else◌, arith, Bool-cases, inl, inr, ltb→lt, OnSome, on_some, OnSome-if, OnSome-bind,
  OnSome-map, OnSome-at,
}
use mit_6824_raft.Raft.State.{
  Raft, Codec, Clock, term_at, save, persist, encode_state, reset_election_timer, is_leader,
  is_candidate, last_log_index,
}
use mit_6824_raft.Raft.Vote.{RequestVoteArgs, RequestVoteReply}
use mit_6824_raft.Raft.Append.{AppendEntriesArgs, AppendEntriesReply}
use mit_6824_raft.Raft.Snapshot.{InstallSnapshotArgs, InstallSnapshotReply}
use mit_6824_raft.Raft.Leader.{
  start, start_election, vote_reply, tick, install_reply, append_reply, become_leader,
  record_success, back_up, advance_commit, advance_commit_from,
}
use mit_6824_raft.Raft.Applier.{apply_next, deliver_next}
use mit_6824_raft.Raft.Durable.{
  Later, Later-refl, Later-trans, Later-volatile, Later-saved, Later-become_follower,
}
use mit_6824_raft.Raft.Steps.Receive.{Later1, persist-Later}

module _ {C : Type 0} ⦃codec : Codec C⦄ where
  become_leader-Later : (rf : Raft C) → Later rf (become_leader rf).0
  unfolding become_leader
  become_leader-Later rf = Later-volatile rf _ (ground arith) (ground arith)

  pub start-Later : (command : C) (rf : Raft C) → Later rf (start command rf).0
  unfolding start
  start-Later command rf = elim (Bool-cases (is_leader rf.role)) [
    | inl e ↦ rw e (persist-Later _ rf)
    | inr e ↦ rw e (Later-refl rf)
  ]

  start_election-Later : (clk : Clock) (rf : Raft C) → OnSome (Later1 rf) (start_election clk rf)
  unfolding start_election persist encode_state save reset_election_timer
  start_election-Later clk rf =
      OnSome-bind (Later1 rf) (term_at _ (last_log_index _)) _
        (λ t _. on_some (Later-saved rf _ refl (omega arith) (λ v e k. absurd (omega (arith, e)))))

  pub tick-Later : (clk : Clock) (rf : Raft C) → OnSome (Later1 rf) (tick clk rf)
  unfolding tick
  tick-Later clk rf =
      let elected =
        λ (r : Raft C × (RequestVoteArgs × List ℕ)) (e : start_election clk rf ≡ some r).
          OnSome-at (Later1 rf) (start_election-Later clk rf) e in
      search (OnSome-if, OnSome-bind, on_some, Later-refl, elected)

  pub vote_reply-Later :
      (term votes : ℕ) (reply : RequestVoteReply) (rf : Raft C)
      → Later rf (vote_reply term votes reply rf).0
  unfolding vote_reply
  vote_reply-Later term votes reply rf =
      elim (Bool-cases (not (rf.current_term == term) || not (is_candidate rf.role))) [
        | inl stale ↦ rw stale (Later-refl rf)
        | inr fresh ↦ rw fresh (elim (Bool-cases (ltb rf.current_term reply.term)) [
          | inl newer ↦ rw newer (Later-become_follower _ rf (ltb→lt _ _ newer))
          | inr same ↦ rw same (elim (Bool-cases (reply.vote_granted)) [
            | inl yes' ↦ rw yes' (elim (Bool-cases (ltb (rf.peers / 2) (votes + 1))) [
              | inl won ↦ rw won (become_leader-Later rf)
              | inr few ↦ rw few (Later-refl rf)
            ])
            | inr no' ↦ rw no' (Later-refl rf)
          ])
        ])
      ]

  advance_commit_from-Later : (n : ℕ) (rf : Raft C) → OnSome (Later rf) (advance_commit_from n rf)
  unfolding advance_commit_from
  advance_commit_from-Later zero rf = on_some (Later-refl rf)
  advance_commit_from-Later (suc n) rf =
      let committed : Later rf (record rf { commit_index = suc n }) =
        Later-volatile rf _ refl refl in
      search
        (OnSome-if, OnSome-bind, on_some, Later-refl, committed, advance_commit_from-Later n rf)
        depth 8

  record_success-Later :
      (server m : ℕ) (rf : Raft C) → OnSome (Later rf) (record_success server m rf)
  unfolding record_success advance_commit
  record_success-Later server m rf =
      OnSome-bind (Later rf) (get_elem? rf.match_index server) _ (λ k _.
        OnSome-map (Later _) (Later rf) _ (λ r. Later-trans rf _ r (matched k))
          (advance_commit_from-Later _ _))
    where
      matched :
          (k : ℕ)
          → Later rf (
              if ltb k m
              then record rf {
                match_index = set rf.match_index server m;
                next_index = set rf.next_index server (m + 1);
              }
              else rf)
      matched k = elim (Bool-cases (ltb k m)) [
        | inl e ↦ rw e (Later-volatile rf _ refl refl)
        | inr e ↦ rw e (Later-refl rf)
      ]

  back_up-Later :
      (server : ℕ) (reply : AppendEntriesReply) (rf : Raft C)
      → OnSome (Later rf) (back_up server reply rf)
  unfolding back_up
  back_up-Later server reply rf =
      let moved = λ (n : ℕ).
        Later-volatile rf (record rf { next_index = set rf.next_index server n }) refl refl in
      search (OnSome-bind, on_some, moved)

  pub append_reply-Later :
      (server term : ℕ) (args : AppendEntriesArgs C) (reply : AppendEntriesReply) (rf : Raft C)
      → OnSome (Later rf) (append_reply server term args reply rf)
  unfolding append_reply
  append_reply-Later server term args reply rf =
      search
        (
          OnSome-if, on_some, Later-refl, Later-become_follower, ltb→lt, record_success-Later,
          back_up-Later,
        )
        depth 7

  pub install_reply-Later :
      (server term : ℕ) (args : InstallSnapshotArgs) (reply : InstallSnapshotReply) (rf : Raft C)
      → OnSome (Later rf) (install_reply server term args reply rf)
  unfolding install_reply
  install_reply-Later server term args reply rf =
      let moved = λ (ms ns : List ℕ).
        Later-volatile rf (record rf { match_index = ms; next_index = ns }) refl refl in
      search (OnSome-if, OnSome-bind, on_some, Later-refl, Later-become_follower, ltb→lt, moved)
        depth 7

  pub apply_next-Later : (rf : Raft C) → OnSome (Later1 rf) (apply_next rf)
  unfolding apply_next deliver_next
  apply_next-Later rf =
      let moved = λ (n : ℕ). Later-volatile rf (record rf { last_applied = n }) refl refl in
      search (OnSome-if, OnSome-bind, on_some, Later-refl, moved) depth 8
