-- ===== src/Raft/Steps/Receive.antt =====
-- The handlers of the RPCs and Snapshot: what each stores, and the order that it keeps.
use mit_6824_raft.Prelude.{
  ℕ, ◌≡◌, refl, Bool, Option, List, ltb, arith, Bool-cases, inl, inr, ◌&&◌, ◌∙◌, OnSome, on_some,
  OnSome-if, OnSome-bind, OnSome-map,
}
use mit_6824_raft.Raft.State.{
  Bytes, Raft, Codec, Clock, LogEntry, save, persist, encode_state, reset_election_timer,
  observe_term, heed_leader,
}
use mit_6824_raft.Raft.Vote.{RequestVoteArgs, may_vote, grant_vote, request_vote}
use mit_6824_raft.Raft.Append.{
  AppendEntriesArgs, advance_follower_commit, accept_entries, check_prev, follow_leader,
  append_entries,
}
use mit_6824_raft.Raft.Snapshot.{
  InstallSnapshotArgs, snapshot, install_snapshot, adopt_snapshot, save_with, raise_applied,
}
use mit_6824_raft.Raft.Durable.{
  Later, Later-refl, Later-trans, Later-volatile, Later-saved, Later-observe_term,
}

module _ {C : Type 0} ⦃codec : Codec C⦄ where
  -- The new state is the first part of what most handlers return.
  abbrev pub Later1 {ℓ} : {R : Type ℓ} → Raft C → Raft C × R → Type 0
  Later1 rf r = Later rf r.0

  Later-timer : (clk : Clock) (rf : Raft C) → Later rf (reset_election_timer clk rf)
  unfolding reset_election_timer
  Later-timer clk rf = Later-volatile rf _ refl refl

  grant_vote-Later :
      (clk : Clock) (args : RequestVoteArgs) (rf : Raft C) (up : Bool)
      → Later rf (grant_vote clk args rf up).0
  unfolding grant_vote persist encode_state save reset_election_timer
  grant_vote-Later clk args rf up =
      elim (Bool-cases (may_vote rf.voted_for args.candidate_id && up)) [
        | inl granted ↦
            rw granted (Later-saved rf _ refl (omega arith) (λ v e k. ground (arith, granted, k)))
        | inr refused ↦ rw refused (Later-refl rf)
      ]

  pub request_vote-Later :
      (clk : Clock) (args : RequestVoteArgs) (rf : Raft C)
      → OnSome (Later1 rf) (request_vote clk args rf)
  unfolding request_vote
  request_vote-Later clk args rf =
      let h = Later-observe_term args.term rf in
      let voted = λ (up : Bool). Later-trans _ _ _ h (grant_vote-Later clk args _ up) in
      search (OnSome-if, OnSome-bind, on_some, Later-refl, voted)

  advance_follower_commit-Later : (n : ℕ) (rf : Raft C) → Later rf (advance_follower_commit n rf)
  unfolding advance_follower_commit
  advance_follower_commit-Later n rf = elim (Bool-cases (ltb rf.commit_index n)) [
    | inl more ↦ rw more (Later-volatile rf _ refl refl)
    | inr same ↦ rw same (Later-refl rf)
  ]

  pub persist-Later :
      (log : List (LogEntry C)) (rf : Raft C) → Later rf (persist (record rf { log = log }))
  unfolding persist encode_state save
  persist-Later log rf = Later-saved rf _ refl (omega arith) (λ v e k. k)

  accept_entries-Later :
      (args : AppendEntriesArgs C) (ci : Option ℕ) (rf : Raft C)
      → OnSome (Later1 rf) (accept_entries args ci rf)
  unfolding accept_entries
  accept_entries-Later args ci rf =
      let accepted = λ (log : List (LogEntry C)).
        Later-trans rf _ _ (persist-Later log rf)
          (advance_follower_commit-Later args.leader_commit _) in
      search (OnSome-bind, on_some, accepted)

  check_prev-Later :
      (args : AppendEntriesArgs C) (ci : Option ℕ) (rf : Raft C)
      → OnSome (Later1 rf) (check_prev args ci rf)
  unfolding check_prev
  check_prev-Later args ci rf =
      search (OnSome-if, OnSome-bind, on_some, Later-refl, accept_entries-Later) depth 8

  follow_leader-Later :
      (args : AppendEntriesArgs C) (rf : Raft C) → OnSome (Later1 rf) (follow_leader args rf)
  unfolding follow_leader
  follow_leader-Later args rf = search (OnSome-if, on_some, Later-refl, check_prev-Later)

  Later-after :
      {R : Type 0} (a b : Raft C)
      → Later a b
      → (m : Option (Raft C × R)) → OnSome (Later1 b) m
      → OnSome (Later1 a) m
  Later-after a b h m = OnSome-map (Later1 b) (Later1 a) m (λ r. Later-trans a b r.0 h)

  -- The state in which a request of a current leader is handled.
  Later-following : (clk : Clock) (term : ℕ) (rf : Raft C) → Later rf (heed_leader clk term rf)
  unfolding heed_leader reset_election_timer
  Later-following clk term rf =
      Later-trans rf (observe_term term rf) _ (Later-observe_term term rf)
        (Later-volatile (observe_term term rf) _ refl refl)

  pub append_entries-Later :
      (clk : Clock) (args : AppendEntriesArgs C) (rf : Raft C)
      → OnSome (Later1 rf) (append_entries clk args rf)
  unfolding append_entries
  append_entries-Later clk args rf =
      let h = Later-after _ _ (Later-following clk args.term rf) _ (follow_leader-Later args _) in
      search (OnSome-if, on_some, Later-refl, h)

  save_with-Later :
      (bytes : Bytes) (rf rf' : Raft C)
      → rf'.current_term ≡ rf.current_term
      → rf'.voted_for ≡ rf.voted_for
      → Later rf (save_with bytes rf')
  unfolding save_with encode_state save
  save_with-Later bytes rf rf' t v = Later-saved rf _ refl (omega arith) (λ c e k. v ∙ k)

  adopt_snapshot-Later :
      (args : InstallSnapshotArgs) (rf : Raft C) → OnSome (Later1 rf) (adopt_snapshot args rf)
  unfolding adopt_snapshot raise_applied
  adopt_snapshot-Later args rf =
      search (OnSome-if, OnSome-bind, on_some, Later-refl, save_with-Later) depth 6

  pub install_snapshot-Later :
      (clk : Clock) (args : InstallSnapshotArgs) (rf : Raft C)
      → OnSome (Later1 rf) (install_snapshot clk args rf)
  unfolding install_snapshot
  install_snapshot-Later clk args rf =
      let h = Later-after _ _ (Later-following clk args.term rf) _ (adopt_snapshot-Later args _) in
      search (OnSome-if, on_some, Later-refl, h)

  pub snapshot-Later :
      (index : ℕ) (bytes : Bytes) (rf : Raft C) → OnSome (Later rf) (snapshot index bytes rf)
  unfolding snapshot
  snapshot-Later index bytes rf =
      search (OnSome-if, OnSome-bind, on_some, Later-refl, save_with-Later) depth 8
