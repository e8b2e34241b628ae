-- ===== src/Raft/Vote.antt =====
-- raft/raft.go: the RequestVote RPC and the comparison of logs behind it.
pub mod Exact
use mit_6824_raft.Prelude.{
  ℕ, Bool, true, false, ◌&&◌, not, Option, none, some, ltb, leb, ◌==◌, if◌then◌else◌, ◌>>=◌,
}
use mit_6824_raft.Raft.State.{
  Raft, Codec, Clock, last_log_index, term_at, observe_term, reset_election_timer, persist,
}

pub record RequestVoteArgs : Type 0 where
  pub term : ℕ
  pub candidate_id : ℕ
  pub last_log_index : ℕ
  pub last_log_term : ℕ

pub record RequestVoteReply : Type 0 where
  pub term : ℕ
  pub vote_granted : Bool

-- rf.votedFor == -1 || rf.votedFor == args.CandidateId
abbrev pub may_vote : Option ℕ → ℕ → Bool
may_vote none c = true
may_vote (some v) c = v == c

module _ {C : Type 0} where
  unfoldable pub candidate_up_to_date : ℕ → ℕ → Raft C → Option Bool
  candidate_up_to_date last_index last_term rf = do
    my_term ← term_at rf (last_log_index rf)
    some (
        if not (last_term == my_term)
        then ltb my_term last_term
        else leb (last_log_index rf) last_index)

module _ {C : Type 0} ⦃codec : Codec C⦄ where
  -- The last `if` of the handler, after the log comparison.
  unfoldable pub grant_vote : Clock → RequestVoteArgs → Raft C → Bool → Raft C × RequestVoteReply
  grant_vote clk args rf up_to_date =
      if may_vote rf.voted_for args.candidate_id && up_to_date
      then (
        persist (reset_election_timer clk (record rf { voted_for = some args.candidate_id })),
        record { term = rf.current_term; vote_granted = true },
      )
      else (rf, record { term = rf.current_term; vote_granted = false })

  unfoldable pub request_vote :
      Clock → RequestVoteArgs → Raft C → Option (Raft C × RequestVoteReply)
  request_vote clk args rf =
      if ltb args.term rf.current_term
      then some (rf, record { term = rf.current_term; vote_granted = false })
      else do
        let rf' = observe_term args.term rf
        up_to_date ← candidate_up_to_date args.last_log_index args.last_log_term rf'
        some (grant_vote clk args rf' up_to_date)
