-- ===== src/Tests/Votes.antt =====
-- Runs of the elections, and of a restart, at a peer with one entry.
use mit_6824_raft.Prelude.{ℕ, ◌≤◌, ◌≡◌, refl, true, false, Option, none, some, [], ◌∷◌}
use mit_6824_raft.Raft.State.{
  Raft, Clock, dummy, follower, hard_state, make, observe_term, become_follower, read_persist,
  read_raft_state, clone, term_at, last_log_index, persist, save, encode_state,
  reset_election_timer,
}
use mit_6824_raft.Raft.Vote.{
  RequestVoteArgs, RequestVoteReply, request_vote, grant_vote, candidate_up_to_date,
}
use mit_6824_raft.Raft.Durable.{IsDurable, stored}
use mit_6824_raft.Raft.Steps.{here, next, restart, on_request_vote}
use mit_6824_raft.Raft.Safety.{one_vote_per_term, terms_rise, crash_recovery}
use mit_6824_raft.Tests.Wire.{gob}

abbrev clk : Clock
clk = record { now = 5; roll = 7 }

abbrev pub peer : Raft ℕ
peer = record {
  peers = 3;
  persister = record {
    raftstate = gob.encode (record {
      current_term = 1;
      voted_for = none;
      log = dummy 0 ∷ record { term = 1; command = some 7 } ∷ [];
      last_included_index = 0;
      last_included_term = 0;
    });
    snapshot = [];
  };
  me = 0;
  dead = false;
  current_term = 1;
  voted_for = none;
  log = dummy 0 ∷ record { term = 1; command = some 7 } ∷ [];
  last_included_index = 0;
  last_included_term = 0;
  commit_index = 1;
  last_applied = 0;
  role = follower;
  next_index = [];
  match_index = [];
  election_reset_at = 0;
  election_timeout = 0;
}

pub peer-IsDurable : IsDurable peer
peer-IsDurable = record { kept = unfold stored in refl }

abbrev request : RequestVoteArgs
request = record { term = 2; candidate_id = 1; last_log_index = 1; last_log_term = 1 }

abbrev request_again : RequestVoteArgs
request_again = record { term = 2; candidate_id = 1; last_log_index = 2; last_log_term = 1 }

-- The value of a run that does not panic.
abbrev pub got : {A : Type 0} → A → Option A → A
got d none = d
got d (some a) = a

abbrev no_reply : RequestVoteReply
no_reply = record { term = 0; vote_granted = false }

-- A vote for peer 1, a crash and a restart, and the request of peer 1 again.
abbrev voted : Raft ℕ × RequestVoteReply
voted = got (peer, no_reply) (request_vote clk request peer)

abbrev restarted : Raft ℕ
restarted = make clk voted.0.peers voted.0.me voted.0.persister

abbrev voted_again : Raft ℕ × RequestVoteReply
voted_again = got (restarted, no_reply) (request_vote clk request_again restarted)

voted_lem :
    (request_vote clk request peer ≡ some (voted.0, voted.1)) × (voted.1.vote_granted ≡ true)
unfolding request_vote grant_vote candidate_up_to_date observe_term become_follower term_at
    last_log_index persist
voted_lem = (refl, refl)

again_lem :
    (request_vote clk request_again restarted ≡ some (voted_again.0, voted_again.1))
    × ((voted_again.1.vote_granted ≡ true) × (voted_again.1.term ≡ voted.1.term))
unfolding request_vote grant_vote candidate_up_to_date observe_term become_follower make
    read_persist read_raft_state clone term_at last_log_index persist save encode_state
    reset_election_timer
again_lem = (refl, (refl, refl))

one_vote_per_term_example : request_again.candidate_id ≡ request.candidate_id
one_vote_per_term_example =
    one_vote_per_term peer voted.0 restarted voted_again.0 clk clk request request_again voted.1
      voted_again.1 peer-IsDurable voted_lem.0 voted_lem.1 (next here (restart clk voted.0))
      again_lem.0 again_lem.1.0 again_lem.1.1

terms_rise_example : (1 ≤ voted.0.current_term) × IsDurable voted.0
terms_rise_example =
    terms_rise peer voted.0 peer-IsDurable (next here (on_request_vote clk request voted_lem.0))

crash_recovery_example :
    hard_state (make clk voted.0.peers voted.0.me voted.0.persister) ≡ hard_state voted.0
crash_recovery_example =
    crash_recovery peer voted.0 clk peer-IsDurable
      (next here (on_request_vote clk request voted_lem.0))
