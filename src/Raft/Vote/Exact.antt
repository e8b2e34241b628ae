-- ===== src/Raft/Vote/Exact.antt =====
-- When RequestVote grants a vote.
use mit_6824_raft.Prelude.{
  ℕ, ◌≤◌, ◌≡◌, ◌∙◌, Bool, some, ltb, leb, ◌==◌, ◌&&◌, ◌||◌, arith, Bool-cases, inl, inr, ltb→le,
  Returns, returned,
}
use mit_6824_raft.Raft.State.{
  Raft, Codec, Clock, last_log_index, term_at, entry_at, observe_term, become_follower, persist,
}
use mit_6824_raft.Raft.Vote.{
  RequestVoteArgs, may_vote, candidate_up_to_date, grant_vote, request_vote,
}
use mit_6824_raft.Raft.Log.{IsValid, length_pos, last_log_index_lem, term_at-some}

-- The candidate's log ends in a higher term, or in the same at no smaller index.
abbrev pub up_to_date : RequestVoteArgs → ℕ → ℕ → Bool
up_to_date args last_index last_term =
    ltb last_term args.last_log_term
    || (last_term == args.last_log_term && leb last_index args.last_log_index)

-- The grant, by the state before the request.
abbrev pub grants : {C : Type 0} → RequestVoteArgs → Raft C → ℕ → Bool
grants args rf last_term =
    leb rf.current_term args.term
    && ((ltb rf.current_term args.term || may_vote rf.voted_for args.candidate_id)
        && up_to_date args (last_log_index rf) last_term)

module _ {C : Type 0} ⦃codec : Codec C⦄ where
  log-observe_term :
      (term : ℕ) (rf : Raft C)
      → ((observe_term term rf).log ≡ rf.log)
        × ((observe_term term rf).last_included_index ≡ rf.last_included_index)
  unfolding observe_term become_follower persist
  log-observe_term term rf = ground arith

  up_to_date_lem :
      (args : RequestVoteArgs) (rf : Raft C) (t : ℕ)
      → term_at rf (last_log_index rf) ≡ some t
      → candidate_up_to_date args.last_log_index args.last_log_term (observe_term args.term rf)
        ≡ some (up_to_date args (last_log_index rf) t)
  unfolding candidate_up_to_date term_at entry_at last_log_index
  up_to_date_lem args rf t e =
      let (same_log, same_included) = log-observe_term args.term rf in
      rw (same_log, same_included, e) (unfold last_log_index in ground arith)

  granted_lem :
      (clk : Clock) (args : RequestVoteArgs) (rf : Raft C) (b : Bool)
      → rf.current_term ≤ args.term
      → (grant_vote clk args (observe_term args.term rf) b).1.vote_granted
        ≡ ((ltb rf.current_term args.term || may_vote rf.voted_for args.candidate_id) && b)
  unfolding grant_vote observe_term become_follower persist
  granted_lem clk args rf b le = ground arith

  -- RequestVote answers on every valid state, and grants exactly where the request's term is not
  -- older than the peer's, the peer has no vote for another candidate in that term, and the
  -- candidate's log ends in a higher term than the peer's, or in the same at no smaller index.
  pub request_vote_exact :
      (clk : Clock) (args : RequestVoteArgs) (rf : Raft C)
      → IsValid rf
      → (t : ℕ) × (term_at rf (last_log_index rf) ≡ some t)
        × Returns (λ r. r.1.vote_granted ≡ grants args rf t) (request_vote clk args rf)
  unfolding request_vote
  request_vote_exact clk args rf v =
      let pos = length_pos rf v in
      let n = last_log_index_lem rf pos in
      let (t, e) = term_at-some rf (last_log_index rf) (omega arith) (omega arith) in
      (
        t,
        e,
        elim (Bool-cases (ltb args.term rf.current_term)) [
          | inl old ↦ rw old (returned (ground (arith, old)))
          | inr fresh ↦
              rw (fresh, up_to_date_lem args rf t e)
                (returned (
                  granted_lem clk args rf (up_to_date args (last_log_index rf) t) (ltb→le _ _ fresh)
                  ∙ ground (arith, fresh)))
        ],
      )
