-- ===== src/Raft/Safety.antt =====
-- The votes of one peer: what a grant requires and stores, and that a term has one.
use mit_6824_raft.Prelude.{
  ℕ, ◌≤◌, ◌≡◌, sym, Bool, true, false, some, ltb, arith, Bool-cases, inl, inr, ltb→le, OnSome,
  OnSome-at, OnSome-bind, on_some, subst, ◌∙◌,
}
use mit_6824_raft.Raft.State.{
  Raft, Codec, Clock, observe_term, become_follower, persist, reset_election_timer, hard_state,
  make,
}
use mit_6824_raft.Raft.Vote.{
  RequestVoteArgs, RequestVoteReply, may_vote, candidate_up_to_date, grant_vote, request_vote,
}
use mit_6824_raft.Raft.Durable.{IsDurable, hard_state-make}
use mit_6824_raft.Raft.Steps.{Reach, on_request_vote, Step-Later, Reach-Later}

module _ {C : Type 0} ⦃codec : Codec C⦄ where
  -- What a granted vote says of the state before it and of the state after it.
  record Granted (args : RequestVoteArgs) (rf rf' : Raft C) (reply : RequestVoteReply)
      : Type 0 where
    pub not_older : rf.current_term ≤ args.term
    pub free : args.term ≡ rf.current_term → may_vote rf.voted_for args.candidate_id ≡ true
    pub now_voted : rf'.voted_for ≡ some args.candidate_id
    pub now_term : rf'.current_term ≡ args.term
    pub reply_term : reply.term ≡ args.term

  grant_vote-Granted :
      (clk : Clock) (args : RequestVoteArgs) (rf : Raft C) (up : Bool)
      → args.term ≡ rf.current_term
      → let (rf', reply) = grant_vote clk args rf up in
        reply.vote_granted ≡ true → Granted args rf rf' reply
  unfolding grant_vote persist reset_election_timer
  grant_vote-Granted clk args rf up t g = ground arith

  observe_term-eq :
      (term : ℕ) (rf : Raft C) → rf.current_term ≤ term → (observe_term term rf).current_term ≡ term
  unfolding observe_term become_follower persist
  observe_term-eq term rf h = ground arith

  observe_term-same : (term : ℕ) (rf : Raft C) → term ≡ rf.current_term → observe_term term rf ≡ rf
  unfolding observe_term
  observe_term-same term rf h = let e : ltb rf.current_term term ≡ false = ground arith in rw e

  request_vote-Granted :
      (clk : Clock) (args : RequestVoteArgs) (rf : Raft C)
      → OnSome (λ r. r.1.vote_granted ≡ true → Granted args rf r.0 r.1) (request_vote clk args rf)
  unfolding request_vote
  request_vote-Granted clk args rf = elim (Bool-cases (ltb args.term rf.current_term)) [
    | inl old ↦ rw old (on_some (λ g. cc))
    | inr fresh ↦
        let le = ltb→le _ _ fresh in
        let rf' = observe_term args.term rf in
        rw fresh (
          OnSome-bind _ (candidate_up_to_date args.last_log_index args.last_log_term rf') _ λ up _.
            on_some λ g.
              let voted = grant_vote-Granted clk args rf' up (sym (observe_term-eq _ rf le)) g in
              record {
                not_older = le;
                free = λ t.
                    subst (λ (s : Raft C). may_vote s.voted_for args.candidate_id ≡ true)
                      (observe_term-same args.term rf t)
                      (voted.free (sym (observe_term-eq _ rf le)));
                now_voted = voted.now_voted;
                now_term = voted.now_term;
                reply_term = voted.reply_term;
              })
  ]

  -- A durable peer (the bytes that it has stored hold its persistent state) that granted its vote
  -- to one candidate, and after any further steps, crashes and restarts among them, grants a vote
  -- again in the same term, grants it to the same candidate.
  pub one_vote_per_term :
      (a b c d : Raft C) (clk clk' : Clock) (args args' : RequestVoteArgs)
      (reply reply' : RequestVoteReply)
      → IsDurable a
      → request_vote clk args a ≡ some (b, reply)
      → reply.vote_granted ≡ true
      → Reach b c
      → request_vote clk' args' c ≡ some (d, reply')
      → reply'.vote_granted ≡ true
      → reply'.term ≡ reply.term
      → args'.candidate_id ≡ args.candidate_id
  one_vote_per_term a b c d clk clk' args args' reply reply' durable e g reach e' g' same =
      let first = OnSome-at _ (request_vote-Granted clk args a) e g in
      let second = OnSome-at _ (request_vote-Granted clk' args' c) e' g' in
      let ab = Step-Later durable (on_request_vote clk args e) in
      let bc = Reach-Later (ab.durable durable) reach in
      let t : c.current_term ≡ b.current_term = omega (
        arith, bc.term_le, first.now_term, first.reply_term, second.not_older, second.reply_term,
      ) in
      let kept = bc.vote_kept args.candidate_id t first.now_voted in
      let now : args'.term ≡ c.current_term = omega (
        arith, bc.term_le, first.now_term, first.reply_term, second.reply_term, second.not_older,
      ) in
      ground (arith, kept, second.free now)

  -- Whatever steps a durable peer takes, crashes and restarts among them, its term does not fall,
  -- and it stays durable.
  pub terms_rise :
      (a b : Raft C) → IsDurable a → Reach a b → (a.current_term ≤ b.current_term) × IsDurable b
  terms_rise a b durable reach =
      let ab = Reach-Later durable reach in (ab.term_le, ab.durable durable)

  -- A crash at any moment loses nothing: a peer that is restarted from the bytes that are stored
  -- after any steps from a durable state has the term, vote, log and snapshot bounds it had.
  pub crash_recovery :
      (a b : Raft C) (clk : Clock)
      → IsDurable a
      → Reach a b
      → hard_state (make clk b.peers b.me b.persister) ≡ hard_state b
  crash_recovery a b clk durable reach =
      hard_state-make clk b.peers b.me b.persister ∙ (terms_rise a b durable reach).1.kept
