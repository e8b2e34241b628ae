-- ===== src/Raft/Leader.antt =====
-- raft/raft.go: elections, Start, replication to the followers, and the commit rule of a leader.
-- A goroutine that the code starts is a value here: the peers that it is started for.
pub mod Commit
pub mod Sends
use mit_6824_raft.Prelude.{
  ℕ, zero, suc, ◌+◌, ◌-◌, ◌/◌, Bool, true, false, not, ◌&&◌, ◌||◌, Option, none, some, List, [],
  ◌∷◌, ◌++◌, length, get_elem?, set, replicate, drop, ltb, leb, ◌==◌, if◌then◌else◌, ◌>>=◌,
}
use mit_6824_raft.Raft.State.{
  Raft, Codec, Clock, LogEntry, leader, candidate, is_leader, is_candidate, last_log_index, term_at,
  become_follower, persist, read_snapshot, reset_election_timer, killed, max,
}
use mit_6824_raft.Raft.Vote.{RequestVoteArgs, RequestVoteReply}
use mit_6824_raft.Raft.Append.{AppendEntriesArgs, AppendEntriesReply}
use mit_6824_raft.Raft.Snapshot.{InstallSnapshotArgs, InstallSnapshotReply}

-- `for peer := range rf.peers { if peer == rf.me { continue } … }`: the others, below n.
pub peers_below : ℕ → ℕ → List ℕ
peers_below me zero = []
peers_below me (suc n) = let rest = peers_below me n in if n == me then rest else rest ++ n ∷ []

-- `if rf.nextIndex[server] < 1 { rf.nextIndex[server] = 1 }`
abbrev pub at_least_one : ℕ → ℕ
at_least_one n = if ltb n 1 then 1 else n

-- -1 becomes 1 by the final test.
abbrev pub index_or_zero : Option ℕ → ℕ
index_or_zero none = 0
index_or_zero (some i) = i

-- The message that replicateTo sends.
pub data Request (C : Type 0) : Type 0 where
  install : InstallSnapshotArgs → Request C
  append : AppendEntriesArgs C → Request C

module _ {C : Type 0} where
  unfoldable pub other_peers : Raft C → List ℕ
  unfolding peers_below
  other_peers rf = peers_below rf.me rf.peers

  -- The peers to replicate to, with the term that each call carries.
  unfoldable pub broadcast_append_entries : Raft C → List ℕ × ℕ
  broadcast_append_entries rf = (other_peers rf, rf.current_term)

  -- The second part is the peers that broadcastAppendEntries goes to.
  unfoldable pub become_leader : Raft C → Raft C × List ℕ
  become_leader rf = if not (is_candidate rf.role) then (rf, []) else (
    record rf {
      role = leader;
      next_index = replicate rf.peers (last_log_index rf + 1);
      match_index = replicate rf.peers 0;
    },
    other_peers rf,
  )

  -- `for peer := range rf.peers { if peer != rf.me && rf.matchIndex[peer] >= n { count++ } }`
  unfoldable pub count_matching : Raft C → ℕ → ℕ → Option ℕ
  count_matching rf n zero = some 1
  count_matching rf n (suc peer) = do
    count ← count_matching rf n peer
    if peer == rf.me
        then some count
        else do m ← get_elem? rf.match_index peer; some (if leb n m then count + 1 else count)

  -- `for n := lastLogIndex; n > commitIndex; n--`
  unfoldable pub advance_commit_from : ℕ → Raft C → Option (Raft C)
  advance_commit_from zero rf = some rf
  advance_commit_from (suc n) rf =
      let lower = advance_commit_from n rf in
      if ltb rf.commit_index (suc n)
      then term_at rf (suc n) >>= (λ t.
        if not (t == rf.current_term)
        then lower
        else count_matching rf (suc n) rf.peers >>= (λ count.
          if ltb (rf.peers / 2) count then some (record rf { commit_index = suc n }) else lower))
      else some rf

  unfoldable pub advance_commit : Raft C → Option (Raft C)
  advance_commit rf = advance_commit_from (last_log_index rf) rf

  unfoldable pub install_request : Raft C → InstallSnapshotArgs
  install_request rf = record {
    term = rf.current_term;
    leader_id = rf.me;
    last_included_index = rf.last_included_index;
    last_included_term = rf.last_included_term;
    bytes = read_snapshot rf.persister;
  }

  -- `make` panics where the log ends before `prev`; so does termAt.
  unfoldable pub append_request : ℕ → Raft C → Option (AppendEntriesArgs C)
  append_request prev rf = do
    prev_term ← term_at rf prev
    some (record {
      term = rf.current_term;
      leader_id = rf.me;
      prev_log_index = prev;
      prev_log_term = prev_term;
      entries = drop (prev - rf.last_included_index + 1) rf.log;
      leader_commit = rf.commit_index;
    })

  unfoldable pub request_from : ℕ → Raft C → Option (Option (Request C))
  request_from next rf =
      if leb next rf.last_included_index
      then some (some (install (install_request rf)))
      else append_request (next - 1) rf >>= (λ args. some (some (append args)))

  -- The first half of replicateTo: what is sent, or `none` inside for the early return.
  unfoldable pub replicate_to : ℕ → ℕ → Raft C → Option (Option (Request C))
  replicate_to server term rf =
      if not (is_leader rf.role) || not (rf.current_term == term)
      then some none
      else get_elem? rf.next_index server >>= (λ next. request_from next rf)

  -- `for i := lastLogIndex; i > lastIncludedIndex; i--`: the last index of a term, if any.
  unfoldable pub last_of_term : Raft C → ℕ → ℕ → Option (Option ℕ)
  last_of_term rf t zero = some none
  last_of_term rf t (suc i) =
      let lower = last_of_term rf t i in
      if ltb rf.last_included_index (suc i)
      then term_at rf (suc i) >>= (λ u. if u == t then some (some (suc i)) else lower)
      else some none

  -- nextIndex[server] after a refusal.
  unfoldable pub backed_up : AppendEntriesReply → ℕ → Raft C → Option ℕ
  backed_up reply next rf = elim reply.conflict_term [
    | none ↦
        let i = index_or_zero reply.conflict_index in
        some (at_least_one (if ltb 0 i then i else next))
    | some t ↦ last_of_term rf t (last_log_index rf) >>= (λ found. elim found [
      | none ↦ some (at_least_one (index_or_zero reply.conflict_index))
      | some last ↦ some (at_least_one (last + 1))
    ])
  ]

  -- The branch of a successful AppendEntries reply.
  unfoldable pub record_success : ℕ → ℕ → Raft C → Option (Raft C)
  record_success server new_match rf = do
    m ← get_elem? rf.match_index server
    advance_commit (
        if ltb m new_match
        then record rf {
          match_index = set rf.match_index server new_match;
          next_index = set rf.next_index server (new_match + 1);
        }
        else rf)

  -- The branch of a refused one.
  unfoldable pub back_up : ℕ → AppendEntriesReply → Raft C → Option (Raft C)
  back_up server reply rf = do
    next ← get_elem? rf.next_index server
    next' ← backed_up reply next rf
    some (record rf { next_index = set rf.next_index server next' })

module _ {C : Type 0} ⦃codec : Codec C⦄ where
  -- index (-1 is `none`), term, isLeader, and the peers to replicate to.
  unfoldable pub start : C → Raft C → Raft C × Option ℕ × ℕ × Bool × List ℕ
  start command rf =
      if not (is_leader rf.role)
      then (rf, none, rf.current_term, false, [])
      else let entry : LogEntry C = record { term = rf.current_term; command = some command } in
        let rf' = persist (record rf { log = rf.log ++ entry ∷ [] }) in
        (rf', some (last_log_index rf'), rf.current_term, true, other_peers rf')

  -- The new state, the request, and the peers that it goes to.
  unfoldable pub start_election : Clock → Raft C → Option (Raft C × (RequestVoteArgs × List ℕ))
  start_election clk rf = do
    let rf' = persist (
        reset_election_timer clk (record rf {
          role = candidate;
          current_term = rf.current_term + 1;
          voted_for = some rf.me;
        }))
    last_term ← term_at rf' (last_log_index rf')
    some (
      rf',
      (
        record {
          term = rf'.current_term;
          candidate_id = rf'.me;
          last_log_index = last_log_index rf';
          last_log_term = last_term;
        },
        other_peers rf',
      ),
    )

  -- A reply of RequestVote. `term` and `votes` are the variables that the goroutines share.
  unfoldable pub vote_reply : ℕ → ℕ → RequestVoteReply → Raft C → Raft C × ℕ × List ℕ
  vote_reply term votes reply rf =
      if not (rf.current_term == term) || not (is_candidate rf.role)
      then (rf, votes, [])
      else if ltb rf.current_term reply.term
      then (become_follower reply.term rf, votes, [])
      else if not reply.vote_granted
      then (rf, votes, [])
      else if ltb (rf.peers / 2) (votes + 1)
      then (let (rf', sent) = become_leader rf in (rf', votes + 1, sent))
      else (rf, votes + 1, [])

  -- One round of `ticker`.
  unfoldable pub tick : Clock → Raft C → Option (Raft C × Option (RequestVoteArgs × List ℕ))
  tick clk rf =
      if killed rf
      then some (rf, none)
      else if not (is_leader rf.role) && leb rf.election_timeout (clk.now - rf.election_reset_at)
      then start_election clk rf >>= (λ r. let (rf', sent) = r in some (rf', some sent))
      else some (rf, none)

  -- One round of `heartbeatLoop`: the peers to replicate to.
  unfoldable pub heartbeat : Raft C → List ℕ
  heartbeat rf =
      if killed rf then [] else if is_leader rf.role then (broadcast_append_entries rf).0 else []

  -- The second half of replicateTo, after an InstallSnapshot reply.
  unfoldable pub install_reply :
      ℕ → ℕ → InstallSnapshotArgs → InstallSnapshotReply → Raft C → Option (Raft C)
  install_reply server term args reply rf =
      if not (is_leader rf.role) || not (rf.current_term == term)
      then some rf
      else if ltb rf.current_term reply.term
      then some (become_follower reply.term rf)
      else do
        m ← get_elem? rf.match_index server
        let m' = max m args.last_included_index
        some (record rf {
          match_index = set rf.match_index server m';
          next_index = set rf.next_index server (m' + 1);
        })

  -- The second half of replicateTo, after an AppendEntries reply.
  unfoldable pub append_reply :
      ℕ → ℕ → AppendEntriesArgs C → AppendEntriesReply → Raft C → Option (Raft C)
  append_reply server term args reply rf =
      if not (is_leader rf.role) || not (rf.current_term == term)
      then some rf
      else if ltb rf.current_term reply.term
      then some (become_follower reply.term rf)
      else if reply.success
      then record_success server (args.prev_log_index + length args.entries) rf
      else back_up server reply rf
