-- ===== src/Raft/Append/Handler.antt =====
-- The AppendEntries handler of a valid peer: it does not panic, keeps the peer valid, and what its
-- answers mean.
use mit_6824_raft.Prelude.{
  ℕ, suc, ◌+◌, ◌-◌, ◌≤◌, ◌<◌, ◌≡◌, refl, sym, ap, ◌∙◌, true, Option, none, some, List, length,
  get_elem?, drop, leb, ltb, ◌==◌, arith, subst, inl, inr, ltb→lt, ltb→le, Returns, returned,
  Returns-bind, Returns-if, Returns-map, Returns-of, Returns-some, get_elem?-drop, length-drop,
}
use mit_6824_raft.Raft.State.{
  Raft, Codec, Clock, LogEntry, last_log_index, entry_at, term_at, entry_term, persist, heed_leader,
  observe_term, become_follower, reset_election_timer,
}
use mit_6824_raft.Raft.Append.{
  AppendEntriesArgs, AppendEntriesReply, first_of_term, trim_args, check_prev, follow_leader,
  append_entries,
}
use mit_6824_raft.Raft.Append.Accept.{
  Adopted, accept_entries_lem, accepted-Adopted, accepted-IsValid,
}
use mit_6824_raft.Raft.Append.Committed.{RespectsCommitted, merged_log-covers}
use mit_6824_raft.Raft.Log.{IsValid, length_pos, term_at-some, last_log_index_lem}
use mit_6824_raft.Raft.Append.Conflict.{FirstOfTerm, first_of_term-FirstOfTerm}

module _ {C : Type 0} where
  -- What the handler returns: a valid peer, and after a success the entries are in its log.
  record Answered (args : AppendEntriesArgs C) (rf : Raft C) (r : Raft C × AppendEntriesReply)
      : Type 0 where
    pub valid : IsValid r.0
    pub adopted : r.1.success ≡ true → Adopted args rf r.0

module _ {C : Type 0} ⦃codec : Codec C⦄ where
  check_prev-Answered :
      (args : AppendEntriesArgs C) (ci : Option ℕ) (rf : Raft C)
      → rf.last_included_index ≤ args.prev_log_index
      → IsValid rf
      → RespectsCommitted args rf
      → Returns (Answered args rf) (check_prev args ci rf)
  unfolding check_prev
  check_prev-Answered args ci rf ge v r =
      Returns-if _ (ltb (last_log_index rf) args.prev_log_index) _ _
        (λ _. returned (record { valid = v; adopted = λ s. cc }))
        λ inside.
          let lt : args.prev_log_index < rf.last_included_index + length rf.log =
            omega (arith, ltb→le _ _ inside, last_log_index_lem rf (length_pos rf v)) in
          let (t, at) = term_at-some rf args.prev_log_index ge lt in
          let c = merged_log-covers args rf ge lt v.commit_lt r in
          Returns-bind (λ u. u ≡ t) _ (term_at rf args.prev_log_index) _ (Returns-of _ _ at refl)
            λ u e _.
              Returns-if _ (u == args.prev_log_term) _ _
                (λ _. Returns-of _ _ (accept_entries_lem args rf ge lt ci) (record {
                  valid = accepted-IsValid args rf ge lt v c;
                  adopted = λ _. accepted-Adopted args rf ge lt c;
                }))
                λ _.
                  Returns-bind (FirstOfTerm rf u args.prev_log_index) _
                    (first_of_term rf u args.prev_log_index) _
                    (first_of_term-FirstOfTerm rf u args.prev_log_index ge lt e)
                    (λ i _ _. returned (record { valid = v; adopted = λ s. cc }))

module _ {C : Type 0} where
  module _ (args : AppendEntriesArgs C) (rf : Raft C)
      (below : args.prev_log_index < rf.last_included_index)
      (beyond : rf.last_included_index < args.prev_log_index + length args.entries) where
    abbrev cut : ℕ
    cut = rf.last_included_index - args.prev_log_index

    entries-trim_args : (trim_args rf args).entries ≡ drop cut args.entries
    unfolding trim_args
    entries-trim_args = let e : leb cut (length args.entries) ≡ true = ground arith in rw e

    get_elem?-trim_args :
        (i : ℕ) → get_elem? (trim_args rf args).entries i ≡ get_elem? args.entries (cut + i)
    get_elem?-trim_args i =
        ap (λ (l : List (LogEntry C)). get_elem? l i) entries-trim_args
        ∙ get_elem?-drop cut args.entries i

    -- A request cut at the snapshot's end says of the log what the whole request says.
    Adopted-trim : (rf' : Raft C) → Adopted (trim_args rf args) rf rf' → Adopted args rf rf'
    unfolding trim_args
    Adopted-trim rf' a = record {
      terms = λ i e h past.
          let k : ℕ = i - cut in
          let h' : get_elem? (trim_args rf args).entries k ≡ some e =
            get_elem?-trim_args k ∙ ap (get_elem? args.entries) (omega arith) ∙ h in
          subst (λ (n : ℕ). term_at rf' n ≡ some e.term) (omega arith)
            (a.terms k e h' (omega arith));
      covers = omega (arith, a.covers, ap length entries-trim_args, length-drop cut args.entries);
      prefix = λ j le. a.prefix j (omega arith);
      included = a.included;
      commit_ge = a.commit_ge;
      commit_le = a.commit_le;
    }

    RespectsCommitted-trim : RespectsCommitted args rf → RespectsCommitted (trim_args rf args) rf
    unfolding trim_args
    RespectsCommitted-trim r i e h past le =
        subst (λ (n : ℕ). term_at rf n ≡ some e.term) (omega arith)
          (r (cut + i) e (sym (get_elem?-trim_args i) ∙ h) (omega arith) (omega arith))

module _ {C : Type 0} ⦃codec : Codec C⦄ where
  follow_leader-Answered :
      (args : AppendEntriesArgs C) (rf : Raft C)
      → IsValid rf
      → RespectsCommitted args rf
      → Returns (Answered args rf) (follow_leader args rf)
  unfolding follow_leader
  follow_leader-Answered args rf v r =
      Returns-if _ (ltb args.prev_log_index rf.last_included_index) _ _
        (λ below.
          Returns-if _ (leb (args.prev_log_index + length args.entries) rf.last_included_index) _ _
            (λ _. returned (record { valid = v; adopted = λ s. cc }))
            (λ beyond.
              let lt = ltb→lt _ _ below in
              let gt : rf.last_included_index < args.prev_log_index + length args.entries =
                ground (arith, beyond) in
              Returns-map (Answered (trim_args rf args) rf) _ _
                (λ x a. record {
                  valid = a.valid;
                  adopted = λ s. Adopted-trim args rf lt gt x.0 (a.adopted s);
                })
                (check_prev-Answered (trim_args rf args) _ rf (unfold trim_args in omega arith) v
                  (RespectsCommitted-trim args rf lt gt r))))
        (λ above. check_prev-Answered args none rf (ltb→le _ _ above) v r)

  pub heed_leader-same :
      (clk : Clock) (term : ℕ) (rf : Raft C)
      → let rf' = heed_leader clk term rf in
        (rf'.log ≡ rf.log)
        × (rf'.last_included_index ≡ rf.last_included_index)
        × (rf'.last_included_term ≡ rf.last_included_term)
        × (rf'.commit_index ≡ rf.commit_index)
        × (rf'.last_applied ≡ rf.last_applied)
  unfolding heed_leader observe_term become_follower reset_election_timer persist
  heed_leader-same clk term rf =
      (ground arith, ground arith, ground arith, ground arith, ground arith)

  pub heed_leader-entry_at :
      (clk : Clock) (term : ℕ) (rf : Raft C) (j : ℕ)
      → entry_at (heed_leader clk term rf) j ≡ entry_at rf j
  unfolding entry_at
  heed_leader-entry_at clk term rf j =
      let (log, inc, _, _, _) = heed_leader-same clk term rf in rw (log, inc)

  pub heed_leader-IsValid :
      (clk : Clock) (term : ℕ) (rf : Raft C) → IsValid rf → IsValid (heed_leader clk term rf)
  heed_leader-IsValid clk term rf v =
      let (log, inc, inct, comm, app) = heed_leader-same clk term rf in
      record {
        head = rw (log, inct) v.head;
        applied_le = rw (comm, app) v.applied_le;
        included_le = rw (comm, inc) v.included_le;
        commit_lt = rw (comm, inc, log) v.commit_lt;
      }

  Adopted-heed_leader :
      (clk : Clock) (args : AppendEntriesArgs C) (term : ℕ) (rf rf' : Raft C)
      → Adopted args (heed_leader clk term rf) rf'
      → Adopted args rf rf'
  Adopted-heed_leader clk args term rf rf' a =
      let (log, inc, inct, comm, app) = heed_leader-same clk term rf in
      record {
        terms = λ i e h past. a.terms i e h (omega (arith, inc, past));
        covers = a.covers;
        prefix = λ j le. a.prefix j le ∙ heed_leader-entry_at clk term rf j;
        included = a.included ∙ inc;
        commit_ge = omega (arith, a.commit_ge, comm);
        commit_le = elim a.commit_le [ inl same ↦ inl (same ∙ comm) | inr up ↦ inr up ];
      }

  RespectsCommitted-heed_leader :
      (clk : Clock) (args : AppendEntriesArgs C) (term : ℕ) (rf : Raft C)
      → RespectsCommitted args rf
      → RespectsCommitted args (heed_leader clk term rf)
  unfolding term_at
  RespectsCommitted-heed_leader clk args term rf r i e h past le =
      let (log, inc, inct, comm, app) = heed_leader-same clk term rf in
      ap entry_term (heed_leader-entry_at clk term rf (args.prev_log_index + suc i))
      ∙ r i e h (omega (arith, inc, past)) (omega (arith, comm, le))

  append_entries-Answered :
      (clk : Clock) (args : AppendEntriesArgs C) (rf : Raft C)
      → IsValid rf
      → RespectsCommitted args rf
      → Returns (Answered args rf) (append_entries clk args rf)
  unfolding append_entries
  append_entries-Answered clk args rf v r =
      Returns-if _ (ltb args.term rf.current_term) _ _
        (λ _. returned (record { valid = v; adopted = λ s. cc }))
        (λ _.
          Returns-map _ _ _
            (λ x a. record {
              valid = a.valid;
              adopted = λ s. Adopted-heed_leader clk args args.term rf x.0 (a.adopted s);
            })
            (follow_leader-Answered args (heed_leader clk args.term rf)
              (heed_leader-IsValid clk args.term rf v)
              (RespectsCommitted-heed_leader clk args args.term rf r)))

  -- On a valid peer, for a request that agrees with the committed entries, AppendEntries does not
  -- panic and leaves a valid peer; and if it answers success, every entry of the request past the
  -- snapshot has its term in the log, the log reaches to the last of them, what stands at or below
  -- the previous index and the snapshot are unchanged, and the commit index has not fallen and is
  -- the old one, or is in the log and at most the leader's.
  pub append_entries_total :
      (clk : Clock) (args : AppendEntriesArgs C) (rf : Raft C)
      → IsValid rf
      → RespectsCommitted args rf
      → (r : Raft C × AppendEntriesReply) × (append_entries clk args rf ≡ some r)
        × IsValid r.0
        × (r.1.success ≡ true → Adopted args rf r.0)
  append_entries_total clk args rf v r =
      let (x, e, a) = Returns-some (Answered args rf) _ (append_entries-Answered clk args rf v r) in
      (x, e, a.valid, a.adopted)
