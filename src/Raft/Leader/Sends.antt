-- ===== src/Raft/Leader/Sends.antt =====
-- raft/raft.go, replicateTo: what it sends.
use mit_6824_raft.Prelude.{
  ◌||◌, ℕ, suc, ◌+◌, ◌-◌, ◌≤◌, ◌<◌, ◌≡◌, refl, sym, ap, subst, ◌∙◌, not, Option, none, some, length,
  get_elem?, get_elem?-drop, leb, leb→le, ◌==◌, arith, Returns, returned, Returns-bind, Returns-if,
  Returns-of, Returns-some, length-drop,
}
use mit_6824_raft.Raft.State.{
  Raft, leader, last_log_index, entry_at, term_at, is_leader, read_snapshot,
}
use mit_6824_raft.Raft.Append.{AppendEntriesArgs}
use mit_6824_raft.Raft.Snapshot.{InstallSnapshotArgs}
use mit_6824_raft.Raft.Leader.{
  Request, append, install, install_request, append_request, request_from, replicate_to,
}
use mit_6824_raft.Raft.Log.{IsValid, length_pos, term_at-some, last_log_index_lem, entry_at_lem}

module _ {C : Type 0} where
  -- An AppendEntries with the log of the leader behind its previous index.
  pub record Covers (rf : Raft C) (args : AppendEntriesArgs C) : Type 0 where
    pub term : args.term ≡ rf.current_term
    pub prev : term_at rf args.prev_log_index ≡ some args.prev_log_term
    pub entries : (i : ℕ) → get_elem? args.entries i ≡ entry_at rf (args.prev_log_index + suc i)
    pub whole : args.prev_log_index + length args.entries ≡ last_log_index rf
    pub leader_commit : args.leader_commit ≡ rf.commit_index
    pub commit : args.leader_commit ≤ args.prev_log_index + length args.entries

  -- An InstallSnapshot with the snapshot of the leader.
  pub record Carries (rf : Raft C) (args : InstallSnapshotArgs) : Type 0 where
    pub term : args.term ≡ rf.current_term
    pub index : args.last_included_index ≡ rf.last_included_index
    pub index_term : args.last_included_term ≡ rf.last_included_term
    pub bytes : args.bytes ≡ read_snapshot rf.persister

  -- What a call for the term `term` sends to a peer whose next index is `next`.
  pub data Replicated (rf : Raft C) (term next : ℕ) : Option (Request C) → Type 0 where
    stepped_down : (rf.role ≡ leader → rf.current_term ≡ term → ⊥) → Replicated rf term next none
    snapshot_sent :
        {args : InstallSnapshotArgs}
        → rf.role ≡ leader
        → rf.current_term ≡ term
        → next ≤ rf.last_included_index
        → Carries rf args
        → Replicated rf term next (some (install args))
    entries_sent :
        {args : AppendEntriesArgs C}
        → rf.role ≡ leader
        → rf.current_term ≡ term
        → rf.last_included_index < next
        → suc args.prev_log_index ≡ next
        → Covers rf args
        → Replicated rf term next (some (append args))

  append_request-Covers :
      (prev : ℕ) (rf : Raft C)
      → IsValid rf
      → rf.last_included_index ≤ prev
      → prev ≤ last_log_index rf
      → Returns (λ args. (args.prev_log_index ≡ prev) × Covers rf args) (append_request prev rf)
  unfolding append_request
  append_request-Covers prev rf v ge le =
      let last = last_log_index_lem rf (length_pos rf v) in
      let (t, at) = term_at-some rf prev ge (omega (arith, le, last)) in
      Returns-bind (λ u. u ≡ t) _ (term_at rf prev) _ (Returns-of _ _ at refl)
        λ u e _.
          let len = length-drop (prev - rf.last_included_index + 1) rf.log in
          returned (
            refl,
            record {
              term = refl;
              prev = e;
              entries = λ i.
                  get_elem?-drop (prev - rf.last_included_index + 1) rf.log i
                  ∙ ap (get_elem? rf.log) (omega (arith, ge))
                  ∙ sym (entry_at_lem rf (prev + suc i) (omega (arith, ge)));
              whole = omega (arith, last, len, le);
              leader_commit = refl;
              commit = omega (arith, last, len, v.commit_lt);
            },
          )

  request_from-Replicated :
      (term next : ℕ) (rf : Raft C)
      → IsValid rf
      → rf.role ≡ leader
      → rf.current_term ≡ term
      → next ≤ suc (last_log_index rf)
      → Returns (Replicated rf term next) (request_from next rf)
  unfolding request_from install_request
  request_from-Replicated term next rf v lead same le =
      Returns-if _ (leb next rf.last_included_index) _ _
        (λ old. returned (
          snapshot_sent lead same (leb→le _ _ old)
            (record { term = refl; index = refl; index_term = refl; bytes = refl })))
        λ newer.
          let gt : rf.last_included_index < next = ground (arith, newer) in
          Returns-bind _ _ (append_request (next - 1) rf) _
            (append_request-Covers (next - 1) rf v (omega (arith, gt)) (omega (arith, le, gt)))
            λ args e q. returned (entries_sent lead same gt (omega (arith, q.0, gt)) q.1)

  -- On a valid peer, for a server whose next index is at most right behind the end of the log,
  -- replicateTo does not panic. It sends nothing exactly where the peer no longer leads in the term
  -- of the call. Where the next index is inside the snapshot it sends the snapshot; otherwise an
  -- AppendEntries that starts at the next index, with the peer's current term and commit index, the
  -- term that its log has right before, and exactly the entries that its log has from there, each at
  -- its place, up to the end of the log, so that the commit index that it carries is never past the
  -- last entry that it carries.
  pub replicate_to_exact :
      (server term next : ℕ) (rf : Raft C)
      → IsValid rf
      → get_elem? rf.next_index server ≡ some next
      → next ≤ suc (last_log_index rf)
      → (r : Option (Request C)) × (replicate_to server term rf ≡ some r)
        × Replicated rf term next r
  unfolding replicate_to
  replicate_to_exact server term next rf v at le = Returns-some _ _ (
      Returns-if _ (not (is_leader rf.role) || not (rf.current_term == term)) _ _
        (λ down. returned (stepped_down (λ lead same. ground (arith, down, lead, same))))
        λ leads.
          Returns-bind (λ n. n ≡ next) _ (get_elem? rf.next_index server) _ (Returns-of _ _ at refl)
            λ n e is.
              subst (λ m. Returns (Replicated rf term next) (request_from m rf)) (sym is)
                (request_from-Replicated term next rf v (ground (arith, leads))
                  (ground (arith, leads)) le))
