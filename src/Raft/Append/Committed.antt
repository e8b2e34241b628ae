-- ===== src/Raft/Append/Committed.antt =====
-- A request that agrees with what is committed: its log still covers the commit index.
use mit_6824_raft.Prelude.{
  ℕ, zero, suc, ◌+◌, ◌-◌, ◌≤◌, ◌<◌, ◌≡◌, refl, sym, ap, ◌∙◌, some, List, [], ◌∷◌, length, get_elem?,
  drop, arith, length-drop, get_elem?-drop,
}
use mit_6824_raft.Raft.State.{Raft, LogEntry, term_at, entry_term}
use mit_6824_raft.Raft.Append.{AppendEntriesArgs}
use mit_6824_raft.Raft.Append.Merge.{Agree, length-merge-Agree}
use mit_6824_raft.Raft.Log.{entry_at_lem}
use mit_6824_raft.Raft.Append.Accept.{kept, length-merged_log, merged_log}

module _ {C : Type 0} where
  -- No entry of the request has another term than a committed entry at its index.
  abbrev pub RespectsCommitted : AppendEntriesArgs C → Raft C → Type 0
  RespectsCommitted args rf =
      (i : ℕ) (e : LogEntry C)
      → get_elem? args.entries i ≡ some e
      → rf.last_included_index < args.prev_log_index + suc i
      → args.prev_log_index + suc i ≤ rf.commit_index
      → term_at rf (args.prev_log_index + suc i) ≡ some e.term

  Agree-of :
      (n : ℕ) (old es : List (LogEntry C))
      → ((i : ℕ) (e : LogEntry C)
          → i < n
          → get_elem? es i ≡ some e
          → entry_term (get_elem? old i) ≡ some e.term)
      → Agree n old es
  Agree-of zero old es h = tt
  Agree-of (suc n) [] es h = tt
  Agree-of (suc n) (o ∷ old) [] h = tt
  Agree-of (suc n) (o ∷ old) (e ∷ es) h = (
    ground (arith, h 0 e (omega arith) refl),
    Agree-of n old es (λ i e' l g. h (suc i) e' (omega arith) g),
  )

  -- Then the merge does not cut the log below the commit index.
  pub merged_log-covers :
      (args : AppendEntriesArgs C) (rf : Raft C)
      → rf.last_included_index ≤ args.prev_log_index
      → args.prev_log_index < rf.last_included_index + length rf.log
      → rf.commit_index < rf.last_included_index + length rf.log
      → RespectsCommitted args rf
      → rf.commit_index < rf.last_included_index + length (merged_log args rf)
  merged_log-covers args rf above within c r =
      let k : ℕ = kept args rf in
      let n : ℕ = suc (rf.commit_index - rf.last_included_index) - k in
      let old : List (LogEntry C) = drop k rf.log in
      let agree : Agree n old args.entries = Agree-of n old args.entries (λ i e lt g.
        let p : ℕ = args.prev_log_index + suc i in
        ap entry_term (
          get_elem?-drop k rf.log i
          ∙ ap (get_elem? rf.log) (omega arith)
          ∙ sym (entry_at_lem rf p (omega arith)))
        ∙ (unfold term_at in r i e g (omega arith) (omega arith))) in
      omega (
        arith,
        length-merged_log args rf (omega arith),
        length-drop k rf.log,
        length-merge-Agree n old args.entries agree (omega (arith, length-drop k rf.log)),
      )
