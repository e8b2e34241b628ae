-- ===== src/Raft/Snapshot/Keeps.antt =====
-- What a snapshot keeps of the log: the entries behind it, under their indexes.
use mit_6824_raft.Prelude.{
  ℕ, suc, ◌+◌, ◌-◌, ◌≤◌, ◌<◌, ◌≡◌, ◌⊎◌, refl, sym, ap, ◌∙◌, false, some, List, ◌∷◌, length,
  get_elem?, drop, leb, ltb, arith, inl, inr, leb→le, ltb→lt, ltb→le, returned, Returns-bind,
  Returns-if, Returns-of, Returns-some, length-drop, get_elem?-drop,
}
use mit_6824_raft.Raft.State.{
  Bytes, Raft, Codec, LogEntry, dummy, entry_at, term_at, entry_term, save,
}
use mit_6824_raft.Raft.Snapshot.{slice_from, trimmed_log, save_with, snapshot}
use mit_6824_raft.Raft.Durable.{clone_lem}
use mit_6824_raft.Raft.Log.{IsValid, entry_at_lem, term_at-some}

module _ {C : Type 0} where
  -- A log that was cut at `index`: its entries behind it are those it had.
  pub record Compacted (rf : Raft C) (index : ℕ) (rf' : Raft C) : Type 0 where
    pub included : rf'.last_included_index ≡ index
    pub boundary : term_at rf index ≡ some rf'.last_included_term
    pub entries : (j : ℕ) → index < j → entry_at rf' j ≡ entry_at rf j
    pub end : rf'.last_included_index + length rf'.log ≡ rf.last_included_index + length rf.log

  module _ (rf : Raft C) (index : ℕ) (ge : rf.last_included_index ≤ index)
      (lt : index < rf.last_included_index + length rf.log) where
    abbrev cut : ℕ
    cut = index - rf.last_included_index + 1

    pub trimmed_log_lem : (t : ℕ) → trimmed_log rf index t ≡ some (dummy t ∷ drop cut rf.log)
    unfolding trimmed_log slice_from
    trimmed_log_lem t = let e : ltb (length rf.log) cut ≡ false = ground arith in rw e

    trimmed-Compacted :
        (t : ℕ) (rf' : Raft C)
        → term_at rf index ≡ some t
        → rf'.last_included_index ≡ index
        → rf'.last_included_term ≡ t
        → rf'.log ≡ dummy t ∷ drop cut rf.log
        → Compacted rf index rf'
    trimmed-Compacted t rf' at i u log = record {
      included = i;
      boundary = at ∙ ap some (sym u);
      entries = λ j behind.
          let k : ℕ = j - suc index in
          let slot : j - rf'.last_included_index ≡ suc k = omega (arith, i) in
          entry_at_lem rf' j (omega (arith, i))
          ∙ (rw (log, slot)
              (get_elem?-drop cut rf.log k
                ∙ ap (get_elem? rf.log) (omega arith)
                ∙ sym (entry_at_lem rf j (omega arith))));
      end = omega (arith, i, ap length log, length-drop cut rf.log);
    }

module _ {C : Type 0} ⦃codec : Codec C⦄ where
  -- What Snapshot(index, bytes) returns.
  pub data Snapshotted (rf : Raft C) (index : ℕ) (bytes : Bytes) : Raft C → Type 0 where
    ignored :
        (index ≤ rf.last_included_index) ⊎ (rf.commit_index < index) → Snapshotted rf index bytes rf
    taken :
        {rf' : Raft C}
        → rf.last_included_index < index
        → index ≤ rf.commit_index
        → Compacted rf index rf'
        → IsValid rf'
        → rf'.persister.snapshot ≡ bytes
        → Snapshotted rf index bytes rf'

  taken_lem :
      (rf : Raft C) (index : ℕ) (bytes : Bytes) (t : ℕ) (log : List (LogEntry C))
      → IsValid rf
      → rf.last_included_index < index
      → index ≤ rf.commit_index
      → term_at rf index ≡ some t
      → trimmed_log rf index t ≡ some log
      → Snapshotted rf index bytes (
          save_with bytes
            (record rf { last_included_term = t; last_included_index = index; log = log }))
  unfolding save_with save
  taken_lem rf index bytes t log v gt le at e =
      let lt = v.commit_lt in
      let same : log ≡ dummy t ∷ drop (index - rf.last_included_index + 1) rf.log =
        ground (arith, e, trimmed_log_lem rf index (omega arith) (omega (arith, lt)) t) in
      let c = trimmed-Compacted rf index (omega arith) (omega (arith, lt)) t _ at refl refl same in
      taken gt le c
        (record {
          head = ap (λ (l : List (LogEntry C)). entry_term (get_elem? l 0)) same;
          applied_le = v.applied_le;
          included_le = le;
          commit_lt = omega (arith, lt, c.end);
        })
        (clone_lem bytes)

  -- On a valid peer Snapshot does not panic. It ignores an index at or below the last snapshot, and
  -- one that is not committed, and changes nothing then. Any other, above the last snapshot and
  -- committed, it takes: the snapshot is stored, the log is cut at that index with the term that
  -- stood there, the entries behind the index and the end of the log are as before, and the peer is
  -- valid.
  pub snapshot_exact :
      (index : ℕ) (bytes : Bytes) (rf : Raft C)
      → IsValid rf
      → (r : Raft C) × (snapshot index bytes rf ≡ some r) × Snapshotted rf index bytes r
  unfolding snapshot
  snapshot_exact index bytes rf v = Returns-some _ _ (
      Returns-if _ (leb index rf.last_included_index) _ _
        (λ old. returned (ignored (inl (leb→le _ _ old))))
        λ newer.
          Returns-if _ (ltb rf.commit_index index) _ _
            (λ early. returned (ignored (inr (ltb→lt _ _ early))))
            λ ready.
              let gt : rf.last_included_index < index = ground (arith, newer) in
              let le = ltb→le _ _ ready in
              let (t, at) =
                term_at-some rf index (omega (arith, gt)) (omega (arith, le, v.commit_lt)) in
              Returns-bind (λ u. u ≡ t) _ (term_at rf index) _ (Returns-of _ _ at refl)
                λ u e _.
                  Returns-bind (λ (l : List (LogEntry C)). Unit {0}) _ (trimmed_log rf index u) _
                    (Returns-of _ _
                      (trimmed_log_lem rf index (omega (arith, gt)) (omega (arith, le, v.commit_lt))
                        u)
                      tt)
                    (λ log e' _. returned (taken_lem rf index bytes u log v gt le e e')))
