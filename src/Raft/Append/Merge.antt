-- ===== src/Raft/Append/Merge.antt =====
-- The loop over the new entries against a merge of two lists, and what the merge keeps.
use mathlib.Core.List.{append_assoc}
use mit_6824_raft.Prelude.{
  ℕ, zero, suc, ◌+◌, ◌-◌, ◌≤◌, ◌<◌, ◌≡◌, refl, ap, ◌∙◌, true, false, some, List, [], ◌∷◌, ◌++◌,
  length, get_elem?, take, drop, leb, ◌==◌, if◌then◌else◌, ◌>>=◌, arith, Bool-cases, inl, inr,
  lt-get_elem?, get_elem?-some, take-append-drop, dec_lt,
}
use mit_6824_raft.Raft.State.{Raft, LogEntry, last_log_index, term_at, entry_term}
use mit_6824_raft.Raft.Append.{append_new}
use mit_6824_raft.Raft.Log.{entry_at_lem, drop_cons, take-suc, take_all, drop_all}

module _ {C : Type 0} where
  -- What Figure 2 of the Raft paper asks for, rules 3 and 4: entries that agree are kept; the first
  -- that conflicts goes with all that follow it, and the new ones come in its place.
  pub merge : List (LogEntry C) → List (LogEntry C) → List (LogEntry C)
  merge [] es = es
  merge (o ∷ old) [] = o ∷ old
  merge (o ∷ old) (e ∷ es) =
      let rest = merge old es in if o.term == e.term then o ∷ rest else e ∷ es

  merge_nil : (old : List (LogEntry C)) → merge old [] ≡ old
  unfolding merge
  merge_nil [] = refl
  merge_nil (o ∷ old) = refl

  append_new-inside :
      (rf : Raft C) (k : ℕ) (x e : LogEntry C) (es : List (LogEntry C))
      → get_elem? rf.log k ≡ some x
      → append_new rf (rf.last_included_index + k) (e ∷ es) ≡ (
          let rest = append_new rf (rf.last_included_index + suc k) es in
          if x.term == e.term then rest else some (take k rf.log ++ e ∷ es))
  append_new-inside rf k x e es h =
      let i : ℕ = rf.last_included_index + k in
      let lt = lt-get_elem? rf.log k h in
      let within : leb i (last_log_index rf) ≡ true = unfold last_log_index in ground (arith, lt) in
      let at : term_at rf i ≡ some x.term =
        unfold term_at in
        ap entry_term (entry_at_lem rf i (omega arith) ∙ ap (get_elem? rf.log) (omega arith) ∙ h) in
      let minus : i - rf.last_included_index ≡ k = omega arith in
      let up : suc i ≡ rf.last_included_index + suc k = omega arith in
      unfold append_new in rw (within, ◌>>=◌) (rw (at, ◌>>=◌) (rw (minus, up)))

  append_new-past :
      (rf : Raft C) (k : ℕ) (e : LogEntry C) (es : List (LogEntry C))
      → length rf.log ≤ k
      → 0 < length rf.log
      → append_new rf (rf.last_included_index + k) (e ∷ es) ≡ some (rf.log ++ e ∷ es)
  unfolding append_new
  append_new-past rf k e es h p =
      let beyond : leb (rf.last_included_index + k) (last_log_index rf) ≡ false =
        unfold last_log_index in ground arith in
      rw beyond

  -- Where the log has its dummy entry and the new entries start inside it or right behind it, the
  -- loop of AppendEntries does not panic, keeps the log below their first index and merges the
  -- rest.
  pub append_new-merge :
      (rf : Raft C) (k : ℕ) (es : List (LogEntry C))
      → k ≤ length rf.log
      → 0 < length rf.log
      → append_new rf (rf.last_included_index + k) es
        ≡ some (take k rf.log ++ merge (drop k rf.log) es)
  unfolding merge
  append_new-merge rf k [] h p = unfold append_new in rw (merge_nil, take-append-drop k rf.log)
  append_new-merge rf k (e ∷ es) h p = elim (dec_lt k (length rf.log)) [
    | yes lt ↦
        let (x, at) = get_elem?-some rf.log k lt in
        rw (append_new-inside rf k x e es at, drop_cons rf.log k at)
          (elim (Bool-cases (x.term == e.term)) [
            | inl same ↦ rw same (
                append_new-merge rf (suc k) es (omega arith) p
                ∙ ap some (
                    ap (λ (l : List (LogEntry C)). l ++ merge (drop (suc k) rf.log) es)
                      (take-suc rf.log k at)
                    ∙ append_assoc (take k rf.log) (x ∷ []) _))
            | inr differs ↦ rw differs
          ])
    | no ge ↦
        rw
          (
            append_new-past rf k e es (omega arith) p,
            take_all rf.log k (omega arith),
            drop_all rf.log k (omega arith),
          )
          (refl)
  ]

  -- The merge has every new entry's term at its place.
  pub term-merge :
      (old es : List (LogEntry C)) (i : ℕ) {e : LogEntry C}
      → get_elem? es i ≡ some e
      → entry_term (get_elem? (merge old es) i) ≡ some e.term
  unfolding merge
  term-merge [] es i h = ap entry_term h
  term-merge (o ∷ old) [] i h = cc
  term-merge (o ∷ old) (e ∷ es) zero h = ground (arith, h)
  term-merge (o ∷ old) (e ∷ es) (suc i) h = ground (arith, h, term-merge old es i h)

  pub length-merge : (old es : List (LogEntry C)) → length es ≤ length (merge old es)
  unfolding merge
  length-merge [] es = omega arith
  length-merge (o ∷ old) [] = omega arith
  length-merge (o ∷ old) (e ∷ es) = ground (arith, length-merge old es)

  -- The first n of the old entries have the terms of the new ones that meet them.
  abbrev pub Agree : ℕ → List (LogEntry C) → List (LogEntry C) → Type 0
  Agree zero old es = Unit
  Agree (suc n) [] es = Unit
  Agree (suc n) (o ∷ old) [] = Unit
  Agree (suc n) (o ∷ old) (e ∷ es) = (o.term ≡ e.term) × Agree n old es

  -- Entries that agree are neither dropped nor replaced.
  pub merge-Agree :
      (n : ℕ) (old es : List (LogEntry C)) (i : ℕ)
      → Agree n old es
      → i < n
      → i < length old
      → get_elem? (merge old es) i ≡ get_elem? old i
  unfolding merge
  merge-Agree zero old es i a h l = elim h [ ]
  merge-Agree (suc n) [] es i a h l = elim l [ ]
  merge-Agree (suc n) (o ∷ old) [] i a h l = refl
  merge-Agree (suc n) (o ∷ old) (e ∷ es) zero a h l = ground (arith, a.0)
  merge-Agree (suc n) (o ∷ old) (e ∷ es) (suc i) a h l =
      let same : (o.term == e.term) ≡ true = ground (arith, a.0) in
      rw same (merge-Agree n old es i a.1 (omega arith) (omega arith))

  pub length-merge-Agree :
      (n : ℕ) (old es : List (LogEntry C))
      → Agree n old es
      → n ≤ length old
      → n ≤ length (merge old es)
  unfolding merge
  length-merge-Agree zero old es a h = omega arith
  length-merge-Agree (suc n) [] es a h = absurd (omega arith)
  length-merge-Agree (suc n) (o ∷ old) [] a h = h
  length-merge-Agree (suc n) (o ∷ old) (e ∷ es) a h =
      let same : (o.term == e.term) ≡ true = ground (arith, a.0) in
      rw same (omega (arith, length-merge-Agree n old es a.1 (omega arith)))
