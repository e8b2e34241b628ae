-- ===== src/Raft/Log.antt =====
-- The log of a valid peer: which indexes it has, and the invariant that bounds the commit index.
use mit_6824_raft.Prelude.{
  ℕ, zero, suc, ◌+◌, ◌-◌, ◌≤◌, ◌<◌, ◌≡◌, refl, ap, ◌∙◌, some, List, [], ◌∷◌, ◌++◌, length,
  get_elem?, take, drop, arith, get_elem?-some,
}
use mit_6824_raft.Raft.State.{Raft, LogEntry, last_log_index, entry_at, term_at, entry_term}

module _ {C : Type 0} where
  -- The dummy entry is there and has the snapshot's term; what is applied is committed, what is
  -- committed is in the log or in the snapshot.
  pub record IsValid (rf : Raft C) : Type 0 where
    pub head : entry_term (get_elem? rf.log 0) ≡ some rf.last_included_term
    pub applied_le : rf.last_applied ≤ rf.commit_index
    pub included_le : rf.last_included_index ≤ rf.commit_index
    pub commit_lt : rf.commit_index < rf.last_included_index + length rf.log

  pub length_pos : (rf : Raft C) → IsValid rf → 0 < length rf.log
  length_pos rf v = omega (arith, v.commit_lt, v.included_le)

  pub last_log_index_lem :
      (rf : Raft C)
      → 0 < length rf.log
      → last_log_index rf + 1 ≡ rf.last_included_index + length rf.log
  unfolding last_log_index
  last_log_index_lem rf h = omega arith

  pub entry_at_lem :
      (rf : Raft C) (i : ℕ)
      → rf.last_included_index ≤ i
      → entry_at rf i ≡ get_elem? rf.log (i - rf.last_included_index)
  unfolding entry_at
  entry_at_lem rf i h = ground arith

  -- An index from the snapshot's end to the log's end has an entry.
  pub entry_at-some :
      (rf : Raft C) (i : ℕ)
      → rf.last_included_index ≤ i
      → i < rf.last_included_index + length rf.log
      → (e : LogEntry C) × (entry_at rf i ≡ some e)
  entry_at-some rf i l h =
      let (e, p) = get_elem?-some rf.log (i - rf.last_included_index) (omega arith) in
      (e, entry_at_lem rf i l ∙ p)

  pub term_at-some :
      (rf : Raft C) (i : ℕ)
      → rf.last_included_index ≤ i
      → i < rf.last_included_index + length rf.log
      → (t : ℕ) × (term_at rf i ≡ some t)
  unfolding term_at
  term_at-some rf i l h = let (e, p) = entry_at-some rf i l h in (e.term, ap entry_term p)

  lt-entry_term :
      (xs : List (LogEntry C)) (k : ℕ) {t : ℕ}
      → entry_term (get_elem? xs k) ≡ some t
      → k < length xs
  lt-entry_term [] k h = cc
  lt-entry_term (x ∷ xs) zero h = omega arith
  lt-entry_term (x ∷ xs) (suc k) h = omega (arith, lt-entry_term xs k h)

  pub term_at-range :
      (rf : Raft C) (i : ℕ) {t : ℕ}
      → term_at rf i ≡ some t
      → (rf.last_included_index ≤ i) × (i < rf.last_included_index + length rf.log)
  unfolding term_at entry_at
  term_at-range rf i {t} h =
      ground (arith, lt-entry_term rf.log (i - rf.last_included_index) {t = t})

  pub drop_cons :
      (xs : List (LogEntry C)) (k : ℕ) {x : LogEntry C}
      → get_elem? xs k ≡ some x
      → drop k xs ≡ x ∷ drop (suc k) xs
  drop_cons [] k h = cc
  drop_cons (y ∷ xs) zero h = ground (arith, h)
  drop_cons (y ∷ xs) (suc k) h = drop_cons xs k h

  pub take-suc :
      (xs : List (LogEntry C)) (k : ℕ) {x : LogEntry C}
      → get_elem? xs k ≡ some x
      → take (suc k) xs ≡ take k xs ++ x ∷ []
  take-suc [] k h = cc
  take-suc (y ∷ xs) zero h = ground (arith, h)
  take-suc (y ∷ xs) (suc k) h = ap (λ (l : List (LogEntry C)). y ∷ l) (take-suc xs k h)

  pub take_all : (xs : List (LogEntry C)) (k : ℕ) → length xs ≤ k → take k xs ≡ xs
  take_all [] zero h = refl
  take_all [] (suc k) h = refl
  take_all (x ∷ xs) zero h = absurd (omega arith)
  take_all (x ∷ xs) (suc k) h = ap (λ (l : List (LogEntry C)). x ∷ l) (take_all xs k (omega arith))

  pub drop_all : (xs : List (LogEntry C)) (k : ℕ) → length xs ≤ k → drop k xs ≡ []
  drop_all [] zero h = refl
  drop_all [] (suc k) h = refl
  drop_all (x ∷ xs) zero h = absurd (omega arith)
  drop_all (x ∷ xs) (suc k) h = drop_all xs k (omega arith)
