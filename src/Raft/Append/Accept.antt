-- ===== src/Raft/Append/Accept.antt =====
-- AppendEntries that is accepted: the log, the bounds and the commit index after it.
use mit_6824_raft.Prelude.{
  ℕ, suc, ◌+◌, ◌-◌, ◌≤◌, ◌<◌, ◌≡◌, ◌⊎◌, refl, sym, ap, ◌∙◌, true, false, Option, none, some, List,
  ◌++◌, length, get_elem?, take, drop, ltb, if◌then◌else◌, ◌>>=◌, arith, Bool-cases, inl, inr,
  ltb→le, length-append, length-take, get_elem?-append_left, get_elem?-append_right, get_elem?-take,
}
use mit_6824_raft.Raft.State.{
  Raft, Codec, LogEntry, last_log_index, entry_at, term_at, entry_term, persist, min,
}
use mit_6824_raft.Raft.Append.{AppendEntriesArgs, accept_entries, advance_follower_commit}
use mit_6824_raft.Raft.Append.Merge.{merge, append_new-merge, term-merge, length-merge}
use mit_6824_raft.Raft.Log.{IsValid}

module _ {C : Type 0} where
  -- How many slots of the log lie at or below the previous index.
  abbrev pub kept : AppendEntriesArgs C → Raft C → ℕ
  kept args rf = suc (args.prev_log_index - rf.last_included_index)

  abbrev pub merged_log : AppendEntriesArgs C → Raft C → List (LogEntry C)
  merged_log args rf = take (kept args rf) rf.log ++ merge (drop (kept args rf) rf.log) args.entries

  -- What an accepted request leaves behind.
  pub record Adopted (args : AppendEntriesArgs C) (rf rf' : Raft C) : Type 0 where
    -- Each entry of the request past the snapshot has its term in the log.
    pub terms :
        (i : ℕ) (e : LogEntry C)
        → get_elem? args.entries i ≡ some e
        → rf.last_included_index < args.prev_log_index + suc i
        → term_at rf' (args.prev_log_index + suc i) ≡ some e.term
    -- The log reaches at least to the last of them.
    pub covers :
        args.prev_log_index + length args.entries < rf'.last_included_index + length rf'.log
    -- What stands at or below the previous index is as it was, and so is the snapshot.
    pub prefix : (j : ℕ) → j ≤ args.prev_log_index → entry_at rf' j ≡ entry_at rf j
    pub included : rf'.last_included_index ≡ rf.last_included_index
    -- The commit index does not fall, and does not pass the leader's or the end of the log.
    pub commit_ge : rf.commit_index ≤ rf'.commit_index
    pub commit_le :
        (rf'.commit_index ≡ rf.commit_index)
        ⊎ ((rf'.commit_index ≤ args.leader_commit)
            × (rf'.commit_index < rf'.last_included_index + length rf'.log))

  length-take_le : (n : ℕ) (xs : List (LogEntry C)) → n ≤ length xs → length (take n xs) ≡ n
  length-take_le n xs h = omega (arith, length-take n xs)

  module _ (args : AppendEntriesArgs C) (rf : Raft C) (fits : kept args rf ≤ length rf.log) where
    abbrev tail : List (LogEntry C)
    tail = merge (drop (kept args rf) rf.log) args.entries

    pub length-merged_log : length (merged_log args rf) ≡ kept args rf + length tail
    length-merged_log = omega (
      arith,
      length-append (take (kept args rf) rf.log) tail,
      length-take_le (kept args rf) rf.log fits,
    )

    merged_log-below :
        (j : ℕ) → j < kept args rf → get_elem? (merged_log args rf) j ≡ get_elem? rf.log j
    merged_log-below j h =
        get_elem?-append_left (take (kept args rf) rf.log) tail j
          (omega (arith, length-take_le (kept args rf) rf.log fits))
        ∙ get_elem?-take (kept args rf) rf.log j h

    merged_log-above :
        (i : ℕ) → get_elem? (merged_log args rf) (kept args rf + i) ≡ get_elem? tail i
    merged_log-above i =
        ap (λ (n : ℕ). get_elem? (merged_log args rf) (n + i))
          (sym (length-take_le (kept args rf) rf.log fits))
        ∙ get_elem?-append_right (take (kept args rf) rf.log) tail i

  entry_at-advance :
      (n : ℕ) (rf : Raft C) (j : ℕ) → entry_at (advance_follower_commit n rf) j ≡ entry_at rf j
  unfolding entry_at advance_follower_commit
  entry_at-advance n rf j = elim (Bool-cases (ltb rf.commit_index n)) [
    | inl e ↦ rw e
    | inr e ↦ rw e
  ]

  advance-same :
      (n : ℕ) (rf : Raft C)
      → let rf' = advance_follower_commit n rf in
        (rf'.last_included_term ≡ rf.last_included_term) × (rf'.last_applied ≡ rf.last_applied)
  unfolding advance_follower_commit
  advance-same n rf = (ground arith, ground arith)

  advance-bounds :
      (n : ℕ) (rf : Raft C)
      → rf.commit_index < rf.last_included_index + length rf.log
      → let rf' = advance_follower_commit n rf in
        (rf'.last_included_index ≡ rf.last_included_index)
        × (rf'.log ≡ rf.log)
        × (rf.commit_index ≤ rf'.commit_index)
        × ((rf'.commit_index ≡ rf.commit_index)
            ⊎ ((rf'.commit_index ≤ n)
                × (rf'.commit_index < rf.last_included_index + length rf.log)))
  unfolding advance_follower_commit min last_log_index
  advance-bounds n rf h = (ground arith, ground arith, ground arith, ground arith)

module _ {C : Type 0} ⦃codec : Codec C⦄ where
  -- The state after an accepted request.
  abbrev pub accepted : AppendEntriesArgs C → Raft C → Raft C
  accepted args rf =
      advance_follower_commit args.leader_commit (persist (record rf { log = merged_log args rf }))

  module _ (args : AppendEntriesArgs C) (rf : Raft C)
      (above : rf.last_included_index ≤ args.prev_log_index)
      (within : args.prev_log_index < rf.last_included_index + length rf.log) where
    pub accept_entries_lem :
        (ci : Option ℕ)
        → accept_entries args ci rf
          ≡ some (
            accepted args rf,
            record {
              term = rf.current_term;
              success = true;
              conflict_term = none;
              conflict_index = ci;
            },
          )
    unfolding accept_entries
    accept_entries_lem ci =
        let e : args.prev_log_index + 1 ≡ rf.last_included_index + kept args rf = omega arith in
        rw (e, append_new-merge rf (kept args rf) args.entries (omega arith) (omega arith), ◌>>=◌)

    entry_at-accepted :
        (j : ℕ)
        → entry_at (accepted args rf) j ≡ (
            if ltb j rf.last_included_index
            then none
            else get_elem? (merged_log args rf) (j - rf.last_included_index))
    entry_at-accepted j =
        entry_at-advance args.leader_commit (persist (record rf { log = merged_log args rf })) j
        ∙ (unfold entry_at persist in refl)

    prefix-accepted :
        (j : ℕ) → j ≤ args.prev_log_index → entry_at (accepted args rf) j ≡ entry_at rf j
    prefix-accepted j h =
        entry_at-accepted j
        ∙ (unfold entry_at in
            elim (Bool-cases (ltb j rf.last_included_index)) [
              | inl e ↦ rw e
              | inr e ↦ rw e (
                  merged_log-below args rf (omega arith) (j - rf.last_included_index)
                    (omega (arith, ltb→le j rf.last_included_index e)))
            ])

    terms-accepted :
        (i : ℕ) (e : LogEntry C)
        → get_elem? args.entries i ≡ some e
        → term_at (accepted args rf) (args.prev_log_index + suc i) ≡ some e.term
    terms-accepted i e h =
        let p : ℕ = args.prev_log_index + suc i in
        let over : ltb p rf.last_included_index ≡ false = ground arith in
        let at : p - rf.last_included_index ≡ kept args rf + i = omega arith in
        unfold term_at in
        ap entry_term
          (entry_at-accepted p ∙ (rw (over, at) (merged_log-above args rf (omega arith) i)))
        ∙ term-merge (drop (kept args rf) rf.log) args.entries i h

    accepted-bounds :
        rf.commit_index < rf.last_included_index + length (merged_log args rf)
        → let rf' = accepted args rf in
          (rf'.last_included_index ≡ rf.last_included_index)
          × (rf'.log ≡ merged_log args rf)
          × (rf.commit_index ≤ rf'.commit_index)
          × ((rf'.commit_index ≡ rf.commit_index)
              ⊎ ((rf'.commit_index ≤ args.leader_commit)
                  × (rf'.commit_index < rf.last_included_index + length (merged_log args rf))))
    unfolding persist
    accepted-bounds c =
        advance-bounds args.leader_commit (persist (record rf { log = merged_log args rf })) c

    pub accepted-Adopted :
        rf.commit_index < rf.last_included_index + length (merged_log args rf)
        → Adopted args rf (accepted args rf)
    accepted-Adopted c =
        let b = accepted-bounds c in
        let len : length (accepted args rf).log ≡ length (merged_log args rf) = ap length b.1 in
        record {
          terms = λ i e h _. terms-accepted i e h;
          covers = omega (
            arith,
            len,
            b.0,
            length-merged_log args rf (omega arith),
            length-merge (drop (kept args rf) rf.log) args.entries,
          );
          prefix = prefix-accepted;
          included = b.0;
          commit_ge = b.2;
          commit_le = elim b.3 [
            | inl same ↦ inl same
            | inr (le, lt) ↦ inr (le, omega (arith, len, b.0, lt))
          ];
        }

    -- An accepted request keeps the peer valid.
    pub accepted-IsValid :
        IsValid rf
        → rf.commit_index < rf.last_included_index + length (merged_log args rf)
        → IsValid (accepted args rf)
    accepted-IsValid v c =
        let b = accepted-bounds c in
        let s : ((accepted args rf).last_included_term ≡ rf.last_included_term)
            × ((accepted args rf).last_applied ≡ rf.last_applied) =
          unfold persist in
          advance-same args.leader_commit (persist (record rf { log = merged_log args rf })) in
        let len : length (accepted args rf).log ≡ length (merged_log args rf) = ap length b.1 in
        record {
          head =
              ap (λ (l : List (LogEntry C)). entry_term (get_elem? l 0)) b.1
              ∙ ap entry_term (merged_log-below args rf (omega arith) 0 (omega arith))
              ∙ v.head
              ∙ ap some (sym s.0);
          applied_le = omega (arith, v.applied_le, s.1, b.2);
          included_le = omega (arith, v.included_le, b.0, b.2);
          commit_lt = elim b.3 [
            | inl same ↦ omega (arith, same, len, b.0, c)
            | inr (le, lt) ↦ omega (arith, len, b.0, lt)
          ];
        }
