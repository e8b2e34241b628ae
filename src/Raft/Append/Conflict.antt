-- ===== src/Raft/Append/Conflict.antt =====
-- The fast backup of AppendEntries: the scan for the first index of a term.
use mit_6824_raft.Prelude.{
  ℕ, zero, suc, ◌+◌, ◌-◌, ◌≤◌, ◌<◌, ◌≡◌, ◌⊎◌, refl, ap, ◌∙◌, some, length, ltb, ◌==◌, arith, subst,
  dec_lt, inl, inr, ltb→lt, ltb→le, ==_iff, Returns, returned, Returns-bind, Returns-if,
  Returns-map, Returns-of,
}
use mit_6824_raft.Raft.State.{Raft, term_at}
use mit_6824_raft.Raft.Append.{first_of_term}
use mit_6824_raft.Raft.Log.{term_at-some}

module _ {C : Type 0} where
  -- Where a scan for the first index of a term stops.
  pub record FirstOfTerm (rf : Raft C) (t from : ℕ) (i : ℕ) : Type 0 where
    pub le : i ≤ from
    pub ge : rf.last_included_index ≤ i
    pub run : (j : ℕ) → i ≤ j → j ≤ from → term_at rf j ≡ some t
    pub first : (i ≡ rf.last_included_index) ⊎ (term_at rf (i - 1) ≡ some t → ⊥)

  extend :
      (rf : Raft C) (t i : ℕ)
      → term_at rf (suc i) ≡ some t
      → (k : ℕ) → FirstOfTerm rf t i k
      → FirstOfTerm rf t (suc i) k
  extend rf t i h k f = record {
    le = omega (arith, f.le);
    ge = f.ge;
    run = λ j a b. elim (dec_lt i j) [
      | yes last ↦ subst (λ (n : ℕ). term_at rf n ≡ some t) (omega arith) h
      | no below ↦ f.run j a (omega arith)
    ];
    first = f.first;
  }

  single :
      (rf : Raft C) (t i : ℕ)
      → rf.last_included_index ≤ i
      → term_at rf i ≡ some t
      → (i ≡ rf.last_included_index) ⊎ (term_at rf (i - 1) ≡ some t → ⊥)
      → FirstOfTerm rf t i i
  single rf t i ge h f = record {
    le = omega arith;
    ge = ge;
    run = λ j a b. subst (λ (n : ℕ). term_at rf n ≡ some t) (omega arith) h;
    first = f;
  }

  -- The scan of the fast backup, started at an index of the log, ends without a panic at the first
  -- index of the run of one term that reaches there, or at the snapshot's end.
  pub first_of_term-FirstOfTerm :
      (rf : Raft C) (t from : ℕ)
      → rf.last_included_index ≤ from
      → from < rf.last_included_index + length rf.log
      → term_at rf from ≡ some t
      → Returns (FirstOfTerm rf t from) (first_of_term rf t from)
  unfolding first_of_term
  first_of_term-FirstOfTerm rf t zero ge lt h = returned (record {
    le = omega arith;
    ge = ge;
    run = λ j a b. subst (λ (n : ℕ). term_at rf n ≡ some t) (omega arith) h;
    first = inl (omega arith);
  })
  first_of_term-FirstOfTerm rf t (suc i) ge lt h =
      Returns-if _ (ltb rf.last_included_index (suc i)) _ _
        (λ above.
          let ge' : rf.last_included_index ≤ i = omega (arith, ltb→lt _ _ above) in
          let (v, at) = term_at-some rf i ge' (omega arith) in
          Returns-bind (λ u. u ≡ v) _ (term_at rf i) _ (Returns-of _ _ at refl)
            λ u e _.
              Returns-if _ (u == t) _ _
                (λ same.
                  let e' : term_at rf i ≡ some t = e ∙ ap some ((==_iff u t).0 same) in
                  Returns-map _ _ _ (extend rf t i h)
                    (first_of_term-FirstOfTerm rf t i ge' (omega arith) e'))
                (λ differs. returned (
                  single rf t (suc i) ge h (
                    inr (λ (q : term_at rf (suc i - 1) ≡ some t).
                      let q' : term_at rf i ≡ some t =
                        subst (λ (n : ℕ). term_at rf n ≡ some t) {y = i} (omega arith) q in
                      ground (arith, e, q', differs))))))
        (λ stop. returned (single rf t (suc i) ge h (inl (omega (arith, ltb→le _ _ stop)))))
