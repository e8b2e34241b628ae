-- ===== src/Raft/Leader/Commit.antt =====
-- raft/raft.go, advanceCommit: the commit rule of a leader.
use mathlib.Core.Option.{some_inj}
use mit_6824_raft.Prelude.{
  ◌≢◌, sym, true, false, ◌>>=◌, Bool-cases, inl, inr, ℕ, zero, suc, ◌+◌, ◌*◌, ◌/◌, ◌≤◌, ◌<◌, ◌≡◌,
  refl, ap, ◌∙◌, not, some, length, get_elem?, get_elem?-some, leb, ltb, ◌==◌, arith, ltb→lt,
  ltb→le, dec_lt, subst, Returns, returned, Returns-bind, Returns-if, Returns-map, Returns-of,
  Returns-some,
}
use mit_6824_raft.Raft.State.{Raft, last_log_index, term_at}
use mit_6824_raft.Raft.Leader.{count_matching, advance_commit_from, advance_commit}
use mit_6824_raft.Raft.Log.{IsValid, length_pos, term_at-some, last_log_index_lem}

module _ {C : Type 0} where
  -- How many of the other peers below `k` have the entry at `n`, by their match indexes.
  pub data Others (rf : Raft C) (n : ℕ) : ℕ → ℕ → Type 0 where
    none_below : Others rf n 0 0
    itself : {k c : ℕ} → Others rf n k c → k ≡ rf.me → Others rf n (suc k) c
    has :
        {k c m : ℕ}
        → Others rf n k c
        → k ≢ rf.me
        → get_elem? rf.match_index k ≡ some m
        → n ≤ m
        → Others rf n (suc k) (suc c)
    lacks :
        {k c m : ℕ}
        → Others rf n k c
        → k ≢ rf.me
        → get_elem? rf.match_index k ≡ some m
        → m < n
        → Others rf n (suc k) c

  -- An index that a leader may commit: its entry is of the current term, and the peer itself and the
  -- others that have it are more than half of the peers.
  pub record IsCommittable (rf : Raft C) (n : ℕ) : Type 0 where
    pub current : term_at rf n ≡ some rf.current_term
    pub others : ℕ
    pub counted : Others rf n rf.peers others
    pub majority : rf.peers < 2 * (1 + others)

  -- What the search for a commit index, from `from` down, returns.
  pub data Advanced (rf : Raft C) (from : ℕ) : Raft C → Type 0 where
    unchanged :
        ((m : ℕ) → rf.commit_index < m → m ≤ from → IsCommittable rf m → ⊥) → Advanced rf from rf
    advanced :
        (n : ℕ)
        → rf.commit_index < n
        → n ≤ from
        → IsCommittable rf n
        → ((m : ℕ) → n < m → m ≤ from → IsCommittable rf m → ⊥)
        → Advanced rf from (record rf { commit_index = n })

  -- The loop counts the peer itself and the others that have the entry.
  count_matching-Others :
      (rf : Raft C) (n k : ℕ)
      → k ≤ length rf.match_index
      → Returns (λ (count : ℕ). (c : ℕ) × Others rf n k c × (count ≡ suc c)) (count_matching rf n k)
  unfolding count_matching
  count_matching-Others rf n zero h = returned (0, none_below, refl)
  count_matching-Others rf n (suc k) h =
      Returns-bind _ _ _ _ (count_matching-Others rf n k (omega arith)) λ count e below.
        let (c, o, same) = below in
        Returns-if _ (k == rf.me) _ _ (λ me. returned (c, itself o (ground (arith, me)), same))
          λ other.
            let ne : k ≢ rf.me = λ q. ground (arith, other, q) in
            let (m, at) = get_elem?-some rf.match_index k (omega arith) in
            Returns-bind (λ u. u ≡ m) _ (get_elem? rf.match_index k) _ (Returns-of _ _ at refl)
              λ u _ um. elim (Bool-cases (leb n u)) [
                | inl reached ↦ rw reached (
                    returned
                      (suc c, has o ne at (ground (arith, um, reached)), ground (arith, same)))
                | inr behind ↦
                    rw behind (returned (c, lacks o ne at (ground (arith, um, behind)), same))
              ]

  Others-count_matching :
      (rf : Raft C) (n k c : ℕ) → Others rf n k c → count_matching rf n k ≡ some (suc c)
  unfolding count_matching
  Others-count_matching rf n _ _ none_below = refl
  Others-count_matching rf n _ _ (itself {k = k} {c = c} o e) =
      let same : (k == rf.me) ≡ true = ground (arith, e) in
      rw (Others-count_matching rf n k c o, ◌>>=◌) (rw same refl)
  Others-count_matching rf n _ _ (has {k = k} {c = c} {m = m} o ne at le) =
      let other : (k == rf.me) ≡ false = ground (arith, ne) in
      let reached : leb n m ≡ true = ground (arith, le) in
      rw (Others-count_matching rf n k c o, ◌>>=◌)
        (rw (other, at, ◌>>=◌) (rw reached (ap some (omega arith))))
  Others-count_matching rf n _ _ (lacks {k = k} {c = c} {m = m} o ne at lt) =
      let other : (k == rf.me) ≡ false = ground (arith, ne) in
      let behind : leb n m ≡ false = ground (arith, lt) in
      rw (Others-count_matching rf n k c o, ◌>>=◌) (rw (other, at, ◌>>=◌) (rw behind refl))

  down :
      (rf : Raft C) (n : ℕ) (r : Raft C)
      → (IsCommittable rf (suc n) → ⊥)
      → Advanced rf n r
      → Advanced rf (suc n) r
  down rf n r h (unchanged f) = unchanged (λ m a b c. elim (dec_lt n m) [
    | yes top ↦ h (subst (IsCommittable rf) (omega arith) c)
    | no below ↦ f m a (omega arith) c
  ])
  down rf n r h (advanced k a b c f) = advanced k a (omega arith) c (λ m x y z. elim (dec_lt n m) [
    | yes top ↦ h (subst (IsCommittable rf) (omega arith) z)
    | no below ↦ f m x (omega arith) z
  ])

  advance_commit_from-Advanced :
      (rf : Raft C) (n : ℕ)
      → IsValid rf
      → length rf.match_index ≡ rf.peers
      → n < rf.last_included_index + length rf.log
      → Returns (Advanced rf n) (advance_commit_from n rf)
  unfolding advance_commit_from
  advance_commit_from-Advanced rf zero v l h = returned (unchanged (λ m a b _. omega arith))
  advance_commit_from-Advanced rf (suc n) v l h =
      let lower = advance_commit_from-Advanced rf n v l (omega arith) in
      Returns-if _ (ltb rf.commit_index (suc n)) _ _
        (λ more.
          let (t, at) = term_at-some rf (suc n) (omega (arith, v.included_le, ltb→lt _ _ more)) h in
          Returns-bind (λ u. u ≡ t) _ (term_at rf (suc n)) _ (Returns-of _ _ at refl)
            λ u e _.
              Returns-if _ (not (u == rf.current_term)) _ _
                (λ old.
                  Returns-map _ _ _ (λ r. down rf n r (λ c. ground (arith, e, c.current, old)))
                    lower)
                λ now.
                  Returns-bind _ _ (count_matching rf (suc n) rf.peers) _
                    (count_matching-Others rf (suc n) rf.peers (omega (arith, l)))
                    λ c counted q.
                      Returns-if _ (ltb (rf.peers / 2) c) _ _
                        (λ most. returned (
                          advanced (suc n) (ltb→lt _ _ more) (omega arith)
                            (record {
                              current = e ∙ ap some (ground (arith, now));
                              others = q.0;
                              counted = q.1;
                              majority = omega (arith, q.2, ltb→lt _ _ most);
                            })
                            (λ m a b _. omega arith)))
                        (λ few.
                          Returns-map _ _ _
                            (λ r. down rf n r (λ k.
                              let same : suc k.others ≡ c = some_inj.0 (
                                sym (Others-count_matching rf (suc n) rf.peers k.others k.counted)
                                ∙ counted) in
                              omega (arith, same, k.majority, ltb→le _ _ few)))
                            lower))
        (λ stop. returned (unchanged (λ m a b _. omega (arith, ltb→le _ _ stop))))

  -- On a valid peer with a match index for each peer advanceCommit does not panic. It moves the
  -- commit index to the largest index above it whose entry is of the current term and is held by
  -- more than half of the peers, where the peer itself counts and another one does whose match index
  -- is that index or a higher one, and changes nothing else; where there is no such index it changes
  -- nothing.
  pub advance_commit_exact :
      (rf : Raft C)
      → IsValid rf
      → length rf.match_index ≡ rf.peers
      → (r : Raft C) × (advance_commit rf ≡ some r) × Advanced rf (last_log_index rf) r
  unfolding advance_commit
  advance_commit_exact rf v l = Returns-some _ _ (
      advance_commit_from-Advanced rf (last_log_index rf) v l
        (omega (arith, last_log_index_lem rf (length_pos rf v))))
