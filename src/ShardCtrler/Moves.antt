-- ===== src/ShardCtrler/Moves.antt =====
-- rebalance: the survey of the shards, and the loops that release shards and hand them out.
use mit_6824_raft.Prelude.{
  ℕ, suc, ◌+◌, ◌≤◌, ◌<◌, ◌≡◌, ◌∙◌, inl, inr, ap, sym, subst, true, false, ◌&&◌, not, some, List, [],
  ◌∷◌, ◌++◌, length, length-append, get_elem?, Map, nat_eq, insert, lookup, ◌==◌, ==_iff, arith,
  Bool-cases, ℕ_discrete,
}
use mit_6824_raft.ShardCtrler.Config.{n_shards}
use mit_6824_raft.ShardCtrler.Rebalance.{elem, at, survey, surveyed}
use mit_6824_raft.ShardCtrler.Counting.{occ, sum_occ, occ-append, sum_occ-cons, sum_occ_nil}
use mit_6824_raft.ShardCtrler.Plans.{at-insert, Homeless, Counted, kept, not_kept, differ}

survey-kept :
    (gids : List ℕ) (s x : ℕ) (xs : List ℕ) (count : Map ℕ ℕ) (un : List ℕ)
    → (not (x == 0) && elem x gids) ≡ true
    → survey gids s (x ∷ xs) count un ≡ survey gids (suc s) xs (insert x (at count x + 1) count) un
unfolding survey
survey-kept gids s x xs count un e = simp (e, survey)

survey-not_kept :
    (gids : List ℕ) (s x : ℕ) (xs : List ℕ) (count : Map ℕ ℕ) (un : List ℕ)
    → (not (x == 0) && elem x gids) ≡ false
    → survey gids s (x ∷ xs) count un ≡ survey gids (suc s) xs count (un ++ s ∷ [])
unfolding survey
survey-not_kept gids s x xs count un e = simp (e, survey)

module _ (gids : List ℕ) (uniq : (x : ℕ) → occ x gids ≤ 1) (no_zero : occ 0 gids ≡ 0) where
  -- The survey of `xs`, the shards of `all` from `s` on.
  record Surveyed (all xs : List ℕ) (count : Map ℕ ℕ) (un : List ℕ) (r : Map ℕ ℕ × List ℕ)
      : Type 0 where
    pub home : Homeless gids uniq no_zero all r.1
    pub counts : (g : ℕ) → occ g gids ≡ 1 → at r.0 g ≡ at count g + occ g xs
    pub lengths : length r.1 + sum_occ gids xs ≡ length un + length xs

  survey-Surveyed :
      (all : List ℕ) (s : ℕ) (xs : List ℕ) (count : Map ℕ ℕ) (un : List ℕ)
      → ((i : ℕ) → get_elem? xs i ≡ get_elem? all (s + i))
      → Homeless gids uniq no_zero all un
      → ((t : ℕ) → 0 < occ t un → t < s)
      → Surveyed all xs count un (survey gids s xs count un)
  unfolding survey occ
  survey-Surveyed all s [] count un part home below = record {
    home = home;
    counts = λ g o. omega arith;
    lengths = omega (arith, sum_occ_nil gids);
  }
  survey-Surveyed all s (x ∷ xs) count un part home below =
      let part' : (i : ℕ) → get_elem? xs i ≡ get_elem? all (suc s + i) =
        λ i. part (suc i) ∙ ap (get_elem? all) (omega arith) in
      elim (Bool-cases (not (x == 0) && elem x gids)) [
        | inl keep ↦
            let own = kept gids uniq no_zero x keep in
            let count' = insert x (at count x + 1) count in
            let r =
              survey-Surveyed all (suc s) xs count' un part' home
                (λ t pos. omega (arith, below t pos)) in
            subst (Surveyed all (x ∷ xs) count un) (sym (survey-kept gids s x xs count un keep))
              (record {
                home = r.home;
                counts = λ g o.
                    ground (arith, r.counts g o, at-insert x g (at count x + 1) count, ==_iff x g);
                lengths = omega (arith, r.lengths, sum_occ-cons gids x xs, own);
              })
        | inr drop ↦
            let free = not_kept gids uniq no_zero x drop in
            let here : get_elem? all s ≡ some x = ap (get_elem? all) (omega arith) ∙ sym (part 0) in
            let home' : Homeless gids uniq no_zero all (un ++ s ∷ []) = record {
              once =
                  λ t. ground (arith, occ-append t un (s ∷ []), home.once t, below t, ==_iff s t);
              free = λ t pos. elim (ℕ_discrete s t) [
                | yes e ↦ (x, ap (get_elem? all) (sym e) ∙ here, free)
                | no ne ↦ home.free t (ground (arith, pos, occ-append t un (s ∷ []), ne))
              ];
            } in
            let r =
              survey-Surveyed all (suc s) xs count (un ++ s ∷ []) part' home'
                (λ t pos. ground (arith, pos, below t, occ-append t un (s ∷ []), ==_iff s t)) in
            subst (Surveyed all (x ∷ xs) count un) (sym (survey-not_kept gids s x xs count un drop))
              (record {
                home = r.home;
                counts = λ g o. ground (arith, r.counts g o, differ gids uniq no_zero x g free o);
                lengths =
                    omega
                      (arith, r.lengths, sum_occ-cons gids x xs, free, length-append un (s ∷ []));
              })
      ]

  pub surveyed-Counted :
      (shards : List ℕ)
      → length shards ≡ n_shards
      → Counted gids uniq no_zero (surveyed gids shards)
  unfolding surveyed occ at lookup
  surveyed-Counted shards len =
      let r =
        survey-Surveyed shards 0 shards [] [] (λ i. ap (get_elem? shards) (omega arith))
          (record { once = λ s. omega arith; free = λ s pos. elim pos [ ] })
          (λ t pos. elim pos [ ]) in
      record {
        agree = λ g o. omega (arith, r.counts g o);
        total = omega (arith, r.lengths);
        homeless = r.home;
        len = len;
      }
