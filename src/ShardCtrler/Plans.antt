-- ===== src/ShardCtrler/Plans.antt =====
-- rebalance: what holds of the shards, the counts and the shards without a home while it moves them.
use mathlib.Core.Option.{some_inj}
use mit_6824_raft.Prelude.{
  ℕ, ◌+◌, ◌-◌, ◌≤◌, ◌<◌, ◌≡◌, ◌≢◌, ◌∙◌, inl, inr, refl, ap, sym, true, false, ◌&&◌, not, some, List,
  [], ◌∷◌, length, get_elem?, set, length-set, length-append, get_elem?-set_self, get_elem?-set_ne,
  lt-get_elem?, Map, nat_eq, insert, lookup-insert, if◌then◌else◌, ◌==◌, ==_iff, ltb, ltb→lt, arith,
  Bool-cases, ℕ_discrete,
}
use mit_6824_raft.ShardCtrler.Config.{n_shards}
use mit_6824_raft.ShardCtrler.Rebalance.{elem, at, Plan, release_one}
use mit_6824_raft.ShardCtrler.Counting.{one_if, occ, sum_occ, occ-append, occ-set, sum_occ-set}

pub at-insert : (g h v : ℕ) (m : Map ℕ ℕ) → at (insert g v m) h ≡ (if g == h then v else at m h)
unfolding at
at-insert g h v m = grind (arith, lookup-insert g h v m)

elem-occ : (x : ℕ) (gids : List ℕ) → elem x gids ≡ false → occ x gids ≡ 0
unfolding elem occ
elem-occ x [] h = refl
elem-occ x (g ∷ gids) h = ground (arith, elem-occ x gids)

elem-pos : (x : ℕ) (gids : List ℕ) → elem x gids ≡ true → 0 < occ x gids
unfolding elem occ
elem-pos x [] h = cc
elem-pos x (g ∷ gids) h = ground (arith, elem-pos x gids)

module _ (gids : List ℕ) (uniq : (x : ℕ) → occ x gids ≤ 1) (no_zero : occ 0 gids ≡ 0) where
  -- The shards of the list that are without a home: each once, none owned by a group.
  pub record Homeless (shards unassigned : List ℕ) : Type 0 where
    pub once : (s : ℕ) → occ s unassigned ≤ 1
    pub free :
        (s : ℕ) → 0 < occ s unassigned → (x : ℕ) × (get_elem? shards s ≡ some x) × (occ x gids ≡ 0)

  pub record Counted (p : Plan) : Type 0 where
    pub agree : (g : ℕ) → occ g gids ≡ 1 → at p.count g ≡ occ g p.shards
    pub total : length p.unassigned + sum_occ gids p.shards ≡ length p.shards
    pub homeless : Homeless p.shards p.unassigned
    pub len : length p.shards ≡ n_shards

  pub kept : (x : ℕ) → (not (x == 0) && elem x gids) ≡ true → occ x gids ≡ 1
  kept x h = ground (arith, elem-pos x gids, uniq x)

  pub not_kept : (x : ℕ) → (not (x == 0) && elem x gids) ≡ false → occ x gids ≡ 0
  not_kept x h = elim (ℕ_discrete x 0) [
    | yes e ↦ ap (λ y. occ y gids) e ∙ no_zero
    | no ne ↦ elem-occ x gids (ground (arith, h, ne))
  ]

  pub differ : (x h : ℕ) → occ x gids ≡ 0 → occ h gids ≡ 1 → (x == h) ≡ false
  differ x h u o = elim (Bool-cases (x == h)) [
    | inl e ↦ absurd (omega (arith, u, o, ap (λ y. occ y gids) ((==_iff x h).0 e)))
    | inr e ↦ e
  ]

  owned_home :
      (g s : ℕ) (p : Plan)
      → occ g gids ≡ 1
      → get_elem? p.shards s ≡ some g
      → Counted p
      → occ s p.unassigned ≡ 0
  owned_home g s p own there c = elim (Bool-cases (ltb 0 (occ s p.unassigned))) [
    | inl pos ↦
        let (x, there', unowned) = c.homeless.free s (ltb→lt 0 _ pos) in
        let is = some_inj.0 (sym there ∙ there') in
        absurd (omega (arith, own, unowned, ap (λ y. occ y gids) is))
    | inr zero_times ↦ ground (arith, zero_times)
  ]

  here : (s : ℕ) → one_if (s == s) ≡ 1
  here s = ground arith

  -- A shard goes to a group.
  pub given-Counted :
      (g s : ℕ) (left : List ℕ) (shards : List ℕ) (count : Map ℕ ℕ)
      → occ g gids ≡ 1
      → Counted (record { shards = shards; unassigned = s ∷ left; count = count })
      → Counted (record {
        shards = set shards s g;
        unassigned = left;
        count = insert g (at count g + 1) count;
      })
  unfolding occ
  given-Counted g s left shards count own c =
      let (x, there, unowned) = c.homeless.free s (ground arith) in
      record {
        agree = λ h is. ground (
          arith,
          at-insert g h (at count g + 1) count,
          occ-set h s g shards there,
          differ x h unowned is,
          c.agree g own,
          c.agree h is,
          ==_iff g h,
        );
        total = omega (
          arith,
          c.total,
          sum_occ-set gids s g shards there,
          own,
          unowned,
          length-set shards s g,
        );
        homeless = record {
          once = λ t. omega (arith, c.homeless.once t);
          free = λ t pos.
              let ne : s ≢ t = λ e.
                absurd (omega (arith, c.homeless.once s, pos, ap (λ y. occ y left) e, here s)) in
              let (y, there', unowned') = c.homeless.free t (omega (arith, pos)) in
              (y, get_elem?-set_ne shards s t g ne ∙ there', unowned');
        };
        len = length-set shards s g ∙ c.len;
      }

  -- A shard of a group loses its home.
  pub released-Counted :
      (g s : ℕ) (p : Plan)
      → occ g gids ≡ 1
      → get_elem? p.shards s ≡ some g
      → Counted p
      → Counted (release_one g s p)
  unfolding release_one occ
  released-Counted g s p own there c = record {
    agree = λ h is. ground (
      arith,
      at-insert g h (at p.count g - 1) p.count,
      occ-set h s 0 p.shards there,
      differ 0 h no_zero is,
      c.agree g own,
      c.agree h is,
      ==_iff g h,
    );
    total = omega (
      arith,
      c.total,
      sum_occ-set gids s 0 p.shards there,
      own,
      no_zero,
      length-set p.shards s 0,
      length-append p.unassigned (s ∷ []),
    );
    homeless = record {
      once = λ t. ground (
        arith,
        occ-append t p.unassigned (s ∷ []),
        c.homeless.once t,
        owned_home g s p own there c,
        ==_iff s t,
      );
      free = λ t pos. elim (ℕ_discrete s t) [
        | yes e ↦ (
          0,
          ap (get_elem? (set p.shards s 0)) (sym e)
              ∙ get_elem?-set_self p.shards s 0 (lt-get_elem? p.shards s there),
          no_zero,
        )
        | no ne ↦
            let (x, there', unowned) =
              c.homeless.free t (ground (arith, pos, occ-append t p.unassigned (s ∷ []), ne)) in
            (x, get_elem?-set_ne p.shards s t 0 ne ∙ there', unowned)
      ];
    };
    len = length-set p.shards s 0 ∙ c.len;
  }
