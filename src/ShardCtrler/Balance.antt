-- ===== src/ShardCtrler/Balance.antt =====
-- rebalance: the shards come out spread evenly over the groups.
use mit_6824_raft.Prelude.{
  ℕ, suc, ◌+◌, ◌-◌, ◌*◌, ◌/◌, ◌%◌, ◌≤◌, ◌<◌, ◌≡◌, ◌⊎◌, ◌∙◌, inl, inr, refl, ap, sym, subst, false,
  List, [], ◌∷◌, length, ℕ_discrete, Map, nat_eq, lookup, if◌then◌else◌, if_false, ◌==◌, ==_iff,
  ltb, arith, All,
}
use Prim.Native.Nat.{min}
use native.Mathlib.Nat.{mul-suc, mod-lt, div-add-mod, mul_comm}
use mit_6824_raft.ShardCtrler.Config.{Config, n_shards}
use mit_6824_raft.ShardCtrler.Rebalance.{
  at, targets, Plan, release_all, fill_all, sort_unassigned, surveyed, assign, rebalance, keys,
  sort_ints,
}
use mit_6824_raft.ShardCtrler.Counting.{occ, sum_occ, occ-sort_ints, length-sort_ints, sum_occ-All}
use mit_6824_raft.ShardCtrler.Plans.{Counted}
use mit_6824_raft.ShardCtrler.Moves.{surveyed-Counted}
use mit_6824_raft.ShardCtrler.Loops.{
  Filled, Within, Ours, Full, release_all-Within, fill_all-Filled,
}

abbrev sum_at : Map ℕ ℕ → List ℕ → ℕ
sum_at t [] = 0
sum_at t (g ∷ gs) = at t g + sum_at t gs

at-cons : (g v h : ℕ) (t : Map ℕ ℕ) → at ((g, v) ∷ t) h ≡ (if g == h then v else at t h)
unfolding at lookup
at-cons g v h t = ground arith

sum_at-skip :
    (g v : ℕ) (t : Map ℕ ℕ) (gs : List ℕ) → occ g gs ≡ 0 → sum_at ((g, v) ∷ t) gs ≡ sum_at t gs
unfolding occ
sum_at-skip g v t [] e = refl
sum_at-skip g v t (h ∷ gs) e =
    ground (arith, e, at-cons g v h t, sum_at-skip g v t gs, ==_iff g h, ==_iff h g)

-- The base of each, and one more for the first `extra`.
targets-sum :
    (base extra i : ℕ) (gs : List ℕ)
    → ((x : ℕ) → occ x gs ≤ 1)
    → sum_at (targets base extra i gs) gs ≡ base * length gs + min (length gs) (extra - i)
unfolding targets occ
targets-sum base extra i [] u = omega arith
targets-sum base extra i (g ∷ gs) u =
    let v = if ltb i extra then base + 1 else base in
    let t = targets base extra (suc i) gs in
    let once : occ g gs ≡ 0 = ground (arith, u g) in
    let rest = targets-sum base extra (suc i) gs (λ x. omega (arith, u x)) in
    let more : base * suc (length gs) ≡ base + base * length gs =
      omega (arith, mul-suc base (length gs)) in
    ground (arith, at-cons g v g t, sum_at-skip g v t gs once, rest, more)

targets-range :
    (base extra i : ℕ) (gs : List ℕ) (g : ℕ)
    → 0 < occ g gs
    → (base ≤ at (targets base extra i gs) g) × (at (targets base extra i gs) g ≤ base + 1)
unfolding targets occ
targets-range base extra i [] g h = elim h [ ]
targets-range base extra i (x ∷ gs) g h = ground (
  arith,
  h,
  at-cons x (if ltb i extra then base + 1 else base) g (targets base extra (suc i) gs),
  targets-range base extra (suc i) gs g,
)

module _ (gids : List ℕ) (uniq : (x : ℕ) → occ x gids ≤ 1) (no_zero : occ 0 gids ≡ 0) where
  sorted-Counted :
      (p : Plan) → Counted gids uniq no_zero p → Counted gids uniq no_zero (sort_unassigned p)
  unfolding sort_unassigned
  sorted-Counted p c = record {
    agree = c.agree;
    total = omega (arith, c.total, length-sort_ints p.unassigned);
    homeless = record {
      once = λ s. omega (arith, c.homeless.once s, occ-sort_ints s p.unassigned);
      free = λ s pos. c.homeless.free s (omega (arith, pos, occ-sort_ints s p.unassigned));
    };
    len = c.len;
  }

  module _ (target : Map ℕ ℕ) where
    sum-Within :
        (gs : List ℕ) (p : Plan)
        → Within gids uniq no_zero target gs p
        → sum_occ gs p.shards ≤ sum_at target gs
    unfolding sum_occ
    sum-Within [] p w = omega arith
    sum-Within (g ∷ gs) p (h, w) = omega (arith, h, sum-Within gs p w)

    sum-Full :
        (gs : List ℕ) (p : Plan)
        → All (Full gids uniq no_zero target p) gs
        → (length p.unassigned ≡ 0) ⊎ (sum_at target gs ≤ sum_occ gs p.shards)
    unfolding sum_occ
    sum-Full [] p f = inr (omega arith)
    sum-Full (g ∷ gs) p (inl e, f) = inl e
    sum-Full (g ∷ gs) p (inr e, f) = elim (sum-Full gs p f) [
      | inl h ↦ inl h
      | inr h ↦ inr (omega (arith, e, h))
    ]

    -- Where the sums agree, each is what it is to be.
    All-exact :
        (gs : List ℕ) (p : Plan)
        → Within gids uniq no_zero target gs p
        → sum_at target gs ≤ sum_occ gs p.shards
        → All (λ g. occ g p.shards ≡ at target g) gs
    unfolding sum_occ
    All-exact [] p w e = tt
    All-exact (g ∷ gs) p (h, w) e =
        (omega (arith, h, e, sum-Within gs p w), All-exact gs p w (omega (arith, h, e)))

    still-Within :
        (gs : List ℕ) (p q : Plan)
        → Ours gids uniq no_zero target gs
        → Filled gids uniq no_zero target p q
        → Within gids uniq no_zero target gs p
        → Within gids uniq no_zero target gs q
    still-Within [] p q o f w = tt
    still-Within (g ∷ gs) p q (own, o) f (h, w) = (f.bounded g own h, still-Within gs p q o f w)

  ours :
      (gs : List ℕ) (target : Map ℕ ℕ)
      → ((x : ℕ) → occ x gs ≤ occ x gids)
      → Ours gids uniq no_zero target gs
  unfolding occ
  ours [] t h = tt
  ours (g ∷ gs) t h = (ground (arith, h g, uniq g), ours gs t (λ x. omega (arith, h x)))

  -- What assign does, for any targets that add up to the number of shards.
  module _ (target : Map ℕ ℕ) (adds_up : sum_at target gids ≡ n_shards) where
    moved : List ℕ → Plan
    moved shards =
        fill_all target gids (sort_unassigned (release_all target gids (surveyed gids shards)))

    moved_exact :
        (shards : List ℕ)
        → length shards ≡ n_shards
        → All (λ g. occ g (moved shards).shards ≡ at target g) gids
          × All (λ x. occ x gids ≡ 1) (moved shards).shards
          × (length (moved shards).shards ≡ n_shards)
    unfolding moved sort_unassigned
    moved_exact shards len =
        let all_ours = ours gids target (λ x. omega arith) in
        let start = surveyed-Counted gids uniq no_zero shards len in
        let (r, within) =
          release_all-Within gids uniq no_zero target gids (surveyed gids shards) all_ours start in
        let released = release_all target gids (surveyed gids shards) in
        let sorted = sorted-Counted released r.counted in
        let (f, full) =
          fill_all-Filled gids uniq no_zero target gids (sort_unassigned released) all_ours
            sorted in
        let last = moved shards in
        let within' = still-Within target gids (sort_unassigned released) last all_ours f within in
        let none_left : length last.unassigned ≡ 0 = elim (sum-Full target gids last full) [
          | inl e ↦ e
          | inr e ↦ omega (arith, e, f.counted.total, f.counted.len, adds_up)
        ] in
        let sums : sum_occ gids last.shards ≡ n_shards =
          omega (arith, none_left, f.counted.total, f.counted.len) in
        (
          All-exact target gids last within' (omega (arith, sums, adds_up)),
          sum_occ-All gids last.shards uniq (omega (arith, sums, f.counted.len)),
          f.counted.len,
        )

pub All-at_occ : (P : ℕ → Type 0) (xs : List ℕ) (g : ℕ) → All P xs → 0 < occ g xs → P g
unfolding occ
All-at_occ P [] g h pos = elim pos [ ]
All-at_occ P (x ∷ xs) g h pos = elim (ℕ_discrete x g) [
  | yes e ↦ subst P e h.0
  | no ne ↦ All-at_occ P xs g h.1 (ground (arith, pos, ne))
]

All-of : (P : ℕ → Type 0) (xs : List ℕ) → ((x : ℕ) → 0 < occ x xs → P x) → All P xs
unfolding occ
All-of P [] f = tt
All-of P (x ∷ xs) f = (f x (ground arith), All-of P xs (λ y pos. f y (omega (arith, pos))))

All-map : (P Q : ℕ → Type 0) (xs : List ℕ) → ((x : ℕ) → P x → Q x) → All P xs → All Q xs
All-map P Q [] f h = tt
All-map P Q (x ∷ xs) f h = (f x h.0, All-map P Q xs f h.1)

-- There are as many shards as there should be; every shard is owned by one of the groups `ids`; and
-- every group owns the number of shards divided by that of groups, rounded down, or one more.
abbrev pub IsBalanced : List ℕ → List ℕ → Type 0
IsBalanced ids shards =
    (length shards ≡ n_shards)
    × All (λ x. occ x ids ≡ 1) shards
    × All (λ g. (n_shards / length ids ≤ occ g shards) × (occ g shards ≤ n_shards / length ids + 1))
        ids

rebalance-assign :
    (c : Config)
    → 0 < length (keys c.groups)
    → (rebalance c).shards ≡ assign (sort_ints (keys c.groups)) c.shards
unfolding rebalance
rebalance-assign c h =
    let some_ids : (length (sort_ints (keys c.groups)) == 0) ≡ false =
      ground (arith, h, length-sort_ints (keys c.groups)) in
    if_false _ _ some_ids

assign-IsBalanced :
    (ids shards : List ℕ)
    → length shards ≡ n_shards
    → 0 < length ids
    → ((g : ℕ) → occ g ids ≤ 1)
    → occ 0 ids ≡ 0
    → IsBalanced ids (assign (sort_ints ids) shards)
unfolding assign moved
assign-IsBalanced ids shards len some_group uniq no_zero =
    let gids = sort_ints ids in
    let n = length gids in
    let n_is : n ≡ length ids = length-sort_ints ids in
    let base = n_shards / n in
    let target = targets base (n_shards % n) 0 gids in
    let uniq' : (x : ℕ) → occ x gids ≤ 1 = λ x. omega (arith, uniq x, occ-sort_ints x ids) in
    let no_zero' : occ 0 gids ≡ 0 = occ-sort_ints 0 ids ∙ no_zero in
    let smaller : n_shards % n < n = mod-lt n_shards (omega (arith, n_is, some_group)) in
    let adds_up : sum_at target gids ≡ n_shards = omega (
      arith,
      targets-sum base (n_shards % n) 0 gids uniq',
      div-add-mod n_shards n,
      mul_comm base n,
      smaller,
    ) in
    let (exact, owned, len') = moved_exact gids uniq' no_zero' target adds_up shards len in
    let result = moved gids uniq' no_zero' target adds_up shards in
    (
      len',
      All-map _ _ result.shards (λ x e. sym (occ-sort_ints x ids) ∙ e) owned,
      All-of _ ids (λ g pos.
          let pos' : 0 < occ g gids = omega (arith, pos, occ-sort_ints g ids) in
          let is : occ g result.shards ≡ at target g = All-at_occ _ gids g exact pos' in
          let range = targets-range base (n_shards % n) 0 gids g pos' in
          let same : n_shards / n ≡ n_shards / length ids = ap (λ k. n_shards / k) n_is in
          (omega (arith, is, range.0, same), omega (arith, is, range.1, same))),
    )

-- rebalance spreads the shards evenly, whatever they were and in whatever order the map gives the
-- groups. There is at least one group, none has the id 0 or an id that is there twice, and there
-- are n_shards shards.
pub rebalance-IsBalanced :
    (c : Config)
    → length c.shards ≡ n_shards
    → 0 < length (keys c.groups)
    → ((g : ℕ) → occ g (keys c.groups) ≤ 1)
    → occ 0 (keys c.groups) ≡ 0
    → IsBalanced (keys c.groups) (rebalance c).shards
rebalance-IsBalanced c len some_group uniq no_zero =
    subst (IsBalanced (keys c.groups)) (sym (rebalance-assign c some_group))
      (assign-IsBalanced (keys c.groups) c.shards len some_group uniq no_zero)
