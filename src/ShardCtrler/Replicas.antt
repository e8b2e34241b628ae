-- ===== src/ShardCtrler/Replicas.antt =====
-- rebalance: all replicas come to the same shards, though Go walks a map in a random order.
use mit_6824_raft.Prelude.{
  ℕ, ◌≤◌, ◌≡◌, ◌∙◌, refl, ap, sym, List, [], ◌∷◌, length, All, if◌then◌else◌, ◌==◌, leb, leb→le,
  arith, Bool-cases, inl, inr, replicate,
}
use mit_6824_raft.ShardCtrler.Config.{Config, n_shards}
use mit_6824_raft.ShardCtrler.Rebalance.{insert_sorted, sort_ints, keys, assign, rebalance}
use mit_6824_raft.ShardCtrler.Counting.{one_if, occ, occ-sort_ints}
use mit_6824_raft.ShardCtrler.Balance.{All-at_occ}

abbrev IsAscending : List ℕ → Type 0
IsAscending [] = Unit
IsAscending (x ∷ xs) = All (λ y. x ≤ y) xs × IsAscending xs

insert_sorted-All :
    (P : ℕ → Type 0) (a : ℕ) (xs : List ℕ) → P a → All P xs → All P (insert_sorted a xs)
unfolding insert_sorted
insert_sorted-All P a [] p h = (p, tt)
insert_sorted-All P a (b ∷ xs) p h = ground (arith, p, h, insert_sorted-All P a xs p h.1)

All-le : (a b : ℕ) (xs : List ℕ) → a ≤ b → All (λ y. b ≤ y) xs → All (λ y. a ≤ y) xs
All-le a b [] h l = tt
All-le a b (x ∷ xs) h l = (omega (arith, h, l.0), All-le a b xs h l.1)

insert_sorted-IsAscending :
    (a : ℕ) (xs : List ℕ) → IsAscending xs → IsAscending (insert_sorted a xs)
unfolding insert_sorted
insert_sorted-IsAscending a [] s = (tt, tt)
insert_sorted-IsAscending a (b ∷ xs) s = elim (Bool-cases (leb a b)) [
  | inl low ↦ rw low ((leb→le a b low, All-le a b xs (leb→le a b low) s.0), s)
  | inr high ↦ rw high (
    insert_sorted-All (λ y. b ≤ y) a xs (ground (arith, high)) s.0,
    insert_sorted-IsAscending a xs s.1,
  )
]

sort_ints-IsAscending : (xs : List ℕ) → IsAscending (sort_ints xs)
unfolding sort_ints
sort_ints-IsAscending [] = tt
sort_ints-IsAscending (a ∷ xs) =
    insert_sorted-IsAscending a (sort_ints xs) (sort_ints-IsAscending xs)

least :
    (x y : ℕ) (xs ys : List ℕ)
    → IsAscending (y ∷ ys)
    → ((g : ℕ) → occ g (x ∷ xs) ≡ occ g (y ∷ ys))
    → y ≤ x
unfolding occ
least x y xs ys s same =
    All-at_occ (λ z. y ≤ z) (y ∷ ys) x (omega arith, s.0) (ground (arith, same x))

-- An ascending list is what it counts.
IsAscending-ext :
    (xs ys : List ℕ) → IsAscending xs → IsAscending ys → ((g : ℕ) → occ g xs ≡ occ g ys) → xs ≡ ys
unfolding occ
IsAscending-ext [] [] s t same = refl
IsAscending-ext [] (y ∷ ys) s t same = absurd (ground (arith, same y))
IsAscending-ext (x ∷ xs) [] s t same = absurd (ground (arith, same x))
IsAscending-ext (x ∷ xs) (y ∷ ys) s t same =
    let e : x ≡ y = omega (arith, least x y xs ys t same, least y x ys xs s (λ g. sym (same g))) in
    let tails : (g : ℕ) → occ g xs ≡ occ g ys =
      λ g. omega (arith, same g, ap (λ z. one_if (z == g)) e) in
    ap (λ z. z ∷ xs) e ∙ ap (λ l. y ∷ l) (IsAscending-ext xs ys s.1 t.1 tails)

-- Two replicas whose configurations have the same shards and the same group ids, in whatever order
-- their maps give the ids, assign the shards alike.
pub rebalance-same :
    (c d : Config)
    → c.shards ≡ d.shards
    → ((g : ℕ) → occ g (keys c.groups) ≡ occ g (keys d.groups))
    → (rebalance c).shards ≡ (rebalance d).shards
unfolding rebalance
rebalance-same c d shards ids =
    let sorted : sort_ints (keys c.groups) ≡ sort_ints (keys d.groups) =
      IsAscending-ext _ _ (sort_ints-IsAscending (keys c.groups))
        (sort_ints-IsAscending (keys d.groups))
        (λ g.
          omega (arith, ids g, occ-sort_ints g (keys c.groups), occ-sort_ints g (keys d.groups))) in
    ap (λ gids. if length gids == 0 then replicate n_shards 0 else assign gids c.shards) sorted
    ∙ ap
        (λ old.
          let gids = sort_ints (keys d.groups) in
          if length gids == 0 then replicate n_shards 0 else assign gids old)
        shards
