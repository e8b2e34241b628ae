-- ===== src/Tests/Shards.antt =====
-- rebalance at a concrete configuration: group 3 has everything, groups 7 and 5 join.
use mit_6824_raft.Prelude.{ℕ, ◌≤◌, ◌<◌, ◌≡◌, refl, [], ◌∷◌, length, replicate, arith}
use mit_6824_raft.ShardCtrler.Config.{Config, n_shards}
use mit_6824_raft.ShardCtrler.Rebalance.{keys, rebalance}
use mit_6824_raft.ShardCtrler.Counting.{occ}
use mit_6824_raft.ShardCtrler.Balance.{IsBalanced, rebalance-IsBalanced}
use mit_6824_raft.ShardCtrler.Replicas.{rebalance-same}

abbrev joined : Config
joined = record {
  num = 2;
  shards = replicate n_shards 3;
  groups = (7, []) ∷ (3, []) ∷ (5, []) ∷ [];
}

abbrev joined_elsewhere : Config
joined_elsewhere = record {
  num = 2;
  shards = replicate n_shards 3;
  groups = (3, []) ∷ (5, []) ∷ (7, []) ∷ [];
}

ids_once : (g : ℕ) → occ g (keys joined.groups) ≤ 1
unfolding occ keys
ids_once g = ground arith

some_ids : 0 < length (keys joined.groups)
unfolding keys
some_ids = omega arith

no_zero_id : occ 0 (keys joined.groups) ≡ 0
unfolding occ keys
no_zero_id = refl

same_ids : (g : ℕ) → occ g (keys joined.groups) ≡ occ g (keys joined_elsewhere.groups)
unfolding occ keys
same_ids g = omega arith

rebalance-IsBalanced_example : IsBalanced (keys joined.groups) (rebalance joined).shards
rebalance-IsBalanced_example = rebalance-IsBalanced joined refl some_ids ids_once no_zero_id

rebalance-same_example : (rebalance joined).shards ≡ (rebalance joined_elsewhere).shards
rebalance-same_example = rebalance-same joined joined_elsewhere refl same_ids
