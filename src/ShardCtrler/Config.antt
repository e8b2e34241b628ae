-- ===== src/ShardCtrler/Config.antt =====
-- shardctrler/common.go: configurations, and the arguments and replies of the RPCs.
use mit_6824_raft.Prelude.{ℕ, Bool, Option, List, [], replicate, GoString, Map}

abbrev pub n_shards : ℕ
n_shards = 10

-- `shards` has `n_shards` entries, the group of each shard; group 0 is no group.
pub record Config : Type 0 where
  pub num : ℕ
  pub shards : List ℕ
  pub groups : Map ℕ (List GoString)

-- `Config{}` with an empty map of groups.
abbrev pub empty_config : Config
empty_config = record { num = 0; shards = replicate n_shards 0; groups = [] }

pub record JoinArgs : Type 0 where
  pub servers : Map ℕ (List GoString)
  pub client_id : ℕ
  pub seq : ℕ

pub record LeaveArgs : Type 0 where
  pub gids : List ℕ
  pub client_id : ℕ
  pub seq : ℕ

pub record MoveArgs : Type 0 where
  pub shard : ℕ
  pub gid : ℕ
  pub client_id : ℕ
  pub seq : ℕ

-- `num` is `none` for a negative number.
pub record QueryArgs : Type 0 where
  pub num : Option ℕ
  pub client_id : ℕ
  pub seq : ℕ

-- The replies of Join, Leave and Move; `ok` is that `Err` is OK.
pub record Reply : Type 0 where
  pub wrong_leader : Bool
  pub ok : Bool

pub record QueryReply : Type 0 where
  pub wrong_leader : Bool
  pub ok : Bool
  pub config : Config
