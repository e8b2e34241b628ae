-- ===== src/ShardKv/Server/Group.antt =====
-- shardkv/common.go and shardkv/server.go: the state of a group and its commands. Arrays over the
-- shards are lists of `n_shards`.
use mit_6824_raft.Prelude.{
  ℕ, ◌<◌, ◌≡◌, Bool, true, false, Option, some, List, [], ◌∷◌, length, Map, nat_eq, bytes_eq,
  GoString,
}
use mit_6824_raft.Raft.State.{Bytes}
use mit_6824_raft.ShardCtrler.Config.{Config}

-- The error strings; `unset` is the empty string of a zero value.
pub data Err : Type 0 where
  ok no_key wrong_group wrong_leader timeout not_ready unset : Err

pub data ShardState : Type 0 where
  serving pulling be_pulling gcing : ShardState

abbrev pub is_serving : ShardState → Bool
is_serving serving = true
is_serving _ = false

abbrev pub is_pulling : ShardState → Bool
is_pulling pulling = true
is_pulling _ = false

abbrev pub is_gcing : ShardState → Bool
is_gcing gcing = true
is_gcing _ = false

pub record Shard : Type 0 where
  pub kv_data : Map GoString GoString
  pub state : ShardState

abbrev pub new_shard : Shard
new_shard = record { kv_data = []; state = serving }

-- `copyData`: a map with the same entries.
unfoldable pub copy_data : Map GoString GoString → Map GoString GoString
copy_data [] = []
copy_data ((k, v) ∷ m) = (k, v) ∷ copy_data m

pub data ClientType : Type 0 where
  get put append : ClientType

abbrev pub is_get : ClientType → Bool
is_get get = true
is_get _ = false

pub record ClientOp : Type 0 where
  pub type : ClientType
  pub key : GoString
  pub value : GoString
  pub client_id : ℕ
  pub seq : ℕ

pub record Install : Type 0 where
  pub config_num : ℕ
  pub shards : List ℕ
  pub shard_data : Map ℕ (Map GoString GoString)
  pub dedup : Map ℕ ℕ

-- An Op with the fields that its type uses.
pub data Op : Type 0 where
  client : ClientOp → Op
  config : Config → Op
  install_shard : Install → Op
  delete_shard : ℕ → List ℕ → Op
  empty : Op

pub record OpResult : Type 0 where
  pub err : Err
  pub value : GoString
  pub client_id : ℕ
  pub seq : ℕ

-- The fields that a snapshot holds.
pub record GroupState : Type 0 where
  pub shards : Map ℕ Shard
  pub dedup : Map ℕ ℕ
  pub config : Config
  pub prev_config : Config

pub record ShardKv : Type 0 where
  pub me : ℕ
  pub gid : ℕ
  pub dead : Bool
  pub max_raft_state : Option ℕ
  pub group : GroupState
  pub waiters : Map ℕ (Option OpResult)
  pub last_applied : ℕ

pub record GroupCodec : Type 0 where
  pub encode : GroupState → Bytes
  pub decode : Bytes → Option GroupState
  pub decode-encode : (s : GroupState) → decode (encode s) ≡ some s
  pub encode_nonempty : (s : GroupState) → 0 < length (encode s)
