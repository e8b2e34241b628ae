-- ===== src/ShardKv/Server.antt =====
-- shardkv/server.go: the apply loop of a group and its snapshots, on the state of Server/Group and the
-- operations of Server/Ops.
pub mod Group
pub mod Ops
use mit_6824_raft.Prelude.{
  ℕ, zero, suc, ◌+◌, ◌%◌, ◌<◌, ◌≡◌, Bool, true, false, not, ◌&&◌, ◌||◌, Option, none, some, List,
  [], ◌∷◌, ◌++◌, length, get_elem?, replicate, Map, nat_eq, bytes_eq, GoString, lookup, insert,
  erase, ltb, leb, ◌==◌, if◌then◌else◌, ◌>>=◌,
}
use mit_6824_raft.Raft.State.{Bytes, ApplyMsg}
use mit_6824_raft.ShardCtrler.Config.{Config, n_shards}
unfoldable pub use mit_6824_raft.ShardKv.Server.Group.*
unfoldable pub use mit_6824_raft.ShardKv.Server.Ops.*

unfoldable pub notify : ℕ → OpResult → ShardKv → ShardKv
notify index res kv = elim (lookup index kv.waiters) [
  | none ↦ kv
  | some _ ↦ record kv { waiters = insert index (some res) kv.waiters }
]

module _ (codec : GroupCodec) where
  -- The call of rf.Snapshot, if any; `size` is persister.RaftStateSize().
  unfoldable pub maybe_snapshot : ℕ → ℕ → ShardKv → Option (ℕ × Bytes)
  maybe_snapshot size index kv = elim kv.max_raft_state [
    | none ↦ none
    | some limit ↦ if ltb size limit then none else some (index, codec.encode kv.group)
  ]

  unfoldable pub read_snapshot : Bytes → ShardKv → ShardKv
  read_snapshot bytes kv =
      if length bytes == 0
      then kv
      else elim (codec.decode bytes) [ none ↦ kv | some s ↦ record kv { group = s } ]

  unfoldable pub apply_fresh : ℕ → ℕ → Op → ShardKv → ShardKv × Option (ℕ × Bytes)
  apply_fresh size index op kv =
      let (s, res) = apply_op kv.gid op kv.group in
      let kv' = notify index res (record kv { last_applied = index; group = s }) in
      (kv', maybe_snapshot size index kv')

  unfoldable pub apply_command : ℕ → ApplyMsg Op → ShardKv → Option (ShardKv × Option (ℕ × Bytes))
  apply_command size msg kv =
      if leb msg.command_index kv.last_applied
      then some (kv, none)
      else msg.command >>= (λ op. some (apply_fresh size msg.command_index op kv))

  unfoldable pub apply_snapshot : ApplyMsg Op → ShardKv → ShardKv
  apply_snapshot msg kv =
      if leb msg.snapshot_index kv.last_applied
      then kv
      else let kv' = read_snapshot msg.snapshot kv in
        record kv' { last_applied = msg.snapshot_index }

  unfoldable pub apply_msg : ℕ → ApplyMsg Op → ShardKv → Option (ShardKv × Option (ℕ × Bytes))
  apply_msg size msg kv =
      if msg.command_valid
      then apply_command size msg kv
      else if msg.snapshot_valid
      then some (apply_snapshot msg kv, none)
      else some (kv, none)

  unfoldable pub apply_loop : List (ℕ × ApplyMsg Op) → ShardKv → Option ShardKv
  apply_loop [] kv = some kv
  apply_loop ((size, msg) ∷ rest) kv =
      let next = apply_msg size msg kv >>= (λ r. apply_loop rest r.0) in
      if kv.dead then some kv else next

  unfoldable pub start_server : ℕ → ℕ → Option ℕ → Bytes → ShardKv
  start_server me gid max_raft_state snapshot =
      let none_yet : Config = record { num = 0; shards = replicate n_shards 0; groups = [] } in
      read_snapshot snapshot (record {
        me = me;
        gid = gid;
        dead = false;
        max_raft_state = max_raft_state;
        group = record { shards = []; dedup = []; config = none_yet; prev_config = none_yet };
        waiters = [];
        last_applied = 0;
      })

unfoldable pub kill : ShardKv → ShardKv
kill kv = record kv { dead = true }
