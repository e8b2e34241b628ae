-- ===== src/ShardKv/Server/Ops.antt =====
-- shardkv/server.go: what a committed command does to the state of a group.
use mit_6824_raft.Prelude.{
  ℕ, zero, suc, ◌+◌, ◌%◌, Bool, true, false, not, ◌&&◌, ◌||◌, Option, none, some, List, [], ◌∷◌,
  ◌++◌, get_elem?, Map, nat_eq, bytes_eq, GoString, lookup, insert, erase, ltb, leb, ◌==◌,
  if◌then◌else◌,
}
use mit_6824_raft.ShardCtrler.Config.{Config, n_shards}
use mit_6824_raft.ShardKv.Server.Group.{
  Err, ok, no_key, wrong_group, unset, ShardState, serving, pulling, be_pulling, gcing, is_serving,
  is_pulling, Shard, new_shard, copy_data, ClientType, put, is_get, ClientOp, Install, Op, client,
  config, install_shard, delete_shard, empty, OpResult, GroupState,
}

unfoldable pub key2shard : GoString → ℕ
key2shard [] = 0 % n_shards
key2shard (b ∷ bs) = b % n_shards

-- c.Shards[shard]
unfoldable pub shard_gid : Config → ℕ → ℕ
shard_gid c shard = elim (get_elem? c.shards shard) [ none ↦ 0 | some g ↦ g ]

abbrev pub shard_serves : Option Shard → Bool
shard_serves none = false
shard_serves (some s) = is_serving s.state

unfoldable pub can_serve : ℕ → ℕ → GroupState → Bool
can_serve gid shard s =
    if not (shard_gid s.config shard == gid) then false else shard_serves (lookup shard s.shards)

abbrev pub value_or_empty : Option GoString → GoString
value_or_empty none = []
value_or_empty (some v) = v

abbrev pub result_of : ClientOp → Err → GoString → OpResult
result_of op e v = record { err = e; value = v; client_id = op.client_id; seq = op.seq }

unfoldable pub read_key : ClientOp → Shard → OpResult
read_key op sh = elim (lookup op.key sh.kv_data) [
  | none ↦ result_of op no_key []
  | some v ↦ result_of op ok v
]

-- seen && op.Seq <= last
unfoldable pub is_duplicate : ClientOp → GroupState → Bool
is_duplicate op s = elim (lookup op.client_id s.dedup) [
  | none ↦ false
  | some last ↦ leb op.seq last
]

unfoldable pub write_key : ClientType → ClientOp → Map GoString GoString → Map GoString GoString
write_key put op m = insert op.key op.value m
write_key _ op m = insert op.key (value_or_empty (lookup op.key m) ++ op.value) m

-- The part of applyClientOp for a shard that is served.
unfoldable pub serve_shard : ℕ → Shard → ClientOp → GroupState → GroupState × OpResult
serve_shard shard sh op s =
    if is_get op.type
    then (s, read_key op sh)
    else if is_duplicate op s
    then (s, result_of op ok [])
    else (
      record s {
        shards = insert shard (record sh { kv_data = write_key op.type op sh.kv_data }) s.shards;
        dedup = insert op.client_id op.seq s.dedup;
      },
      result_of op ok [],
    )

unfoldable pub apply_client_op : ℕ → ClientOp → GroupState → GroupState × OpResult
apply_client_op gid op s =
    let shard = key2shard op.key in
    if not (shard_gid s.config shard == gid)
    then (s, result_of op wrong_group [])
    else elim (lookup shard s.shards) [
      | none ↦ (s, result_of op wrong_group [])
      | some sh ↦
          if not (is_serving sh.state)
          then (s, result_of op wrong_group [])
          else serve_shard shard sh op s
    ]

-- `for _, s := range kv.shards { if s.State != Serving { … } }`
unfoldable pub settled : Map ℕ Shard → Bool
settled [] = true
settled ((i, sh) ∷ m) = is_serving sh.state && settled m

-- The body of the loop of applyConfig for one shard.
unfoldable pub move_shard : ℕ → ℕ → ℕ → ℕ → Map ℕ Shard → Map ℕ Shard
move_shard gid old_gid new_gid shard m =
    if not (new_gid == gid)
    then if old_gid == gid
      then elim (lookup shard m) [
        | none ↦ m
        | some sh ↦ insert shard (record sh { state = be_pulling }) m
      ]
      else m
    else if old_gid == gid || old_gid == 0
    then elim (lookup shard m) [
      | none ↦ insert shard new_shard m
      | some sh ↦ insert shard (record sh { state = serving }) m
    ]
    else insert shard (record { kv_data = []; state = pulling }) m

-- The loop over `n` shards from `shard` on.
unfoldable pub move_shards : ℕ → Config → Config → ℕ → ℕ → Map ℕ Shard → Map ℕ Shard
move_shards gid old new zero shard m = m
move_shards gid old new (suc n) shard m =
    move_shards gid old new n (suc shard)
      (move_shard gid (shard_gid old shard) (shard_gid new shard) shard m)

unfoldable pub apply_config : ℕ → Config → GroupState → GroupState
apply_config gid new s =
    if not (new.num == s.config.num + 1)
    then s
    else if not (settled s.shards)
    then s
    else record s {
      prev_config = s.config;
      config = new;
      shards = move_shards gid s.config new n_shards 0 s.shards;
    }

-- op.ShardData[shard], an empty map where it is missing.
abbrev pub data_or_empty : Option (Map GoString GoString) → Map GoString GoString
data_or_empty none = []
data_or_empty (some m) = m

unfoldable pub install_one : Map ℕ (Map GoString GoString) → ℕ → Map ℕ Shard → Map ℕ Shard
install_one pulled shard m = elim (lookup shard m) [
  | none ↦ m
  | some sh ↦
      if not (is_pulling sh.state)
      then m
      else insert shard
          (record { kv_data = copy_data (data_or_empty (lookup shard pulled)); state = gcing }) m
]

unfoldable pub install_all : Map ℕ (Map GoString GoString) → List ℕ → Map ℕ Shard → Map ℕ Shard
install_all pulled [] m = m
install_all pulled (shard ∷ rest) m = install_all pulled rest (install_one pulled shard m)

-- `if cur, ok := kv.dedup[cid]; !ok || seq > cur { kv.dedup[cid] = seq }`
unfoldable pub raise_seq : ℕ → ℕ → Map ℕ ℕ → Map ℕ ℕ
raise_seq cid seq m = elim (lookup cid m) [
  | none ↦ insert cid seq m
  | some cur ↦ if ltb cur seq then insert cid seq m else m
]

unfoldable pub merge_dedup : Map ℕ ℕ → Map ℕ ℕ → Map ℕ ℕ
merge_dedup [] m = m
merge_dedup ((cid, seq) ∷ rest) m = merge_dedup rest (raise_seq cid seq m)

unfoldable pub apply_install_shard : Install → GroupState → GroupState
apply_install_shard op s = if not (op.config_num == s.config.num) then s else record s {
  shards = install_all op.shard_data op.shards s.shards;
  dedup = merge_dedup op.dedup s.dedup;
}

-- GCing becomes Serving, BePulling is dropped.
unfoldable pub finish_shard : ShardState → Shard → ℕ → Map ℕ Shard → Map ℕ Shard
finish_shard gcing sh shard m = insert shard (record sh { state = serving }) m
finish_shard be_pulling sh shard m = erase shard m
finish_shard _ sh shard m = m

unfoldable pub delete_one : ℕ → Map ℕ Shard → Map ℕ Shard
delete_one shard m = elim (lookup shard m) [ none ↦ m | some sh ↦ finish_shard sh.state sh shard m ]

unfoldable pub delete_all : List ℕ → Map ℕ Shard → Map ℕ Shard
delete_all [] m = m
delete_all (shard ∷ rest) m = delete_all rest (delete_one shard m)

unfoldable pub apply_delete_shard : ℕ → List ℕ → GroupState → GroupState
apply_delete_shard config_num shards s =
    if not (config_num == s.config.num) then s else record s { shards = delete_all shards s.shards }

abbrev pub blank_result : OpResult
blank_result = record { err = unset; value = []; client_id = 0; seq = 0 }

-- The `switch` of applyCommand.
unfoldable pub apply_op : ℕ → Op → GroupState → GroupState × OpResult
apply_op gid (client op) s = apply_client_op gid op s
apply_op gid (config c) s = (apply_config gid c s, blank_result)
apply_op gid (install_shard op) s = (apply_install_shard op s, blank_result)
apply_op gid (delete_shard n shards) s = (apply_delete_shard n shards s, blank_result)
apply_op gid empty s = (s, blank_result)
