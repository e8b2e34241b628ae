-- ===== src/ShardKv/Migrate.antt =====
-- shardkv/server.go: the RPC handlers, of the clients and of other groups, and one round of each
-- background loop. Raft's answers (GetState, Start, HasCurrentTermLog) are arguments.
use mit_6824_raft.Prelude.{
  ℕ, ◌+◌, Bool, not, Option, none, some, List, [], ◌∷◌, ◌++◌, Map, nat_eq, bytes_eq, GoString,
  lookup, insert, erase, ltb, ◌==◌, if◌then◌else◌,
}
use mit_6824_raft.ShardCtrler.Config.{Config}
use mit_6824_raft.ShardKv.Server.{
  Err, ok, wrong_group, wrong_leader, timeout, not_ready, ShardState, is_pulling, is_gcing, Shard,
  copy_data, ClientType, get, Op, client, config, install_shard, delete_shard, empty, OpResult,
  GroupState, ShardKv, key2shard, shard_gid, can_serve, settled,
}

pub record GetArgs : Type 0 where
  pub key : GoString
  pub client_id : ℕ
  pub seq : ℕ

pub record GetReply : Type 0 where
  pub err : Err
  pub value : GoString

-- `op` is "Put" or "Append".
pub record PutAppendArgs : Type 0 where
  pub key : GoString
  pub value : GoString
  pub op : ClientType
  pub client_id : ℕ
  pub seq : ℕ

pub record PullShardArgs : Type 0 where
  pub config_num : ℕ
  pub shards : List ℕ

pub record PullShardReply : Type 0 where
  pub err : Err
  pub config_num : ℕ
  pub shard_data : Map ℕ (Map GoString GoString)
  pub dedup : Map ℕ ℕ

pub record DeleteShardArgs : Type 0 where
  pub config_num : ℕ
  pub shards : List ℕ

-- The channel for the index that Start gave.
unfoldable pub submit_begin : ℕ → ShardKv → ShardKv
submit_begin index kv = record kv { waiters = insert index none kv.waiters }

abbrev pub failed : Err → OpResult
failed e = record { err = e; value = []; client_id = 0; seq = 0 }

-- The identity check of submit, which only the operations of clients have.
unfoldable pub check_identity : Op → OpResult → OpResult
check_identity (client op) res =
    if not (res.client_id == op.client_id)
    then failed wrong_leader
    else if not (res.seq == op.seq)
    then failed wrong_leader
    else res
check_identity _ res = res

-- The select: a result from the channel, or `none` where the time is up.
unfoldable pub submit_end : Op → ℕ → Option OpResult → ShardKv → ShardKv × OpResult
submit_end op index outcome kv = (
  record kv { waiters = erase index kv.waiters },
  elim outcome [ none ↦ failed timeout | some res ↦ check_identity op res ],
)

-- `started` is the index from Start where this peer leads. Between the two halves other threads run:
-- `meanwhile` is what they do to the server, and the result that arrives.
unfoldable pub submit :
    Op → Option ℕ → (ShardKv → ShardKv × Option OpResult) → ShardKv → ShardKv × OpResult
submit op none meanwhile kv = (kv, failed wrong_leader)
submit op (some index) meanwhile kv =
    let (kv', outcome) = meanwhile (submit_begin index kv) in submit_end op index outcome kv'

abbrev get_op : GetArgs → Op
get_op args =
    client (record {
      type = get;
      key = args.key;
      value = [];
      client_id = args.client_id;
      seq = args.seq;
    })

abbrev put_append_op : PutAppendArgs → Op
put_append_op args = client (record {
  type = args.op;
  key = args.key;
  value = args.value;
  client_id = args.client_id;
  seq = args.seq;
})

-- `reply.Data[shard]` for each requested shard, empty where this group has none.
unfoldable pub pulled_data :
    Map ℕ Shard → List ℕ → Map ℕ (Map GoString GoString) → Map ℕ (Map GoString GoString)
pulled_data owned [] acc = acc
pulled_data owned (shard ∷ rest) acc = pulled_data owned rest (elim (lookup shard owned) [
  | none ↦ insert shard [] acc
  | some sh ↦ insert shard (copy_data sh.kv_data) acc
])

-- The copy of the table of clients.
unfoldable pub copy_dedup : Map ℕ ℕ → Map ℕ ℕ
copy_dedup [] = []
copy_dedup ((cid, seq) ∷ m) = (cid, seq) ∷ copy_dedup m

abbrev refused : Err → PullShardReply
refused e = record { err = e; config_num = 0; shard_data = []; dedup = [] }

unfoldable pub handle_pull_shard : Bool → PullShardArgs → ShardKv → PullShardReply
handle_pull_shard leads args kv =
    if not leads
    then refused wrong_leader
    else if ltb kv.group.config.num args.config_num
    then refused not_ready
    else record {
      err = ok;
      config_num = args.config_num;
      shard_data = pulled_data kv.group.shards args.shards [];
      dedup = copy_dedup kv.group.dedup;
    }

-- What DeleteShard replies to the result of its submit.
unfoldable pub delete_reply : Err → Err
delete_reply wrong_leader = wrong_leader
delete_reply timeout = timeout
delete_reply _ = ok

module _ (started : Option ℕ) (meanwhile : ShardKv → ShardKv × Option OpResult) where
  unfoldable pub handle_get : GetArgs → ShardKv → ShardKv × GetReply
  handle_get args kv =
      if not (can_serve kv.gid (key2shard args.key) kv.group)
      then (kv, record { err = wrong_group; value = [] })
      else let (kv', res) = submit (get_op args) started meanwhile kv in
        (kv', record { err = res.err; value = res.value })

  unfoldable pub handle_put_append : PutAppendArgs → ShardKv → ShardKv × Err
  handle_put_append args kv =
      if not (can_serve kv.gid (key2shard args.key) kv.group)
      then (kv, wrong_group)
      else let (kv', res) = submit (put_append_op args) started meanwhile kv in (kv', res.err)

  unfoldable pub handle_delete_shard : Bool → DeleteShardArgs → ShardKv → ShardKv × Err
  handle_delete_shard leads args kv =
      if not leads
      then (kv, wrong_leader)
      else if ltb args.config_num kv.group.config.num
      then (kv, ok)
      else if ltb kv.group.config.num args.config_num
      then (kv, not_ready)
      else let (kv', res) =
          submit (delete_shard args.config_num args.shards) started meanwhile kv in
        (kv', delete_reply res.err)

-- One round of configPoller: the configuration to ask the controller for.
unfoldable pub next_query : Bool → GroupState → Option ℕ
next_query leads s =
    if not leads then none else if not (settled s.shards) then none else some (s.config.num + 1)

-- And the command that the answer leads to.
unfoldable pub config_command : ℕ → Config → Option Op
config_command next_num next = if next.num == next_num then some (config next) else none

abbrev shards_or_none : Option (List ℕ) → List ℕ
shards_or_none none = []
shards_or_none (some shards) = shards

-- The shards in the states of `test`, by their owner in the previous configuration.
unfoldable pub by_previous_owner :
    (ShardState → Bool) → Config → Map ℕ Shard → Map ℕ (List ℕ) → Map ℕ (List ℕ)
by_previous_owner test prev [] acc = acc
by_previous_owner test prev ((shard, sh) ∷ rest) acc =
    let owner = shard_gid prev shard in
    by_previous_owner test prev rest (
      if test sh.state
      then insert owner (shards_or_none (lookup owner acc) ++ shard ∷ []) acc
      else acc)

-- What a round of shardPuller asks for, one request to each group, and what one of shardGC does.
unfoldable pub pulls : GroupState → Map ℕ (List ℕ)
pulls s = by_previous_owner is_pulling s.prev_config s.shards []

unfoldable pub collections : GroupState → Map ℕ (List ℕ)
collections s = by_previous_owner is_gcing s.prev_config s.shards []

-- The loop over the servers of a group; a reply that did not arrive is `none`. The command is the
-- one for the first reply that says OK.
unfoldable pub pull_from : ℕ → List ℕ → List (Option PullShardReply) → Option Op
pull_from config_num shards [] = none
pull_from config_num shards (none ∷ rest) = pull_from config_num shards rest
pull_from config_num shards (some r ∷ rest) =
    let later = pull_from config_num shards rest in
    elim r.err [
      | ok ↦ some (
          install_shard (record {
            config_num = config_num;
            shards = shards;
            shard_data = r.shard_data;
            dedup = r.dedup;
          }))
      | _ ↦ later
    ]

unfoldable pub collect_from : ℕ → List ℕ → List (Option Err) → Option Op
collect_from config_num shards [] = none
collect_from config_num shards (none ∷ rest) = collect_from config_num shards rest
collect_from config_num shards (some ok ∷ rest) = some (delete_shard config_num shards)
collect_from config_num shards (some _ ∷ rest) = collect_from config_num shards rest

-- One round of emptyLogChecker.
unfoldable pub empty_command : Bool → Bool → Option Op
empty_command leads has_current_term_log =
    if not leads then none else if not has_current_term_log then some empty else none
