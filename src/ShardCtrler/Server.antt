-- ===== src/ShardCtrler/Server.antt =====
-- shardctrler/server.go: the replicated state of the controller, the apply loop and the handlers.
use mit_6824_raft.Prelude.{
  ℕ, ◌+◌, ◌-◌, Bool, true, false, not, ◌&&◌, Option, none, some, List, [], ◌∷◌, ◌++◌, length,
  get_elem?, set, replicate, Map, nat_eq, GoString, lookup, insert, erase, ltb, leb, ◌==◌,
  if◌then◌else◌, ◌>>=◌,
}
use mit_6824_raft.Raft.State.{ApplyMsg}
use mit_6824_raft.ShardCtrler.Config.{
  Config, n_shards, empty_config, JoinArgs, LeaveArgs, MoveArgs, QueryArgs, Reply, QueryReply,
}
use mit_6824_raft.ShardCtrler.Rebalance.{elem, rebalance}

-- The type of an Op with the fields that the type uses.
pub data OpKind : Type 0 where
  join : Map ℕ (List GoString) → OpKind
  leave : List ℕ → OpKind
  move : ℕ → ℕ → OpKind
  query : Option ℕ → OpKind

pub record Op : Type 0 where
  pub kind : OpKind
  pub client_id : ℕ
  pub seq : ℕ

pub record ShardCtrler : Type 0 where
  pub me : ℕ
  pub dead : Bool
  pub configs : List Config
  pub dedup : Map ℕ ℕ
  pub waiters : Map ℕ (Option Op)
  pub last_applied : ℕ

unfoldable pub copy_groups : Map ℕ (List GoString) → Map ℕ (List GoString)
copy_groups [] = []
copy_groups ((gid, servers) ∷ g) = (gid, servers) ∷ copy_groups g

-- `for gid, servers := range op.Servers { nc.Groups[gid] = … }`
unfoldable pub add_groups : Map ℕ (List GoString) → Map ℕ (List GoString) → Map ℕ (List GoString)
add_groups [] groups = groups
add_groups ((gid, servers) ∷ joined) groups = add_groups joined (insert gid servers groups)

unfoldable pub drop_groups : List ℕ → Map ℕ (List GoString) → Map ℕ (List GoString)
drop_groups [] groups = groups
drop_groups (gid ∷ gids) groups = drop_groups gids (erase gid groups)

-- `if leaving[nc.Shards[s]] { nc.Shards[s] = 0 }`, over all shards.
unfoldable pub unassign : List ℕ → List ℕ → List ℕ
unassign gids [] = []
unassign gids (g ∷ shards) = (if elem g gids then 0 else g) ∷ unassign gids shards

-- The `switch` of applyMutation; `none` is the panic of an index out of range. Query has no case.
unfoldable pub mutate : OpKind → Config → Option Config
mutate (join servers) nc = some (rebalance (record nc { groups = add_groups servers nc.groups }))
mutate (leave gids) nc = some (
    rebalance (record nc { groups = drop_groups gids nc.groups; shards = unassign gids nc.shards }))
mutate (move shard gid) nc =
    if ltb shard (length nc.shards)
    then some (record nc { shards = set nc.shards shard gid })
    else none
mutate (query num) nc = some nc

-- sc.configs[len(sc.configs)-1]; `none` is the panic on an empty slice.
unfoldable pub last_config : ShardCtrler → Option Config
last_config sc =
    if length sc.configs == 0 then none else get_elem? sc.configs (length sc.configs - 1)

unfoldable pub apply_mutation : OpKind → ShardCtrler → Option ShardCtrler
apply_mutation kind sc = do
  last ← last_config sc
  nc ←
      mutate kind
        (record { num = last.num + 1; shards = last.shards; groups = copy_groups last.groups })
  some (record sc { configs = sc.configs ++ nc ∷ [] })

abbrev pub is_query : OpKind → Bool
is_query (query num) = true
is_query _ = false

-- last, ok := sc.dedup[op.ClientId]; !ok || op.Seq > last
unfoldable pub is_new : Op → ShardCtrler → Bool
is_new op sc = elim (lookup op.client_id sc.dedup) [ none ↦ true | some last ↦ ltb last op.seq ]

-- `Apply mutating ops once per (client, seq).`
unfoldable pub apply_once : Op → ShardCtrler → Option ShardCtrler
apply_once op sc =
    if not (is_query op.kind) && is_new op sc
    then apply_mutation op.kind sc
      >>= (λ sc'. some (record sc' { dedup = insert op.client_id op.seq sc'.dedup }))
    else some sc

unfoldable pub notify : ℕ → Op → ShardCtrler → ShardCtrler
notify index op sc = elim (lookup index sc.waiters) [
  | none ↦ sc
  | some _ ↦ record sc { waiters = insert index (some op) sc.waiters }
]

-- One message of applyLoop.
unfoldable pub apply_msg : ApplyMsg Op → ShardCtrler → Option ShardCtrler
apply_msg msg sc =
    if not msg.command_valid
    then some sc
    else if leb msg.command_index sc.last_applied
    then some sc
    else msg.command >>= (λ op.
      apply_once op (record sc { last_applied = msg.command_index })
      >>= (λ sc'. some (notify msg.command_index op sc')))

unfoldable pub apply_loop : List (ApplyMsg Op) → ShardCtrler → Option ShardCtrler
apply_loop [] sc = some sc
apply_loop (msg ∷ msgs) sc =
    let next = apply_msg msg sc >>= (λ sc'. apply_loop msgs sc') in
    if sc.dead then some sc else next

unfoldable pub kill : ShardCtrler → ShardCtrler
kill sc = record sc { dead = true }

-- submit after Start said that this peer leads, up to the wait and from it.
unfoldable pub submit_begin : ℕ → ShardCtrler → ShardCtrler
submit_begin index sc = record sc { waiters = insert index none sc.waiters }

unfoldable pub submit_end : Op → ℕ → Option Op → ShardCtrler → ShardCtrler × Bool
submit_end op index outcome sc = (
  record sc { waiters = erase index sc.waiters },
  elim outcome [
    | none ↦ false
    | some applied ↦ applied.client_id == op.client_id && applied.seq == op.seq
  ],
)

-- What Start answered (`none`: not the leader), and what other threads do during the wait.
unfoldable pub submit :
    Op → Option ℕ → (ShardCtrler → ShardCtrler × Option Op) → ShardCtrler → ShardCtrler × Bool
submit op none meanwhile sc = (sc, false)
submit op (some index) meanwhile sc =
    let (sc', outcome) = meanwhile (submit_begin index sc) in submit_end op index outcome sc'

-- configAt: the configuration of a number, the latest where the number is out of range.
unfoldable pub config_at : Option ℕ → ShardCtrler → Option Config
config_at none sc = last_config sc
config_at (some num) sc =
    if leb (length sc.configs) num then last_config sc else get_elem? sc.configs num

abbrev pub reply_of : Bool → Reply
reply_of true = record { wrong_leader = false; ok = true }
reply_of false = record { wrong_leader = true; ok = false }

module _ (started : Option ℕ) (meanwhile : ShardCtrler → ShardCtrler × Option Op) where
  unfoldable pub handle_join : JoinArgs → ShardCtrler → ShardCtrler × Reply
  handle_join args sc =
      let op : Op = record {
        kind = join args.servers;
        client_id = args.client_id;
        seq = args.seq;
      } in
      let (sc', ok) = submit op started meanwhile sc in (sc', reply_of ok)

  unfoldable pub handle_leave : LeaveArgs → ShardCtrler → ShardCtrler × Reply
  handle_leave args sc =
      let op : Op = record { kind = leave args.gids; client_id = args.client_id; seq = args.seq } in
      let (sc', ok) = submit op started meanwhile sc in (sc', reply_of ok)

  unfoldable pub handle_move : MoveArgs → ShardCtrler → ShardCtrler × Reply
  handle_move args sc =
      let op : Op = record {
        kind = move args.shard args.gid;
        client_id = args.client_id;
        seq = args.seq;
      } in
      let (sc', ok) = submit op started meanwhile sc in (sc', reply_of ok)

  unfoldable pub handle_query : QueryArgs → ShardCtrler → Option (ShardCtrler × QueryReply)
  handle_query args sc =
      let op : Op = record { kind = query args.num; client_id = args.client_id; seq = args.seq } in
      let (sc', ok) = submit op started meanwhile sc in
      if ok
      then config_at args.num sc'
        >>= (λ c. some (sc', record { wrong_leader = false; ok = true; config = c }))
      else some (
        sc',
        record {
          wrong_leader = true;
          ok = false;
          config = record { num = 0; shards = replicate n_shards 0; groups = [] };
        },
      )

unfoldable pub start_server : ℕ → ShardCtrler
start_server me = record {
  me = me;
  dead = false;
  configs = empty_config ∷ [];
  dedup = [];
  waiters = [];
  last_applied = 0;
}
