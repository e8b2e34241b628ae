-- ===== src/Tests/Groups.antt =====
-- Runs of a shard's handover from group 5 to group 6.
use mit_6824_raft.Prelude.{
  ◌≡◌, ◌↔◌, refl, true, false, if◌then◌else◌, none, some, [], ◌∷◌, arith, lookup, insert, nat_eq,
  bytes_eq,
}
use mit_6824_raft.ShardCtrler.Config.{Config}
use mit_6824_raft.ShardKv.Server.{
  client, ok, wrong_group, serving, pulling, be_pulling, ClientOp, append, Op, config,
  install_shard, delete_shard, empty, GroupState, ShardKv, shard_gid, apply_client_op, apply_op,
  can_serve, key2shard, is_duplicate, notify, serve_shard, copy_data,
}
use mit_6824_raft.ShardKv.Migrate.{
  PullShardArgs, DeleteShardArgs, handle_pull_shard, handle_delete_shard, pull_from, pulled_data,
  copy_dedup,
}
use mit_6824_raft.ShardKv.Serve.{replay, apply_client_op-can_serve, answered_once}
use mit_6824_raft.ShardKv.Owner.{Fits, start, start-Fits, apply_op-Fits}
use mit_6824_raft.ShardKv.Pending.{waits, stays_until_deleted}
use mit_6824_raft.ShardKv.Handover.{
  asked, data_of, installed, migrated_once, handover_exact, deleted_by_another,
}

-- Shard 1 is the group 5's in the first configuration and the group 6's in the second.
abbrev first : Config
first = record { num = 1; shards = 0 ∷ 5 ∷ 0 ∷ 0 ∷ 0 ∷ 0 ∷ 0 ∷ 0 ∷ 0 ∷ 0 ∷ []; groups = [] }

abbrev second : Config
second = record { num = 2; shards = 0 ∷ 6 ∷ 0 ∷ 0 ∷ 0 ∷ 0 ∷ 0 ∷ 0 ∷ 0 ∷ 0 ∷ []; groups = [] }

abbrev zeroth : Config
zeroth = record { num = 0; shards = 0 ∷ 0 ∷ 0 ∷ 0 ∷ 0 ∷ 0 ∷ 0 ∷ 0 ∷ 0 ∷ 0 ∷ []; groups = [] }

-- Group 5 before the change.
abbrev owner : GroupState
owner = record {
  shards = (1, record { kv_data = (1 ∷ [], 4 ∷ []) ∷ []; state = serving }) ∷ [];
  dedup = [];
  config = first;
  prev_config = zeroth;
}

-- An Append to a key of shard 1.
abbrev append_7 : ClientOp
append_7 = record { type = append; key = 1 ∷ []; value = 7 ∷ []; client_id = 3; seq = 1 }

apply_client_op-can_serve_example :
    ((apply_client_op 6 append_7 owner).1.err ≡ wrong_group
      ↔ can_serve 6 (key2shard (1 ∷ [])) owner ≡ false)
    × (can_serve 6 (key2shard (1 ∷ [])) owner ≡ false
        → (apply_client_op 6 append_7 owner).0 ≡ owner)
apply_client_op-can_serve_example = apply_client_op-can_serve 6 append_7 owner

abbrev served : GroupState
served = (apply_client_op 5 append_7 owner).0

answered_once_example :
    let s' = replay 5 (config second ∷ delete_shard 2 (1 ∷ []) ∷ []) served in
    (apply_client_op 5 append_7 s').0 ≡ s'
answered_once_example =
    answered_once 5 append_7 (config second ∷ delete_shard 2 (1 ∷ []) ∷ []) owner refl
      (unfold apply_client_op shard_gid key2shard lookup serve_shard is_duplicate in refl)

-- Group 5 afterwards, with the shard and the client's number, and group 6, which waits for it.
abbrev source : ShardKv
source = record {
  me = 0;
  gid = 5;
  dead = false;
  max_raft_state = none;
  group = record {
    shards = (1, record { kv_data = (1 ∷ [], 4 ∷ 7 ∷ []) ∷ []; state = be_pulling }) ∷ [];
    dedup = (3, 1) ∷ [];
    config = second;
    prev_config = first;
  };
  waiters = [];
  last_applied = 4;
}

abbrev target : GroupState
target = record {
  shards = (1, record { kv_data = []; state = pulling }) ∷ [];
  dedup = [];
  config = second;
  prev_config = first;
}

abbrev args : PullShardArgs
args = record { config_num = 2; shards = 1 ∷ [] }

abbrev command : Op
command = install_shard (record {
  config_num = 2;
  shards = 1 ∷ [];
  shard_data = (1, (1 ∷ [], 4 ∷ 7 ∷ []) ∷ []) ∷ [];
  dedup = (3, 1) ∷ [];
})

source_lem : is_duplicate append_7 source.group ≡ true
unfolding is_duplicate lookup
source_lem = refl

pulled_ok : (handle_pull_shard true args source).err ≡ ok
unfolding handle_pull_shard
pulled_ok = refl

command_lem : pull_from 2 (1 ∷ []) (some (handle_pull_shard true args source) ∷ []) ≡ some command
unfolding pull_from handle_pull_shard pulled_data copy_dedup lookup insert copy_data
command_lem = refl

migrated_once_example :
    let s' = replay 6 (delete_shard 2 (1 ∷ []) ∷ []) (apply_op 6 command target).0 in
    (apply_client_op 6 append_7 s').0 ≡ s'
migrated_once_example =
    migrated_once 6 append_7 true args source [] command (delete_shard 2 (1 ∷ []) ∷ []) target
      source_lem pulled_ok command_lem refl

handover_exact_example : lookup 1 (apply_op 6 command target).0.shards ≡ (
    if asked 1 args.shards
    then installed (data_of (lookup 1 source.group.shards)) (lookup 1 target.shards)
    else lookup 1 target.shards)
handover_exact_example =
    handover_exact 6 true args source [] command target 1 pulled_ok command_lem refl

apply_op-Fits_example : Fits 5 (apply_op 5 (config first) start).0
apply_op-Fits_example =
    apply_op-Fits 5 (config first) start (omega arith) (start-Fits 5 (omega arith))

abbrev collected : DeleteShardArgs
collected = record { config_num = 2; shards = 1 ∷ [] }

deleted_by_another_example :
    let res = (apply_op 5 empty source.group).1 in
    let finished =
      handle_delete_shard (some 5) (λ k. (notify 5 res k, some res)) true collected source in
    (finished.1 ≡ ok) × (finished.0.group ≡ source.group)
deleted_by_another_example = deleted_by_another 5 collected source refl

stays_until_deleted_example :
    let s' = replay 5 (config zeroth ∷ client append_7 ∷ []) source.group in
    (waits (lookup 1 s'.shards) ≡ true) × (s'.config ≡ source.group.config)
stays_until_deleted_example =
    stays_until_deleted 5 (config zeroth ∷ client append_7 ∷ []) 1 source.group refl
      (unfold lookup in refl)
