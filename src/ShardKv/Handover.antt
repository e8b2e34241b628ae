-- ===== src/ShardKv/Handover.antt =====
-- The handover of shards between groups: PullShard, the command that installs its reply, and
-- DeleteShard.
use mit_6824_raft.Prelude.{
  ℕ, ◌≡◌, refl, ap, Bool, true, false, ◌||◌, Option, none, some, List, [], ◌∷◌, Map, nat_eq,
  bytes_eq, lookup, insert, lookup-insert, ◌==◌, leb, if◌then◌else◌, arith, GoString, some_unique,
}
use mit_6824_raft.ShardKv.Server.{
  ok, is_pulling, gcing, Shard, ClientOp, Op, install_shard, empty, GroupState, ShardKv, copy_data,
  data_or_empty, is_duplicate, apply_client_op, install_one, install_all, apply_install_shard,
  apply_op, notify, Install,
}
use mit_6824_raft.ShardKv.Migrate.{
  PullShardArgs, PullShardReply, DeleteShardArgs, pulled_data, copy_dedup, handle_pull_shard,
  pull_from, handle_delete_shard, submit, submit_begin, submit_end, check_identity, delete_reply,
}
use mit_6824_raft.ShardKv.Serve.{
  listed, replay, is_duplicate-replay, is_duplicate-install, duplicate_ignored,
}

copy_dedup_lem : (m : Map ℕ ℕ) → copy_dedup m ≡ m
unfolding copy_dedup
copy_dedup_lem [] = refl
copy_dedup_lem ((k, seq) ∷ m) = ap (λ r. (k, seq) ∷ r) (copy_dedup_lem m)

copy_data_lem : (m : Map GoString GoString) → copy_data m ≡ m
unfolding copy_data
copy_data_lem [] = refl
copy_data_lem ((k, v) ∷ m) = ap (λ r. (k, v) ∷ r) (copy_data_lem m)

listed-lookup :
    (cid n : ℕ) (m : Map ℕ ℕ)
    → (elim (lookup cid m) [ none ↦ false | some last ↦ leb n last ]) ≡ true
    → listed cid n m ≡ true
unfolding lookup listed
listed-lookup cid n [] h = h
listed-lookup cid n ((k, seq) ∷ m) h = ground (arith, listed-lookup cid n m, h)

-- The reply of PullShard, where it says OK.
pulled :
    (leads : Bool) (args : PullShardArgs) (src : ShardKv)
    → (handle_pull_shard leads args src).err ≡ ok
    → handle_pull_shard leads args src ≡ record {
      err = ok;
      config_num = args.config_num;
      shard_data = pulled_data src.group.shards args.shards [];
      dedup = src.group.dedup;
    }
unfolding handle_pull_shard
pulled leads args src h = ground (arith, h, copy_dedup_lem src.group.dedup)

pull_from-ok :
    (n : ℕ) (shards : List ℕ) (rest : List (Option PullShardReply)) {r : PullShardReply}
    → {m : ℕ} {got : Map ℕ (Map GoString GoString)} {dedup : Map ℕ ℕ}
    → r ≡ record { err = ok; config_num = m; shard_data = got; dedup = dedup }
    → pull_from n shards (some r ∷ rest)
      ≡ some (
          install_shard
            (record { config_num = n; shards = shards; shard_data = got; dedup = dedup }))
unfolding pull_from
pull_from-ok n shards rest e = ap (λ x. pull_from n shards (some x ∷ rest)) e

-- An operation that the table of clients of one group covers is not applied by the group that
-- takes over from it: if PullShard replies OK and a round of shardPuller installs the reply for
-- the group's configuration, the operation changes nothing after any further commands.
pub migrated_once :
    (gid : ℕ) (op : ClientOp) (leads : Bool) (args : PullShardArgs) (src : ShardKv)
    → (rest : List (Option PullShardReply)) (command : Op) (later : List Op) (s : GroupState)
    → is_duplicate op src.group ≡ true
    → (handle_pull_shard leads args src).err ≡ ok
    → pull_from args.config_num args.shards (some (handle_pull_shard leads args src) ∷ rest)
      ≡ some command
    → args.config_num ≡ s.config.num
    → let s' = replay gid later (apply_op gid command s).0 in (apply_client_op gid op s').0 ≡ s'
migrated_once gid op leads args src rest command later s dup h e n =
    let ins : Install = record {
      config_num = args.config_num;
      shards = args.shards;
      shard_data = pulled_data src.group.shards args.shards [];
      dedup = src.group.dedup;
    } in
    some_unique
      (λ c. let s' = replay gid later (apply_op gid c s).0 in (apply_client_op gid op s').0 ≡ s')
      (pull_from-ok args.config_num args.shards rest (pulled leads args src h)) e
      (duplicate_ignored gid op (replay gid later (apply_op gid (install_shard ins) s).0) (
        is_duplicate-replay gid later op (apply_op gid (install_shard ins) s).0 (
          unfold apply_op in
          is_duplicate-install op ins s n
            (listed-lookup op.client_id op.seq src.group.dedup (unfold is_duplicate in dup)))))

unfoldable pub asked : ℕ → List ℕ → Bool
asked i [] = false
asked i (j ∷ js) = (j == i) || asked i js

-- The data that a reply has for a shard: the group's, or nothing where it has no such shard.
abbrev pub data_of : Option Shard → Map GoString GoString
data_of none = []
data_of (some sh) = sh.kv_data

lookup-pulled_data :
    (owned : Map ℕ Shard) (js : List ℕ) (i : ℕ) (acc : Map ℕ (Map GoString GoString))
    → lookup i (pulled_data owned js acc)
      ≡ (if asked i js then some (data_of (lookup i owned)) else lookup i acc)
unfolding pulled_data asked
lookup-pulled_data owned [] i acc = refl
lookup-pulled_data owned (j ∷ js) i acc = grind (
  arith,
  lookup-insert,
  copy_data_lem,
  lookup-pulled_data owned js i (elim (lookup j owned) [
    | none ↦ insert j [] acc
    | some sh ↦ insert j (copy_data sh.kv_data) acc
  ]),
)

-- What installing makes of one shard.
abbrev pub installed : Map GoString GoString → Option Shard → Option Shard
installed got none = none
installed got (some sh) =
    if is_pulling sh.state then some (record { kv_data = got; state = gcing }) else some sh

lookup-install_all :
    (got : Map ℕ (Map GoString GoString)) (js : List ℕ) (i : ℕ) (m : Map ℕ Shard)
    → lookup i (install_all got js m)
      ≡ (if asked i js then installed (data_or_empty (lookup i got)) (lookup i m) else lookup i m)
unfolding install_all asked install_one
lookup-install_all got [] i m = refl
lookup-install_all got (j ∷ js) i m =
    grind (arith, lookup-insert, copy_data_lem, lookup-install_all got js i (install_one got j m))

-- A handover is exact: where PullShard replies OK and the reply is installed for the group's
-- configuration, a requested shard that the group waits for has the data that the other group holds
-- (none where it holds no such shard), and every other shard of the group stays as it was.
pub handover_exact :
    (gid : ℕ) (leads : Bool) (args : PullShardArgs) (src : ShardKv)
    → (rest : List (Option PullShardReply)) (command : Op) (s : GroupState) (i : ℕ)
    → (handle_pull_shard leads args src).err ≡ ok
    → pull_from args.config_num args.shards (some (handle_pull_shard leads args src) ∷ rest)
      ≡ some command
    → args.config_num ≡ s.config.num
    → lookup i (apply_op gid command s).0.shards ≡ (
        if asked i args.shards
        then installed (data_of (lookup i src.group.shards)) (lookup i s.shards)
        else lookup i s.shards)
handover_exact gid leads args src rest command s i h e n =
    some_unique
      (λ c. lookup i (apply_op gid c s).0.shards ≡ (
        if asked i args.shards
        then installed (data_of (lookup i src.group.shards)) (lookup i s.shards)
        else lookup i s.shards))
      (pull_from-ok args.config_num args.shards rest (pulled leads args src h)) e
      (unfold apply_op apply_install_shard in
        ground (
          arith,
          n,
          lookup-pulled_data src.group.shards args.shards i [],
          lookup-install_all (pulled_data src.group.shards args.shards []) args.shards i s.shards,
        ))

-- DeleteShard can report success with nothing deleted: where Start gave an index at which another
-- leader's command is committed instead, here an empty one, the handler of the group that leads and
-- stands at the requested configuration replies OK and leaves its shards as they were.
pub deleted_by_another :
    (index : ℕ) (args : DeleteShardArgs) (kv : ShardKv)
    → args.config_num ≡ kv.group.config.num
    → let res = (apply_op kv.gid empty kv.group).1 in
      let done =
        handle_delete_shard (some index) (λ k. (notify index res k, some res)) true args kv in
      (done.1 ≡ ok) × (done.0.group ≡ kv.group)
unfolding handle_delete_shard submit submit_begin submit_end check_identity delete_reply notify
    apply_op
deleted_by_another index args kv n = ground (arith, n)
