-- ===== src/Tests/Stores.antt =====
-- Runs of the key/value services, of the coordinator of MapReduce and of the shard controller.
use mit_6824_raft.Prelude.{
  ℕ, ◌+◌, ◌≡◌, refl, false, none, some, lookup, insert, List, [], ◌∷◌, arith, Returns, OnSome,
}
use mit_6824_raft.Raft.State.{ApplyMsg}
use mit_6824_raft.Raft.Snapshot.{InstallSnapshotArgs, snapshot_msg}
use mit_6824_raft.Raft.Applier.{command_msg}
use mit_6824_raft.KvRaft.Server.{KvServer, Store, apply_op, apply_loop}
use mit_6824_raft.KvRaft.Server as Kv
use mit_6824_raft.KvRaft.ExactlyOnce.{replay, empty, effective, run, exactly_once, retry_ignored}
use mit_6824_raft.KvRaft.Recovery.{
  Follows, deliveries, entry, entries, apply_loop-Follows, snapshot_catch_up,
  overtaken_snapshot_lost,
}
use mit_6824_raft.KvSrv.Server as Srv
use mit_6824_raft.KvSrv.Clerk.{
  Clerk, append_method, put_append, put_append_args, Event, reply_lost, request_lost, delivered,
  other,
}
use mit_6824_raft.KvSrv.Retry.{once, IsAhead, put_append-once}
use mit_6824_raft.Mr.Coordinator.{
  Coordinator, RequestTaskReply, ReportTaskArgs, task_map, request_task, request_map,
  first_available, is_available, hand_out_map, report_task, report_type, mark_done,
  make_coordinator, done, idle, in_progress,
}
use mit_6824_raft.Mr.Counts.{count_done, IsValid}
use mit_6824_raft.Mr.Tasks.{
  InRange, Assigned, made, requested, reported, request_task_exact, Reachable-IsValid,
}
use mit_6824_raft.ShardCtrler.Server as Ctl
use mit_6824_raft.ShardCtrler.History.{Extends, apply_loop-Extends, mutation_once}
use mit_6824_raft.Tests.Wire.{store_gob}
use mit_6824_raft.Tests.Votes.{got}

-- Client 1 appends [7] to the key [3] twice with one number; client 2 puts another value between.
abbrev append_7 : Kv.Op
append_7 = record { type = Kv.append; key = 3 ∷ []; value = 7 ∷ []; client_id = 1; seq = 1 }

abbrev put_9 : Kv.Op
put_9 = record { type = Kv.put; key = 3 ∷ []; value = 9 ∷ []; client_id = 2; seq = 1 }

exactly_once_example :
    (replay (append_7 ∷ put_9 ∷ append_7 ∷ []) empty).kv_data
    ≡ run (effective [] (append_7 ∷ put_9 ∷ append_7 ∷ [])) []
exactly_once_example = exactly_once (append_7 ∷ put_9 ∷ append_7 ∷ [])

retry_ignored_example :
    let s' = replay (put_9 ∷ []) (apply_op append_7 empty).0 in (apply_op append_7 s').0 ≡ s'
retry_ignored_example = retry_ignored append_7 (put_9 ∷ []) empty refl

abbrev kv : KvServer
kv = record {
  me = 0;
  dead = false;
  max_raft_state = none;
  store = empty;
  waiters = [];
  last_applied = 0;
}

abbrev size : ℕ → ℕ
size i = 10

apply_loop-Follows_example :
    Returns
      (Follows (replay (append_7 ∷ put_9 ∷ []) empty) (0 + 2))
      (apply_loop store_gob (deliveries size 1 (entries 1 (append_7 ∷ put_9 ∷ []))) kv)
apply_loop-Follows_example =
    apply_loop-Follows store_gob size 1 0 (append_7 ∷ put_9 ∷ []) empty kv
      (record { alive = refl; at = refl; state = refl })

abbrev snap : InstallSnapshotArgs
snap = record {
  term = 1;
  leader_id = 1;
  last_included_index = 1;
  last_included_term = 1;
  bytes = store_gob.encode (replay (append_7 ∷ []) empty);
}

snapshot_catch_up_example :
    Returns (Follows (replay (put_9 ∷ []) (replay (append_7 ∷ []) empty)) (1 + 1)) (
      apply_loop store_gob
        ((size 0, snapshot_msg snap) ∷ deliveries size 2 (entries 1 (put_9 ∷ [])))
        kv)
snapshot_catch_up_example =
    snapshot_catch_up store_gob size 1 (append_7 ∷ []) (put_9 ∷ []) snap kv refl (omega arith) refl

overtaken_snapshot_lost_example : Returns (Follows (apply_op put_9 empty).0 2) (
    apply_loop store_gob
      ((size 0, command_msg (entry 1 put_9) 2) ∷ (size 1, snapshot_msg snap) ∷ [])
      kv)
overtaken_snapshot_lost_example =
    overtaken_snapshot_lost store_gob size 1 put_9 snap kv refl (omega arith)

-- Files and tasks of MapReduce: the map task is done, one of two reduce tasks is under way.
abbrev mr : Coordinator
mr = record {
  files = (1 ∷ []) ∷ [];
  n_map = 1;
  n_reduce = 2;
  map_tasks = record { state = done; start_time = 0 } ∷ [];
  reduce_tasks =
      record { state = in_progress; start_time = 3 } ∷ record { state = idle; start_time = 0 } ∷ [];
  map_done = 1;
  reduce_done = 0;
}

mr-IsValid : IsValid mr
mr-IsValid = record {
  files_len = refl;
  map_len = refl;
  reduce_len = refl;
  map_count = unfold count_done in refl;
  reduce_count = unfold count_done in refl;
}

request_task_exact_example :
    (r : Coordinator × RequestTaskReply) × (request_task 4 mr ≡ some r) × Assigned 4 mr r
request_task_exact_example = request_task_exact 4 mr mr-IsValid

-- A job of one file: the map task is handed out, and its report comes twice.
abbrev report : ReportTaskArgs
report = record { type = task_map; task_id = 0 }

abbrev fresh : Coordinator
fresh = make_coordinator ((1 ∷ []) ∷ []) 2

abbrev given : RequestTaskReply
given = record { type = task_map; task_id = 0; file = 1 ∷ []; n_map = 1; n_reduce = 2 }

abbrev mapping : Coordinator
mapping = record fresh { map_tasks = record { state = in_progress; start_time = 5 } ∷ [] }

abbrev mapped : Coordinator
mapped = record fresh { map_tasks = record { state = done; start_time = 5 } ∷ []; map_done = 1 }

calls_lem :
    (request_task 5 fresh ≡ some (mapping, given))
    × (report_task report mapping ≡ some mapped)
    × (report_task report mapped ≡ some mapped)
unfolding make_coordinator request_task request_map first_available is_available hand_out_map
    report_task report_type mark_done
calls_lem = (refl, refl, refl)

mapping-InRange : InRange report mapping
mapping-InRange = ((λ _. omega arith), (λ e. cc))

mapped-InRange : InRange report mapped
mapped-InRange = ((λ _. omega arith), (λ e. cc))

Reachable-IsValid_example : IsValid mapped
Reachable-IsValid_example = Reachable-IsValid {files = (1 ∷ []) ∷ []} {n = 2} mapped (
    reported report (reported report (requested 5 made calls_lem.0) mapping-InRange calls_lem.1)
      mapped-InRange calls_lem.2)

-- A clerk's Append whose first request is lost, then the reply, with another client's Put between.
abbrev ck : Clerk
ck = record { client_id = 1; seq = 4 }

abbrev srv : Srv.KvServer
srv = record { kv_data = []; dedup = (1, record { seq = 4; reply = [] }) ∷ [] }

abbrev other_put : Event
other_put = other append_method (record { key = 3 ∷ []; value = 8 ∷ []; client_id = 2; seq = 1 })

abbrev events : List Event
events = request_lost ∷ reply_lost ∷ other_put ∷ delivered ∷ []

srv-IsAhead : IsAhead ck srv
srv-IsAhead last e = unfold lookup in ground (arith, e)

put_append-once_example :
    let (_, srv', v) = put_append ck (3 ∷ []) (7 ∷ []) append_method events srv in
    (srv', v) ≡ once append_method (put_append_args ck (3 ∷ []) (7 ∷ [])) events srv
put_append-once_example =
    put_append-once ck (3 ∷ []) (7 ∷ []) append_method events srv srv-IsAhead
      (tt, (tt, ((λ e. omega (arith, e)), (tt, tt))))

-- A client moves a shard, another client moves it back, and the first request comes once more.
abbrev move_to_5 : Ctl.Op
move_to_5 = record { kind = Ctl.move 2 5; client_id = 1; seq = 1 }

abbrev move_to_0 : Ctl.Op
move_to_0 = record { kind = Ctl.move 2 0; client_id = 2; seq = 1 }

abbrev message : ℕ → Ctl.Op → ApplyMsg Ctl.Op
message i op = command_msg (record { term = 1; command = some op }) i

abbrev ctl : Ctl.ShardCtrler
ctl = Ctl.start_server 0

apply_loop-Extends_example :
    OnSome (Extends ctl) (Ctl.apply_loop (message 1 move_to_5 ∷ message 2 move_to_0 ∷ []) ctl)
apply_loop-Extends_example = apply_loop-Extends (message 1 move_to_5 ∷ message 2 move_to_0 ∷ []) ctl

abbrev moved_once : Ctl.ShardCtrler
moved_once = got ctl (Ctl.apply_once move_to_5 ctl)

abbrev moved_twice : Ctl.ShardCtrler
moved_twice = got ctl (Ctl.apply_loop (message 2 move_to_0 ∷ []) moved_once)

moved_once_lem :
    (Ctl.apply_once move_to_5 ctl ≡ some moved_once)
    × (Ctl.apply_loop (message 2 move_to_0 ∷ []) moved_once ≡ some moved_twice)
unfolding Ctl.apply_once Ctl.apply_loop Ctl.is_new lookup Ctl.start_server Ctl.apply_mutation
    Ctl.last_config Ctl.mutate Ctl.apply_msg Ctl.notify Ctl.copy_groups command_msg insert
moved_once_lem = (refl, refl)

mutation_once_example : Ctl.apply_once move_to_5 moved_twice ≡ some moved_twice
mutation_once_example =
    mutation_once move_to_5 (message 2 move_to_0 ∷ []) ctl moved_once moved_twice refl
      moved_once_lem.0 moved_once_lem.1
