-- ===== src/Tests/Jobs.antt =====
-- MapReduce at concrete inputs: a count of bytes, with one worker that stops in the middle of a task
-- that is then given to another.
use mathlib.Core.List.{foldr}
use mathlib.Core.List.Perm
use mit_6824_raft.Prelude.{
  ℕ, zero, suc, ◌<◌, ◌≡◌, refl, ap, true, some, List, [], ◌∷◌, All, GoString, arith, lookup, insert,
  erase,
}
use mit_6824_raft.Mr.Coordinator.{
  task_map, task_reduce, done, RequestTaskReply, request_task, make_coordinator, request_map,
  first_available, is_available, hand_out_map, hand_out_reduce, mark_done, report_task, report_type,
  request_reduce, job_done,
}
use mit_6824_raft.Mr.Files.{
  FileName, FileOp, map_out, run_ops, name_beq, replace_file, run_op, write_all, Files, input,
  reduce_out, name_eq, concat,
}
use mit_6824_raft.Mr.Worker.{
  do_map, bucket_all, modulo, add_to_bucket, decode_file, do_reduce, encoded, fnv32a, group,
  group_run, ihash, line, lines, read_intermediate, reduce_all, reduced, write_buckets, bytes_ltb,
  less, KeyValue,
}
use mit_6824_raft.Mr.System.{
  run, step, request, initial, set_work, begin, operate_work, report_work, App, System, Event,
  requested, operated, reported, stopped,
}
use mit_6824_raft.Mr.Sequential.{map_inputs, sequential}
use mit_6824_raft.Mr.Agreement.{OrderFree, keep}
use mit_6824_raft.Mr.ReduceTask.{EmitsText, MapsDone, do_reduce_exact}
use mit_6824_raft.Mr.Buckets.{bucket_of}
use mit_6824_raft.Mr.MapTask.{Holds, Foreign, do_map_exact}
use mit_6824_raft.Mr.Counts.{IsDone}
use mit_6824_raft.Mr.Progress.{Finished}
use mit_6824_raft.Mr.Invariant.{Written}
use mit_6824_raft.Mr.Completion.{run-Written, job_done-output, run-MapsDone}
use mit_6824_raft.Mr.Outputs.{Job}
use mit_6824_raft.Tests.Votes.{got}
use mit_6824_raft.Tests.Sorting.{by_key, two_bytes, one_byte}

abbrev bytes_of : GoString → GoString → List KeyValue
bytes_of f [] = []
bytes_of f (b ∷ content) = one_byte b 0x31 ∷ bytes_of f content

abbrev tally : GoString → ℕ → ℕ
tally v n = suc n

abbrev count_values : GoString → List GoString → GoString
count_values k vs = foldr tally 0x30 vs ∷ []

abbrev counting : App
counting = record { json = two_bytes; order = by_key; mapf = bytes_of; reducef = count_values }

counting-text : EmitsText two_bytes bytes_of
counting-text f [] = tt
counting-text f (b ∷ content) = ((b, 0x31, refl), counting-text f content)

counting-free : OrderFree count_values
counting-free k vs ws p =
    let set : IsSet ℕ = hlevel in ap (λ n. n ∷ []) (Perm.foldr-eq set tally (λ a b x. refl) p 0x30)

-- Files "x" and "y" that hold "aba" and "b".
abbrev two_files : Files
two_files = (input (0x78 ∷ []), 0x61 ∷ 0x62 ∷ 0x61 ∷ []) ∷ (input (0x79 ∷ []), 0x62 ∷ []) ∷ []

abbrev x_and_y : List GoString
x_and_y = (0x78 ∷ []) ∷ (0x79 ∷ []) ∷ []

abbrev counting_job : Job
counting_job = record {
  app = counting;
  inputs = x_and_y;
  n_reduce = 2;
  start = two_files;
  out = got [] (sequential by_key bytes_of count_values x_and_y two_files);
}

abbrev operations : ℕ → ℕ → List Event → List Event
operations pid zero rest = rest
operations pid (suc n) rest = operated pid ∷ operations pid n rest

-- Worker 1 stops after three operations of map task 0; worker 2 does everything else, first map task
-- 1, and then, after the timeout, task 0 and the reduce tasks.
abbrev early : List Event → List Event
early rest =
    requested 1 0 ∷ operations 1 3 (stopped 1 ∷ requested 2 0 ∷ operations 2 5 (reported 2 ∷ rest))

abbrev late : List Event
late =
    requested 2 20_000_000_000
    ∷ operations 2 7 (
        reported 2
        ∷ requested 2 20_000_000_000
        ∷ operations 2 3
            (reported 2 ∷ requested 2 20_000_000_000 ∷ operations 2 3 (reported 2 ∷ [])))

abbrev events : List Event
events = early late

abbrev started_system : System
started_system = initial x_and_y 2 two_files

abbrev ended : System
ended = got started_system (run counting events started_system)

abbrev middle : System
middle = got started_system (run counting (early []) started_system)

ended_lem : (run counting events started_system ≡ some ended) × (job_done ended.coordinator ≡ true)
unfolding run step request initial request_task make_coordinator request_map first_available
    is_available hand_out_map set_work begin do_map lookup name_beq bucket_all modulo
    hand_out_reduce mark_done report_task report_type request_reduce replace_file run_op write_all
    operate_work report_work add_to_bucket decode_file do_reduce encoded fnv32a group group_run
    ihash line lines read_intermediate reduce_all reduced write_buckets erase insert job_done
    bytes_ltb less map_inputs sequential
ended_lem = (refl, refl)

counting_ran : sequential by_key bytes_of count_values x_and_y two_files ≡ some counting_job.out
unfolding run step request initial request_task make_coordinator request_map first_available
    is_available hand_out_map set_work begin do_map lookup name_beq bucket_all modulo
    hand_out_reduce mark_done report_task report_type request_reduce replace_file run_op write_all
    operate_work report_work add_to_bucket decode_file do_reduce encoded fnv32a group group_run
    ihash line lines read_intermediate reduce_all reduced write_buckets erase insert job_done
    bytes_ltb less map_inputs sequential
counting_ran = refl

map_1_done :
    (run counting (early []) started_system ≡ some middle)
    × (run counting late middle ≡ some ended)
    × Finished middle.coordinator task_map 1
unfolding run step request initial request_task make_coordinator request_map first_available
    is_available hand_out_map set_work begin do_map lookup name_beq bucket_all modulo
    hand_out_reduce mark_done report_task report_type request_reduce replace_file run_op write_all
    operate_work report_work add_to_bucket decode_file do_reduce encoded fnv32a group group_run
    ihash line lines read_intermediate reduce_all reduced write_buckets erase insert job_done
    bytes_ltb less map_inputs sequential
map_1_done = (refl, refl, (record { state = done; start_time = 0 }, refl, refl))

run-Written_example :
    Written counting_job task_map 1 middle.files
    × Written counting_job task_map 1 ended.files
    × ((f : GoString) → lookup (input f) ended.files ≡ lookup (input f) two_files)
run-Written_example =
    run-Written counting_job (omega arith) counting-text counting-free counting_ran (early []) late
      middle ended map_1_done.0 map_1_done.1 task_map 1 map_1_done.2

job_done-output_example :
    lookup (reduce_out 1) ended.files ≡ some (concat (lines (keep 2 1 counting_job.out)))
job_done-output_example =
    job_done-output counting_job (omega arith) counting-text counting-free counting_ran events ended
      1 ended_lem.0 ended_lem.1 (omega arith)

abbrev map_reply : RequestTaskReply
map_reply = record { type = task_map; task_id = 0; file = 0x78 ∷ []; n_map = 2; n_reduce = 2 }

do_map_exact_example :
    (ops : List FileOp) × (do_map two_bytes bytes_of 7 map_reply two_files ≡ some ops)
    × ((r : ℕ)
        → r < 2
        → Holds two_bytes
            (map_out 0 r)
            (bucket_of 2 r (bytes_of (0x78 ∷ []) (0x61 ∷ 0x62 ∷ 0x61 ∷ [])))
            (run_ops ops two_files))
    × ((f : FileName) → Foreign 7 0 f → lookup f (run_ops ops two_files) ≡ lookup f two_files)
unfolding lookup name_beq
do_map_exact_example =
    do_map_exact two_bytes bytes_of 7 map_reply two_files (0x61 ∷ 0x62 ∷ 0x61 ∷ []) (omega arith)
      refl

abbrev reduce_reply : RequestTaskReply
reduce_reply = record { type = task_reduce; task_id = 1; file = []; n_map = 2; n_reduce = 2 }

All-maps-IsDone : All IsDone ended.coordinator.map_tasks
unfolding run step request initial request_task make_coordinator request_map first_available
    is_available hand_out_map set_work begin do_map lookup name_beq bucket_all modulo
    hand_out_reduce mark_done report_task report_type request_reduce replace_file run_op write_all
    operate_work report_work add_to_bucket decode_file do_reduce encoded fnv32a group group_run
    ihash line lines read_intermediate reduce_all reduced write_buckets erase insert job_done
    bytes_ltb less map_inputs sequential
All-maps-IsDone = (refl, (refl, tt))

maps_are_done : MapsDone two_bytes bytes_of 2 0 x_and_y ended.files
maps_are_done =
    run-MapsDone counting_job (omega arith) counting-text counting-free counting_ran events ended
      ended_lem.0 All-maps-IsDone

counting_ran_again :
    sequential by_key bytes_of count_values x_and_y ended.files ≡ some counting_job.out
unfolding run step request initial request_task make_coordinator request_map first_available
    is_available hand_out_map set_work begin do_map lookup name_beq bucket_all modulo
    hand_out_reduce mark_done report_task report_type request_reduce replace_file run_op write_all
    operate_work report_work add_to_bucket decode_file do_reduce encoded fnv32a group group_run
    ihash line lines read_intermediate reduce_all reduced write_buckets erase insert job_done
    bytes_ltb less map_inputs sequential
counting_ran_again = refl

do_reduce_exact_example :
    lookup
      (reduce_out 1)
      (run_ops (do_reduce two_bytes by_key count_values 9 reduce_reply ended.files) ended.files)
    ≡ some (concat (lines (keep 2 1 counting_job.out)))
do_reduce_exact_example =
    do_reduce_exact counting 2 x_and_y reduce_reply ended.files counting_job.out 9 counting-text
      counting-free (omega arith) refl maps_are_done counting_ran_again
