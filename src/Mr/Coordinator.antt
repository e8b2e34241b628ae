-- ===== src/Mr/Coordinator.antt =====
-- mr/coordinator.go and mr/rpc.go: the tasks of a MapReduce job and the two RPC handlers. An index
-- out of range is `none` (Go panics there). Times are in nanoseconds.
use mit_6824_raft.Prelude.{
  ℕ, suc, ◌+◌, ◌-◌, Bool, true, false, Option, none, some, List, [], ◌∷◌, length, get_elem?, set,
  replicate, GoString, ltb, ◌==◌, if◌then◌else◌, ◌>>=◌,
}

pub data TaskState : Type 0 where
  idle in_progress done : TaskState

pub data TaskType : Type 0 where
  task_none task_map task_reduce task_exit : TaskType

abbrev pub task_timeout : ℕ
task_timeout = 10_000_000_000

pub record TaskInfo : Type 0 where
  pub state : TaskState
  pub start_time : ℕ

pub record Coordinator : Type 0 where
  pub files : List GoString
  pub n_map : ℕ
  pub n_reduce : ℕ
  pub map_tasks : List TaskInfo
  pub reduce_tasks : List TaskInfo
  pub map_done : ℕ
  pub reduce_done : ℕ

pub record RequestTaskReply : Type 0 where
  pub type : TaskType
  pub task_id : ℕ
  pub file : GoString
  pub n_map : ℕ
  pub n_reduce : ℕ

pub record ReportTaskArgs : Type 0 where
  pub type : TaskType
  pub task_id : ℕ

abbrev pub blank_reply : TaskType → RequestTaskReply
blank_reply t = record { type = t; task_id = 0; file = []; n_map = 0; n_reduce = 0 }

-- t.state == stateIdle || (t.state == stateInProgress && now.Sub(t.startTime) > taskTimeout)
unfoldable pub is_available : ℕ → TaskInfo → Bool
is_available now t = elim t.state [
  | idle ↦ true
  | in_progress ↦ ltb task_timeout (now - t.start_time)
  | done ↦ false
]

-- The index of the first task that can be handed out, counted from `i`.
unfoldable pub first_available : ℕ → ℕ → List TaskInfo → Option ℕ
first_available now i [] = none
first_available now i (t ∷ ts) =
    let rest = first_available now (suc i) ts in if is_available now t then some i else rest

abbrev pub started : ℕ → TaskInfo
started now = record { state = in_progress; start_time = now }

unfoldable pub hand_out_map : ℕ → ℕ → Coordinator → Option (Coordinator × RequestTaskReply)
hand_out_map now i c = do
  file ← get_elem? c.files i
  some (
    record c { map_tasks = set c.map_tasks i (started now) },
    record { type = task_map; task_id = i; file = file; n_map = c.n_map; n_reduce = c.n_reduce },
  )

unfoldable pub hand_out_reduce : ℕ → ℕ → Coordinator → Coordinator × RequestTaskReply
hand_out_reduce now i c = (
  record c { reduce_tasks = set c.reduce_tasks i (started now) },
  record { type = task_reduce; task_id = i; file = []; n_map = c.n_map; n_reduce = c.n_reduce },
)

unfoldable pub request_map : ℕ → Coordinator → Option (Coordinator × RequestTaskReply)
request_map now c = elim (first_available now 0 c.map_tasks) [
  | none ↦ some (c, blank_reply task_none)
  | some i ↦ hand_out_map now i c
]

unfoldable pub request_reduce : ℕ → Coordinator → Coordinator × RequestTaskReply
request_reduce now c = elim (first_available now 0 c.reduce_tasks) [
  | none ↦ (c, blank_reply task_none)
  | some i ↦ hand_out_reduce now i c
]

unfoldable pub request_task : ℕ → Coordinator → Option (Coordinator × RequestTaskReply)
request_task now c =
    if ltb c.map_done c.n_map
    then request_map now c
    else if ltb c.reduce_done c.n_reduce
    then some (request_reduce now c)
    else some (c, blank_reply task_exit)

abbrev pub is_done : TaskState → Bool
is_done done = true
is_done _ = false

-- `if t.state != stateDone { t.state = stateDone; …Done++ }`: the tasks and the counter.
unfoldable pub mark_done : ℕ → List TaskInfo → ℕ → Option (List TaskInfo × ℕ)
mark_done i ts n = do
  t ← get_elem? ts i
  some (if is_done t.state then (ts, n) else (set ts i (record t { state = done }), n + 1))

unfoldable pub report_type : TaskType → ℕ → Coordinator → Option Coordinator
report_type task_map i c = do
  (ts, n) ← mark_done i c.map_tasks c.map_done
  some (record c { map_tasks = ts; map_done = n })
report_type task_reduce i c = do
  (ts, n) ← mark_done i c.reduce_tasks c.reduce_done
  some (record c { reduce_tasks = ts; reduce_done = n })
report_type _ i c = some c

unfoldable pub report_task : ReportTaskArgs → Coordinator → Option Coordinator
report_task args c = report_type args.type args.task_id c

-- `Done`
unfoldable pub job_done : Coordinator → Bool
job_done c = c.reduce_done == c.n_reduce

unfoldable pub make_coordinator : List GoString → ℕ → Coordinator
make_coordinator files n_reduce = record {
  files = files;
  n_map = length files;
  n_reduce = n_reduce;
  map_tasks = replicate (length files) (record { state = idle; start_time = 0 });
  reduce_tasks = replicate n_reduce (record { state = idle; start_time = 0 });
  map_done = 0;
  reduce_done = 0;
}
