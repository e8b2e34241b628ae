-- ===== src/Mr/System.antt =====
-- mr/: the coordinator, the workers and the files together. Worker processes are numbered by their
-- pids. What happens comes as a list of events, in any order: the workers run at the same time, and
-- may stop anywhere. A task reads its input when it is handed out: by then no later event changes it.
use mit_6824_raft.Prelude.{
  ℕ, Option, none, some, List, [], ◌∷◌, GoString, ◌==◌, if◌then◌else◌, ◌>>=◌,
}
use mit_6824_raft.Mr.Coordinator.{
  Coordinator, TaskType, task_none, task_map, task_reduce, task_exit, RequestTaskReply,
  request_task, report_task, make_coordinator,
}
use mit_6824_raft.Mr.Files.{Files, FileOp, run_op}
use mit_6824_raft.Mr.Worker.{KeyValue, Json, Sort, do_map, do_reduce}

-- What the workers are given.
pub record App : Type 1 where
  pub json : Json
  pub order : Sort
  pub mapf : GoString → GoString → List KeyValue
  pub reducef : GoString → List GoString → GoString

-- A task under way, and what is left of it.
pub record Work : Type 0 where
  pub type : TaskType
  pub task_id : ℕ
  pub left : List FileOp

pub record System : Type 0 where
  pub coordinator : Coordinator
  pub files : Files
  pub work : ℕ → Option Work

unfoldable pub set_work : ℕ → Option Work → (ℕ → Option Work) → ℕ → Option Work
set_work pid w work p = if pid == p then w else work p

-- One round of Worker's loop: a request; an operation of doMap or doReduce; the report. `stopped`
-- is a crash, log.Fatalf, or a report that is lost.
pub data Event : Type 0 where
  requested : ℕ → ℕ → Event
  operated : ℕ → Event
  reported : ℕ → Event
  stopped : ℕ → Event

unfoldable pub operate_work : ℕ → Work → System → Option System
operate_work pid w sys = elim w.left [
  | [] ↦ none
  | o ∷ ops ↦ some (record sys {
    files = run_op o sys.files;
    work = set_work pid (some (record w { left = ops })) sys.work;
  })
]

unfoldable pub report_work : ℕ → Work → System → Option System
report_work pid w sys = elim w.left [
  | o ∷ ops ↦ none
  | [] ↦ do
    c ← report_task (record { type = w.type; task_id = w.task_id }) sys.coordinator
    some (record sys { coordinator = c; work = set_work pid none sys.work })
]

module _ (app : App) where
  -- The switch on reply.Type; where doMap stops before it writes there is no work.
  unfoldable pub begin : ℕ → RequestTaskReply → Files → Option Work
  begin pid reply fs = elim reply.type [
    | task_map ↦ do
      ops ← do_map app.json app.mapf pid reply fs
      some (record { type = task_map; task_id = reply.task_id; left = ops })
    | task_reduce ↦ some (record {
      type = task_reduce;
      task_id = reply.task_id;
      left = do_reduce app.json app.order app.reducef pid reply fs;
    })
    | task_none ↦ none
    | task_exit ↦ none
  ]

  -- Worker `pid`, which has no task, asks for one at the time `now`.
  unfoldable pub request : ℕ → ℕ → System → Option System
  request pid now sys = elim (sys.work pid) [
    | some w ↦ none
    | none ↦ do
      (c, reply) ← request_task now sys.coordinator
      some
          (record sys { coordinator = c; work = set_work pid (begin pid reply sys.files) sys.work })
  ]

  -- `none` where the event cannot happen.
  unfoldable pub step : Event → System → Option System
  step (requested pid now) sys = request pid now sys
  step (operated pid) sys = sys.work pid >>= λ w. operate_work pid w sys
  step (reported pid) sys = sys.work pid >>= λ w. report_work pid w sys
  step (stopped pid) sys = some (record sys { work = set_work pid none sys.work })

  unfoldable pub run : List Event → System → Option System
  run [] sys = some sys
  run (e ∷ es) sys = step e sys >>= run es

-- A new coordinator, and files that the workers have not touched.
unfoldable pub initial : List GoString → ℕ → Files → System
initial files n_reduce fs = record {
  coordinator = make_coordinator files n_reduce;
  files = fs;
  work = λ _. none;
}
