-- ===== src/Mr/Tasks.antt =====
-- The coordinator's counters, and when it hands out which task.
use mit_6824_raft.Prelude.{
  ◌⊎◌, ltb→lt, ℕ, ◌-◌, ◌<◌, ◌≡◌, ◌↔◌, refl, ap, ◌∙◌, true, some, List, length, get_elem?, set, All,
  length-set, some_unique, lt-get_elem?, get_elem?-set_self, sym, length-replicate, get_elem?-some,
  GoString, ltb, ◌>>=◌, arith, ltb→le, Bool-cases, inl, inr, Option-cases, Returns, returned,
  Returns-bind, Returns-if, Returns-some, OnSome-at,
}
use mit_6824_raft.Mr.Coordinator.{
  done, TaskType, task_none, task_map, task_reduce, task_exit, TaskInfo, Coordinator,
  RequestTaskReply, ReportTaskArgs, first_available, started, hand_out_map, hand_out_reduce,
  request_map, request_reduce, request_task, is_done, mark_done, report_type, report_task, job_done,
  make_coordinator,
}
use mit_6824_raft.Mr.Counts.{
  All-IsDone, IsDone, IsValid, count_done, count_done-All, count_done-marked, count_done-replicate,
  count_done-started, first_available-some, first_available-none, IsFree,
}

-- A free task stands at an index.
abbrev pub FreeAt : ℕ → List TaskInfo → ℕ → Type 0
FreeAt now ts i = (t : TaskInfo) × (get_elem? ts i ≡ some t) × IsFree now t

-- None of the tasks is free, though not all are done: each is done or is with a worker in time.
abbrev pub AllBusy : ℕ → List TaskInfo → Type 0
AllBusy now ts = All (λ t. ¬ IsFree now t) ts × ¬ (All IsDone ts)

-- What RequestTask may answer, and the coordinator after it.
pub data Assigned (now : ℕ) (c : Coordinator) : Coordinator × RequestTaskReply → Type 0 where
  map_task :
      {r : RequestTaskReply} (i : ℕ)
      → FreeAt now c.map_tasks i
      → r.type ≡ task_map
      → r.task_id ≡ i
      → get_elem? c.files i ≡ some r.file
      → r.n_map ≡ c.n_map
      → r.n_reduce ≡ c.n_reduce
      → Assigned now c (record c { map_tasks = set c.map_tasks i (started now) }, r)
  reduce_task :
      {r : RequestTaskReply} (i : ℕ)
      → All IsDone c.map_tasks
      → FreeAt now c.reduce_tasks i
      → r.type ≡ task_reduce
      → r.task_id ≡ i
      → r.n_map ≡ c.n_map
      → r.n_reduce ≡ c.n_reduce
      → Assigned now c (record c { reduce_tasks = set c.reduce_tasks i (started now) }, r)
  no_task :
      {r : RequestTaskReply}
      → AllBusy now c.map_tasks ⊎ (All IsDone c.map_tasks × AllBusy now c.reduce_tasks)
      → r.type ≡ task_none
      → Assigned now c (c, r)
  all_finished :
      {r : RequestTaskReply}
      → All IsDone c.map_tasks
      → All IsDone c.reduce_tasks
      → r.type ≡ task_exit
      → Assigned now c (c, r)

free-first :
    (now : ℕ) (ts : List TaskInfo) {i : ℕ} → first_available now 0 ts ≡ some i → FreeAt now ts i
free-first now ts {i} e =
    let f = OnSome-at _ (first_available-some now 0 ts) e in
    let same : i - 0 ≡ i = omega arith in (f.1.0, ap (get_elem? ts) (sym same) ∙ f.1.1, f.1.2)

-- Fewer are counted than there are.
count_done-lt : (ts : List TaskInfo) → count_done ts < length ts → ¬ (All IsDone ts)
count_done-lt ts h all = omega (arith, h, count_done-All ts all)

request_map-Assigned :
    (now : ℕ) (c : Coordinator)
    → IsValid c
    → c.map_done < c.n_map
    → Returns (Assigned now c) (request_map now c)
unfolding request_map hand_out_map
request_map-Assigned now c v more = elim (Option-cases (first_available now 0 c.map_tasks)) [
  | inl e ↦
      let some_left = count_done-lt c.map_tasks (omega (arith, more, v.map_len, v.map_count)) in
      rw (e, request_map)
        (returned (no_task (inl (first_available-none now 0 c.map_tasks e, some_left)) refl))
  | inr (i, e) ↦
      let free = free-first now c.map_tasks e in
      let (file, at) =
        get_elem?-some c.files i
          (omega (arith, lt-get_elem? c.map_tasks i free.1, v.files_len, v.map_len)) in
      rw (e, request_map) (rw (at, ◌>>=◌) (returned (map_task i free refl refl at refl refl)))
]

request_reduce-Assigned :
    (now : ℕ) (c : Coordinator)
    → IsValid c
    → All IsDone c.map_tasks
    → c.reduce_done < c.n_reduce
    → Assigned now c (request_reduce now c)
unfolding request_reduce hand_out_reduce
request_reduce-Assigned now c v all more =
    elim (Option-cases (first_available now 0 c.reduce_tasks)) [
      | inl e ↦
          let some_left =
            count_done-lt c.reduce_tasks (omega (arith, more, v.reduce_len, v.reduce_count)) in
          rw (e, request_reduce)
            (no_task (inr (all, (first_available-none now 0 c.reduce_tasks e, some_left))) refl)
      | inr (i, e) ↦
          rw (e, request_reduce)
            (reduce_task i all (free-first now c.reduce_tasks e) refl refl refl refl)
    ]

-- On a valid coordinator RequestTask does not panic, and answers in one of four ways. It hands out
-- a map task that is free (idle, or in progress since longer than the timeout), with its file; or,
-- only when every map task is done, a free reduce task; it says exit only when all tasks are done;
-- and it says that there is no task only where tasks are left but none is free: some map task is not
-- done and no map task is free, or all map tasks are done, some reduce task is not, and no reduce
-- task is free. The task handed out is started now, and nothing else changes.
pub request_task_exact :
    (now : ℕ) (c : Coordinator)
    → IsValid c
    → (r : Coordinator × RequestTaskReply) × (request_task now c ≡ some r) × Assigned now c r
unfolding request_task
request_task_exact now c v = Returns-some _ _ (
    Returns-if _ (ltb c.map_done c.n_map) _ _
      (λ more. request_map-Assigned now c v (ltb→lt _ _ more))
      (λ maps.
        let all = All-IsDone c.map_tasks (omega (arith, ltb→le _ _ maps, v.map_len, v.map_count)) in
        Returns-if _ (ltb c.reduce_done c.n_reduce) _ _
          (λ more. returned (request_reduce-Assigned now c v all (ltb→lt _ _ more)))
          (λ reduces. returned (
            all_finished all
              (All-IsDone c.reduce_tasks
                (omega (arith, ltb→le _ _ reduces, v.reduce_len, v.reduce_count)))
              refl))))

pub Assigned-IsValid :
    (now : ℕ) (c : Coordinator) (r : Coordinator × RequestTaskReply)
    → IsValid c
    → Assigned now c r
    → IsValid r.0
Assigned-IsValid now c r v (map_task i f t e g k l) = record {
  files_len = v.files_len;
  map_len = length-set c.map_tasks i (started now) ∙ v.map_len;
  reduce_len = v.reduce_len;
  map_count = v.map_count ∙ sym (count_done-started now now c.map_tasks i f.1 f.2);
  reduce_count = v.reduce_count;
}
Assigned-IsValid now c r v (reduce_task i a f t e k l) = record {
  files_len = v.files_len;
  map_len = v.map_len;
  reduce_len = length-set c.reduce_tasks i (started now) ∙ v.reduce_len;
  map_count = v.map_count;
  reduce_count = v.reduce_count ∙ sym (count_done-started now now c.reduce_tasks i f.1 f.2);
}
Assigned-IsValid now c r v (no_task b t) = v
Assigned-IsValid now c r v (all_finished a b t) = v

mark_done-count :
    (i : ℕ) (ts : List TaskInfo) (n : ℕ)
    → i < length ts
    → n ≡ count_done ts
    → Returns
        (λ r.
          (r.1 ≡ count_done r.0)
          × (length r.0 ≡ length ts)
          × ((t : TaskInfo) × (get_elem? r.0 i ≡ some t) × (t.state ≡ done)))
        (mark_done i ts n)
unfolding mark_done
mark_done-count i ts n h e =
    let (t, at) = get_elem?-some ts i h in
    rw at (elim (Bool-cases (is_done t.state)) [
      | inl was ↦ rw was (returned (e, refl, (t, at, ground (arith, was))))
      | inr now ↦ rw now (
          returned (
            omega (arith, e, count_done-marked ts i at now),
            length-set ts i _,
            (record t { state = done }, get_elem?-set_self ts i _ h, refl),
          ))
    ])

-- A report that names a task of the job.
abbrev pub InRange : ReportTaskArgs → Coordinator → Type 0
InRange args c =
    (args.type ≡ task_map → args.task_id < length c.map_tasks)
    × (args.type ≡ task_reduce → args.task_id < length c.reduce_tasks)

report_type-IsValid :
    (t : TaskType) (i : ℕ) (c : Coordinator)
    → IsValid c
    → (t ≡ task_map → i < length c.map_tasks)
    → (t ≡ task_reduce → i < length c.reduce_tasks)
    → Returns IsValid (report_type t i c)
unfolding report_type
report_type-IsValid task_map i c v m r =
    Returns-bind _ _ (mark_done i c.map_tasks c.map_done) _
      (mark_done-count i c.map_tasks c.map_done (m refl) v.map_count)
      (λ x e q. returned (record {
        files_len = v.files_len;
        map_len = q.1 ∙ v.map_len;
        reduce_len = v.reduce_len;
        map_count = q.0;
        reduce_count = v.reduce_count;
      }))
report_type-IsValid task_reduce i c v m r =
    Returns-bind _ _ (mark_done i c.reduce_tasks c.reduce_done) _
      (mark_done-count i c.reduce_tasks c.reduce_done (r refl) v.reduce_count)
      (λ x e q. returned (record {
        files_len = v.files_len;
        map_len = v.map_len;
        reduce_len = q.1 ∙ v.reduce_len;
        map_count = v.map_count;
        reduce_count = q.0;
      }))
report_type-IsValid task_none i c v m r = returned v
report_type-IsValid task_exit i c v m r = returned v

-- On a valid coordinator ReportTask of a task in range does not panic and keeps the counters
-- right.
pub report_task-IsValid :
    (args : ReportTaskArgs) (c : Coordinator)
    → IsValid c
    → InRange args c
    → Returns IsValid (report_task args c)
unfolding report_task
report_task-IsValid args c v h = report_type-IsValid args.type args.task_id c v h.0 h.1

-- A coordinator that any calls have led to from its start.
pub data Reachable (files : List GoString) (n_reduce : ℕ) : Coordinator → Type 0 where
  made : Reachable files n_reduce (make_coordinator files n_reduce)
  requested :
      (now : ℕ) {c c' : Coordinator} {reply : RequestTaskReply}
      → Reachable files n_reduce c
      → request_task now c ≡ some (c', reply)
      → Reachable files n_reduce c'
  reported :
      (args : ReportTaskArgs) {c c' : Coordinator}
      → Reachable files n_reduce c
      → InRange args c
      → report_task args c ≡ some c'
      → Reachable files n_reduce c'

make_coordinator-IsValid : (files : List GoString) (n : ℕ) → IsValid (make_coordinator files n)
unfolding make_coordinator
make_coordinator-IsValid files n = record {
  files_len = refl;
  map_len = length-replicate (length files) _;
  reduce_len = length-replicate n _;
  map_count = sym (count_done-replicate (length files));
  reduce_count = sym (count_done-replicate n);
}

-- However tasks are requested, reported, reported twice and handed out again after a timeout, each
-- counter is the number of its tasks that are done, and no task is lost or added.
pub Reachable-IsValid :
    {files : List GoString} {n : ℕ} (c : Coordinator) → Reachable files n c → IsValid c
Reachable-IsValid {files} {n} c made = make_coordinator-IsValid files n
Reachable-IsValid {files} {n} c' (requested now {c = c} r e) =
    let v = Reachable-IsValid c r in
    let (x, e', a) = request_task_exact now c v in
    some_unique (λ (y : Coordinator × RequestTaskReply). IsValid y.0) e' e
      (Assigned-IsValid now c x v a)
Reachable-IsValid {files} {n} c' (reported args {c = c} r h e) =
    let v = Reachable-IsValid c r in
    let (x, e', w) = Returns-some _ _ (report_task-IsValid args c v h) in some_unique IsValid e' e w

-- On a valid coordinator Done says true exactly when every reduce task is done.
pub job_done_iff : (c : Coordinator) → IsValid c → (job_done c ≡ true) ↔ All IsDone c.reduce_tasks
unfolding job_done
job_done_iff c v = (
  (λ h. All-IsDone c.reduce_tasks (ground (arith, h, v.reduce_len, v.reduce_count))),
  (λ all. ground (arith, count_done-All c.reduce_tasks all, v.reduce_len, v.reduce_count)),
)
