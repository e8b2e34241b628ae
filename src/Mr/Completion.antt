-- ===== src/Mr/Completion.antt =====
-- mr/: what a MapReduce job has written, after any events.
use mathlib.Core.Option.{some_inj}
use mit_6824_raft.Prelude.{
  ℕ, zero, suc, ◌<◌, ◌≡◌, ◌∙◌, inl, inr, refl, ap, sym, subst, true, some, List, [], ◌∷◌, GoString,
  All, length, replicate, get_elem?, get_elem?-some, lookup, arith, >>=-eq-some, Option-cases,
  some_unique,
}
use mit_6824_raft.Mr.Coordinator.{
  Coordinator, TaskType, task_none, task_map, task_reduce, task_exit, RequestTaskReply,
  request_task, TaskInfo, TaskState, make_coordinator, job_done, done, idle,
}
use mit_6824_raft.Mr.Counts.{IsDone}
use mit_6824_raft.Mr.Tasks.{
  Assigned, map_task, reduce_task, no_task, all_finished, request_task_exact, Assigned-IsValid,
  job_done_iff, made, Reachable-IsValid,
}
use mit_6824_raft.Mr.Files.{FileName, input, reduce_out, name_eq, concat}
use mit_6824_raft.Mr.Worker.{lines}
use mit_6824_raft.Mr.Sequential.{sequential}
use mit_6824_raft.Mr.System.{
  System, Event, requested, operated, reported, stopped, set_work, begin, request, step, run,
  initial,
}
use mit_6824_raft.Mr.Agreement.{OrderFree, keep}
use mit_6824_raft.Mr.ReduceTask.{EmitsText, MapsDone}
use mit_6824_raft.Mr.Crash.{Final}
use mit_6824_raft.Mr.Outputs.{Job, spec}
use mit_6824_raft.Mr.Progress.{Finished, Assigned-Finished}
use mit_6824_raft.Mr.Invariant.{Written, Output-Final, OnTask, Inv}
use mit_6824_raft.Mr.Stable.{request_busy, request_free, step-right}
use mit_6824_raft.Mr.Run.{set_work-cases, without-OnTask, operate-Inv, report-Inv}
use mit_6824_raft.Mr.Start.{All-at, maps_done, begin-OnTask}

Assigned-same :
    (now : ℕ) (c : Coordinator) (x : Coordinator × RequestTaskReply)
    → Assigned now c x
    → (x.0.files ≡ c.files) × (x.0.n_reduce ≡ c.n_reduce)
Assigned-same now c x (map_task i f t e g k l) = (refl, refl)
Assigned-same now c x (reduce_task i a f t e k l) = (refl, refl)
Assigned-same now c x (no_task b e) = (refl, refl)
Assigned-same now c x (all_finished a b e) = (refl, refl)

IsIdle : TaskState → Type 0
IsIdle idle = Unit
IsIdle _ = ⊥

idle≢done : ¬ (idle ≡ done)
unfolding IsIdle
idle≢done e = subst IsIdle e tt

replicate-idle :
    (n i : ℕ) {t : TaskInfo}
    → get_elem? (replicate n (record { state = idle; start_time = 0 })) i ≡ some t
    → ¬ (t.state ≡ done)
replicate-idle zero i e d = cc
replicate-idle (suc n) zero e d = idle≢done (ap (λ (t : TaskInfo). t.state) (some_inj.0 e) ∙ d)
replicate-idle (suc n) (suc i) e d = replicate-idle n i e d

initial-Finished :
    (files : List GoString) (n i : ℕ) (t : TaskType) → ¬ Finished (make_coordinator files n) t i
unfolding make_coordinator
initial-Finished files n i task_map (t, at, d) = replicate-idle (length files) i at d
initial-Finished files n i task_reduce (t, at, d) = replicate-idle n i at d
initial-Finished files n i task_none (t, at, d) = cc
initial-Finished files n i task_exit (t, at, d) = cc

module _ (job : Job) (pos : 0 < job.n_reduce) (text : EmitsText job.app.json job.app.mapf)
    (free : OrderFree job.app.reducef)
    (ran : sequential job.app.order job.app.mapf job.app.reducef job.inputs job.start
      ≡ some job.out) where
  Assigned-Inv :
      (pid now : ℕ) (sys : System) (x : Coordinator × RequestTaskReply)
      → Inv job sys
      → Assigned now sys.coordinator x
      → Inv job (record sys {
        coordinator = x.0;
        work = set_work pid (begin job.app pid x.1 sys.files) sys.work;
      })
  Assigned-Inv pid now sys x v a =
      let same = Assigned-same now sys.coordinator x a in
      record {
        valid = Assigned-IsValid now sys.coordinator x v.valid a;
        same_files = same.0 ∙ v.same_files;
        same_reduce = same.1 ∙ v.same_reduce;
        same_inputs = v.same_inputs;
        on_task = λ q u e. elim (set_work-cases pid q _ sys.work e) [
          | inl (is, b) ↦
              subst (λ p. OnTask job p u sys.files) is
                (begin-OnTask job pos text free ran pid now sys x u v a b)
          | inr (ne, at) ↦ v.on_task q u at
        ];
        written = λ t i d. v.written t i (Assigned-Finished now sys.coordinator x t i a d);
      }

  request-Inv :
      (pid now : ℕ) (sys : System) {sys' : System}
      → Inv job sys
      → request job.app pid now sys ≡ some sys'
      → Inv job sys'
  unfolding request
  request-Inv pid now sys v e = elim (Option-cases (sys.work pid)) [
    | inr (w, busy) ↦ let nothing = sym (request_busy job.app pid now sys busy) ∙ e in cc
    | inl free_worker ↦
        let (x, given, e') =
          >>=-eq-some (request_task now sys.coordinator) _
            (sym (request_free job.app pid now sys free_worker) ∙ e) in
        let (y, exact, assigned') = request_task_exact now sys.coordinator v.valid in
        let assigned = some_unique (Assigned now sys.coordinator) exact given assigned' in
        subst (Inv job) (some_inj.0 e') (Assigned-Inv pid now sys x v assigned)
  ]

  step-Inv :
      (ev : Event) (sys : System) {sys' : System}
      → Inv job sys
      → step job.app ev sys ≡ some sys'
      → Inv job sys'
  unfolding step
  step-Inv (requested pid now) sys v e = request-Inv pid now sys v e
  step-Inv (operated pid) sys v e =
      let (w, at, e') = >>=-eq-some (sys.work pid) _ e in
      operate-Inv job pid w.type w.task_id w.left sys v (v.on_task pid w at) e'
  step-Inv (reported pid) sys v e =
      let (w, at, e') = >>=-eq-some (sys.work pid) _ e in
      report-Inv job pid w.type w.task_id w.left sys v (v.on_task pid w at) e'
  step-Inv (stopped pid) sys v e = subst (Inv job) (some_inj.0 e) (record {
    valid = v.valid;
    same_files = v.same_files;
    same_reduce = v.same_reduce;
    same_inputs = v.same_inputs;
    on_task = without-OnTask job pid sys v;
    written = v.written;
  })

  run-Inv :
      (es : List Event) (sys : System) {sys' : System}
      → Inv job sys
      → run job.app es sys ≡ some sys'
      → Inv job sys'
  unfolding run
  run-Inv [] sys v e = subst (Inv job) (some_inj.0 e) v
  run-Inv (ev ∷ es) sys v e =
      let (mid, first, rest) = >>=-eq-some (step job.app ev sys) _ e in
      run-Inv es mid (step-Inv ev sys v first) rest

  initial-Inv : Inv job (initial job.inputs job.n_reduce job.start)
  unfolding initial make_coordinator
  initial-Inv = record {
    valid = Reachable-IsValid _ made;
    same_files = refl;
    same_reduce = refl;
    same_inputs = λ f. refl;
    on_task = λ pid w e. cc;
    written = λ t i d. absurd (initial-Finished job.inputs job.n_reduce i t d);
  }

  -- A file that holds what it is to hold keeps it.
  run-right :
      (es : List Event) (sys : System) {sys' : System} (f : FileName)
      → Inv job sys
      → run job.app es sys ≡ some sys'
      → Final f
      → lookup f sys.files ≡ spec job f
      → lookup f sys'.files ≡ spec job f
  unfolding run
  run-right [] sys f v e final right =
      subst (λ (s : System). lookup f s.files ≡ spec job f) (some_inj.0 e) right
  run-right (ev ∷ es) sys f v e final right =
      let (mid, first, rest) = >>=-eq-some (step job.app ev sys) _ e in
      run-right es mid f (step-Inv ev sys v first) rest final
        (step-right job ev sys f v first final right)

  -- However workers ask for tasks, work side by side, stop in the middle, are taken for dead after
  -- the timeout and report twice: when after some events a task is done, each of its output files
  -- holds exactly what it is to hold, at that moment and after any further events, and the input
  -- files are those of the start. The file of a map task for a reduce task is to hold the pairs that
  -- the map function emits for the input file and whose key hashes to the reduce task, that of a
  -- reduce task the lines that the sequential program prints for the keys that hash to it. The map function of the job emits text, its reduce function does
  -- not depend on the order of the values, there is at least one reduce task, and the sequential
  -- program can read the inputs.
  pub run-Written :
      (es later : List Event) (mid sys : System)
      → run job.app es (initial job.inputs job.n_reduce job.start) ≡ some mid
      → run job.app later mid ≡ some sys
      → (t : TaskType) (i : ℕ) → Finished mid.coordinator t i
      → Written job t i mid.files
        × Written job t i sys.files
        × ((f : GoString) → lookup (input f) sys.files ≡ lookup (input f) job.start)
  run-Written es later mid sys e e' t i d =
      let v = run-Inv es _ initial-Inv e in
      (
        v.written t i d,
        (λ f out. run-right later mid f v e' (Output-Final job t i f out) (v.written t i d f out)),
        (run-Inv later mid v e').same_inputs,
      )

  pub run-MapsDone :
      (es : List Event) (sys : System)
      → run job.app es (initial job.inputs job.n_reduce job.start) ≡ some sys
      → All IsDone sys.coordinator.map_tasks
      → MapsDone job.app.json job.app.mapf job.n_reduce 0 job.inputs sys.files
  run-MapsDone es sys e = maps_done job pos text free ran sys (run-Inv es _ initial-Inv e)

  -- However workers ask for tasks, work side by side, stop in the middle, are taken for dead after
  -- the timeout and report twice: when after any events from the start Done says true, the output
  -- file of every reduce task holds exactly the lines that the sequential program prints for the
  -- keys that hash to the task. The map function of the job emits text, its reduce function does not
  -- depend on the order of the values, there is at least one reduce task, and the sequential program
  -- can read the inputs.
  pub job_done-output :
      (es : List Event) (sys : System) (r : ℕ)
      → run job.app es (initial job.inputs job.n_reduce job.start) ≡ some sys
      → job_done sys.coordinator ≡ true
      → r < job.n_reduce
      → lookup (reduce_out r) sys.files ≡ some (concat (lines (keep job.n_reduce r job.out)))
  job_done-output es sys r e d within =
      let v = run-Inv es _ initial-Inv e in
      let c = sys.coordinator in
      let all = (job_done_iff c v.valid).0 d in
      let (t, at) =
        get_elem?-some c.reduce_tasks r
          (omega (arith, within, v.valid.reduce_len, v.same_reduce)) in
      v.written task_reduce r (t, at, All-at IsDone c.reduce_tasks r all at) (reduce_out r) refl
