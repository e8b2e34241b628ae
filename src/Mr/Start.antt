-- ===== src/Mr/Start.antt =====
-- mr/: a worker that has just been given a task.
use mathlib.Core.Option.{some_inj}
use mit_6824_raft.Prelude.{
  ℕ, zero, suc, ◌+◌, ◌<◌, ◌≡◌, ◌∙◌, inr, refl, ap, sym, subst, none, some, List, [], ◌∷◌, ◌++◌,
  GoString, All, length, get_elem?, lt-get_elem?, get_elem?-some, lookup, arith, ◌>>=◌, >>=-eq-some,
}
use mit_6824_raft.Mr.Coordinator.{
  Coordinator, TaskType, task_none, task_map, task_reduce, task_exit, RequestTaskReply,
}
use mit_6824_raft.Mr.Counts.{IsDone}
use mit_6824_raft.Mr.Tasks.{Assigned, map_task, reduce_task, no_task, all_finished}
use mit_6824_raft.Mr.Files.{Files, FileOp, input, map_out, name_eq}
use mit_6824_raft.Mr.Worker.{KeyValue, do_map, do_reduce, reduced, group, reduce_all}
use mit_6824_raft.Mr.Sequential.{map_inputs, sequential}
use mit_6824_raft.Mr.System.{App, Work, System, begin}
use mit_6824_raft.Mr.Buckets.{bucket_of}
use mit_6824_raft.Mr.MapTask.{Holds}
use mit_6824_raft.Mr.Agreement.{OrderFree}
use mit_6824_raft.Mr.ReduceTask.{EmitsText, MapsDone}
use mit_6824_raft.Mr.Outputs.{Job, WillWrite, do_map-WillWrite, do_reduce-WillWrite, spec_map}
use mit_6824_raft.Mr.Invariant.{OnTask, Inv}

begin-map :
    (app : App) (pid : ℕ) (reply : RequestTaskReply) (fs : Files)
    → reply.type ≡ task_map
    → begin app pid reply fs ≡ (
        do_map app.json app.mapf pid reply fs >>= λ ops.
        some (record { type = task_map; task_id = reply.task_id; left = ops }))
unfolding begin do_map
begin-map app pid reply fs e = rw (e, begin) refl

begin-reduce :
    (app : App) (pid : ℕ) (reply : RequestTaskReply) (fs : Files)
    → reply.type ≡ task_reduce
    → begin app pid reply fs
      ≡ some (record {
        type = task_reduce;
        task_id = reply.task_id;
        left = do_reduce app.json app.order app.reducef pid reply fs;
      })
unfolding begin do_reduce reduced
begin-reduce app pid reply fs e = rw (e, begin) refl

begin-none :
    (app : App) (pid : ℕ) (reply : RequestTaskReply) (fs : Files)
    → reply.type ≡ task_none
    → begin app pid reply fs ≡ none
unfolding begin
begin-none app pid reply fs e = rw (e, begin) refl

begin-exit :
    (app : App) (pid : ℕ) (reply : RequestTaskReply) (fs : Files)
    → reply.type ≡ task_exit
    → begin app pid reply fs ≡ none
unfolding begin
begin-exit app pid reply fs e = rw (e, begin) refl

map_inputs-same :
    (mapf : GoString → GoString → List KeyValue) (files : List GoString) (fs gs : Files)
    → ((f : GoString) → lookup (input f) fs ≡ lookup (input f) gs)
    → map_inputs mapf files fs ≡ map_inputs mapf files gs
unfolding map_inputs
map_inputs-same mapf [] fs gs h = refl
map_inputs-same mapf (f ∷ files) fs gs h =
    ap (λ o. o >>= λ content. map_inputs mapf files fs >>= λ rest. some (mapf f content ++ rest))
      (h f)
    ∙ ap (λ o. lookup (input f) gs >>= λ content. o >>= λ rest. some (mapf f content ++ rest))
        (map_inputs-same mapf files fs gs h)

MapsDone-of :
    (app : App) (n m : ℕ) (files : List GoString) (fs : Files)
    → ((k : ℕ) (f content : GoString) (r : ℕ)
        → get_elem? files k ≡ some f
        → lookup (input f) fs ≡ some content
        → r < n
        → Holds app.json (map_out (m + k) r) (bucket_of n r (app.mapf f content)) fs)
    → MapsDone app.json app.mapf n m files fs
MapsDone-of app n m [] fs h = tt
MapsDone-of app n m (f ∷ files) fs h = (
  λ content at r within.
      subst (λ j. Holds app.json (map_out j r) (bucket_of n r (app.mapf f content)) fs)
        (omega arith) (h 0 f content r refl at within),
  MapsDone-of app n (suc m) files fs (λ k g content r here at within.
      subst (λ j. Holds app.json (map_out j r) (bucket_of n r (app.mapf g content)) fs)
        (omega arith) (h (suc k) g content r here at within)),
)

pub All-at :
    {A : Type 0} (P : A → Type 0) (xs : List A) (i : ℕ) {x : A}
    → All P xs
    → get_elem? xs i ≡ some x
    → P x
All-at P [] i h e = cc
All-at P (y ∷ xs) zero h e = subst P (some_inj.0 e) h.0
All-at P (y ∷ xs) (suc i) h e = All-at P xs i h.1 e

module _ (job : Job) (pos : 0 < job.n_reduce) (text : EmitsText job.app.json job.app.mapf)
    (free : OrderFree job.app.reducef)
    (ran : sequential job.app.order job.app.mapf job.app.reducef job.inputs job.start
      ≡ some job.out) where
  ran_on :
      (sys : System)
      → Inv job sys
      → sequential job.app.order job.app.mapf job.app.reducef job.inputs sys.files ≡ some job.out
  unfolding sequential
  ran_on sys v =
      ap (λ o. o >>= λ kvs. some (reduce_all job.app.reducef (group (job.app.order.sort kvs))))
        (map_inputs-same job.app.mapf job.inputs sys.files job.start v.same_inputs)
      ∙ ran

  pub maps_done :
      (sys : System)
      → Inv job sys
      → All IsDone sys.coordinator.map_tasks
      → MapsDone job.app.json job.app.mapf job.n_reduce 0 job.inputs sys.files
  maps_done sys v all =
      MapsDone-of job.app job.n_reduce 0 job.inputs sys.files (λ k f content r at here within.
        let c = sys.coordinator in
        let files_len : length c.files ≡ length job.inputs = ap length v.same_files in
        let (t, there) = get_elem?-some c.map_tasks k (
          omega
            (arith, lt-get_elem? job.inputs k at, files_len, v.valid.files_len, v.valid.map_len)) in
        subst
          (λ j.
            Holds job.app.json (map_out j r) (bucket_of job.n_reduce r (job.app.mapf f content))
              sys.files)
          (omega arith)
          (v.written task_map k (t, there, All-at IsDone c.map_tasks k all there) (map_out k r)
              (r, within, refl)
            ∙ spec_map job k r content at (sym (v.same_inputs f) ∙ here)))

  OnTask-of :
      (pid : ℕ) (t : TaskType) (i : ℕ) (ops : List FileOp) (fs : Files)
      → WillWrite job pid t i ops
      → OnTask job pid (record { type = t; task_id = i; left = ops }) fs
  OnTask-of pid t i ops fs w = record {
    pending = (none, tt, w.0);
    promised = λ f out. inr (w.1 f out);
  }

  pub begin-OnTask :
      (pid now : ℕ) (sys : System) (x : Coordinator × RequestTaskReply) (w : Work)
      → Inv job sys
      → Assigned now sys.coordinator x
      → begin job.app pid x.1 sys.files ≡ some w
      → OnTask job pid w sys.files
  begin-OnTask pid now sys x w v (map_task {r} i f t e g k l) b =
      let (ops, run, is) =
        >>=-eq-some (do_map job.app.json job.app.mapf pid r sys.files) _
          (sym (begin-map job.app pid r sys.files t) ∙ b) in
      let at : get_elem? job.inputs r.task_id ≡ some r.file =
        ap (λ fs. get_elem? fs r.task_id) (sym v.same_files)
        ∙ ap (get_elem? sys.coordinator.files) e
        ∙ g in
      subst (λ u. OnTask job pid u sys.files) (some_inj.0 is)
        (OnTask-of pid task_map r.task_id ops sys.files (
          do_map-WillWrite job pid r sys.files ops pos (l ∙ v.same_reduce) at (v.same_inputs r.file)
            run))
  begin-OnTask pid now sys x w v (reduce_task {r} i a f t e k l) b =
      let c = sys.coordinator in
      let len : r.n_map ≡ length job.inputs = k ∙ sym v.valid.files_len ∙ ap length v.same_files in
      let within : r.task_id < job.n_reduce =
        omega (arith, lt-get_elem? c.reduce_tasks i f.1, e, v.valid.reduce_len, v.same_reduce) in
      subst (λ u. OnTask job pid u sys.files)
        (some_inj.0 (sym (begin-reduce job.app pid r sys.files t) ∙ b))
        (OnTask-of pid task_reduce r.task_id _ sys.files (
          do_reduce-WillWrite job pid r sys.files text free within len (maps_done sys v a)
            (ran_on sys v)))
  begin-OnTask pid now sys x w v (no_task {r} busy e) b =
      let nothing = sym (begin-none job.app pid r sys.files e) ∙ b in cc
  begin-OnTask pid now sys x w v (all_finished {r} a c e) b =
      let nothing = sym (begin-exit job.app pid r sys.files e) ∙ b in cc
