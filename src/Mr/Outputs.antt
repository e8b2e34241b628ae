-- ===== src/Mr/Outputs.antt =====
-- mr/: what each output file of a job is to hold, and what a worker that has just been given a task
-- is going to write.
use mathlib.Core.List.{append-nil}
use mathlib.Core.Option.{some_inj}
use mit_6824_raft.Prelude.{
  ℕ, zero, suc, ◌+◌, ◌<◌, ◌≡◌, ◌∙◌, refl, ap, sym, subst, Option, none, some, List, [], ◌∷◌, ◌++◌,
  GoString, Map, length, length-replicate, replicate, get_elem?, get_elem?-replicate, lookup, arith,
  ◌>>=◌, >>=-eq-some, Returns-some, some_unique, lt-get_elem?,
}
use mit_6824_raft.Mr.Coordinator.{TaskType, task_map, task_reduce, RequestTaskReply}
use mit_6824_raft.Mr.Files.{
  FileName, Files, FileOp, input, map_out, map_tmp, reduce_tmp, reduce_out, name_eq, concat,
  replace_file,
}
use mit_6824_raft.Mr.Worker.{
  KeyValue, encoded, lines, write_buckets, do_map, do_reduce, bucket_all, reduced,
}
use mit_6824_raft.Mr.Buckets.{bucket_of, bucket_all-Spread, Spread}
use mit_6824_raft.Mr.Sequential.{sequential}
use mit_6824_raft.Mr.System.{App}
use mit_6824_raft.Mr.Agreement.{OrderFree, keep}
use mit_6824_raft.Mr.ReduceTask.{EmitsText, MapsDone, reduced-keep}
use mit_6824_raft.Mr.Crash.{
  Follows, Target, Follows-replace_file, Target-append_left, Target-append_right,
  Target-replace_file,
}

-- A job: its functions, input files and number of reduce tasks, the files at its start, and what
-- the sequential program prints on them.
pub record Job : Type 1 where
  pub app : App
  pub inputs : List GoString
  pub n_reduce : ℕ
  pub start : Files
  pub out : Map GoString GoString

module _ (job : Job) where
  abbrev pub spec : FileName → Option GoString
  spec (map_out m r) = get_elem? job.inputs m >>= λ f. lookup (input f) job.start >>= λ content.
      some (concat (encoded job.app.json (bucket_of job.n_reduce r (job.app.mapf f content))))
  spec (reduce_out r) = some (concat (lines (keep job.n_reduce r job.out)))
  spec _ = none

  -- The output files of a task.
  abbrev pub Output : TaskType → ℕ → FileName → Type 0
  Output task_map m f = (r : ℕ) × (r < job.n_reduce) × (map_out m r ≡ f)
  Output task_reduce r f = reduce_out r ≡ f
  Output _ i f = ⊥

  -- The worker `pid` will write all outputs of the task, each as it is to be.
  abbrev pub WillWrite : ℕ → TaskType → ℕ → List FileOp → Type 0
  WillWrite pid t i ops = Follows spec pid none ops × ((f : FileName) → Output t i f → Target f ops)

  write_buckets-Follows :
      (pid m r : ℕ) (bs : List (List KeyValue))
      → ((i : ℕ) (b : List KeyValue)
          → get_elem? bs i ≡ some b
          → spec (map_out m (r + i)) ≡ some (concat (encoded job.app.json b)))
      → Follows spec pid none (write_buckets job.app.json pid m r bs)
  unfolding write_buckets
  write_buckets-Follows pid m r [] h = tt
  write_buckets-Follows pid m r (b ∷ bs) h =
      Follows-replace_file spec pid (map_tmp pid m r) (map_out m r) (encoded job.app.json b) _ refl
        tt (ap (λ j. spec (map_out m j)) (omega arith) ∙ h 0 b refl)
        (write_buckets-Follows pid m (suc r) bs
          (λ i b e. ap (λ j. spec (map_out m j)) (omega arith) ∙ h (suc i) b e))

  write_buckets-Target :
      (pid m r i j : ℕ) (bs : List (List KeyValue))
      → i < length bs
      → r + i ≡ j
      → Target (map_out m j) (write_buckets job.app.json pid m r bs)
  unfolding write_buckets
  write_buckets-Target pid m r i j [] h e = elim h [ ]
  write_buckets-Target pid m r zero j (b ∷ bs) h e =
      let same : r ≡ j = omega (arith, e) in
      let block = replace_file (map_tmp pid m r) (map_out m r) (encoded job.app.json b) in
      subst (λ x. Target (map_out m x) (block ++ write_buckets job.app.json pid m (suc r) bs)) same
        (Target-append_left (map_out m r) block _ (Target-replace_file _ (map_out m r) _))
  write_buckets-Target pid m r (suc i) j (b ∷ bs) h e =
      Target-append_right (map_out m j)
        (replace_file (map_tmp pid m r) (map_out m r) (encoded job.app.json b)) _
        (write_buckets-Target pid m (suc r) i j bs (omega arith) (omega (arith, e)))

  pub spec_map :
      (m r : ℕ) {f : GoString} (content : GoString)
      → get_elem? job.inputs m ≡ some f
      → lookup (input f) job.start ≡ some content
      → spec (map_out m r)
        ≡ some (concat (encoded job.app.json (bucket_of job.n_reduce r (job.app.mapf f content))))
  spec_map m r content at here = rw (at, ◌>>=◌) (rw (here, ◌>>=◌) refl)

  pub do_map-WillWrite :
      (pid : ℕ) (reply : RequestTaskReply) (fs : Files) (ops : List FileOp)
      → 0 < job.n_reduce
      → reply.n_reduce ≡ job.n_reduce
      → get_elem? job.inputs reply.task_id ≡ some reply.file
      → lookup (input reply.file) fs ≡ lookup (input reply.file) job.start
      → do_map job.app.json job.app.mapf pid reply fs ≡ some ops
      → WillWrite pid task_map reply.task_id ops
  unfolding do_map
  do_map-WillWrite pid reply fs ops pos n at same e =
      let (content, here, e') = >>=-eq-some (lookup (input reply.file) fs) _ e in
      let kva = job.app.mapf reply.file content in
      let (bs, full, e'') =
        >>=-eq-some (bucket_all reply.n_reduce kva (replicate reply.n_reduce [])) _ e' in
      let empty = replicate reply.n_reduce [] in
      let (bs', full', w') =
        Returns-some _ _
          (bucket_all-Spread reply.n_reduce kva empty (omega (arith, n)) (length-replicate _ [])) in
      let w = some_unique (Spread reply.n_reduce kva empty) full' full w' in
      let m = reply.task_id in
      let right : (i : ℕ) (b : List KeyValue)
          → get_elem? bs i ≡ some b
          → spec (map_out m i) ≡ some (concat (encoded job.app.json b)) =
        λ i b g.
          let within : i < reply.n_reduce = omega (arith, lt-get_elem? bs i g, w.0) in
          let is =
            some_inj.0 (sym (w.1 i [] (get_elem?-replicate reply.n_reduce i [] within)) ∙ g) in
          spec_map m i content at (sym same ∙ here)
          ∙ ap (λ k. some (concat (encoded job.app.json (bucket_of k i kva)))) (sym n)
          ∙ ap (λ l. some (concat (encoded job.app.json l))) is in
      subst (WillWrite pid task_map m) (some_inj.0 e'') (
        write_buckets-Follows pid m 0 bs
            (λ i b g. ap (λ j. spec (map_out m j)) (omega arith) ∙ right i b g),
        λ f o.
            subst (λ g. Target g (write_buckets job.app.json pid m 0 bs)) o.2
              (write_buckets-Target pid m 0 o.0 o.0 bs (omega (arith, o.1, w.0, n)) (omega arith)),
      )

  pub do_reduce-WillWrite :
      (pid : ℕ) (reply : RequestTaskReply) (fs : Files)
      → EmitsText job.app.json job.app.mapf
      → OrderFree job.app.reducef
      → reply.task_id < job.n_reduce
      → reply.n_map ≡ length job.inputs
      → MapsDone job.app.json job.app.mapf job.n_reduce 0 job.inputs fs
      → sequential job.app.order job.app.mapf job.app.reducef job.inputs fs ≡ some job.out
      → WillWrite pid task_reduce reply.task_id
          (do_reduce job.app.json job.app.order job.app.reducef pid reply fs)
  unfolding do_reduce
  do_reduce-WillWrite pid reply fs t o h len d e =
      let r = reply.task_id in
      let printed = lines (reduced job.app.json job.app.order job.app.reducef reply fs) in
      let right = reduced-keep job.app job.n_reduce job.inputs reply fs job.out t o h len d e in
      (
        subst (Follows spec pid none) (append-nil _) (
            Follows-replace_file spec pid (reduce_tmp pid r) (reduce_out r) printed [] refl tt
              (ap (λ l. some (concat (lines l))) (sym right)) tt),
        (λ f at.
            subst (λ g. Target g (replace_file (reduce_tmp pid r) (reduce_out r) printed)) at
              (Target-replace_file (reduce_tmp pid r) (reduce_out r) printed)),
      )
