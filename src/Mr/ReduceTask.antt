-- ===== src/Mr/ReduceTask.antt =====
-- mr/worker.go and main/mrsequential.go: the distributed job prints what the sequential one does.
use mathlib.Core.Option.{some_inj}
use mit_6824_raft.Prelude.{
  ℕ, suc, ◌<◌, ◌≡◌, ◌∙◌, ap, sym, some, List, [], ◌∷◌, ◌++◌, All, GoString, length, lookup, arith,
  >>=-eq-some, if_true, beq_refl,
}
use mit_6824_raft.Mr.Coordinator.{RequestTaskReply}
use mit_6824_raft.Mr.Files.{Files, input, map_out, reduce_tmp, reduce_out, name_eq, run_ops, concat}
use mit_6824_raft.Mr.Worker.{
  KeyValue, Json, reduced, do_reduce, encoded, lines, read_intermediate, decode_file,
}
use mit_6824_raft.Mr.System.{App}
use mit_6824_raft.Mr.Sequential.{map_inputs, sequential}
use mit_6824_raft.Mr.Replace.{replace_file-lookup}
use mit_6824_raft.Mr.Buckets.{bucket_of, bucket_of-append}
use mit_6824_raft.Mr.MapTask.{Holds}
use mit_6824_raft.Mr.Agreement.{OrderFree, keep, output, output-bucket_of}

All-append : {A : Type 0} (P : A → Type 0) (xs ys : List A) → All P xs → All P ys → All P (xs ++ ys)
All-append P [] ys h k = k
All-append P (x ∷ xs) ys h k = (h.0, All-append P xs ys h.1 k)

All-bucket_of :
    (P : KeyValue → Type 0) (n r : ℕ) (kvs : List KeyValue) → All P kvs → All P (bucket_of n r kvs)
unfolding bucket_of
All-bucket_of P n r [] h = tt
All-bucket_of P n r (kv ∷ kvs) h = ground (arith, All-bucket_of P n r kvs h.1, h)

module _ (json : Json) where
  decode-encoded :
      (kvs : List KeyValue) → All json.IsText kvs → json.decode (concat (encoded json kvs)) ≡ kvs
  unfolding encoded concat
  decode-encoded [] h = json.decode_nil
  decode-encoded (kv ∷ kvs) h =
      json.decode-encode kv (concat (encoded json kvs)) h.0
      ∙ ap (λ l. kv ∷ l) (decode-encoded kvs h.1)

  -- Every map task from `m` on is done: the files of its reduce tasks hold what it emits for them.
  abbrev pub MapsDone :
      (GoString → GoString → List KeyValue) → ℕ → ℕ → List GoString → Files → Type 0
  MapsDone mapf n m [] fs = Unit
  MapsDone mapf n m (f ∷ files) fs =
      ((content : GoString)
        → lookup (input f) fs ≡ some content
        → (r : ℕ) → r < n
        → Holds json (map_out m r) (bucket_of n r (mapf f content)) fs)
      × MapsDone mapf n (suc m) files fs

  -- The map function emits text, which the encoding keeps.
  abbrev pub EmitsText : (GoString → GoString → List KeyValue) → Type 0
  EmitsText mapf = (f content : GoString) → All json.IsText (mapf f content)

  read_intermediate-bucket_of :
      (mapf : GoString → GoString → List KeyValue) (n r m : ℕ) (files : List GoString) (fs : Files)
      (kvs : List KeyValue)
      → EmitsText mapf
      → r < n
      → MapsDone mapf n m files fs
      → map_inputs mapf files fs ≡ some kvs
      → read_intermediate json r m (length files) fs ≡ bucket_of n r kvs
  unfolding read_intermediate map_inputs decode_file bucket_of
  read_intermediate-bucket_of mapf n r m [] fs kvs t h d e = ap (bucket_of n r) (some_inj.0 e)
  read_intermediate-bucket_of mapf n r m (f ∷ files) fs kvs t h d e =
      let (content, at, e') = >>=-eq-some (lookup (input f) fs) _ e in
      let (rest, more, e'') = >>=-eq-some (map_inputs mapf files fs) _ e' in
      let kva = mapf f content in
      let first : decode_file json (lookup (map_out m r) fs) ≡ bucket_of n r kva =
        ap (decode_file json) (d.0 content at r h)
        ∙ decode-encoded (bucket_of n r kva) (All-bucket_of json.IsText n r kva (t f content)) in
      ap (λ l. l ++ read_intermediate json r (suc m) (length files) fs) first
      ∙ ap (λ l. bucket_of n r kva ++ l)
          (read_intermediate-bucket_of mapf n r (suc m) files fs rest t h d.1 more)
      ∙ sym (bucket_of-append n r kva rest)
      ∙ ap (bucket_of n r) (some_inj.0 e'')

module _ (app : App) (n : ℕ) (files : List GoString) (reply : RequestTaskReply) (fs : Files)
    (out : List (GoString × GoString)) where
  pub reduced-keep :
      EmitsText app.json app.mapf
      → OrderFree app.reducef
      → reply.task_id < n
      → reply.n_map ≡ length files
      → MapsDone app.json app.mapf n 0 files fs
      → sequential app.order app.mapf app.reducef files fs ≡ some out
      → reduced app.json app.order app.reducef reply fs ≡ keep n reply.task_id out
  unfolding reduced sequential
  reduced-keep t o h len d e =
      let r = reply.task_id in
      let (kvs, all, e') = >>=-eq-some (map_inputs app.mapf files fs) _ e in
      let read : read_intermediate app.json r 0 reply.n_map fs ≡ bucket_of n r kvs =
        ap (λ l. read_intermediate app.json r 0 l fs) len
        ∙ read_intermediate-bucket_of app.json app.mapf n r 0 files fs kvs t h d all in
      ap (output app.reducef app.order) read
      ∙ output-bucket_of app.reducef app.order n r kvs o
      ∙ ap (keep n r) (some_inj.0 e')

  -- When every map task is done, what doReduce leaves in the output file of the reduce task is
  -- exactly the lines that the sequential program prints for the keys that hash to the task, in the
  -- same order: for a map function that emits text, a reduce function that does not depend on the
  -- order of the values, and any sort, stable or not.
  pub do_reduce_exact :
      (pid : ℕ)
      → EmitsText app.json app.mapf
      → OrderFree app.reducef
      → reply.task_id < n
      → reply.n_map ≡ length files
      → MapsDone app.json app.mapf n 0 files fs
      → sequential app.order app.mapf app.reducef files fs ≡ some out
      → lookup
          (reduce_out reply.task_id)
          (run_ops (do_reduce app.json app.order app.reducef pid reply fs) fs)
        ≡ some (concat (lines (keep n reply.task_id out)))
  unfolding do_reduce
  do_reduce_exact pid t o h len d e =
      let r = reply.task_id in
      replace_file-lookup (reduce_tmp pid r) (reduce_out r) (reduce_out r) _ fs (λ e. cc)
      ∙ if_true _ _ (beq_refl (reduce_out r))
      ∙ ap (λ l. some (concat (lines l))) (reduced-keep t o h len d e)
