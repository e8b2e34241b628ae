-- ===== src/Mr/MapTask.antt =====
-- mr/worker.go: what doMap leaves in the files.
use mit_6824_raft.Prelude.{
  ℕ, zero, suc, ◌+◌, ◌<◌, ◌≤◌, ◌≡◌, ◌≢◌, ◌∙◌, refl, ap, some, List, [], ◌∷◌, GoString, get_elem?,
  replicate, length-replicate, lookup, arith, Returns-some, get_elem?-replicate,
}
use mit_6824_raft.Mr.Coordinator.{RequestTaskReply}
use mit_6824_raft.Mr.Files.{
  FileName, Files, FileOp, input, map_out, map_tmp, name_eq, run_ops, concat, replace_file,
}
use mit_6824_raft.Mr.Worker.{KeyValue, Json, encoded, write_buckets, do_map}
use mit_6824_raft.Mr.Replace.{run_ops-append, replace_file-lookup}
use mit_6824_raft.Mr.Buckets.{bucket_of, bucket_all-Spread}

-- Not a file that the worker `pid` writes for map task `m`.
abbrev pub Foreign : ℕ → ℕ → FileName → Type 0
Foreign pid m f = ((r : ℕ) → f ≢ map_out m r) × ((r : ℕ) → f ≢ map_tmp pid m r)

out_injective : {m r s : ℕ} → map_out m r ≡ map_out m s → r ≡ s
out_injective e = cc

module _ (json : Json) (pid m : ℕ) where
  write_buckets-other :
      (r : ℕ) (bs : List (List KeyValue)) (f : FileName) (fs : Files)
      → ((i : ℕ) → f ≢ map_tmp pid m i)
      → ((j : ℕ) → r ≤ j → f ≢ map_out m j)
      → lookup f (run_ops (write_buckets json pid m r bs) fs) ≡ lookup f fs
  unfolding write_buckets run_ops
  write_buckets-other r [] f fs t o = refl
  write_buckets-other r (b ∷ bs) f fs t o =
      let ops = replace_file (map_tmp pid m r) (map_out m r) (encoded json b) in
      ap (lookup f) (run_ops-append ops (write_buckets json pid m (suc r) bs) fs)
      ∙ write_buckets-other (suc r) bs f (run_ops ops fs) t (λ j h. o j (omega arith))
      ∙ replace_file-lookup (map_tmp pid m r) (map_out m r) f (encoded json b) fs (λ e. cc)
      ∙ grind (
        arith,
        name_eq.beq_iff (map_tmp pid m r) f,
        name_eq.beq_iff (map_out m r) f,
        t r,
        o r (omega arith),
      )

  write_buckets-at :
      (r : ℕ) (bs : List (List KeyValue)) (i j : ℕ) (b : List KeyValue) (fs : Files)
      → get_elem? bs i ≡ some b
      → r + i ≡ j
      → lookup (map_out m j) (run_ops (write_buckets json pid m r bs) fs)
        ≡ some (concat (encoded json b))
  unfolding write_buckets
  write_buckets-at r [] i j b fs e h = cc
  write_buckets-at r (b' ∷ bs) zero j b fs e h =
      let ops = replace_file (map_tmp pid m r) (map_out m r) (encoded json b') in
      ap (lookup (map_out m j)) (run_ops-append ops (write_buckets json pid m (suc r) bs) fs)
      ∙ write_buckets-other (suc r) bs (map_out m j) (run_ops ops fs) (λ s e. cc)
          (λ s le e. absurd (omega (arith, out_injective e, le, h)))
      ∙ replace_file-lookup (map_tmp pid m r) (map_out m r) (map_out m j) (encoded json b') fs
          (λ e. cc)
      ∙ grind (arith, name_eq.beq_iff (map_out m r) (map_out m j), h, e)
  write_buckets-at r (b' ∷ bs) (suc i) j b fs e h =
      let ops = replace_file (map_tmp pid m r) (map_out m r) (encoded json b') in
      ap (lookup (map_out m j)) (run_ops-append ops (write_buckets json pid m (suc r) bs) fs)
      ∙ write_buckets-at (suc r) bs i j b (run_ops ops fs) e (omega (arith, h))

-- The contents of a file of pairs.
abbrev pub Holds : Json → FileName → List KeyValue → Files → Type 0
Holds json f kvs fs = lookup f fs ≡ some (concat (encoded json kvs))

-- With at least one reduce task, doMap on an input file that exists does not panic; then the file
-- of each reduce task holds exactly the emitted pairs whose key hashes to the task, in their order,
-- and no file but those and the worker's own temporary ones is changed.
pub do_map_exact :
    (json : Json) (mapf : GoString → GoString → List KeyValue) (pid : ℕ) (reply : RequestTaskReply)
    (fs : Files) (content : GoString)
    → 0 < reply.n_reduce
    → lookup (input reply.file) fs ≡ some content
    → (ops : List FileOp) × (do_map json mapf pid reply fs ≡ some ops)
      × ((r : ℕ)
          → r < reply.n_reduce
          → Holds json
              (map_out reply.task_id r)
              (bucket_of reply.n_reduce r (mapf reply.file content))
              (run_ops ops fs))
      × ((f : FileName) → Foreign pid reply.task_id f → lookup f (run_ops ops fs) ≡ lookup f fs)
unfolding do_map
do_map_exact json mapf pid reply fs content pos at =
    let n = reply.n_reduce in
    let m = reply.task_id in
    let kva = mapf reply.file content in
    let (bs, e, w) =
      Returns-some _ _ (bucket_all-Spread n kva (replicate n []) pos (length-replicate n [])) in
    (
      write_buckets json pid m 0 bs,
      simp (at, e),
      (λ r h.
          write_buckets-at json pid m 0 bs r r _ fs (w.1 r [] (get_elem?-replicate n r [] h))
            (omega arith)),
      (λ f h. write_buckets-other json pid m 0 bs f fs h.1 (λ j _. h.0 j)),
    )
