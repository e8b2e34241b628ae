-- ===== src/Mr/Worker.antt =====
-- mr/worker.go: the tasks of a worker, as the operations on files that they come to. The user's map
-- and reduce functions, encoding/json and sort.Sort are parameters.
use Prim.Native.Nat.{◌^◌, bit_xor}
use mathlib.Core.List.{Perm}
use mit_6824_raft.Prelude.{
  ℕ, zero, suc, ◌*◌, ◌%◌, ◌≡◌, Bool, true, false, ◌||◌, ◌&&◌, Option, none, some, List, [], ◌∷◌,
  ◌++◌, get_elem?, set, replicate, All, GoString, bytes_eq, lookup, ltb, ◌==◌, if◌then◌else◌, ◌>>=◌,
}
use mit_6824_raft.Mr.Coordinator.{RequestTaskReply}
use mit_6824_raft.Mr.Files.{
  Files, FileOp, input, map_out, map_tmp, reduce_out, reduce_tmp, name_eq, replace_file,
}

pub record KeyValue : Type 0 where
  pub key : GoString
  pub value : GoString

-- Go's < on strings.
unfoldable pub bytes_ltb : GoString → GoString → Bool
bytes_ltb xs [] = false
bytes_ltb [] (y ∷ ys) = true
bytes_ltb (x ∷ xs) (y ∷ ys) = ltb x y || ((x == y) && bytes_ltb xs ys)

-- byKey.Less, on the two elements.
unfoldable pub less : KeyValue → KeyValue → Bool
less a b = bytes_ltb a.key b.key

-- hash/fnv's New32a: h ^= b, then h *= 16777619, in 32 bits.
unfoldable pub fnv32a : ℕ → GoString → ℕ
fnv32a h [] = h
fnv32a h (b ∷ bs) = fnv32a ((bit_xor h b * 16_777_619) % 2 ^ 32) bs

-- h.Sum32() & 0x7fffffff
unfoldable pub ihash : GoString → ℕ
ihash key = fnv32a 2_166_136_261 key % 2 ^ 31

-- encoding/json: Encode of one pair, and Decode until it fails. A string that is not UTF-8 comes
-- back changed, so the round trip is of pairs of valid text.
pub record Json : Type 1 where
  pub encode : KeyValue → GoString
  pub decode : GoString → List KeyValue
  pub IsText : KeyValue → Type 0
  pub decode_nil : decode [] ≡ []
  pub decode-encode :
      (kv : KeyValue) (rest : GoString) → IsText kv → decode (encode kv ++ rest) ≡ kv ∷ decode rest

-- No later pair is less than an earlier one.
abbrev pub IsSorted : List KeyValue → Type 0
IsSorted [] = Unit
IsSorted (a ∷ as') = All (λ b. less b a ≡ false) as' × IsSorted as'

-- sort.Sort(byKey(kvs)), which does not promise to keep the order of equal keys.
pub record Sort : Type 0 where
  pub sort : List KeyValue → List KeyValue
  pub sort_perm : (kvs : List KeyValue) → Perm (sort kvs) kvs
  pub sort_sorted : (kvs : List KeyValue) → IsSorted (sort kvs)

-- buckets[r] = append(buckets[r], kv)
unfoldable pub add_to_bucket : KeyValue → ℕ → List (List KeyValue) → Option (List (List KeyValue))
add_to_bucket kv r buckets = do b ← get_elem? buckets r; some (set buckets r (b ++ kv ∷ []))

-- x % NReduce, which panics on 0.
unfoldable pub modulo : ℕ → ℕ → Option ℕ
modulo x n = if n == 0 then none else some (x % n)

unfoldable pub bucket_all : ℕ → List KeyValue → List (List KeyValue) → Option (List (List KeyValue))
bucket_all n_reduce [] buckets = some buckets
bucket_all n_reduce (kv ∷ kva) buckets = do
  r ← modulo (ihash kv.key) n_reduce
  buckets' ← add_to_bucket kv r buckets
  bucket_all n_reduce kva buckets'

module _ (json : Json) where
  -- The loop over enc.Encode.
  unfoldable pub encoded : List KeyValue → List GoString
  encoded [] = []
  encoded (kv ∷ kvs) = json.encode kv ∷ encoded kvs

  -- The loop over the buckets, from the r-th on.
  unfoldable pub write_buckets : ℕ → ℕ → ℕ → List (List KeyValue) → List FileOp
  write_buckets pid m r [] = []
  write_buckets pid m r (kvs ∷ buckets) =
      replace_file (map_tmp pid m r) (map_out m r) (encoded kvs)
      ++ write_buckets pid m (suc r) buckets

  -- What doMap does to the files; none where it stops before it writes any.
  unfoldable pub do_map :
      (GoString → GoString → List KeyValue) → ℕ → RequestTaskReply → Files → Option (List FileOp)
  do_map mapf pid reply fs = do
    content ← lookup (input reply.file) fs
    let kva = mapf reply.file content
    buckets ← bucket_all reply.n_reduce kva (replicate reply.n_reduce [])
    some (write_buckets pid reply.task_id 0 buckets)

  -- A missing file adds nothing.
  unfoldable pub decode_file : Option GoString → List KeyValue
  decode_file none = []
  decode_file (some text) = json.decode text

  -- for m < NMap, where `left` rounds are left.
  unfoldable pub read_intermediate : ℕ → ℕ → ℕ → Files → List KeyValue
  read_intermediate r m zero fs = []
  read_intermediate r m (suc left) fs =
      decode_file (lookup (map_out m r) fs) ++ read_intermediate r (suc m) left fs

-- The loop of the sorted pairs: `values` are those of the key so far, and the pairs that are left
-- come after them. The result has each key with its values.
unfoldable pub group_run :
    GoString → List GoString → List KeyValue → List (GoString × List GoString)
group_run key values [] = (key, values) ∷ []
group_run key values (kv ∷ rest) = elim (bytes_eq.beq kv.key key) [
  | true ↦ group_run key (values ++ kv.value ∷ []) rest
  | false ↦ (key, values) ∷ group_run kv.key (kv.value ∷ []) rest
]

unfoldable pub group : List KeyValue → List (GoString × List GoString)
group [] = []
group (kv ∷ kvs) = group_run kv.key (kv.value ∷ []) kvs

-- fmt.Fprintf(tmp, "%v %v\n", key, output)
unfoldable pub line : GoString × GoString → GoString
line (key, output) = key ++ 0x20 ∷ output ++ 0x0A ∷ []

module _ (reducef : GoString → List GoString → GoString) where
  unfoldable pub reduce_all : List (GoString × List GoString) → List (GoString × GoString)
  reduce_all [] = []
  reduce_all ((key, values) ∷ gs) = (key, reducef key values) ∷ reduce_all gs

unfoldable pub lines : List (GoString × GoString) → List GoString
lines [] = []
lines (kv ∷ kvs) = line kv ∷ lines kvs

module _ (json : Json) (s : Sort) (reducef : GoString → List GoString → GoString) where
  -- The keys and outputs that doReduce prints, in order.
  unfoldable pub reduced : RequestTaskReply → Files → List (GoString × GoString)
  reduced reply fs =
      reduce_all reducef (group (s.sort (read_intermediate json reply.task_id 0 reply.n_map fs)))

  unfoldable pub do_reduce : ℕ → RequestTaskReply → Files → List FileOp
  do_reduce pid reply fs =
      replace_file (reduce_tmp pid reply.task_id) (reduce_out reply.task_id)
        (lines (reduced reply fs))
