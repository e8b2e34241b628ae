-- ===== src/Mr/Sequential.antt =====
-- main/mrsequential.go: the sequential MapReduce, which the distributed one is compared with.
use mit_6824_raft.Prelude.{Option, some, List, [], ◌∷◌, ◌++◌, GoString, lookup, ◌>>=◌}
use mit_6824_raft.Mr.Files.{Files, input, name_eq}
use mit_6824_raft.Mr.Worker.{KeyValue, Sort, group, reduce_all}

-- The loop over the input files; none where one cannot be opened.
unfoldable pub map_inputs :
    (GoString → GoString → List KeyValue) → List GoString → Files → Option (List KeyValue)
map_inputs mapf [] fs = some []
map_inputs mapf (filename ∷ filenames) fs = do
  content ← lookup (input filename) fs
  rest ← map_inputs mapf filenames fs
  some (mapf filename content ++ rest)

-- The keys and outputs that are printed to mr-out-0, in order.
unfoldable pub sequential :
    Sort
    → (GoString → GoString → List KeyValue)
    → (GoString → List GoString → GoString)
    → List GoString
    → Files
    → Option (List (GoString × GoString))
sequential s mapf reducef filenames fs = do
  intermediate ← map_inputs mapf filenames fs
  some (reduce_all reducef (group (s.sort intermediate)))
