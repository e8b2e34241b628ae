-- ===== src/Mr/Files.antt =====
-- mr/worker.go: the files that workers share, and what a worker does to them. A worker may stop
-- between any two operations, by a crash or by log.Fatalf where an operation fails.
use mathlib.Core.Option.{some_inj}
use mit_6824_raft.Prelude.{
  ℕ, zero, suc, ◌≡◌, refl, ap, sym, ◌∙◌, ◌↔◌, Bool, true, Option, none, some, List, [], ◌∷◌, ◌++◌,
  GoString, Map, Eq, bytes_beq, bytes_beq_iff, lookup, insert, erase,
}

-- The names: an input file, "mr-<m>-<r>", ".mr-map-tmp-<pid>-<m>-<r>", "mr-out-<r>" and
-- ".mr-out-tmp-<pid>-<r>". An input file is called none of the others.
pub data FileName : Type 0 where
  input : GoString → FileName
  map_out : ℕ → ℕ → FileName
  map_tmp : ℕ → ℕ → ℕ → FileName
  reduce_out : ℕ → FileName
  reduce_tmp : ℕ → ℕ → FileName

abbrev name_code : FileName → List ℕ
name_code (input s) = 0 ∷ s
name_code (map_out m r) = 1 ∷ m ∷ r ∷ []
name_code (map_tmp pid m r) = 2 ∷ pid ∷ m ∷ r ∷ []
name_code (reduce_out r) = 3 ∷ r ∷ []
name_code (reduce_tmp pid r) = 4 ∷ pid ∷ r ∷ []

abbrev name_of : List ℕ → Option FileName
name_of (zero ∷ s) = some (input s)
name_of (suc zero ∷ m ∷ r ∷ []) = some (map_out m r)
name_of (suc (suc zero) ∷ pid ∷ m ∷ r ∷ []) = some (map_tmp pid m r)
name_of (suc (suc (suc zero)) ∷ r ∷ []) = some (reduce_out r)
name_of (suc (suc (suc (suc zero))) ∷ pid ∷ r ∷ []) = some (reduce_tmp pid r)
name_of xs = none

name_of-name_code : (n : FileName) → name_of (name_code n) ≡ some n
name_of-name_code (input s) = refl
name_of-name_code (map_out m r) = refl
name_of-name_code (map_tmp pid m r) = refl
name_of-name_code (reduce_out r) = refl
name_of-name_code (reduce_tmp pid r) = refl

unfoldable pub name_beq : FileName → FileName → Bool
name_beq a b = bytes_beq (name_code a) (name_code b)

pub name_beq_iff : (a b : FileName) → (name_beq a b ≡ true) ↔ (a ≡ b)
unfolding name_beq
name_beq_iff a b = (
  λ h. some_inj.0 (
      sym (name_of-name_code a)
      ∙ ap name_of ((bytes_beq_iff (name_code a) (name_code b)).0 h)
      ∙ name_of-name_code b),
  λ e. (bytes_beq_iff (name_code a) (name_code b)).1 (ap name_code e),
)

instance abbrev pub name_eq : Eq FileName
name_eq = record { beq = name_beq; beq_iff = name_beq_iff }

abbrev pub Files : Type 0
Files = Map FileName GoString

-- os.Create, a write to an open file, os.Rename.
pub data FileOp : Type 0 where
  create : FileName → FileOp
  write : FileName → GoString → FileOp
  rename : FileName → FileName → FileOp

-- os.Create truncates a file that exists; a rename replaces the target.
unfoldable pub run_op : FileOp → Files → Files
run_op (create f) fs = insert f [] fs
run_op (write f text) fs = elim (lookup f fs) [ none ↦ fs | some old ↦ insert f (old ++ text) fs ]
run_op (rename f g) fs = elim (lookup f fs) [ none ↦ fs | some text ↦ insert g text (erase f fs) ]

unfoldable pub run_ops : List FileOp → Files → Files
run_ops [] fs = fs
run_ops (o ∷ os) fs = run_ops os (run_op o fs)

-- The writes to an open file, one for each text.
unfoldable pub write_all : FileName → List GoString → List FileOp
write_all f [] = []
write_all f (text ∷ texts) = write f text ∷ write_all f texts

-- Both tasks write a temporary file and rename it to the final name.
unfoldable pub replace_file : FileName → FileName → List GoString → List FileOp
replace_file tmp final texts = create tmp ∷ write_all tmp texts ++ rename tmp final ∷ []

unfoldable pub concat : List GoString → GoString
concat [] = []
concat (text ∷ texts) = text ++ concat texts
