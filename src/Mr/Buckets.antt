-- ===== src/Mr/Buckets.antt =====
-- mr/worker.go: ihash, and the partition of a map task's pairs into the buckets.
use mit_6824_raft.Prelude.{
  ℕ, ◌%◌, ◌<◌, ◌≡◌, refl, ◌∙◌, sym, ap, some, List, [], ◌∷◌, ◌++◌, length, length-set, get_elem?,
  get_elem?-some, get_elem?-set_self, get_elem?-set_ne, arith, ◌==◌, ==_iff, if◌then◌else◌, ◌>>=◌,
  GoString, Returns, returned, Returns-bind, Returns-map, Bool-cases, inl, inr,
}
use Prim.Native.Nat.{◌^◌}
use mathlib.Core.List.{append-nil, append_assoc}
use mit_6824_raft.Mr.Worker.{KeyValue, ihash, add_to_bucket, modulo, bucket_all}

-- What goes to the r-th reduce task, in order.
unfoldable pub bucket_of : ℕ → ℕ → List KeyValue → List KeyValue
bucket_of n r [] = []
bucket_of n r (kv ∷ kva) =
    if (ihash kv.key % n) == r then kv ∷ bucket_of n r kva else bucket_of n r kva

pub bucket_of-append :
    (n r : ℕ) (xs ys : List KeyValue)
    → bucket_of n r (xs ++ ys) ≡ bucket_of n r xs ++ bucket_of n r ys
unfolding bucket_of
bucket_of-append n r [] ys = refl
bucket_of-append n r (kv ∷ xs) ys = elim (Bool-cases ((ihash kv.key % n) == r)) [
  | inl h ↦ rw h (ap (λ l. kv ∷ l) (bucket_of-append n r xs ys))
  | inr h ↦ rw h (bucket_of-append n r xs ys)
]

-- The number of a reduce task, for a string of any length.
pub ihash-lt : (key : GoString) → ihash key < 2 ^ 31
unfolding ihash
ihash-lt key = omega arith

modulo_pos : (x n : ℕ) → 0 < n → modulo x n ≡ some (x % n)
unfolding modulo
modulo_pos x n h = ground arith

-- `bs` after the pairs `kva` are spread over it.
abbrev pub Spread : ℕ → List KeyValue → List (List KeyValue) → List (List KeyValue) → Type 0
Spread n kva bs out =
    (length out ≡ n)
    × ((r : ℕ) (b : List KeyValue)
        → get_elem? bs r ≡ some b
        → get_elem? out r ≡ some (b ++ bucket_of n r kva))

add_to_bucket-Returns :
    (kv : KeyValue) (i : ℕ) (bs : List (List KeyValue))
    → i < length bs
    → Returns
        (λ out.
          (length out ≡ length bs)
          × ((r : ℕ) (b : List KeyValue)
              → get_elem? bs r ≡ some b
              → get_elem? out r ≡ some (if i == r then b ++ kv ∷ [] else b)))
        (add_to_bucket kv i bs)
unfolding add_to_bucket
add_to_bucket-Returns kv i bs h =
    let (b, at) = get_elem?-some bs i h in
    rw (at, ◌>>=◌)
      (returned (
        length-set bs i _,
        λ r b' e. grind (
          arith,
          at,
          e,
          ==_iff i r,
          get_elem?-set_self bs i (b ++ kv ∷ []) h,
          get_elem?-set_ne bs i r (b ++ kv ∷ []),
        ),
      ))

pub bucket_all-Spread :
    (n : ℕ) (kva : List KeyValue) (bs : List (List KeyValue))
    → 0 < n
    → length bs ≡ n
    → Returns (Spread n kva bs) (bucket_all n kva bs)
unfolding bucket_all bucket_of
bucket_all-Spread n [] bs h len = returned (len, λ r b e. e ∙ ap some (sym (append-nil b)))
bucket_all-Spread n (kv ∷ kva) bs h len =
    rw (modulo_pos (ihash kv.key) n h, ◌>>=◌)
      (Returns-bind _ _ _ _ (add_to_bucket-Returns kv (ihash kv.key % n) bs (omega arith))
        (λ out e q.
          Returns-map (Spread n kva out) _ _
            (λ out' w. (
              w.0,
              λ r b at. grind (
                arith,
                q.1 r b at,
                w.1 r b,
                w.1 r (b ++ kv ∷ []),
                append_assoc b (kv ∷ []) (bucket_of n r kva),
              ),
            ))
            (bucket_all-Spread n kva out h (q.0 ∙ len))))
