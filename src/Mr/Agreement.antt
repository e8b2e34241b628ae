-- ===== src/Mr/Agreement.antt =====
-- mr/worker.go: what a list of pairs reduces to, by key, and what one bucket of it does.
use mathlib.Core.List.{Perm, filter_map}
use mathlib.Core.List.Perm
use mit_6824_raft.Prelude.{
  ℕ, ◌%◌, ◌≡◌, ◌∙◌, refl, ap, true, Option, none, some, List, [], ◌∷◌, All, GoString, Map, lookup,
  if◌then◌else◌, ◌==◌, arith, bytes_eq,
}
use mit_6824_raft.Mr.Files.{name_eq}
use mit_6824_raft.Mr.Worker.{KeyValue, Sort, ihash, bytes_ltb, group, reduce_all}
use mit_6824_raft.Mr.Buckets.{bucket_of}
use mit_6824_raft.Mr.Groups.{
  values, some_values, Ascending, Ascending-ext, group-Ascending, group-lookup,
}

abbrev value_of : GoString → KeyValue → Option GoString
value_of k kv = if bytes_eq.beq kv.key k then some kv.value else none

values-filter_map :
    (k : GoString) (kvs : List KeyValue) → values k kvs ≡ filter_map (value_of k) kvs
unfolding values filter_map
values-filter_map k [] = refl
values-filter_map k (kv ∷ kvs) = ground (arith, values-filter_map k kvs)

values-Perm : (k : GoString) {xs ys : List KeyValue} → Perm xs ys → Perm (values k xs) (values k ys)
values-Perm k {xs} {ys} p =
    rw (values-filter_map k xs, values-filter_map k ys) (Perm.filter_map (value_of k) p)

values-bucket_of :
    (k : GoString) (n r : ℕ) (kvs : List KeyValue)
    → values k (bucket_of n r kvs) ≡ (if (ihash k % n) == r then values k kvs else [])
unfolding values bucket_of
values-bucket_of k n r [] = ground arith
values-bucket_of k n r (kv ∷ kvs) =
    grind (arith, bytes_eq.beq_iff kv.key k, values-bucket_of k n r kvs)

-- The lines of an output whose key hashes to the reduce task `r`.
unfoldable pub keep : ℕ → ℕ → Map GoString GoString → Map GoString GoString
keep n r [] = []
keep n r ((k, v) ∷ m) = if (ihash k % n) == r then (k, v) ∷ keep n r m else keep n r m

keep-lookup :
    (k : GoString) (n r : ℕ) (m : Map GoString GoString)
    → lookup k (keep n r m) ≡ (if (ihash k % n) == r then lookup k m else none)
unfolding keep lookup
keep-lookup k n r [] = ground arith
keep-lookup k n r ((j, v) ∷ m) = grind (arith, bytes_eq.beq_iff j k, keep-lookup k n r m)

keep-All :
    (a : GoString) (n r : ℕ) (m : Map GoString GoString)
    → All (λ kv. bytes_ltb a kv.0 ≡ true) m
    → All (λ kv. bytes_ltb a kv.0 ≡ true) (keep n r m)
unfolding keep
keep-All a n r [] h = tt
keep-All a n r ((j, v) ∷ m) h = ground (arith, keep-All a n r m h.1, h)

keep-Ascending : (n r : ℕ) (m : Map GoString GoString) → Ascending m → Ascending (keep n r m)
unfolding keep
keep-Ascending n r [] h = tt
keep-Ascending n r ((j, v) ∷ m) h = ground (arith, keep-Ascending n r m h.1, keep-All j n r m h.0)

-- The reduce function does not depend on the order of a key's values.
abbrev pub OrderFree : (GoString → List GoString → GoString) → Type 0
OrderFree reducef =
    (k : GoString) (vs ws : List GoString) → Perm vs ws → reducef k vs ≡ reducef k ws

module _ (reducef : GoString → List GoString → GoString) where
  abbrev answer : GoString → Option (List GoString) → Option GoString
  answer k none = none
  answer k (some vs) = some (reducef k vs)

  reduce_all-lookup :
      (k : GoString) (gs : Map GoString (List GoString))
      → lookup k (reduce_all reducef gs) ≡ answer k (lookup k gs)
  unfolding reduce_all lookup
  reduce_all-lookup k [] = refl
  reduce_all-lookup k ((j, vs) ∷ gs) = grind (arith, bytes_eq.beq_iff j k, reduce_all-lookup k gs)

  reduce_all-All :
      (a : GoString) (gs : Map GoString (List GoString))
      → All (λ kv. bytes_ltb a kv.0 ≡ true) gs
      → All (λ kv. bytes_ltb a kv.0 ≡ true) (reduce_all reducef gs)
  unfolding reduce_all
  reduce_all-All a [] h = tt
  reduce_all-All a ((j, vs) ∷ gs) h = (h.0, reduce_all-All a gs h.1)

  reduce_all-Ascending :
      (gs : Map GoString (List GoString)) → Ascending gs → Ascending (reduce_all reducef gs)
  unfolding reduce_all
  reduce_all-Ascending [] h = tt
  reduce_all-Ascending ((j, vs) ∷ gs) h = (reduce_all-All j gs h.0, reduce_all-Ascending gs h.1)

  answer-Perm :
      (k : GoString) (vs ws : List GoString)
      → OrderFree reducef
      → Perm vs ws
      → answer k (some_values vs) ≡ answer k (some_values ws)
  answer-Perm k [] ws h p = ap (λ x. answer k (some_values x)) (Perm.nil-eq p)
  answer-Perm k (v ∷ vs) [] h p = ap (λ x. answer k (some_values x)) (Perm.eq-nil p)
  answer-Perm k (v ∷ vs) (w ∷ ws) h p = ap some (h k (v ∷ vs) (w ∷ ws) p)

  module _ (s : Sort) where
    abbrev pub output : List KeyValue → Map GoString GoString
    output kvs = reduce_all reducef (group (s.sort kvs))

    output-Ascending : (kvs : List KeyValue) → Ascending (output kvs)
    output-Ascending kvs = reduce_all-Ascending _ (group-Ascending (s.sort kvs) (s.sort_sorted kvs))

    output-lookup :
        (k : GoString) (kvs : List KeyValue)
        → OrderFree reducef
        → lookup k (output kvs) ≡ answer k (some_values (values k kvs))
    output-lookup k kvs h =
        reduce_all-lookup k (group (s.sort kvs))
        ∙ ap (answer k) (group-lookup k (s.sort kvs) (s.sort_sorted kvs))
        ∙ answer-Perm k _ _ h (values-Perm k (s.sort_perm kvs))

    -- Reducing a bucket gives the lines of the whole whose key hashes to it.
    pub output-bucket_of :
        (n r : ℕ) (kvs : List KeyValue)
        → OrderFree reducef
        → output (bucket_of n r kvs) ≡ keep n r (output kvs)
    output-bucket_of n r kvs h =
        Ascending-ext _ _ (output-Ascending (bucket_of n r kvs))
          (keep-Ascending n r _ (output-Ascending kvs))
          (λ k. grind (
            arith,
            output-lookup k (bucket_of n r kvs) h,
            output-lookup k kvs h,
            keep-lookup k n r (output kvs),
            values-bucket_of k n r kvs,
          ))
