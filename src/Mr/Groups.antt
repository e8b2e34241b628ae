-- ===== src/Mr/Groups.antt =====
-- Go's order of strings, and the loop over sorted pairs: it visits each key once, in ascending order.
use mathlib.Core.List.{append-nil, append_assoc}
use mit_6824_raft.Prelude.{
  ◌≡◌, refl, sym, true, false, Option, none, some, List, [], ◌∷◌, ◌++◌, All, arith, if◌then◌else◌,
  GoString, Map, lookup, bytes_eq, beq_refl, Bool-cases, inl, inr,
}
use mit_6824_raft.Mr.Worker.{KeyValue, bytes_ltb, less, IsSorted, group_run, group}

pub bytes_ltb_irrefl : (a : GoString) → bytes_ltb a a ≡ false
unfolding bytes_ltb
bytes_ltb_irrefl [] = refl
bytes_ltb_irrefl (x ∷ a) = ground (arith, bytes_ltb_irrefl a)

pub bytes_ltb_total : (a b : GoString) → bytes_ltb a b ≡ false → bytes_ltb b a ≡ false → a ≡ b
unfolding bytes_ltb
bytes_ltb_total [] [] h k = refl
bytes_ltb_total [] (y ∷ b) h k = cc
bytes_ltb_total (x ∷ a) [] h k = cc
bytes_ltb_total (x ∷ a) (y ∷ b) h k = grind (arith, bytes_ltb_total a b)

pub bytes_ltb_trans :
    (a b c : GoString) → bytes_ltb a b ≡ true → bytes_ltb c b ≡ false → bytes_ltb a c ≡ true
unfolding bytes_ltb
bytes_ltb_trans a [] c h k = cc
bytes_ltb_trans [] (y ∷ b) [] h k = cc
bytes_ltb_trans [] (y ∷ b) (z ∷ c) h k = refl
bytes_ltb_trans (x ∷ a) (y ∷ b) [] h k = cc
bytes_ltb_trans (x ∷ a) (y ∷ b) (z ∷ c) h k = grind (arith, bytes_ltb_trans a b c)

-- The values of one key, in order.
unfoldable pub values : GoString → List KeyValue → List GoString
values k [] = []
values k (kv ∷ kvs) = if bytes_eq.beq kv.key k then kv.value ∷ values k kvs else values k kvs

abbrev pub some_values : List GoString → Option (List GoString)
some_values [] = none
some_values (v ∷ vs) = some (v ∷ vs)

-- No key is less than `k`.
abbrev AtLeast : GoString → List KeyValue → Type 0
AtLeast k kvs = All (λ kv. bytes_ltb kv.key k ≡ false) kvs

values_below :
    (k j : GoString) (kvs : List KeyValue)
    → bytes_ltb k j ≡ true
    → AtLeast j kvs
    → values k kvs ≡ []
unfolding values
values_below k j [] h a = refl
values_below k j (kv ∷ kvs) h a =
    grind (arith, values_below k j kvs h, bytes_eq.beq_iff kv.key k, a.0, a.1)

below_next :
    (a b : GoString) → bytes_ltb b a ≡ false → bytes_eq.beq b a ≡ false → bytes_ltb a b ≡ true
below_next a b h k = grind (arith, bytes_ltb_total a b, bytes_eq.beq_iff b a)

group_run-lookup :
    (k key : GoString) (vs : List GoString) (kvs : List KeyValue)
    → AtLeast key kvs
    → IsSorted kvs
    → lookup k (group_run key vs kvs)
      ≡ (if bytes_eq.beq key k then some (vs ++ values key kvs) else some_values (values k kvs))
unfolding group_run values lookup less
group_run-lookup k key vs [] a s = ground (arith, append-nil vs)
group_run-lookup k key vs (kv ∷ kvs) a s = elim (Bool-cases (bytes_eq.beq kv.key key)) [
  | inl h ↦ grind (
    arith,
    h,
    bytes_eq.beq_iff kv.key key,
    bytes_eq.beq_iff key k,
    append_assoc vs (kv.value ∷ []) (values key kvs),
    group_run-lookup k key (vs ++ kv.value ∷ []) kvs a.1 s.1,
  )
  | inr h ↦
      let below = below_next key kv.key a.0 h in
      grind (
        arith,
        h,
        bytes_eq.beq_iff kv.key k,
        bytes_eq.beq_iff key k,
        append-nil vs,
        values_below key kv.key kvs below s.0,
        group_run-lookup k kv.key (kv.value ∷ []) kvs s.0 s.1,
      )
]

-- Keys in ascending order, each once.
abbrev pub Ascending : {V : Type 0} → List (GoString × V) → Type 0
Ascending [] = Unit
Ascending ((k, v) ∷ m) = All (λ kv. bytes_ltb k kv.0 ≡ true) m × Ascending m

group_run-All :
    (a key : GoString) (vs : List GoString) (kvs : List KeyValue)
    → bytes_ltb a key ≡ true
    → AtLeast key kvs
    → IsSorted kvs
    → All (λ kv. bytes_ltb a kv.0 ≡ true) (group_run key vs kvs)
unfolding group_run less
group_run-All a key vs [] h low s = (h, tt)
group_run-All a key vs (kv ∷ kvs) h low s = elim (Bool-cases (bytes_eq.beq kv.key key)) [
  | inl e ↦ rw (e, group_run) (group_run-All a key (vs ++ kv.value ∷ []) kvs h low.1 s.1)
  | inr e ↦
      let next = bytes_ltb_trans a key kv.key h low.0 in
      rw (e, group_run) (h, group_run-All a kv.key (kv.value ∷ []) kvs next s.0 s.1)
]

group_run-Ascending :
    (key : GoString) (vs : List GoString) (kvs : List KeyValue)
    → AtLeast key kvs
    → IsSorted kvs
    → Ascending (group_run key vs kvs)
unfolding group_run less
group_run-Ascending key vs [] low s = (tt, tt)
group_run-Ascending key vs (kv ∷ kvs) low s = elim (Bool-cases (bytes_eq.beq kv.key key)) [
  | inl e ↦ rw (e, group_run) (group_run-Ascending key (vs ++ kv.value ∷ []) kvs low.1 s.1)
  | inr e ↦
      rw (e, group_run)
        (
          group_run-All key kv.key (kv.value ∷ []) kvs (below_next key kv.key low.0 e) s.0 s.1,
          group_run-Ascending kv.key (kv.value ∷ []) kvs s.0 s.1,
        )
]

pub group-Ascending : (kvs : List KeyValue) → IsSorted kvs → Ascending (group kvs)
unfolding group less
group-Ascending [] s = tt
group-Ascending (kv ∷ kvs) s = group_run-Ascending kv.key (kv.value ∷ []) kvs s.0 s.1

pub group-lookup :
    (k : GoString) (kvs : List KeyValue)
    → IsSorted kvs
    → lookup k (group kvs) ≡ some_values (values k kvs)
unfolding group values lookup less
group-lookup k [] s = refl
group-lookup k (kv ∷ kvs) s =
    grind (arith, bytes_eq.beq_iff kv.key k, group_run-lookup k kv.key (kv.value ∷ []) kvs s.0 s.1)

Ascending-absent :
    {V : Type 0} (a : GoString) (m : Map GoString V)
    → All (λ kv. bytes_ltb a kv.0 ≡ true) m
    → lookup a m ≡ none
unfolding lookup
Ascending-absent a [] h = refl
Ascending-absent a ((k, v) ∷ m) h =
    grind (arith, bytes_eq.beq_iff k a, bytes_ltb_irrefl a, h.0, Ascending-absent a m h.1)

pub bytes_ltb_asym : (a b : GoString) → bytes_ltb a b ≡ true → bytes_ltb b a ≡ false
unfolding bytes_ltb
bytes_ltb_asym [] [] h = cc
bytes_ltb_asym [] (y ∷ b) h = refl
bytes_ltb_asym (x ∷ a) [] h = cc
bytes_ltb_asym (x ∷ a) (y ∷ b) h = grind (arith, bytes_ltb_asym a b)

Ascending-below :
    {V : Type 0} (a b : GoString) (m : Map GoString V)
    → bytes_ltb a b ≡ true
    → All (λ kv. bytes_ltb b kv.0 ≡ true) m
    → lookup a m ≡ none
unfolding lookup
Ascending-below a b [] h l = refl
Ascending-below a b ((k, v) ∷ m) h l =
    grind (arith, h, bytes_eq.beq_iff k a, bytes_ltb_asym a b, l.0, Ascending-below a b m h l.1)

-- The first keys of two ascending lists that answer the same.
Ascending-not_below :
    {V : Type 0} (a b : GoString) (v w : V) (xs ys : Map GoString V)
    → All (λ kv. bytes_ltb b kv.0 ≡ true) ys
    → lookup a ((a, v) ∷ xs) ≡ lookup a ((b, w) ∷ ys)
    → bytes_ltb a b ≡ false
unfolding lookup
Ascending-not_below a b v w xs ys q h = elim (Bool-cases (bytes_ltb a b)) [
  | inl e ↦ grind (
    arith,
    e,
    h,
    bytes_eq.beq_iff b a,
    beq_refl a,
    bytes_ltb_irrefl a,
    Ascending-below a b ys e q,
  )
  | inr e ↦ e
]

-- An ascending list is what it answers.
pub Ascending-ext :
    {V : Type 0} (xs ys : Map GoString V)
    → Ascending xs
    → Ascending ys
    → ((k : GoString) → lookup k xs ≡ lookup k ys)
    → xs ≡ ys
unfolding lookup
Ascending-ext [] [] p q h = refl
Ascending-ext [] ((b, w) ∷ ys) p q h = absurd (grind (arith, h b, beq_refl b))
Ascending-ext ((a, v) ∷ xs) [] p q h = absurd (grind (arith, h a, beq_refl a))
Ascending-ext ((a, v) ∷ xs) ((b, w) ∷ ys) p q h =
    let e : a ≡ b =
      bytes_ltb_total a b (Ascending-not_below a b v w xs ys q.0 (h a))
        (Ascending-not_below b a w v ys xs p.0 (sym (h b))) in
    let f : v ≡ w = grind (arith, h a, e, beq_refl a, beq_refl b) in
    let tails : (k : GoString) → lookup k xs ≡ lookup k ys = λ k.
      grind (
        arith,
        h k,
        e,
        bytes_eq.beq_iff a k,
        Ascending-absent a xs p.0,
        Ascending-absent b ys q.0,
      ) in
    grind (arith, e, f, Ascending-ext xs ys p.1 q.1 tails)
