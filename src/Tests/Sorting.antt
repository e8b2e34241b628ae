-- ===== src/Tests/Sorting.antt =====
-- A concrete sort of pairs, an encoding of pairs of one-byte strings, and a job over them.
use mathlib.Core.List.{Perm}
use mathlib.Core.List.Perm
use mit_6824_raft.Prelude.{
  ℕ, ◌≡◌, refl, subst, false, List, [], ◌∷◌, ◌++◌, All, GoString, if◌then◌else◌, arith, Bool-cases,
  inl, inr,
}
use mit_6824_raft.Mr.Worker.{KeyValue, less, IsSorted, Sort, Json}
use mit_6824_raft.Mr.Groups.{bytes_ltb_trans, bytes_ltb_asym}

abbrev pub insert_pair : KeyValue → List KeyValue → List KeyValue
insert_pair a [] = a ∷ []
insert_pair a (b ∷ bs) = let rest = insert_pair a bs in if less b a then b ∷ rest else a ∷ b ∷ bs

abbrev pub sort_pairs : List KeyValue → List KeyValue
sort_pairs [] = []
sort_pairs (a ∷ as') = insert_pair a (sort_pairs as')

insert_pair-perm : (a : KeyValue) (bs : List KeyValue) → Perm (insert_pair a bs) (a ∷ bs)
insert_pair-perm a [] = Perm.rfl
insert_pair-perm a (b ∷ bs) = elim (Bool-cases (less b a)) [
  | inl h ↦ rw h (Perm.trans (Perm.cons b (insert_pair-perm a bs)) (Perm.swap a b bs))
  | inr h ↦ rw h Perm.rfl
]

pub sort_pairs-perm : (kvs : List KeyValue) → Perm (sort_pairs kvs) kvs
sort_pairs-perm [] = Perm.rfl
sort_pairs-perm (a ∷ kvs) =
    Perm.trans (insert_pair-perm a (sort_pairs kvs)) (Perm.cons a (sort_pairs-perm kvs))

insert_pair-All :
    (P : KeyValue → Type 0) (a : KeyValue) (bs : List KeyValue)
    → P a
    → All P bs
    → All P (insert_pair a bs)
insert_pair-All P a [] p h = (p, tt)
insert_pair-All P a (b ∷ bs) p h = elim (Bool-cases (less b a)) [
  | inl e ↦ rw e (h.0, insert_pair-All P a bs p h.1)
  | inr e ↦ rw e (p, h)
]

-- Nothing below `b` comes later, when nothing below `a` does and `b` is not below `a`.
All-less :
    (a b : KeyValue) (bs : List KeyValue)
    → less b a ≡ false
    → All (λ c. less c b ≡ false) bs
    → All (λ c. less c a ≡ false) bs
unfolding less
All-less a b [] h l = tt
All-less a b (c ∷ bs) h l =
    (grind (arith, l.0, h, bytes_ltb_trans c.key a.key b.key), All-less a b bs h l.1)

insert_pair-IsSorted :
    (a : KeyValue) (bs : List KeyValue) → IsSorted bs → IsSorted (insert_pair a bs)
unfolding less
insert_pair-IsSorted a [] s = (tt, tt)
insert_pair-IsSorted a (b ∷ bs) s = elim (Bool-cases (less b a)) [
  | inl e ↦ rw e (
    insert_pair-All (λ c. less c b ≡ false) a bs (bytes_ltb_asym b.key a.key e) s.0,
    insert_pair-IsSorted a bs s.1,
  )
  | inr e ↦ rw e ((e, All-less a b bs e s.0), s)
]

pub sort_pairs-IsSorted : (kvs : List KeyValue) → IsSorted (sort_pairs kvs)
sort_pairs-IsSorted [] = tt
sort_pairs-IsSorted (a ∷ kvs) = insert_pair-IsSorted a (sort_pairs kvs) (sort_pairs-IsSorted kvs)

abbrev pub by_key : Sort
by_key = record {
  sort = sort_pairs;
  sort_perm = sort_pairs-perm;
  sort_sorted = sort_pairs-IsSorted;
}

abbrev first_byte : GoString → ℕ
first_byte [] = 0
first_byte (b ∷ bs) = b

abbrev pub one_byte : ℕ → ℕ → KeyValue
one_byte a b = record { key = a ∷ []; value = b ∷ [] }

abbrev decode_pairs : GoString → List KeyValue
decode_pairs [] = []
decode_pairs (a ∷ []) = []
decode_pairs (a ∷ b ∷ rest) = one_byte a b ∷ decode_pairs rest

abbrev encode_pair : KeyValue → GoString
encode_pair kv = first_byte kv.key ∷ first_byte kv.value ∷ []

abbrev pub IsOneByte : KeyValue → Type 0
IsOneByte kv = (a : ℕ) × (b : ℕ) × (one_byte a b ≡ kv)

pub decode-encode_pair :
    (kv : KeyValue) (rest : GoString)
    → IsOneByte kv
    → decode_pairs (encode_pair kv ++ rest) ≡ kv ∷ decode_pairs rest
decode-encode_pair kv rest (a, b, e) =
    subst (λ x. decode_pairs (encode_pair x ++ rest) ≡ x ∷ decode_pairs rest) e refl

abbrev pub two_bytes : Json
two_bytes = record {
  encode = encode_pair;
  decode = decode_pairs;
  IsText = IsOneByte;
  decode_nil = refl;
  decode-encode = decode-encode_pair;
}
