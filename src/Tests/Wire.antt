-- ===== src/Tests/Wire.antt =====
-- An encoding with the behaviour that the program relies on: a writer and a reader for each type.
use mit_6824_raft.Prelude.{
  ℕ, zero, suc, ◌<◌, ◌≡◌, refl, ap, Option, none, some, List, [], ◌∷◌, length, GoString, Map, ◌>>=◌,
  arith,
}
use mit_6824_raft.Raft.State.{Bytes, LogEntry, HardState, Codec}
use mit_6824_raft.KvRaft.Server.{Store, LastReply, StoreCodec}
use mit_6824_raft.KvRaft.Server as Kv

pub record Wire (A : Type 0) : Type 0 where
  pub write : A → Bytes → Bytes
  pub read : Bytes → Option (A × Bytes)
  pub read-write : (a : A) (rest : Bytes) → read (write a rest) ≡ some (a, rest)

abbrev read_nat : Bytes → Option (ℕ × Bytes)
read_nat [] = none
read_nat (n ∷ rest) = some (n, rest)

abbrev pub nat : Wire ℕ
nat = record { write = λ n rest. n ∷ rest; read = read_nat; read-write = λ n rest. refl }

module _ {A B : Type 0} (a : Wire A) (b : Wire B) where
  abbrev pub pair : Wire (A × B)
  pair = record {
    write = λ x rest. a.write x.0 (b.write x.1 rest);
    read = λ bytes. a.read bytes >>= (λ r. b.read r.1 >>= (λ s. some ((r.0, s.0), s.1)));
    read-write =
        λ x rest. rw (a.read-write x.0 (b.write x.1 rest), ◌>>=◌) (rw (b.read-write x.1 rest));
  }

module _ {A B : Type 0} (a : Wire A) where
  -- A type that stands for another.
  abbrev pub via : (f : A → B) (g : B → A) → ((x : B) → f (g x) ≡ x) → Wire B
  via f g same = record {
    write = λ x rest. a.write (g x) rest;
    read = λ bytes. a.read bytes >>= (λ r. some (f r.0, r.1));
    read-write = λ x rest. rw (a.read-write (g x) rest, ◌>>=◌) (ap (λ y. some (y, rest)) (same x));
  }

module _ {A : Type 0} (a : Wire A) where
  abbrev write_all : List A → Bytes → Bytes
  write_all [] rest = rest
  write_all (x ∷ xs) rest = a.write x (write_all xs rest)

  abbrev read_all : ℕ → Bytes → Option (List A × Bytes)
  read_all zero bytes = some ([], bytes)
  read_all (suc n) bytes = a.read bytes >>= (λ r. read_all n r.1 >>= (λ s. some (r.0 ∷ s.0, s.1)))

  pub read_all-write_all :
      (xs : List A) (rest : Bytes) → read_all (length xs) (write_all xs rest) ≡ some (xs, rest)
  read_all-write_all [] rest = refl
  read_all-write_all (x ∷ xs) rest =
      rw (a.read-write x (write_all xs rest), ◌>>=◌) (rw (read_all-write_all xs rest))

  abbrev pub list : Wire (List A)
  list = record {
    write = λ xs rest. length xs ∷ write_all xs rest;
    read = λ bytes. read_nat bytes >>= (λ r. read_all r.0 r.1);
    read-write = read_all-write_all;
  }

abbrev pub first : {A : Type 0} → List A → Option A
first [] = none
first (x ∷ xs) = some x

abbrev pub at_most_one : {A : Type 0} → Option A → List A
at_most_one none = []
at_most_one (some x) = x ∷ []

pub first-at_most_one : {A : Type 0} (o : Option A) → first (at_most_one o) ≡ o
first-at_most_one none = refl
first-at_most_one (some x) = refl

module _ {A : Type 0} (a : Wire A) where
  abbrev pub option : Wire (Option A)
  option = via (list a) first at_most_one first-at_most_one

abbrev pub entry : Wire (LogEntry ℕ)
entry =
    via (pair nat (option nat)) (λ x. record { term = x.0; command = x.1 })
      (λ e. (e.term, e.command)) (λ e. refl)

abbrev pub hard_state : Wire (HardState ℕ)
hard_state =
    via (pair (pair nat (option nat)) (pair (list entry) (pair nat nat)))
      (λ x. record {
        current_term = x.0.0;
        voted_for = x.0.1;
        log = x.1.0;
        last_included_index = x.1.1.0;
        last_included_term = x.1.1.1;
      })
      (λ h. ((h.current_term, h.voted_for), (h.log, (h.last_included_index, h.last_included_term))))
      (λ h. refl)

-- Every encoding starts with a byte, so that it is not empty.
abbrev pub decode : {A : Type 0} → Wire A → Bytes → Option A
decode a [] = none
decode a (b ∷ bytes) = a.read bytes >>= (λ r. some r.0)

pub decode_lem : {A : Type 0} (a : Wire A) (x : A) → decode a (0 ∷ a.write x []) ≡ some x
decode_lem a x = rw (a.read-write x [])

pub nonempty : {A : Type 0} (a : Wire A) (x : A) → 0 < length (0 ∷ a.write x [])
nonempty a x = omega arith

instance abbrev pub gob : Codec ℕ
gob = record {
  encode = λ h. 0 ∷ hard_state.write h [];
  decode = decode hard_state;
  decode-encode = decode_lem hard_state;
  encode_nonempty = nonempty hard_state;
}

abbrev pub to_err : ℕ → Kv.Err
to_err zero = Kv.ok
to_err (suc zero) = Kv.no_key
to_err (suc (suc zero)) = Kv.wrong_leader
to_err _ = Kv.timeout

abbrev pub from_err : Kv.Err → ℕ
from_err Kv.ok = 0
from_err Kv.no_key = 1
from_err Kv.wrong_leader = 2
from_err Kv.timeout = 3

pub to_err-from_err : (e : Kv.Err) → to_err (from_err e) ≡ e
to_err-from_err Kv.ok = refl
to_err-from_err Kv.no_key = refl
to_err-from_err Kv.wrong_leader = refl
to_err-from_err Kv.timeout = refl

abbrev pub replies : List (ℕ × (ℕ × (GoString × Kv.Err))) → Map ℕ LastReply
replies [] = []
replies ((cid, (seq, (value, err))) ∷ rest) =
    (cid, record { seq = seq; value = value; err = err }) ∷ replies rest

abbrev pub tuples : Map ℕ LastReply → List (ℕ × (ℕ × (GoString × Kv.Err)))
tuples [] = []
tuples ((cid, r) ∷ rest) = (cid, (r.seq, (r.value, r.err))) ∷ tuples rest

pub replies-tuples : (m : Map ℕ LastReply) → replies (tuples m) ≡ m
replies-tuples [] = refl
replies-tuples ((cid, r) ∷ rest) = ap (λ m. (cid, r) ∷ m) (replies-tuples rest)

abbrev pub store : Wire Store
store =
    via
      (pair (list (pair (list nat) (list nat)))
        (list (pair nat (pair nat (pair (list nat) (via nat to_err from_err to_err-from_err))))))
      (λ x. record { kv_data = x.0; dedup = replies x.1 }) (λ s. (s.kv_data, tuples s.dedup))
      (λ s. ap (λ d. record { kv_data = s.kv_data; dedup = d }) (replies-tuples s.dedup))

abbrev pub store_gob : StoreCodec
store_gob = record {
  encode = λ s. 0 ∷ store.write s [];
  decode = decode store;
  decode-encode = decode_lem store;
  encode_nonempty = nonempty store;
}
