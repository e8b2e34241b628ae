-- ===== src/KvRaft/Server/Data.antt =====
-- kvraft/common.go and kvraft/server.go: the replicated store, and what a command does to it.
use mit_6824_raft.Prelude.{
  ℕ, ◌<◌, ◌≡◌, Bool, true, false, ◌&&◌, not, Option, none, some, [], ◌++◌, length, GoString, Map,
  nat_eq, bytes_eq, lookup, insert, leb, if◌then◌else◌,
}
use mit_6824_raft.Raft.State.{Bytes}

pub data Err : Type 0 where
  ok no_key wrong_leader timeout : Err

-- "Get", "Put" or "Append".
pub data OpType : Type 0 where
  get put append : OpType

pub record PutAppendArgs : Type 0 where
  pub key : GoString
  pub value : GoString
  pub client_id : ℕ
  pub seq : ℕ

pub record PutAppendReply : Type 0 where
  pub err : Err

pub record GetArgs : Type 0 where
  pub key : GoString
  pub client_id : ℕ
  pub seq : ℕ

pub record GetReply : Type 0 where
  pub err : Err
  pub value : GoString

pub record Op : Type 0 where
  pub type : OpType
  pub key : GoString
  pub value : GoString
  pub client_id : ℕ
  pub seq : ℕ

pub record OpResult : Type 0 where
  pub err : Err
  pub value : GoString
  pub client_id : ℕ
  pub seq : ℕ

pub record LastReply : Type 0 where
  pub seq : ℕ
  pub value : GoString
  pub err : Err

-- The two fields of KVServer that a snapshot holds.
pub record Store : Type 0 where
  pub kv_data : Map GoString GoString
  pub dedup : Map ℕ LastReply

-- A channel of `waiters` is its buffer, of capacity one. A negative `maxraftstate` is `none`.
pub record KvServer : Type 0 where
  pub me : ℕ
  pub dead : Bool
  pub max_raft_state : Option ℕ
  pub store : Store
  pub waiters : Map ℕ (Option OpResult)
  pub last_applied : ℕ

-- encoding/gob behind labgob, of the store.
pub record StoreCodec : Type 0 where
  pub encode : Store → Bytes
  pub decode : Bytes → Option Store
  pub decode-encode : (s : Store) → decode (encode s) ≡ some s
  pub encode_nonempty : (s : Store) → 0 < length (encode s)

abbrev pub is_get : OpType → Bool
is_get get = true
is_get _ = false

-- m[k] of a map of strings: "" where the key is missing.
abbrev pub value_or_empty : Option GoString → GoString
value_or_empty none = []
value_or_empty (some v) = v

-- seen && last.Seq >= op.Seq
unfoldable pub is_duplicate : Op → Store → Bool
is_duplicate op s = elim (lookup op.client_id s.dedup) [
  | none ↦ false
  | some last ↦ leb op.seq last.seq
]

-- The cached reply, for a duplicate.
abbrev pub cached_reply : Option LastReply → Err × GoString
cached_reply none = (ok, [])
cached_reply (some last) = (last.err, last.value)

-- The `switch` on the type: the new data, and the result's error and value.
unfoldable pub execute :
    OpType → Op → Map GoString GoString → Map GoString GoString × (Err × GoString)
execute get op m = elim (lookup op.key m) [ none ↦ (m, (no_key, [])) | some v ↦ (m, (ok, v)) ]
execute put op m = (insert op.key op.value m, (ok, []))
execute append op m = (insert op.key (value_or_empty (lookup op.key m) ++ op.value) m, (ok, []))

-- applyCommand, from the look into `dedup` to the stamp on the result.
unfoldable pub apply_op : Op → Store → Store × OpResult
apply_op op s =
    if is_duplicate op s && not (is_get op.type)
    then (let (err, value) = cached_reply (lookup op.client_id s.dedup) in
        (s, record { err = err; value = value; client_id = op.client_id; seq = op.seq }))
    else (let (m, res) = execute op.type op s.kv_data in
        (
          record {
            kv_data = m;
            dedup =
                if is_get op.type
                then s.dedup
                else insert op.client_id (record { seq = op.seq; value = res.1; err = res.0 })
                    s.dedup;
          },
          record { err = res.0; value = res.1; client_id = op.client_id; seq = op.seq },
        ))
