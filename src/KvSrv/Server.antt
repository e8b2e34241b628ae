-- ===== src/KvSrv/Server.antt =====
-- kvsrv/common.go and kvsrv/server.go: the handlers of the single server.
use mit_6824_raft.Prelude.{
  ℕ, Bool, false, Option, none, some, [], ◌++◌, GoString, Map, nat_eq, bytes_eq, lookup, insert,
  leb, if◌then◌else◌,
}

pub record PutAppendArgs : Type 0 where
  pub key : GoString
  pub value : GoString
  pub client_id : ℕ
  pub seq : ℕ

pub record PutAppendReply : Type 0 where
  pub value : GoString

pub record GetArgs : Type 0 where
  pub key : GoString

pub record GetReply : Type 0 where
  pub value : GoString

pub record LastOp : Type 0 where
  pub seq : ℕ
  pub reply : GoString

pub record KvServer : Type 0 where
  pub kv_data : Map GoString GoString
  pub dedup : Map ℕ LastOp

-- m[k] of a map of strings: "" where the key is missing.
abbrev pub value_or_empty : Option GoString → GoString
value_or_empty none = []
value_or_empty (some v) = v

unfoldable pub get : GetArgs → KvServer → GetReply
get args kv = record { value = value_or_empty (lookup args.key kv.kv_data) }

-- `last, ok := kv.dedup[args.ClientId]; ok && last.seq >= args.Seq`
unfoldable pub is_duplicate : PutAppendArgs → KvServer → Bool
is_duplicate args kv = elim (lookup args.client_id kv.dedup) [
  | none ↦ false
  | some last ↦ leb args.seq last.seq
]

abbrev pub reply_of : Option LastOp → GoString
reply_of none = []
reply_of (some last) = last.reply

unfoldable pub put : PutAppendArgs → KvServer → KvServer × PutAppendReply
put args kv = if is_duplicate args kv then (kv, record { value = [] }) else (
  record {
    kv_data = insert args.key args.value kv.kv_data;
    dedup = insert args.client_id (record { seq = args.seq; reply = [] }) kv.dedup;
  },
  record { value = [] },
)

unfoldable pub append : PutAppendArgs → KvServer → KvServer × PutAppendReply
append args kv =
    if is_duplicate args kv
    then (kv, record { value = reply_of (lookup args.client_id kv.dedup) })
    else (let old = value_or_empty (lookup args.key kv.kv_data) in
        (
          record {
            kv_data = insert args.key (old ++ args.value) kv.kv_data;
            dedup = insert args.client_id (record { seq = args.seq; reply = old }) kv.dedup;
          },
          record { value = old },
        ))

unfoldable pub start_kv_server : KvServer
start_kv_server = record { kv_data = []; dedup = [] }
