-- ===== src/KvSrv/Clerk.antt =====
-- kvsrv/client.go: the clerk, which calls until a reply comes back. labrpc loses a request or its
-- reply; what it does to each call is given as a list, and other clients' calls come between.
use mit_6824_raft.Prelude.{ℕ, ◌+◌, Option, none, some, List, [], ◌∷◌, GoString}
use mit_6824_raft.KvSrv.Server.{PutAppendArgs, PutAppendReply, GetArgs, KvServer, get, put, append}

pub record Clerk : Type 0 where
  pub client_id : ℕ
  pub seq : ℕ

-- `id` is the value of nrand.
pub make_clerk : ℕ → Clerk
make_clerk id = record { client_id = id; seq = 0 }

-- atomic.AddInt64(&ck.seq, 1)
unfoldable pub next_seq : Clerk → Clerk × ℕ
next_seq ck = (record ck { seq = ck.seq + 1 }, ck.seq + 1)

-- "KVServer.Put" or "KVServer.Append".
pub data Method : Type 0 where
  put_method append_method : Method

unfoldable pub call : Method → PutAppendArgs → KvServer → KvServer × PutAppendReply
call put_method args kv = put args kv
call append_method args kv = append args kv

-- What happens next at the server: the network drops the clerk's request; it delivers the request
-- and drops the reply; it delivers both; or another client's request is handled.
pub data Event : Type 0 where
  request_lost : Event
  reply_lost : Event
  delivered : Event
  other : Method → PutAppendArgs → Event

-- The loop of PutAppend: the server afterwards, and the value returned; `none` while it retries.
unfoldable pub put_append_loop :
    Method → PutAppendArgs → List Event → KvServer → KvServer × Option GoString
put_append_loop m args [] kv = (kv, none)
put_append_loop m args (request_lost ∷ es) kv = put_append_loop m args es kv
put_append_loop m args (reply_lost ∷ es) kv = put_append_loop m args es (call m args kv).0
put_append_loop m args (delivered ∷ es) kv =
    let (kv', reply) = call m args kv in (kv', some reply.value)
put_append_loop m args (other m' args' ∷ es) kv = put_append_loop m args es (call m' args' kv).0

unfoldable pub put_append_args : Clerk → GoString → GoString → PutAppendArgs
put_append_args ck key value = record {
  key = key;
  value = value;
  client_id = ck.client_id;
  seq = (next_seq ck).1;
}

unfoldable pub put_append :
    Clerk
    → GoString
    → GoString
    → Method
    → List Event
    → KvServer
    → Clerk × KvServer × Option GoString
put_append ck key value m es kv =
    let (kv', v) = put_append_loop m (put_append_args ck key value) es kv in
    ((next_seq ck).0, kv', v)

-- The loop of Get.
unfoldable pub get_loop : GetArgs → List Event → KvServer → KvServer × Option GoString
get_loop args [] kv = (kv, none)
get_loop args (request_lost ∷ es) kv = get_loop args es kv
get_loop args (reply_lost ∷ es) kv = get_loop args es kv
get_loop args (delivered ∷ es) kv = (kv, some (get args kv).value)
get_loop args (other m' args' ∷ es) kv = get_loop args es (call m' args' kv).0
