-- ===== src/KvRaft/Server.antt =====
-- kvraft/server.go: the apply loop and snapshots, and the RPC handlers up to and from the wait for
-- Raft.
pub mod Data
use mit_6824_raft.Prelude.{
  ℕ, ◌<◌, ◌≡◌, Bool, true, false, ◌&&◌, not, Option, none, some, List, [], ◌∷◌, ◌++◌, length,
  GoString, Map, nat_eq, bytes_eq, lookup, insert, erase, ltb, leb, ◌==◌, if◌then◌else◌, ◌>>=◌,
}
use mit_6824_raft.Raft.State.{Bytes, ApplyMsg}
unfoldable pub use mit_6824_raft.KvRaft.Server.Data.*

-- `if ch, ok := kv.waiters[index]; ok { ch <- res }`
unfoldable pub notify : ℕ → OpResult → KvServer → KvServer
notify index res kv = elim (lookup index kv.waiters) [
  | none ↦ kv
  | some _ ↦ record kv { waiters = insert index (some res) kv.waiters }
]

module _ (codec : StoreCodec) where
  -- The call of rf.Snapshot that maybeSnapshot makes, if any; `size` is persister.RaftStateSize().
  unfoldable pub maybe_snapshot : ℕ → ℕ → KvServer → Option (ℕ × Bytes)
  maybe_snapshot size index kv = elim kv.max_raft_state [
    | none ↦ none
    | some limit ↦ if ltb size limit then none else some (index, codec.encode kv.store)
  ]

  unfoldable pub read_snapshot : Bytes → KvServer → KvServer
  read_snapshot bytes kv =
      if length bytes == 0
      then kv
      else elim (codec.decode bytes) [ none ↦ kv | some s ↦ record kv { store = s } ]

  -- applyCommand past the test of the index.
  unfoldable pub apply_fresh : ℕ → ℕ → Op → KvServer → KvServer × Option (ℕ × Bytes)
  apply_fresh size index op kv =
      let (s, res) = apply_op op kv.store in
      let kv' = notify index res (record kv { last_applied = index; store = s }) in
      (kv', maybe_snapshot size index kv')

  -- `none` is the panic of the type assertion on a message without an Op.
  unfoldable pub apply_command : ℕ → ApplyMsg Op → KvServer → Option (KvServer × Option (ℕ × Bytes))
  apply_command size msg kv =
      if leb msg.command_index kv.last_applied
      then some (kv, none)
      else msg.command >>= (λ op. some (apply_fresh size msg.command_index op kv))

  unfoldable pub apply_snapshot : ApplyMsg Op → KvServer → KvServer
  apply_snapshot msg kv =
      if leb msg.snapshot_index kv.last_applied
      then kv
      else let kv' = read_snapshot msg.snapshot kv in
        record kv' { last_applied = msg.snapshot_index }

  -- One message of applyLoop, `size` the stored bytes of Raft at that time.
  unfoldable pub apply_msg : ℕ → ApplyMsg Op → KvServer → Option (KvServer × Option (ℕ × Bytes))
  apply_msg size msg kv =
      if msg.command_valid
      then apply_command size msg kv
      else if msg.snapshot_valid
      then some (apply_snapshot msg kv, none)
      else some (kv, none)

  -- applyLoop over the messages that arrive, each with the stored bytes of Raft at its time.
  unfoldable pub apply_loop : List (ℕ × ApplyMsg Op) → KvServer → Option KvServer
  apply_loop [] kv = some kv
  apply_loop ((size, msg) ∷ rest) kv =
      let next = apply_msg size msg kv >>= (λ r. apply_loop rest r.0) in
      if kv.dead then some kv else next

  unfoldable pub start_kv_server : ℕ → Option ℕ → Bytes → KvServer
  start_kv_server me max_raft_state snapshot = read_snapshot snapshot (record {
    me = me;
    dead = false;
    max_raft_state = max_raft_state;
    store = record { kv_data = []; dedup = [] };
    waiters = [];
    last_applied = 0;
  })

unfoldable pub kill : KvServer → KvServer
kill kv = record kv { dead = true }

-- waitFor after Start said that this peer leads: the channel for the index.
unfoldable pub wait_begin : ℕ → KvServer → KvServer
wait_begin index kv = record kv { waiters = insert index none kv.waiters }

abbrev pub failed : Err → OpResult
failed e = record { err = e; value = []; client_id = 0; seq = 0 }

-- The select: a result from the channel, or `none` where the time is up.
unfoldable pub wait_end : Op → ℕ → Option OpResult → KvServer → KvServer × OpResult
wait_end op index outcome kv = (
  record kv { waiters = erase index kv.waiters },
  elim outcome [
    | none ↦ failed timeout
    | some res ↦
        if not (res.client_id == op.client_id)
        then failed wrong_leader
        else if not (res.seq == op.seq)
        then failed wrong_leader
        else res
  ],
)

-- What Start answered: the index where this peer leads, and `none` where it does not. Between the
-- two halves other threads run: `meanwhile` is what they do to the server, and what arrives.
unfoldable pub wait_for :
    Op → Option ℕ → (KvServer → KvServer × Option OpResult) → KvServer → KvServer × OpResult
wait_for op none meanwhile kv = (kv, failed wrong_leader)
wait_for op (some index) meanwhile kv =
    let (kv', outcome) = meanwhile (wait_begin index kv) in wait_end op index outcome kv'

unfoldable pub get_op : GetArgs → Op
get_op args = record {
  type = get;
  key = args.key;
  value = [];
  client_id = args.client_id;
  seq = args.seq;
}

unfoldable pub put_op : PutAppendArgs → Op
put_op args = record {
  type = put;
  key = args.key;
  value = args.value;
  client_id = args.client_id;
  seq = args.seq;
}

unfoldable pub append_op : PutAppendArgs → Op
append_op args = record {
  type = append;
  key = args.key;
  value = args.value;
  client_id = args.client_id;
  seq = args.seq;
}

unfoldable pub get_reply : OpResult → GetReply
get_reply res = record { err = res.err; value = res.value }

unfoldable pub put_append_reply : OpResult → PutAppendReply
put_append_reply res = record { err = res.err }

-- The handlers Get, Put and Append of the RPC interface; `started` and `meanwhile` as in `wait_for`.
module _ (started : Option ℕ) (meanwhile : KvServer → KvServer × Option OpResult) where
  unfoldable pub handle_get : GetArgs → KvServer → KvServer × GetReply
  handle_get args kv =
      let (kv', res) = wait_for (get_op args) started meanwhile kv in (kv', get_reply res)

  unfoldable pub handle_put : PutAppendArgs → KvServer → KvServer × PutAppendReply
  handle_put args kv =
      let (kv', res) = wait_for (put_op args) started meanwhile kv in (kv', put_append_reply res)

  unfoldable pub handle_append : PutAppendArgs → KvServer → KvServer × PutAppendReply
  handle_append args kv =
      let (kv', res) = wait_for (append_op args) started meanwhile kv in (kv', put_append_reply res)
