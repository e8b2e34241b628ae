-- ===== src/KvRaft/Recovery.antt =====
-- The store of a server that follows Raft's messages: commands in order, and snapshots.
use mit_6824_raft.Prelude.{
  ℕ, suc, ◌+◌, ◌≤◌, ◌<◌, ◌≡◌, refl, ap, ◌∙◌, true, false, none, some, List, [], ◌∷◌, length, leb,
  ◌==◌, ◌>>=◌, arith, if_false, Returns, returned,
}
use mit_6824_raft.Raft.State.{ApplyMsg, LogEntry}
use mit_6824_raft.Raft.Snapshot.{InstallSnapshotArgs, snapshot_msg}
use mit_6824_raft.Raft.Applier.{command_msg}
use mit_6824_raft.KvRaft.Server.{
  Op, OpResult, Store, StoreCodec, KvServer, apply_op, notify, read_snapshot, apply_fresh,
  apply_command, apply_snapshot, apply_msg, apply_loop,
}
use mit_6824_raft.KvRaft.ExactlyOnce.{replay, empty}

-- The messages that Raft's applier sends for entries with consecutive indexes from `index` on; the
-- stored bytes have the sizes that `size` gives.
pub deliveries : (ℕ → ℕ) → ℕ → List (LogEntry Op) → List (ℕ × ApplyMsg Op)
deliveries size index [] = []
deliveries size index (e ∷ es) = (size index, command_msg e index) ∷ deliveries size (suc index) es

pub entry : ℕ → Op → LogEntry Op
entry t op = record { term = t; command = some op }

-- Entries that hold the given commands.
pub entries : ℕ → List Op → List (LogEntry Op)
unfolding entry
entries t [] = []
entries t (op ∷ ops) = entry t op ∷ entries t ops

-- `notify` changes the waiting channels only.
notify-same :
    (index : ℕ) (res : OpResult) (kv : KvServer)
    → ((notify index res kv).store ≡ kv.store)
      × ((notify index res kv).last_applied ≡ kv.last_applied)
      × ((notify index res kv).dead ≡ kv.dead)
unfolding notify
notify-same index res kv = (ground arith, ground arith, ground arith)

-- A live server whose state is that of the log up to `index`.
pub record Follows (s : Store) (index : ℕ) (kv : KvServer) : Type 0 where
  pub alive : kv.dead ≡ false
  pub at : kv.last_applied ≡ index
  pub state : kv.store ≡ s

module _ (codec : StoreCodec) where
  apply_fresh-Follows :
      (size index i : ℕ) (op : Op) (s : Store) (kv : KvServer)
      → Follows s i kv
      → Follows (apply_op op s).0 index (apply_fresh codec size index op kv).0
  unfolding apply_fresh
  apply_fresh-Follows size index i op s kv f =
      let same =
        notify-same index (apply_op op kv.store).1
          (record kv { last_applied = index; store = (apply_op op kv.store).0 }) in
      record {
        alive = same.2 ∙ f.alive;
        at = same.1;
        state = same.0 ∙ ap (λ (t : Store). (apply_op op t).0) f.state;
      }

  apply_loop-alive :
      (size : ℕ) (msg : ApplyMsg Op) (rest : List (ℕ × ApplyMsg Op)) (kv : KvServer)
      → kv.dead ≡ false
      → apply_loop codec ((size, msg) ∷ rest) kv
        ≡ (apply_msg codec size msg kv >>= (λ r. apply_loop codec rest r.0))
  unfolding apply_loop
  apply_loop-alive size msg rest kv h = if_false _ _ h

  apply_msg-command :
      (size t index : ℕ) (op : Op) (kv : KvServer)
      → kv.last_applied < index
      → apply_msg codec size (command_msg (entry t op) index) kv
        ≡ some (apply_fresh codec size index op kv)
  unfolding apply_msg apply_command command_msg entry
  apply_msg-command size t index op kv h =
      let fresh : leb index kv.last_applied ≡ false = ground arith in rw fresh

  apply_msg-snapshot :
      (size : ℕ) (s : Store) (args : InstallSnapshotArgs) (kv : KvServer)
      → kv.last_applied < args.last_included_index
      → args.bytes ≡ codec.encode s
      → apply_msg codec size (snapshot_msg args) kv
        ≡ some (record kv { store = s; last_applied = args.last_included_index }, none)
  unfolding apply_msg apply_snapshot read_snapshot snapshot_msg
  apply_msg-snapshot size s args kv h e =
      let fresh : leb args.last_included_index kv.last_applied ≡ false = ground arith in
      let some_bytes : (length (codec.encode s) == 0) ≡ false =
        ground (arith, codec.encode_nonempty s) in
      rw (fresh, e, some_bytes, codec.decode-encode s)

  apply_msg-late :
      (size : ℕ) (args : InstallSnapshotArgs) (kv : KvServer)
      → args.last_included_index ≤ kv.last_applied
      → apply_msg codec size (snapshot_msg args) kv ≡ some (kv, none)
  unfolding apply_msg apply_snapshot snapshot_msg
  apply_msg-late size args kv h =
      let old : leb args.last_included_index kv.last_applied ≡ true = ground arith in rw old

  -- A live server that has applied the commands up to an index and is handed those of the next
  -- indexes in order ends, without a panic, with the store that replays them and has applied all
  -- of them.
  pub apply_loop-Follows :
      (size : ℕ → ℕ) (t index : ℕ) (ops : List Op) (s : Store) (kv : KvServer)
      → Follows s index kv
      → Returns
          (Follows (replay ops s) (index + length ops))
          (apply_loop codec (deliveries size (suc index) (entries t ops)) kv)
  unfolding apply_loop deliveries entries replay
  apply_loop-Follows size t index [] s kv f =
      returned (record { alive = f.alive; at = omega (arith, f.at); state = f.state })
  apply_loop-Follows size t index (op ∷ ops) s kv f =
      let n = suc index in
      let kv' = (apply_fresh codec (size n) n op kv).0 in
      let rest = deliveries size (suc n) (entries t ops) in
      let step : apply_loop codec (deliveries size n (entries t (op ∷ ops))) kv
          ≡ apply_loop codec rest kv' =
        apply_loop-alive (size n) (command_msg (entry t op) n) rest kv f.alive
        ∙ (rw (apply_msg-command (size n) t n op kv (omega (arith, f.at)))) in
      let sum : suc index + length ops ≡ index + suc (length ops) = omega arith in
      rw (step, ← sum)
        (apply_loop-Follows size t n ops (apply_op op s).0 kv'
          (apply_fresh-Follows (size n) n index op s kv f))

  -- A live server behind a snapshot that was taken after some commands, that is handed the snapshot
  -- and then the commands after it, ends with the store that replays all of them from the start.
  pub snapshot_catch_up :
      (size : ℕ → ℕ) (t : ℕ) (before after : List Op) (args : InstallSnapshotArgs) (kv : KvServer)
      → kv.dead ≡ false
      → kv.last_applied < args.last_included_index
      → args.bytes ≡ codec.encode (replay before empty)
      → Returns
          (Follows (replay after (replay before empty)) (args.last_included_index + length after))
          (apply_loop codec
            ((size 0, snapshot_msg args)
              ∷ deliveries size (suc args.last_included_index) (entries t after))
            kv)
  snapshot_catch_up size t before after args kv alive behind bytes =
      let s = replay before empty in
      let kv' : KvServer = record kv { store = s; last_applied = args.last_included_index } in
      rw
        (
          apply_loop-alive (size 0) (snapshot_msg args) _ kv alive,
          apply_msg-snapshot (size 0) s args kv behind bytes,
        )
        (apply_loop-Follows size t args.last_included_index after s kv'
          (record { alive = alive; at = refl; state = refl }))

  -- A snapshot is lost where the command right behind it comes first: a live server that has not
  -- reached the snapshot's index, and is handed the command of the next index and then the
  -- snapshot, applies the command to the store that it had, and ignores the snapshot.
  pub overtaken_snapshot_lost :
      (size : ℕ → ℕ) (t : ℕ) (op : Op) (args : InstallSnapshotArgs) (kv : KvServer)
      → kv.dead ≡ false
      → kv.last_applied < args.last_included_index
      → Returns (Follows (apply_op op kv.store).0 (suc args.last_included_index)) (
          apply_loop codec
            ((size 0, command_msg (entry t op) (suc args.last_included_index))
              ∷ (size 1, snapshot_msg args)
              ∷ [])
            kv)
  overtaken_snapshot_lost size t op args kv alive behind =
      let n = suc args.last_included_index in
      let kv' = (apply_fresh codec (size 0) n op kv).0 in
      let f =
        apply_fresh-Follows (size 0) n kv.last_applied op kv.store kv
          (record { alive = alive; at = refl; state = refl }) in
      let late : ℕ × ApplyMsg Op = (size 1, snapshot_msg args) in
      rw
        (
          apply_loop-alive (size 0) (command_msg (entry t op) n) (late ∷ []) kv alive,
          apply_msg-command (size 0) t n op kv (omega (arith, behind)),
        )
        (rw
          (
            apply_loop-alive (size 1) (snapshot_msg args) [] kv' f.alive,
            apply_msg-late (size 1) args kv' (omega (arith, f.at)),
          )
          (unfold apply_loop in returned f))
