-- ===== src/ShardKv/Serve.antt =====
-- What a group answers to the operations of clients, and how it tells copies of a request apart.
use mit_6824_raft.Prelude.{
  ℕ, ◌≡◌, ◌↔◌, Bool, true, false, ◌&&◌, ◌||◌, none, some, List, [], ◌∷◌, Map, nat_eq, bytes_eq,
  lookup, lookup-insert, ◌==◌, leb, arith,
}
use mit_6824_raft.ShardKv.Server.{
  ok, wrong_group, ClientOp, is_get, Op, client, config, install_shard, delete_shard, empty,
  GroupState, key2shard, can_serve, read_key, is_duplicate, serve_shard, apply_client_op,
  apply_config, raise_seq, merge_dedup, apply_install_shard, apply_delete_shard, apply_op, Install,
}

-- A committed operation of a client is refused exactly where canServe is false at the time that it
-- is applied, whatever canServe said when the request came; then it changes nothing.
pub apply_client_op-can_serve :
    (gid : ℕ) (op : ClientOp) (s : GroupState)
    → ((apply_client_op gid op s).1.err ≡ wrong_group ↔ can_serve gid (key2shard op.key) s ≡ false)
      × (can_serve gid (key2shard op.key) s ≡ false → (apply_client_op gid op s).0 ≡ s)
unfolding apply_client_op can_serve serve_shard read_key
apply_client_op-can_serve gid op s = ground arith

-- `seen && n <= last` in a table of clients.
seen : ℕ → ℕ → Map ℕ ℕ → Bool
seen cid n m = elim (lookup cid m) [ none ↦ false | some last ↦ leb n last ]

seen-raise_seq :
    (cid n k seq : ℕ) (m : Map ℕ ℕ)
    → seen cid n (raise_seq k seq m) ≡ (seen cid n m || (k == cid && leb n seq))
unfolding seen raise_seq
seen-raise_seq cid n k seq m = grind (arith, lookup-insert)

-- The numbers that a list of a table's entries holds.
unfoldable pub listed : ℕ → ℕ → Map ℕ ℕ → Bool
listed cid n [] = false
listed cid n ((k, seq) ∷ rest) = (k == cid && leb n seq) || listed cid n rest

-- Merging the table of another group keeps the higher number of each client.
seen-merge_dedup :
    (cid n : ℕ) (entries m : Map ℕ ℕ)
    → seen cid n (merge_dedup entries m) ≡ (seen cid n m || listed cid n entries)
unfolding merge_dedup listed
seen-merge_dedup cid n [] m = ground arith
seen-merge_dedup cid n ((k, seq) ∷ rest) m =
    ground (arith, seen-raise_seq cid n k seq m, seen-merge_dedup cid n rest (raise_seq k seq m))

is_duplicate-client :
    (gid : ℕ) (e op : ClientOp) (s : GroupState)
    → is_duplicate op s ≡ true
    → is_duplicate op (apply_client_op gid e s).0 ≡ true
unfolding apply_client_op serve_shard is_duplicate
is_duplicate-client gid e op s h = grind (arith, lookup-insert)

is_duplicate-apply_op :
    (gid : ℕ) (e : Op) (op : ClientOp) (s : GroupState)
    → is_duplicate op s ≡ true
    → is_duplicate op (apply_op gid e s).0 ≡ true
unfolding apply_op apply_config apply_delete_shard apply_install_shard
is_duplicate-apply_op gid (client e) op s h = is_duplicate-client gid e op s h
is_duplicate-apply_op gid (config c) op s h = unfold is_duplicate in ground (arith, h)
is_duplicate-apply_op gid (install_shard ins) op s h =
    unfold is_duplicate seen in
    ground (arith, seen-merge_dedup op.client_id op.seq ins.dedup s.dedup, h)
is_duplicate-apply_op gid (delete_shard n shards) op s h = unfold is_duplicate in ground (arith, h)
is_duplicate-apply_op gid empty op s h = h

-- A merged table covers what its entries list.
pub is_duplicate-install :
    (op : ClientOp) (ins : Install) (s : GroupState)
    → ins.config_num ≡ s.config.num
    → listed op.client_id op.seq ins.dedup ≡ true
    → is_duplicate op (apply_install_shard ins s) ≡ true
unfolding is_duplicate seen apply_install_shard
is_duplicate-install op ins s n h =
    ground (arith, seen-merge_dedup op.client_id op.seq ins.dedup s.dedup, h, n)

-- The group after a log of commands.
unfoldable pub replay : ℕ → List Op → GroupState → GroupState
replay gid [] s = s
replay gid (op ∷ ops) s = replay gid ops (apply_op gid op s).0

pub is_duplicate-replay :
    (gid : ℕ) (ops : List Op) (op : ClientOp) (s : GroupState)
    → is_duplicate op s ≡ true
    → is_duplicate op (replay gid ops s) ≡ true
unfolding replay
is_duplicate-replay gid [] op s h = h
is_duplicate-replay gid (e ∷ ops) op s h =
    is_duplicate-replay gid ops op (apply_op gid e s).0 (is_duplicate-apply_op gid e op s h)

-- An operation that the table of clients covers changes nothing.
pub duplicate_ignored :
    (gid : ℕ) (op : ClientOp) (s : GroupState)
    → is_duplicate op s ≡ true
    → (apply_client_op gid op s).0 ≡ s
unfolding apply_client_op serve_shard
duplicate_ignored gid op s h = ground (arith, h)

is_duplicate-answered :
    (gid : ℕ) (op : ClientOp) (s : GroupState)
    → is_get op.type ≡ false
    → (apply_client_op gid op s).1.err ≡ ok
    → is_duplicate op (apply_client_op gid op s).0 ≡ true
unfolding apply_client_op serve_shard is_duplicate read_key
is_duplicate-answered gid op s h e = grind (arith, lookup-insert)

-- A Put or Append that a group answered with OK is not applied by it again: after any further
-- commands, changes of the configuration and migrations of shards among them, a copy of it changes
-- nothing.
pub answered_once :
    (gid : ℕ) (op : ClientOp) (later : List Op) (s : GroupState)
    → is_get op.type ≡ false
    → (apply_client_op gid op s).1.err ≡ ok
    → let s' = replay gid later (apply_client_op gid op s).0 in (apply_client_op gid op s').0 ≡ s'
answered_once gid op later s h e =
    duplicate_ignored gid op (replay gid later (apply_client_op gid op s).0) (
      is_duplicate-replay gid later op (apply_client_op gid op s).0
        (is_duplicate-answered gid op s h e))
