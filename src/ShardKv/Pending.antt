-- ===== src/ShardKv/Pending.antt =====
-- What holds a group back: a shard that it hands over.
use mit_6824_raft.Prelude.{
  ℕ, ◌≡◌, refl, ◌∙◌, Bool, true, false, not, ◌&&◌, Option, none, some, List, [], ◌∷◌, Map, nat_eq,
  bytes_eq, lookup, lookup-insert, lookup-erase, arith, GoString, inl, inr, Option-cases,
}
use mit_6824_raft.ShardKv.Server.{
  ShardState, be_pulling, Shard, Op, client, config, install_shard, delete_shard, empty, GroupState,
  ClientOp, serve_shard, settled, apply_config, install_one, install_all, apply_install_shard,
  delete_one, delete_all, finish_shard, apply_delete_shard, apply_client_op, apply_op,
}
use mit_6824_raft.ShardKv.Owner.{settled-lookup}
use mit_6824_raft.ShardKv.Serve.{replay}
use mit_6824_raft.ShardKv.Handover.{asked}

abbrev is_be_pulling : ShardState → Bool
is_be_pulling be_pulling = true
is_be_pulling _ = false

-- The shard waits for the group that takes it over.
abbrev pub waits : Option Shard → Bool
waits none = false
waits (some sh) = is_be_pulling sh.state

-- A DeleteShard of the log that names the shard.
abbrev pub deletes : ℕ → Op → Bool
deletes i (delete_shard n js) = asked i js
deletes i _ = false

abbrev pub none_deletes : ℕ → List Op → Bool
none_deletes i [] = true
none_deletes i (op ∷ ops) = not (deletes i op) && none_deletes i ops

install_all-waits :
    (got : Map ℕ (Map GoString GoString)) (js : List ℕ) (i : ℕ) (m : Map ℕ Shard)
    → waits (lookup i m) ≡ true
    → waits (lookup i (install_all got js m)) ≡ true
unfolding install_all install_one
install_all-waits got [] i m h = h
install_all-waits got (j ∷ js) i m h =
    install_all-waits got js i (install_one got j m) (grind (arith, lookup-insert))

delete_all-waits :
    (js : List ℕ) (i : ℕ) (m : Map ℕ Shard)
    → asked i js ≡ false
    → waits (lookup i m) ≡ true
    → waits (lookup i (delete_all js m)) ≡ true
unfolding delete_all delete_one finish_shard asked
delete_all-waits [] i m a h = h
delete_all-waits (j ∷ js) i m a h =
    delete_all-waits js i (delete_one j m) (ground (arith, a))
      (grind (arith, lookup-insert, lookup-erase))

unsettled : (i : ℕ) (m : Map ℕ Shard) → waits (lookup i m) ≡ true → settled m ≡ false
unsettled i m h = elim (Option-cases (lookup i m)) [
  | inl e ↦ ground (arith, e, h)
  | inr (sh, e) ↦ ground (arith, settled-lookup m i sh, e, h)
]

client-waits :
    (gid : ℕ) (op : ClientOp) (i : ℕ) (s : GroupState)
    → waits (lookup i s.shards) ≡ true
    → waits (lookup i (apply_client_op gid op s).0.shards) ≡ true
unfolding apply_client_op serve_shard
client-waits gid op i s h = grind (arith, lookup-insert)

client-config :
    (gid : ℕ) (op : ClientOp) (s : GroupState) → (apply_client_op gid op s).0.config ≡ s.config
unfolding apply_client_op serve_shard
client-config gid op s = ground arith

apply_op-waits :
    (gid : ℕ) (op : Op) (i : ℕ) (s : GroupState)
    → deletes i op ≡ false
    → waits (lookup i s.shards) ≡ true
    → (waits (lookup i (apply_op gid op s).0.shards) ≡ true)
      × ((apply_op gid op s).0.config ≡ s.config)
unfolding apply_op apply_config apply_install_shard apply_delete_shard
apply_op-waits gid (client op) i s d h = (client-waits gid op i s h, client-config gid op s)
apply_op-waits gid (config c) i s d h =
    let no_change = unsettled i s.shards h in
    (ground (arith, no_change, h), ground (arith, no_change))
apply_op-waits gid (install_shard op) i s d h =
    (ground (arith, h, install_all-waits op.shard_data op.shards i s.shards h), ground arith)
apply_op-waits gid (delete_shard n js) i s d h =
    (ground (arith, h, delete_all-waits js i s.shards d h), ground arith)
apply_op-waits gid empty i s d h = (h, refl)

-- A group that hands a shard over stays at its configuration until a DeleteShard that names the
-- shard is in its log: without one, whatever other commands come, the configuration is the same and
-- the shard still waits.
pub stays_until_deleted :
    (gid : ℕ) (ops : List Op) (i : ℕ) (s : GroupState)
    → none_deletes i ops ≡ true
    → waits (lookup i s.shards) ≡ true
    → (waits (lookup i (replay gid ops s).shards) ≡ true) × ((replay gid ops s).config ≡ s.config)
unfolding replay
stays_until_deleted gid [] i s d h = (h, refl)
stays_until_deleted gid (op ∷ ops) i s d h =
    let now = apply_op-waits gid op i s (ground (arith, d)) h in
    let later = stays_until_deleted gid ops i (apply_op gid op s).0 (ground (arith, d)) now.0 in
    (later.0, later.1 ∙ now.1)
