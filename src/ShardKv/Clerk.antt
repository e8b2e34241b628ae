-- ===== src/ShardKv/Clerk.antt =====
-- shardkv/client.go: the clerk of the sharded store. `call t s args` is what a call to server s in
-- the t-th round of the loop comes back with, `query t` the configuration that Query(-1) gives at the
-- end of that round.
use mit_6824_raft.Prelude.{
  ℕ, zero, suc, ◌+◌, Bool, true, false, Option, none, some, List, [], ◌∷◌, GoString, nat_eq, lookup,
  if◌then◌else◌, ◌>>=◌,
}
use mit_6824_raft.ShardCtrler.Config.{Config}
use mit_6824_raft.ShardKv.Server.{Err, ok, no_key, wrong_group, ClientType, key2shard, shard_gid}
use mit_6824_raft.ShardKv.Migrate.{GetArgs, GetReply, PutAppendArgs}

pub record Clerk : Type 0 where
  pub config : Config
  pub client_id : ℕ
  pub seq : ℕ

unfoldable pub next_seq : Clerk → ℕ
next_seq ck = ck.seq + 1

-- reply.Err == ErrWrongGroup
unfoldable pub is_wrong_group : Err → Bool
is_wrong_group wrong_group = true
is_wrong_group _ = false

-- ok && (reply.Err == OK || reply.Err == ErrNoKey)
unfoldable pub accept_get : GetReply → Option GoString
accept_get reply = elim reply.err [ ok ↦ some reply.value | no_key ↦ some reply.value | _ ↦ none ]

unfoldable pub accept_put_append : Err → Option Err
accept_put_append err = elim err [ ok ↦ some ok | _ ↦ none ]

module _ {R V : Type 0} (call : ℕ → GoString → Option R) (accept : R → Option V)
    (error : R → Err) where
  -- The loop over the servers of a group: the value, if one of them gives it before one says that
  -- the group is the wrong one.
  unfoldable pub ask : ℕ → List GoString → Option V
  ask t [] = none
  ask t (s ∷ servers) =
      let rest = ask t servers in
      elim (call t s) [
        | none ↦ rest
        | some r ↦ elim (accept r) [
          | some v ↦ some v
          | none ↦ if is_wrong_group (error r) then none else rest
        ]
      ]

  -- `if servers, ok := ck.config.Groups[gid]; ok`
  unfoldable pub ask_owner : ℕ → GoString → Config → Option V
  ask_owner t key c = lookup (shard_gid c (key2shard key)) c.groups >>= λ servers. ask t servers

  -- The loop, for a number of rounds: the configuration, and the value with its round.
  unfoldable pub call_loop : (ℕ → Config) → ℕ → ℕ → GoString → Config → Config × Option (V × ℕ)
  call_loop query zero t key c = (c, none)
  call_loop query (suc rounds) t key c = elim (ask_owner t key c) [
    | some v ↦ (c, some (v, t))
    | none ↦ call_loop query rounds (suc t) key (query t)
  ]

unfoldable pub get_args : Clerk → GoString → GetArgs
get_args ck key = record { key = key; client_id = ck.client_id; seq = next_seq ck }

unfoldable pub get :
    (ℕ → GoString → GetArgs → Option GetReply)
    → (ℕ → Config)
    → ℕ
    → GoString
    → Clerk
    → Clerk × Option (GoString × ℕ)
get call query rounds key ck =
    let (c, v) =
      call_loop (λ t s. call t s (get_args ck key)) accept_get (λ r. r.err) query rounds 0 key
        ck.config in
    (record ck { config = c; seq = next_seq ck }, v)

unfoldable pub put_append_args : Clerk → GoString → GoString → ClientType → PutAppendArgs
put_append_args ck key value op = record {
  key = key;
  value = value;
  op = op;
  client_id = ck.client_id;
  seq = next_seq ck;
}

unfoldable pub put_append :
    (ℕ → GoString → PutAppendArgs → Option Err)
    → (ℕ → Config)
    → ℕ
    → GoString
    → GoString
    → ClientType
    → Clerk
    → Clerk × Option (Err × ℕ)
put_append call query rounds key value op ck =
    let (c, v) =
      call_loop (λ t s. call t s (put_append_args ck key value op)) accept_put_append (λ e. e) query
        rounds 0 key ck.config in
    (record ck { config = c; seq = next_seq ck }, v)
