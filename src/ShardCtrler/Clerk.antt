-- ===== src/ShardCtrler/Clerk.antt =====
-- shardctrler/client.go: the clerk of the shard controller. Its four calls share the loop; the sleep
-- after a whole turn changes nothing.
use mit_6824_raft.Prelude.{
  ℕ, ◌+◌, ◌≤◌, ◌<◌, ◌≡◌, ◌≢◌, ap, Option, none, some, List, length, get_elem?, GoString, Map,
  if◌then◌else◌, ◌>>=◌,
}
use mit_6824_raft.Clerk.{Tried, returned, retry, new_hint}
use mit_6824_raft.Clerk.Retry.{retry_returns, returned-lt}
use mit_6824_raft.ShardCtrler.Config.{
  Config, JoinArgs, LeaveArgs, MoveArgs, QueryArgs, Reply, QueryReply,
}

pub record Clerk (S : Type 0) : Type 0 where
  pub servers : List S
  pub client_id : ℕ
  pub seq : ℕ
  pub leader_hint : ℕ

-- ok && reply.WrongLeader == false
unfoldable pub accept_query : QueryReply → Option Config
accept_query reply = if reply.wrong_leader then none else some reply.config

unfoldable pub accept : Reply → Option Reply
accept reply = if reply.wrong_leader then none else some reply

module _ {S : Type 0} where
  -- `id` is the value of nrand.
  unfoldable pub make_clerk : List S → ℕ → Clerk S
  make_clerk servers id = record { servers = servers; client_id = id; seq = 0; leader_hint = 0 }

  unfoldable pub next_seq : Clerk S → ℕ
  next_seq ck = ck.seq + 1

  -- The clerk after a call, and what the loop came to in so many rounds.
  unfoldable pub after_call : {V : Type 0} → Clerk S → Tried V → Clerk S × Tried V
  after_call ck r = (record ck { seq = next_seq ck; leader_hint = new_hint ck.leader_hint r }, r)

  unfoldable pub query_args : Clerk S → Option ℕ → QueryArgs
  query_args ck num = record { num = num; client_id = ck.client_id; seq = next_seq ck }

  unfoldable pub query :
      (ℕ → S → QueryArgs → Option QueryReply) → ℕ → Option ℕ → Clerk S → Clerk S × Tried Config
  query call rounds num ck =
      after_call ck (
        retry ck.servers (λ t s. call t s (query_args ck num)) accept_query rounds 0 ck.leader_hint)

  -- The loop of Join, Leave and Move.
  unfoldable pub mutation :
      {A : Type 0} → (ℕ → S → A → Option Reply) → ℕ → A → Clerk S → Clerk S × Tried Reply
  mutation call rounds args ck =
      after_call ck (retry ck.servers (λ t s. call t s args) accept rounds 0 ck.leader_hint)

  unfoldable pub join :
      (ℕ → S → JoinArgs → Option Reply)
      → ℕ
      → Map ℕ (List GoString)
      → Clerk S
      → Clerk S × Tried Reply
  join call rounds servers ck =
      mutation call rounds
        (record { servers = servers; client_id = ck.client_id; seq = next_seq ck }) ck

  unfoldable pub leave :
      (ℕ → S → LeaveArgs → Option Reply) → ℕ → List ℕ → Clerk S → Clerk S × Tried Reply
  leave call rounds gids ck =
      mutation call rounds (record { gids = gids; client_id = ck.client_id; seq = next_seq ck }) ck

  unfoldable pub move :
      (ℕ → S → MoveArgs → Option Reply) → ℕ → ℕ → ℕ → Clerk S → Clerk S × Tried Reply
  move call rounds shard gid ck =
      mutation call rounds
        (record { shard = shard; gid = gid; client_id = ck.client_id; seq = next_seq ck }) ck

  -- Query ends, as the Get of the replicated store does.
  pub query_returns :
      (call : ℕ → S → QueryArgs → Option QueryReply) (since good rounds : ℕ) (s : S)
      (num : Option ℕ) (ck : Clerk S)
      → ck.leader_hint < length ck.servers
      → get_elem? ck.servers good ≡ some s
      → ((t : ℕ) → since ≤ t → (call t s (query_args ck num) >>= accept_query) ≢ none)
      → since + length ck.servers ≤ rounds
      → (at : ℕ) × (c : Config) × (k : ℕ) × (at < length ck.servers)
        × (query call rounds num ck
            ≡ (record ck { seq = ck.seq + 1; leader_hint = at }, returned at c k))
  unfolding query after_call next_seq new_hint
  query_returns call since good rounds s num ck h here answers enough =
      let ask = λ (t : ℕ) (u : S). call t u (query_args ck num) in
      let (at, c, k, e) =
        retry_returns ck.servers ask accept_query since good s here answers rounds ck.leader_hint h
          enough in
      (
        at,
        c,
        k,
        returned-lt ck.servers ask accept_query rounds 0 ck.leader_hint h e,
        ap (after_call ck) e,
      )
