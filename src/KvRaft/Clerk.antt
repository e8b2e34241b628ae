-- ===== src/KvRaft/Clerk.antt =====
-- kvraft/client.go: the clerk of the replicated store. `call t s args` is what the t-th call of the
-- loop, to server s, comes back with.
use mit_6824_raft.Prelude.{
  ℕ, ◌+◌, ◌≤◌, ◌<◌, ◌≡◌, ◌≢◌, ap, Option, none, some, List, length, get_elem?, GoString, ◌>>=◌,
}
use mit_6824_raft.Clerk.{Tried, returned, retry, new_hint}
use mit_6824_raft.Clerk.Retry.{retry_returns, returned-lt}
use mit_6824_raft.KvRaft.Server.{
  ok, no_key, OpType, PutAppendArgs, PutAppendReply, GetArgs, GetReply,
}

pub record Clerk (S : Type 0) : Type 0 where
  pub servers : List S
  pub client_id : ℕ
  pub seq : ℕ
  pub leader_hint : ℕ

-- ok && (reply.Err == OK || reply.Err == ErrNoKey)
unfoldable pub accept_get : GetReply → Option GoString
accept_get reply = elim reply.err [ ok ↦ some reply.value | no_key ↦ some reply.value | _ ↦ none ]

unfoldable pub accept_put_append : PutAppendReply → Option PutAppendReply
accept_put_append reply = elim reply.err [ ok ↦ some reply | _ ↦ none ]

module _ {S : Type 0} where
  -- `id` is the value of nrand.
  unfoldable pub make_clerk : List S → ℕ → Clerk S
  make_clerk servers id = record { servers = servers; client_id = id; seq = 0; leader_hint = 0 }

  unfoldable pub next_seq : Clerk S → ℕ
  next_seq ck = ck.seq + 1

  -- The clerk after a call, and what the loop came to in so many rounds.
  unfoldable pub after_call : {V : Type 0} → Clerk S → Tried V → Clerk S × Tried V
  after_call ck r = (record ck { seq = next_seq ck; leader_hint = new_hint ck.leader_hint r }, r)

  unfoldable pub get_args : Clerk S → GoString → GetArgs
  get_args ck key = record { key = key; client_id = ck.client_id; seq = next_seq ck }

  unfoldable pub get :
      (ℕ → S → GetArgs → Option GetReply) → ℕ → GoString → Clerk S → Clerk S × Tried GoString
  get call rounds key ck =
      after_call ck
        (retry ck.servers (λ t s. call t s (get_args ck key)) accept_get rounds 0 ck.leader_hint)

  unfoldable pub put_append_args : Clerk S → GoString → GoString → PutAppendArgs
  put_append_args ck key value = record {
    key = key;
    value = value;
    client_id = ck.client_id;
    seq = next_seq ck;
  }

  -- `op` picks the handler that is called.
  unfoldable pub put_append :
      (ℕ → S → OpType → PutAppendArgs → Option PutAppendReply)
      → ℕ
      → GoString
      → GoString
      → OpType
      → Clerk S
      → Clerk S × Tried PutAppendReply
  put_append call rounds key value op ck = after_call ck (
      retry ck.servers (λ t s. call t s op (put_append_args ck key value)) accept_put_append rounds
        0 ck.leader_hint)

  -- Get ends. When from some round on one of the servers answers every call with OK or ErrNoKey,
  -- then in at most one more turn of the servers the loop has returned a value, whatever the calls
  -- before it came back with; the leader hint is then the server that answered, one of the list,
  -- and the sequence number has risen by one.
  pub get_returns :
      (call : ℕ → S → GetArgs → Option GetReply) (since good rounds : ℕ) (s : S) (key : GoString)
      (ck : Clerk S)
      → ck.leader_hint < length ck.servers
      → get_elem? ck.servers good ≡ some s
      → ((t : ℕ) → since ≤ t → (call t s (get_args ck key) >>= accept_get) ≢ none)
      → since + length ck.servers ≤ rounds
      → (at : ℕ) × (v : GoString) × (k : ℕ) × (at < length ck.servers)
        × (get call rounds key ck
            ≡ (record ck { seq = ck.seq + 1; leader_hint = at }, returned at v k))
  unfolding get after_call next_seq new_hint
  get_returns call since good rounds s key ck h here answers enough =
      let ask = λ (t : ℕ) (u : S). call t u (get_args ck key) in
      let (at, v, k, e) =
        retry_returns ck.servers ask accept_get since good s here answers rounds ck.leader_hint h
          enough in
      (
        at,
        v,
        k,
        returned-lt ck.servers ask accept_get rounds 0 ck.leader_hint h e,
        ap (after_call ck) e,
      )
