-- ===== src/KvSrv/Retry.antt =====
-- Retries over the unreliable network: the server handles a clerk's Put or Append once.
use mit_6824_raft.Prelude.{
  ℕ, ◌≤◌, ◌≡◌, ◌≢◌, refl, ap, ◌∙◌, true, false, Option, none, some, List, [], ◌∷◌, ◌++◌, GoString,
  nat_eq, bytes_eq, lookup, insert, lookup-insert, lookup-insert_self, arith, if_true, Option-cases,
  All, inl, inr,
}
use mit_6824_raft.KvSrv.Server.{
  PutAppendArgs, PutAppendReply, LastOp, KvServer, value_or_empty, is_duplicate, reply_of, put,
  append,
}
use mit_6824_raft.KvSrv.Clerk.{
  Clerk, next_seq, Method, put_method, append_method, call, Event, request_lost, reply_lost,
  delivered, other, put_append_loop, put_append_args, put_append,
}

-- The specification. The request takes effect at the first event that delivers it; afterwards only
-- the other clients change the server, and the reply that arrives is the first one.
pub after : List Event → GoString → KvServer → KvServer × Option GoString
after [] v kv = (kv, none)
after (request_lost ∷ es) v kv = after es v kv
after (reply_lost ∷ es) v kv = after es v kv
after (delivered ∷ es) v kv = (kv, some v)
after (other m args ∷ es) v kv = after es v (call m args kv).0

-- What a request does when it is new.
pub effect : Method → PutAppendArgs → KvServer → KvServer × GoString
effect put_method args kv = (
  record {
    kv_data = insert args.key args.value kv.kv_data;
    dedup = insert args.client_id (record { seq = args.seq; reply = [] }) kv.dedup;
  },
  [],
)
effect append_method args kv =
    let old = value_or_empty (lookup args.key kv.kv_data) in
    (
      record {
        kv_data = insert args.key (old ++ args.value) kv.kv_data;
        dedup = insert args.client_id (record { seq = args.seq; reply = old }) kv.dedup;
      },
      old,
    )

pub once : Method → PutAppendArgs → List Event → KvServer → KvServer × Option GoString
once m args [] kv = (kv, none)
once m args (request_lost ∷ es) kv = once m args es kv
once m args (reply_lost ∷ es) kv = let (kv', v) = effect m args kv in after es v kv'
once m args (delivered ∷ es) kv = let (kv', v) = effect m args kv in (kv', some v)
once m args (other m' args' ∷ es) kv = once m args es (call m' args' kv).0

-- An event of another client than `id`.
abbrev pub IsOther : ℕ → Event → Type 0
IsOther id (other m args) = args.client_id ≢ id
IsOther id e = Unit

call-fresh :
    (m : Method) (args : PutAppendArgs) (kv : KvServer)
    → is_duplicate args kv ≡ false
    → ((call m args kv).0 ≡ (effect m args kv).0)
      × ((call m args kv).1.value ≡ (effect m args kv).1)
unfolding call put append effect
call-fresh put_method args kv h = (rw h, rw h)
call-fresh append_method args kv h = (rw h, rw h)

-- The server has handled the request, and still has the reply that it gave.
record Handled (m : Method) (args : PutAppendArgs) (v : GoString) (kv : KvServer) : Type 0 where
  pub cached : lookup args.client_id kv.dedup ≡ some (record { seq = args.seq; reply = v })
  pub empty_put : m ≡ put_method → v ≡ []

effect-Handled :
    (m : Method) (args : PutAppendArgs) (kv : KvServer)
    → Handled m args (effect m args kv).1 (effect m args kv).0
unfolding effect
effect-Handled put_method args kv = record {
  cached = lookup-insert_self _ _ _;
  empty_put = λ _. refl;
}
effect-Handled append_method args kv = record {
  cached = lookup-insert_self _ _ _;
  empty_put = λ e. cc;
}

Handled-is_duplicate :
    (m : Method) (args : PutAppendArgs) (v : GoString) (kv : KvServer)
    → Handled m args v kv
    → is_duplicate args kv ≡ true
unfolding is_duplicate
Handled-is_duplicate m args v kv h = rw (h.cached, is_duplicate) (ground arith)

call-Handled :
    (m : Method) (args : PutAppendArgs) (v : GoString) (kv : KvServer)
    → Handled m args v kv
    → ((call m args kv).0 ≡ kv) × ((call m args kv).1.value ≡ v)
unfolding call put append
call-Handled put_method args v kv h =
    let d : is_duplicate args kv ≡ true = Handled-is_duplicate _ args v kv h in
    (
      ap (λ (r : KvServer × PutAppendReply). r.0) (if_true _ _ d),
      ap (λ (r : KvServer × PutAppendReply). r.1.value) (if_true _ _ d)
          ∙ ground (arith, h.empty_put refl),
    )
call-Handled append_method args v kv h =
    let d : is_duplicate args kv ≡ true = Handled-is_duplicate _ args v kv h in
    (
      ap (λ (r : KvServer × PutAppendReply). r.0) (if_true _ _ d),
      ap (λ (r : KvServer × PutAppendReply). r.1.value) (if_true _ _ d) ∙ ap reply_of h.cached,
    )

-- Another client's request leaves the entry of this client alone.
lookup-call_other :
    (id : ℕ) (m : Method) (args : PutAppendArgs) (kv : KvServer)
    → args.client_id ≢ id
    → lookup id (call m args kv).0.dedup ≡ lookup id kv.dedup
unfolding call put append
lookup-call_other id put_method args kv ne =
    ground (arith, lookup-insert args.client_id id (record { seq = args.seq; reply = [] }) kv.dedup)
lookup-call_other id append_method args kv ne =
    let old = value_or_empty (lookup args.key kv.kv_data) in
    ground
      (arith, lookup-insert args.client_id id (record { seq = args.seq; reply = old }) kv.dedup)

after-loop :
    (m : Method) (args : PutAppendArgs) (es : List Event) (v : GoString) (kv : KvServer)
    → All (IsOther args.client_id) es
    → Handled m args v kv
    → put_append_loop m args es kv ≡ after es v kv
unfolding put_append_loop after
after-loop m args [] v kv o h = refl
after-loop m args (request_lost ∷ es) v kv o h = after-loop m args es v kv o.1 h
after-loop m args (reply_lost ∷ es) v kv o h =
    ap (put_append_loop m args es) (call-Handled m args v kv h).0 ∙ after-loop m args es v kv o.1 h
after-loop m args (delivered ∷ es) v kv o h =
    let (same, value) = call-Handled m args v kv h in rw (same, value)
after-loop m args (other m' args' ∷ es) v kv o h =
    after-loop m args es v (call m' args' kv).0 o.1 (record {
      cached = lookup-call_other args.client_id m' args' kv o.0 ∙ h.cached;
      empty_put = h.empty_put;
    })

is_duplicate-call_other :
    (m : Method) (args args' : PutAppendArgs) (kv : KvServer)
    → args'.client_id ≢ args.client_id
    → is_duplicate args kv ≡ false
    → is_duplicate args (call m args' kv).0 ≡ false
unfolding is_duplicate
is_duplicate-call_other m args args' kv ne h =
    rw (lookup-call_other args.client_id m args' kv ne, is_duplicate) h

loop-once :
    (m : Method) (args : PutAppendArgs) (es : List Event) (kv : KvServer)
    → All (IsOther args.client_id) es
    → is_duplicate args kv ≡ false
    → put_append_loop m args es kv ≡ once m args es kv
unfolding put_append_loop once
loop-once m args [] kv o h = refl
loop-once m args (request_lost ∷ es) kv o h = loop-once m args es kv o.1 h
loop-once m args (reply_lost ∷ es) kv o h =
    ap (put_append_loop m args es) (call-fresh m args kv h).0
    ∙ after-loop m args es (effect m args kv).1 (effect m args kv).0 o.1 (effect-Handled m args kv)
loop-once m args (delivered ∷ es) kv o h =
    let (state, value) = call-fresh m args kv h in rw (state, value)
loop-once m args (other m' args' ∷ es) kv o h =
    loop-once m args es (call m' args' kv).0 o.1 (is_duplicate-call_other m' args args' kv o.0 h)

-- No number of this clerk above its last one is in the server's table.
abbrev pub IsAhead : Clerk → KvServer → Type 0
IsAhead ck kv = (last : LastOp) → lookup ck.client_id kv.dedup ≡ some last → last.seq ≤ ck.seq

IsAhead-is_duplicate :
    (ck : Clerk) (key value : GoString) (kv : KvServer)
    → IsAhead ck kv
    → is_duplicate (put_append_args ck key value) kv ≡ false
unfolding is_duplicate put_append_args next_seq
IsAhead-is_duplicate ck key value kv ahead = elim (Option-cases (lookup ck.client_id kv.dedup)) [
  | inl e ↦ ground (arith, e)
  | inr (last, e) ↦ ground (arith, e, ahead last e)
]

-- However often the network loses requests and replies of one PutAppend, and whatever clients of
-- other ids do meanwhile, the server ends as if the request had been handled once, at its first
-- delivery, and the value that is returned is the one of that moment. The server has no number of
-- the clerk's id above the clerk's last one at the start.
pub put_append-once :
    (ck : Clerk) (key value : GoString) (m : Method) (es : List Event) (kv : KvServer)
    → IsAhead ck kv
    → All (IsOther ck.client_id) es
    → let (_, kv', v) = put_append ck key value m es kv in
      (kv', v) ≡ once m (put_append_args ck key value) es kv
unfolding put_append
put_append-once ck key value m es kv ahead others =
    loop-once m (put_append_args ck key value) es kv (unfold put_append_args in others)
      (IsAhead-is_duplicate ck key value kv ahead)
