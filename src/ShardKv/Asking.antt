-- ===== src/ShardKv/Asking.antt =====
-- shardkv/client.go: the clerk's loop reaches the group that owns the shard.
use mathlib.Core.Option.{some_inj, none-ne-some}
use mit_6824_raft.Prelude.{
  ℕ, zero, suc, ◌+◌, ◌≤◌, ◌<◌, ◌≡◌, ◌∙◌, refl, ap, sym, false, Option, none, some, List, [], ◌∷◌,
  get_elem?, GoString, nat_eq, lookup, if◌then◌else◌, if_true, if_false, arith, ◌>>=◌, >>=-eq-some,
  Option-cases, ltb, ltb→lt, ltb→le, Bool-cases, inl, inr,
}
use mit_6824_raft.ShardCtrler.Config.{Config}
use mit_6824_raft.ShardKv.Server.{Err, key2shard, shard_gid}
use mit_6824_raft.ShardKv.Migrate.{GetArgs, GetReply}
use mit_6824_raft.ShardKv.Clerk.{
  Clerk, accept_get, get_args, get, next_seq, is_wrong_group, ask, ask_owner, call_loop,
}

module _ {R V : Type 0} (call : ℕ → GoString → Option R) (accept : R → Option V)
    (error : R → Err) where
  -- A server of the list gave the value in the round `t`.
  pub record AnsweredBy (t : ℕ) (servers : List GoString) (v : V) : Type 0 where
    pub index : ℕ
    pub server : GoString
    pub reply : R
    pub listed : get_elem? servers index ≡ some server
    pub came : call t server ≡ some reply
    pub accepted : accept reply ≡ some v

  later :
      (t : ℕ) (s : GoString) (servers : List GoString) (v : V)
      → AnsweredBy t servers v
      → AnsweredBy t (s ∷ servers) v
  later t s servers v a = record {
    index = suc a.index;
    server = a.server;
    reply = a.reply;
    listed = a.listed;
    came = a.came;
    accepted = a.accepted;
  }

  ask-lost :
      (t : ℕ) (s : GoString) (servers : List GoString)
      → call t s ≡ none
      → ask call accept error t (s ∷ servers) ≡ ask call accept error t servers
  unfolding ask
  ask-lost t s servers e = simp (e, ask)

  ask-accepted :
      (t : ℕ) (s : GoString) (servers : List GoString) {r : R} {v : V}
      → call t s ≡ some r
      → accept r ≡ some v
      → ask call accept error t (s ∷ servers) ≡ some v
  unfolding ask
  ask-accepted t s servers e f = simp (e, f, ask)

  ask-refused :
      (t : ℕ) (s : GoString) (servers : List GoString) {r : R}
      → call t s ≡ some r
      → accept r ≡ none
      → ask call accept error t (s ∷ servers)
        ≡ (if is_wrong_group (error r) then none else ask call accept error t servers)
  unfolding ask
  ask-refused t s servers e f = simp (e, f, ask)

  ask-AnsweredBy :
      (t : ℕ) (servers : List GoString) (v : V)
      → ask call accept error t servers ≡ some v
      → AnsweredBy t servers v
  unfolding ask
  ask-AnsweredBy t [] v e = cc
  ask-AnsweredBy t (s ∷ servers) v e = elim (Option-cases (call t s)) [
    | inl lost ↦
        later t s servers v (ask-AnsweredBy t servers v (sym (ask-lost t s servers lost) ∙ e))
    | inr (r, came) ↦ elim (Option-cases (accept r)) [
      | inr (u, good) ↦ record {
        index = 0;
        server = s;
        reply = r;
        listed = refl;
        came = came;
        accepted = good ∙ sym (ask-accepted t s servers came good) ∙ e;
      }
      | inl bad ↦ elim (Bool-cases (is_wrong_group (error r))) [
        | inl wrong ↦
            let nothing = sym (ask-refused t s servers came bad ∙ if_true _ _ wrong) ∙ e in cc
        | inr fine ↦ later t s servers v (
            ask-AnsweredBy t servers v
              (sym (ask-refused t s servers came bad ∙ if_false _ _ fine) ∙ e))
      ]
    ]
  ]

  -- No server of the list says that the group is the wrong one.
  abbrev pub NotRefused : ℕ → List GoString → Type 0
  NotRefused t servers =
      (i : ℕ) (s : GoString) (r : R)
      → get_elem? servers i ≡ some s
      → call t s ≡ some r
      → is_wrong_group (error r) ≡ false

  ask_finds :
      (t : ℕ) (servers : List GoString) (i : ℕ) {s : GoString} {r : R} {v : V}
      → get_elem? servers i ≡ some s
      → call t s ≡ some r
      → accept r ≡ some v
      → NotRefused t servers
      → (u : V) × (ask call accept error t servers ≡ some u)
  ask_finds t [] i at came good n = cc
  ask_finds t (s ∷ servers) zero {s = s'} {r = r} {v = v} at came good n =
      let is : call t s ≡ some r = ap (call t) (some_inj.0 at) ∙ came in
      (v, ask-accepted t s servers is good)
  ask_finds t (s ∷ servers) (suc i) at came good n =
      let (u, e) = ask_finds t servers i at came good (λ j. n (suc j)) in
      elim (Option-cases (call t s)) [
        | inl lost ↦ (u, ask-lost t s servers lost ∙ e)
        | inr (r, here) ↦ elim (Option-cases (accept r)) [
          | inr (w, accepted) ↦ (w, ask-accepted t s servers here accepted)
          | inl bad ↦ (u, ask-refused t s servers here bad ∙ if_false _ _ (n 0 s r refl here) ∙ e)
        ]
      ]

  -- The configuration names a group for the key's shard that answers in the round `t`.
  pub record Ready (t : ℕ) (key : GoString) (c : Config) : Type 0 where
    pub group : List GoString
    pub value : V
    pub owner : lookup (shard_gid c (key2shard key)) c.groups ≡ some group
    pub answer : AnsweredBy t group value
    pub not_refused : NotRefused t group

  ask_owner-Ready :
      (t : ℕ) (key : GoString) (c : Config)
      → Ready t key c
      → (u : V) × (ask_owner call accept error t key c ≡ some u)
  unfolding ask_owner
  ask_owner-Ready t key c y =
      let a = y.answer in
      let (u, e) = ask_finds t y.group a.index a.listed a.came a.accepted y.not_refused in
      (u, ap (λ o. o >>= λ servers. ask call accept error t servers) y.owner ∙ e)

  -- A server of the group that owns the key's shard by `c` gave the value in the round `k`.
  pub record FromOwner (key : GoString) (c : Config) (v : V) (k : ℕ) : Type 0 where
    pub group : List GoString
    pub owner : lookup (shard_gid c (key2shard key)) c.groups ≡ some group
    pub answer : AnsweredBy k group v

  ask_owner-FromOwner :
      (t : ℕ) (key : GoString) (c : Config) (v : V)
      → ask_owner call accept error t key c ≡ some v
      → FromOwner key c v t
  unfolding ask_owner
  ask_owner-FromOwner t key c v e =
      let (group, owner, e') = >>=-eq-some (lookup (shard_gid c (key2shard key)) c.groups) _ e in
      record { group = group; owner = owner; answer = ask-AnsweredBy t group v e' }

  call_loop-some :
      (query : ℕ → Config) (rounds t : ℕ) (key : GoString) (c : Config) {v : V}
      → ask_owner call accept error t key c ≡ some v
      → call_loop call accept error query (suc rounds) t key c ≡ (c, some (v, t))
  unfolding call_loop
  call_loop-some query rounds t key c e = simp (e, call_loop)

  call_loop-none :
      (query : ℕ → Config) (rounds t : ℕ) (key : GoString) (c : Config)
      → ask_owner call accept error t key c ≡ none
      → call_loop call accept error query (suc rounds) t key c
        ≡ call_loop call accept error query rounds (suc t) key (query t)
  unfolding call_loop
  call_loop-none query rounds t key c e = simp (e, call_loop)

  -- What the loop comes to, where it ends.
  abbrev pub Ends : GoString → Config × Option (V × ℕ) → Type 0
  Ends key r = (c : Config) × (v : V) × (k : ℕ) × FromOwner key c v k × (r ≡ (c, some (v, k)))

  pub call_loop-Ends :
      (query : ℕ → Config) (since : ℕ) (key : GoString)
      → ((t : ℕ) → since ≤ t → Ready (suc t) key (query t))
      → (rounds t : ℕ) (c : Config) → (since < t → Ready t key c)
      → 0 < rounds
      → since + 2 ≤ t + rounds
      → Ends key (call_loop call accept error query rounds t key c)
  call_loop-Ends query since key ready zero t c now pos enough = elim pos [ ]
  call_loop-Ends query since key ready (suc rounds) t c now pos enough =
      elim (Option-cases (ask_owner call accept error t key c)) [
        | inr (v, e) ↦
            (c, v, t, ask_owner-FromOwner t key c v e, call_loop-some query rounds t key c e)
        | inl e ↦
            let not_late : t ≤ since = elim (Bool-cases (ltb since t)) [
              | inl late ↦
                  let (u, found) = ask_owner-Ready t key c (now (ltb→lt since t late)) in
                  absurd (none-ne-some u (sym e ∙ found))
              | inr early ↦ ltb→le since t early
            ] in
            let (c', v, k, from, r) =
              call_loop-Ends query since key ready rounds (suc t) (query t)
                (λ late. ready t (omega (arith, late))) (omega (arith, not_late, enough))
                (omega (arith, enough)) in
            (c', v, k, from, call_loop-none query rounds t key c e ∙ r)
      ]

-- A Get of the sharded store.
module _ (call : ℕ → GoString → GetArgs → Option GetReply) (query : ℕ → Config) (key : GoString)
    (ck : Clerk) where
  abbrev ask_get : ℕ → GoString → Option GetReply
  ask_get t s = call t s (get_args ck key)

  -- Get ends. When from some round on the configuration that Query gives names a group for the
  -- key's shard of which a server answers OK or ErrNoKey in the next round, and no server there
  -- answers ErrWrongGroup, then two rounds later at the latest the loop has returned, whatever came
  -- before. The value was given by a server of the group that owns the key's shard by the
  -- configuration that the clerk keeps, and the sequence number has risen by one.
  pub get_reaches_owner :
      (since rounds : ℕ)
      → ((t : ℕ) → since ≤ t → Ready ask_get accept_get (λ r. r.err) (suc t) key (query t))
      → since + 2 ≤ rounds
      → (c : Config) × (v : GoString) × (k : ℕ) × FromOwner ask_get accept_get
          (λ r. r.err)
          key
          c
          v
          k
        × (get call query rounds key ck ≡ (record ck { config = c; seq = ck.seq + 1 }, some (v, k)))
  unfolding get next_seq
  get_reaches_owner since rounds ready enough =
      let (c, v, k, from, e) =
        call_loop-Ends ask_get accept_get (λ r. r.err) query since key ready rounds 0 ck.config
          (λ late. absurd (omega (arith, late))) (omega (arith, enough)) (omega (arith, enough)) in
      (
        c,
        v,
        k,
        from,
        ap
            (λ (x : Config × Option (GoString × ℕ)).
              (record ck { config = x.0; seq = ck.seq + 1 }, x.1))
            e,
      )
