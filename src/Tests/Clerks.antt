-- ===== src/Tests/Clerks.antt =====
-- The clerks at concrete inputs: a server that leads late, and a shard that moves.
use mathlib.Core.Option.{some_inj, none-ne-some}
use mit_6824_raft.Prelude.{
  ℕ, zero, suc, ◌≤◌, ◌<◌, ◌≡◌, ◌≢◌, refl, false, Option, none, some, [], ◌∷◌, get_elem?, GoString,
  arith, lt→ltb, sym, subst, ◌∙◌, ltb, ◌==◌, ◌&&◌, if◌then◌else◌, ◌>>=◌, nat_eq, lookup, bytes_beq,
}
use mit_6824_raft.Clerk.{returned, retry}
use mit_6824_raft.Clerk.Retry.{Found, retry-Found}
use mit_6824_raft.KvRaft.Server.{GetArgs, GetReply, ok, wrong_leader}
use mit_6824_raft.KvRaft.Clerk.{Clerk, accept_get, get_args, get, get_returns}
use mit_6824_raft.ShardCtrler.Config.{Config}
use mit_6824_raft.ShardKv.Server.{key2shard, shard_gid}
use mit_6824_raft.ShardKv.Server as Sharded
use mit_6824_raft.ShardKv.Migrate as Groups
use mit_6824_raft.ShardKv.Clerk as Shards
use mit_6824_raft.ShardKv.Asking.{Ready, FromOwner, get_reaches_owner}

-- Server 1 leads from the fourth call on; the others say that they do not, and server 0 is cut off.
abbrev late_leader : ℕ → ℕ → GetArgs → Option GetReply
late_leader t zero args = none
late_leader t (suc s) args = some (
    if s == 0 && ltb 3 t
    then record { err = ok; value = 7 ∷ [] }
    else record { err = wrong_leader; value = [] })

abbrev ck : Clerk ℕ
ck = record { servers = 0 ∷ 1 ∷ 2 ∷ []; client_id = 5; seq = 8; leader_hint = 2 }

leads : (t : ℕ) → 4 ≤ t → (late_leader t 1 (get_args ck (9 ∷ [])) >>= accept_get) ≢ none
unfolding accept_get
leads t h e = none-ne-some (7 ∷ []) (sym e ∙ rw (lt→ltb 3 t h) refl)

get_returns_example :
    (at : ℕ) × (v : GoString) × (k : ℕ) × (at < 3)
    × (get late_leader 9 (9 ∷ []) ck ≡ (record ck { seq = 9; leader_hint = at }, returned at v k))
get_returns_example =
    get_returns late_leader 4 1 9 1 (9 ∷ []) ck (omega arith) refl leads (omega arith)

retry-Found_example :
    Found
      (0 ∷ 1 ∷ 2 ∷ [])
      (λ t s. late_leader t s (get_args ck []))
      accept_get
      0
      2
      (retry (0 ∷ 1 ∷ 2 ∷ []) (λ t s. late_leader t s (get_args ck [])) accept_get 9 0 2)
retry-Found_example =
    retry-Found (0 ∷ 1 ∷ 2 ∷ []) (λ t s. late_leader t s (get_args ck [])) accept_get 9 0 2
      (omega arith)

-- Shard 0 moves to group 2, whose second server leads.
abbrev moved : Config
moved = record {
  num = 2;
  shards = 2 ∷ [];
  groups = (1, (3 ∷ []) ∷ []) ∷ (2, (4 ∷ []) ∷ (5 ∷ []) ∷ []) ∷ [];
}

abbrev reply_of : GoString → Groups.GetReply
reply_of s =
    if bytes_beq s (5 ∷ [])
    then record { err = Sharded.ok; value = 7 ∷ [] }
    else if bytes_beq s (4 ∷ [])
    then record { err = Sharded.wrong_leader; value = [] }
    else record { err = Sharded.wrong_group; value = [] }

abbrev answer : GoString → Option Groups.GetReply
answer s = some (reply_of s)

abbrev sk : Shards.Clerk
sk = record {
  config = record { num = 1; shards = 1 ∷ []; groups = (1, (3 ∷ []) ∷ []) ∷ [] };
  client_id = 5;
  seq = 8;
}

right_group :
    (i : ℕ) (s : GoString)
    → get_elem? ((4 ∷ []) ∷ (5 ∷ []) ∷ []) i ≡ some s
    → Shards.is_wrong_group (reply_of s).err ≡ false
unfolding Shards.is_wrong_group
right_group zero s at =
    subst (λ x. Shards.is_wrong_group (reply_of x).err ≡ false) (some_inj.0 at) refl
right_group (suc zero) s at =
    subst (λ x. Shards.is_wrong_group (reply_of x).err ≡ false) (some_inj.0 at) refl
right_group (suc (suc i)) s at = cc

ready : (t : ℕ) → 1 ≤ t → Ready (λ u s. answer s) Shards.accept_get (λ r. r.err) (suc t) [] moved
unfolding lookup shard_gid key2shard Shards.accept_get Shards.is_wrong_group
ready t h = record {
  group = (4 ∷ []) ∷ (5 ∷ []) ∷ [];
  value = 7 ∷ [];
  owner = refl;
  answer = record {
    index = 1;
    server = 5 ∷ [];
    reply = record { err = Sharded.ok; value = 7 ∷ [] };
    listed = refl;
    came = refl;
    accepted = refl;
  };
  not_refused = λ i s r at e.
      subst (λ (x : Groups.GetReply). Shards.is_wrong_group x.err ≡ false) (some_inj.0 e)
        (right_group i s at);
}

get_reaches_owner_example :
    (c : Config) × (v : GoString) × (k : ℕ) × FromOwner
      (λ u s. answer s)
      Shards.accept_get
      (λ r. r.err)
      []
      c
      v
      k
    × (Shards.get (λ u s args. answer s) (λ t. moved) 3 [] sk
        ≡ (record sk { config = c; seq = 9 }, some (v, k)))
get_reaches_owner_example =
    get_reaches_owner (λ u s args. answer s) (λ t. moved) [] sk 1 3 ready (omega arith)
