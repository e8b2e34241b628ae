-- ===== src/ShardCtrler/History.antt =====
-- The history of configurations that the controller keeps, and that each request changes it once.
use mit_6824_raft.Prelude.{
  ℕ, zero, suc, ◌+◌, ◌-◌, ◌<◌, ◌≡◌, refl, sym, ap, ◌∙◌, Bool, true, false, not, ◌&&◌, some, List,
  [], ◌∷◌, ◌++◌, length, length-append, get_elem?, get_elem?-append_left, lt-get_elem?, nat_eq,
  insert, lookup-insert, ltb, leb, ◌==◌, arith, subst, OnSome, on_some, on_none, OnSome-bind,
  OnSome-if, OnSome-map, OnSome-all, OnSome-at, inl, inr, ◌⊎◌,
}
use mit_6824_raft.Raft.State.{ApplyMsg}
use mit_6824_raft.ShardCtrler.Config.{Config}
use mit_6824_raft.ShardCtrler.Rebalance.{rebalance}
use mit_6824_raft.ShardCtrler.Server.{
  OpKind, join, leave, move, query, is_query, Op, ShardCtrler, mutate, copy_groups, last_config,
  apply_mutation, is_new, apply_once, notify, apply_msg, apply_loop,
}

-- Configuration i of the history has number i, and there is one.
pub record IsValid (sc : ShardCtrler) : Type 0 where
  pub numbered : (i : ℕ) (c : Config) → get_elem? sc.configs i ≡ some c → c.num ≡ i
  pub nonempty : 0 < length sc.configs

-- Later commands keep the history and the numbers of clients.
pub record Extends (a b : ShardCtrler) : Type 0 where
  pub kept : (i : ℕ) (c : Config) → get_elem? a.configs i ≡ some c → get_elem? b.configs i ≡ some c
  pub seen : (op : Op) → is_new op a ≡ false → is_new op b ≡ false
  pub valid : IsValid a → IsValid b

Extends-refl : (a : ShardCtrler) → Extends a a
Extends-refl a = record { kept = λ i c e. e; seen = λ op e. e; valid = λ v. v }

pub Extends-trans : {a b c : ShardCtrler} → Extends a b → Extends b c → Extends a c
Extends-trans ab bc = record {
  kept = λ i c e. bc.kept i c (ab.kept i c e);
  seen = λ op e. bc.seen op (ab.seen op e);
  valid = λ v. bc.valid (ab.valid v);
}

num-mutate : (kind : OpKind) (nc : Config) → OnSome (λ c. c.num ≡ nc.num) (mutate kind nc)
unfolding mutate rebalance
num-mutate (join servers) nc = on_some refl
num-mutate (leave gids) nc = on_some refl
num-mutate (move shard gid) nc =
    OnSome-if _ (ltb shard (length nc.shards)) _ _ (λ h. on_some refl) (λ h. on_none)
num-mutate (query num) nc = on_some refl

get_elem?-snoc :
    (xs : List Config) (x : Config) (i : ℕ) (y : Config)
    → get_elem? (xs ++ x ∷ []) i ≡ some y
    → (get_elem? xs i ≡ some y) ⊎ ((i ≡ length xs) × (some x ≡ some y))
get_elem?-snoc [] x zero y h = inr (refl, h)
get_elem?-snoc [] x (suc i) y h = cc
get_elem?-snoc (z ∷ xs) x zero y h = inl h
get_elem?-snoc (z ∷ xs) x (suc i) y h = elim (get_elem?-snoc xs x i y h) [
  | inl e ↦ inl e
  | inr (n, e) ↦ inr (ap suc n, e)
]

-- A configuration that is numbered by the length of the history can join it.
Extends-append :
    (sc : ShardCtrler) (nc : Config)
    → (IsValid sc → nc.num ≡ length sc.configs)
    → Extends sc (record sc { configs = sc.configs ++ nc ∷ [] })
Extends-append sc nc n = record {
  kept = λ i c e. get_elem?-append_left sc.configs (nc ∷ []) i (lt-get_elem? sc.configs i e) ∙ e;
  seen = λ op e. unfold is_new in e;
  valid = λ v. record {
    numbered = λ i c e. elim (get_elem?-snoc sc.configs nc i c e) [
      | inl old ↦ v.numbered i c old
      | inr (k, same) ↦ OnSome-at (λ d. d.num ≡ i) (on_some (n v ∙ sym k)) same
    ];
    nonempty = subst (λ n. 0 < n) (sym (length-append sc.configs (nc ∷ []))) (omega arith);
  };
}

last_config-num :
    (sc : ShardCtrler) → OnSome (λ c. IsValid sc → c.num + 1 ≡ length sc.configs) (last_config sc)
unfolding last_config
last_config-num sc =
    OnSome-if _ (length sc.configs == 0) _ _ (λ h. on_none)
      λ h.
        OnSome-all _ (get_elem? sc.configs (length sc.configs - 1))
          λ c e v. let n = v.numbered (length sc.configs - 1) c e in omega (arith, n, v.nonempty)

dedup-apply_mutation :
    (kind : OpKind) (sc : ShardCtrler)
    → OnSome (λ (r : ShardCtrler). r.dedup ≡ sc.dedup) (apply_mutation kind sc)
unfolding apply_mutation
dedup-apply_mutation kind sc = OnSome-bind _ (last_config sc) _ λ last e.
    OnSome-bind _
      (mutate kind
        (record { num = last.num + 1; shards = last.shards; groups = copy_groups last.groups }))
      _ λ nc e'. on_some refl

-- Recording the number of a new request keeps every request seen that was.
is_new-insert :
    (op o : Op) (a b : ShardCtrler)
    → b.dedup ≡ a.dedup
    → is_new op a ≡ true
    → is_new o a ≡ false
    → is_new o (record b { dedup = insert op.client_id op.seq b.dedup }) ≡ false
unfolding is_new
is_new-insert op o a b e new old = rw e (grind (arith, lookup-insert))

apply_mutation-Extends :
    (kind : OpKind) (sc : ShardCtrler) → OnSome (Extends sc) (apply_mutation kind sc)
unfolding apply_mutation
apply_mutation-Extends kind sc = OnSome-bind _ (last_config sc) _ λ last e.
    OnSome-bind _
      (mutate kind
        (record { num = last.num + 1; shards = last.shards; groups = copy_groups last.groups }))
      _
      λ nc e'. on_some (
        Extends-append sc nc
          (λ v. OnSome-at _ (num-mutate kind _) e' ∙ OnSome-at _ (last_config-num sc) e v))

and_right : (a b : Bool) → (a && b) ≡ true → b ≡ true
and_right a b h = ground (arith, h)

apply_once-Extends : (op : Op) (sc : ShardCtrler) → OnSome (Extends sc) (apply_once op sc)
unfolding apply_once
apply_once-Extends op sc =
    OnSome-if _ (not (is_query op.kind) && is_new op sc) _ _
      (λ h. OnSome-bind _ (apply_mutation op.kind sc) _ λ sc' e.
        let ext = OnSome-at _ (apply_mutation-Extends op.kind sc) e in
        on_some (record {
          kept = ext.kept;
          seen = λ o.
              is_new-insert op o sc sc' (OnSome-at _ (dedup-apply_mutation op.kind sc) e)
                (and_right _ _ h);
          valid =
              λ v. record { numbered = (ext.valid v).numbered; nonempty = (ext.valid v).nonempty };
        }))
      (λ h. on_some (Extends-refl sc))

Extends-same : (a b : ShardCtrler) → b.configs ≡ a.configs → b.dedup ≡ a.dedup → Extends a b
Extends-same a b e d = record {
  kept = λ i c h. rw e h;
  seen = λ op h. unfold is_new in rw d (unfold is_new in h);
  valid = λ v. record { numbered = rw e v.numbered; nonempty = rw e v.nonempty };
}

Extends-notify : (index : ℕ) (op : Op) (sc : ShardCtrler) → Extends sc (notify index op sc)
unfolding notify
Extends-notify index op sc = Extends-same sc (notify index op sc) (ground arith) (ground arith)

apply_msg-Extends : (msg : ApplyMsg Op) (sc : ShardCtrler) → OnSome (Extends sc) (apply_msg msg sc)
unfolding apply_msg
apply_msg-Extends msg sc =
    OnSome-if _ (not msg.command_valid) _ _ (λ h. on_some (Extends-refl sc))
      λ h.
        OnSome-if _ (leb msg.command_index sc.last_applied) _ _ (λ old. on_some (Extends-refl sc))
          λ fresh. OnSome-bind _ msg.command _ λ op e.
            OnSome-bind _ (apply_once op (record sc { last_applied = msg.command_index })) _
              λ sc' e'. on_some (
                Extends-trans
                  (Extends-same sc (record sc { last_applied = msg.command_index }) refl refl)
                  (Extends-trans
                    (OnSome-at _
                      (apply_once-Extends op (record sc { last_applied = msg.command_index })) e')
                    (Extends-notify msg.command_index op sc')))

-- The history only grows: whatever messages the apply loop of a valid controller gets, if none
-- panics, every configuration of before stays at its number, configurations are numbered from 0
-- without a gap, and a request that was seen stays seen.
pub apply_loop-Extends :
    (msgs : List (ApplyMsg Op)) (sc : ShardCtrler) → OnSome (Extends sc) (apply_loop msgs sc)
unfolding apply_loop
apply_loop-Extends [] sc = on_some (Extends-refl sc)
apply_loop-Extends (msg ∷ msgs) sc =
    OnSome-if _ sc.dead _ _ (λ h. on_some (Extends-refl sc))
      λ h. OnSome-bind _ (apply_msg msg sc) _ λ sc' e.
        OnSome-map (Extends sc') (Extends sc) (apply_loop msgs sc')
          (λ b. Extends-trans (OnSome-at _ (apply_msg-Extends msg sc) e))
          (apply_loop-Extends msgs sc')

is_new-inserted :
    (op : Op) (sc : ShardCtrler)
    → is_new op (record sc { dedup = insert op.client_id op.seq sc.dedup }) ≡ false
unfolding is_new
is_new-inserted op sc = grind (arith, lookup-insert)

seen-apply_once :
    (op : Op) (sc : ShardCtrler)
    → is_query op.kind ≡ false
    → OnSome (λ b. is_new op b ≡ false) (apply_once op sc)
unfolding apply_once
seen-apply_once op sc q =
    OnSome-if _ (not (is_query op.kind) && is_new op sc) _ _
      (λ h. OnSome-bind _ (apply_mutation op.kind sc) _ λ sc' e. on_some (is_new-inserted op sc'))
      (λ h. on_some (ground (arith, h, q)))

-- A request of a client changes the history once: when a Join, Leave or Move has been applied, a
-- later copy of it, whatever messages the apply loop gets in between, changes nothing.
pub mutation_once :
    (op : Op) (msgs : List (ApplyMsg Op)) (a b c : ShardCtrler)
    → is_query op.kind ≡ false
    → apply_once op a ≡ some b
    → apply_loop msgs b ≡ some c
    → apply_once op c ≡ some c
mutation_once op msgs a b c q e e' =
    let old =
      (OnSome-at _ (apply_loop-Extends msgs b) e').seen op
        (OnSome-at _ (seen-apply_once op a q) e) in
    unfold apply_once in ground (arith, old)
