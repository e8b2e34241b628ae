-- ===== src/ShardKv/Owner.antt =====
-- A group holds a shard in the state that its two configurations call for.
use mit_6824_raft.Prelude.{
  ℕ, zero, suc, ◌+◌, ◌<◌, ◌≡◌, refl, Bool, true, not, ◌&&◌, Option, none, some, List, [], ◌∷◌, Map,
  nat_eq, bytes_eq, lookup, replicate, lookup-insert, lookup-erase, ◌==◌, leb, ltb, ◌||◌,
  if◌then◌else◌, arith, GoString, inl, inr, Bool-cases,
}
use mit_6824_raft.ShardCtrler.Config.{Config, n_shards}
use mit_6824_raft.ShardKv.Server.{
  ShardState, serving, pulling, be_pulling, gcing, is_serving, Shard, new_shard, Op, client, config,
  install_shard, delete_shard, empty, GroupState, ClientOp, serve_shard, shard_gid, settled,
  move_shard, move_shards, apply_config, install_one, install_all, apply_install_shard, delete_one,
  delete_all, finish_shard, apply_delete_shard, apply_client_op, apply_op,
}

-- The states that a shard may have: owned now and before (or by nobody before), to be fetched from
-- the group that had it, or to be handed over.
abbrev pub fits_state : ℕ → ℕ → ℕ → ShardState → Bool
fits_state gid cur prev serving = cur == gid
fits_state gid cur prev be_pulling = not (cur == gid) && prev == gid
fits_state gid cur prev pulling = cur == gid && (not (prev == gid) && not (prev == 0))
fits_state gid cur prev gcing = cur == gid && (not (prev == gid) && not (prev == 0))

-- A group without the shard does not own it.
abbrev pub fits : ℕ → ℕ → ℕ → Option Shard → Bool
fits gid cur prev none = not (cur == gid)
fits gid cur prev (some sh) = fits_state gid cur prev sh.state

pub Fits : ℕ → GroupState → Type 0
Fits gid s =
    (i : ℕ)
    → i < n_shards
    → fits gid (shard_gid s.config i) (shard_gid s.prev_config i) (lookup i s.shards) ≡ true

-- What applyConfig makes of one shard.
abbrev moved : ℕ → ℕ → ℕ → Option Shard → Option Shard
moved gid old new none =
    if not (new == gid)
    then none
    else if old == gid || old == 0
    then some new_shard
    else some (record { kv_data = []; state = pulling })
moved gid old new (some sh) =
    if not (new == gid)
    then if old == gid then some (record sh { state = be_pulling }) else some sh
    else if old == gid || old == 0
    then some (record sh { state = serving })
    else some (record { kv_data = []; state = pulling })

lookup-move_shard :
    (gid old new j i : ℕ) (m : Map ℕ Shard)
    → lookup i (move_shard gid old new j m)
      ≡ (if j == i then moved gid old new (lookup j m) else lookup i m)
unfolding move_shard
lookup-move_shard gid old new j i m = grind (arith, lookup-insert)

-- The loop of applyConfig changes each of its shards once, by what the map held at first.
lookup-move_shards :
    (gid : ℕ) (old new : Config) (n j i : ℕ) (m : Map ℕ Shard)
    → lookup i (move_shards gid old new n j m) ≡ (
        if leb j i && ltb i (j + n)
        then moved gid (shard_gid old i) (shard_gid new i) (lookup i m)
        else lookup i m)
unfolding move_shards
lookup-move_shards gid old new zero j i m = ground arith
lookup-move_shards gid old new (suc n) j i m = grind (
  arith,
  lookup-move_shard gid (shard_gid old j) (shard_gid new j) j i m,
  lookup-move_shards gid old new n (suc j) i
      (move_shard gid (shard_gid old j) (shard_gid new j) j m),
)

pub settled-lookup :
    (m : Map ℕ Shard) (i : ℕ) (sh : Shard)
    → settled m ≡ true
    → lookup i m ≡ some sh
    → is_serving sh.state ≡ true
unfolding settled lookup
settled-lookup [] i sh h e = cc
settled-lookup ((j, x) ∷ m) i sh h e = ground (arith, settled-lookup m i sh)

fits-moved :
    (gid cur prev new : ℕ) (o : Option Shard)
    → 0 < gid
    → fits gid cur prev o ≡ true
    → ((sh : Shard) → o ≡ some sh → is_serving sh.state ≡ true)
    → fits gid new cur (moved gid cur new o) ≡ true
fits-moved gid cur prev new none pos h all = ground arith
fits-moved gid cur prev new (some sh) pos h all = ground (arith, all sh refl)

fits-install_one :
    (pulled : Map ℕ (Map GoString GoString)) (j i : ℕ) (m : Map ℕ Shard) (gid cur prev : ℕ)
    → fits gid cur prev (lookup i m) ≡ true
    → fits gid cur prev (lookup i (install_one pulled j m)) ≡ true
unfolding install_one
fits-install_one pulled j i m gid cur prev h = grind (arith, lookup-insert)

fits-install_all :
    (pulled : Map ℕ (Map GoString GoString)) (js : List ℕ) (i : ℕ) (m : Map ℕ Shard)
    → (gid cur prev : ℕ) → fits gid cur prev (lookup i m) ≡ true
    → fits gid cur prev (lookup i (install_all pulled js m)) ≡ true
unfolding install_all
fits-install_all pulled [] i m gid cur prev h = h
fits-install_all pulled (j ∷ js) i m gid cur prev h =
    fits-install_all pulled js i (install_one pulled j m) gid cur prev
      (fits-install_one pulled j i m gid cur prev h)

fits-delete_one :
    (j i : ℕ) (m : Map ℕ Shard) (gid cur prev : ℕ)
    → fits gid cur prev (lookup i m) ≡ true
    → fits gid cur prev (lookup i (delete_one j m)) ≡ true
unfolding delete_one finish_shard
fits-delete_one j i m gid cur prev h = grind (arith, lookup-insert, lookup-erase)

fits-delete_all :
    (js : List ℕ) (i : ℕ) (m : Map ℕ Shard) (gid cur prev : ℕ)
    → fits gid cur prev (lookup i m) ≡ true
    → fits gid cur prev (lookup i (delete_all js m)) ≡ true
unfolding delete_all
fits-delete_all [] i m gid cur prev h = h
fits-delete_all (j ∷ js) i m gid cur prev h =
    fits-delete_all js i (delete_one j m) gid cur prev (fits-delete_one j i m gid cur prev h)

apply_client_op-Fits :
    (gid : ℕ) (op : ClientOp) (s : GroupState) → Fits gid s → Fits gid (apply_client_op gid op s).0
unfolding Fits apply_client_op serve_shard
apply_client_op-Fits gid op s h i lt = let was = h i lt in grind (arith, lookup-insert)

in_loop : (i : ℕ) → i < n_shards → (leb 0 i && ltb i (0 + n_shards)) ≡ true
in_loop i lt = ground (arith, lt)

apply_config-Fits :
    (gid : ℕ) (new : Config) (s : GroupState)
    → 0 < gid
    → Fits gid s
    → Fits gid (apply_config gid new s)
unfolding Fits apply_config
apply_config-Fits gid new s pos h i lt = elim (Bool-cases (not (new.num == s.config.num + 1))) [
  | inl e ↦ rw e (h i lt)
  | inr e ↦ elim (Bool-cases (settled s.shards)) [
    | inl all ↦
        rw (e, all, lookup-move_shards gid s.config new n_shards 0 i s.shards, in_loop i lt)
          (fits-moved gid (shard_gid s.config i) (shard_gid s.prev_config i) (shard_gid new i)
            (lookup i s.shards) pos (h i lt) (λ sh. settled-lookup s.shards i sh all))
    | inr unsettled ↦ rw (e, unsettled) (h i lt)
  ]
]

-- For a group with an id above 0, every command of the log keeps each shard in a state that the
-- group's current and previous configuration allow: a served shard is the group's own, one that it
-- fetches or has just fetched is its own and was another group's, one that it hands over was its
-- own and is no more, and a shard of its own is present.
pub apply_op-Fits :
    (gid : ℕ) (op : Op) (s : GroupState) → 0 < gid → Fits gid s → Fits gid (apply_op gid op s).0
unfolding apply_op
apply_op-Fits gid (client op) s pos h = apply_client_op-Fits gid op s h
apply_op-Fits gid (config c) s pos h = apply_config-Fits gid c s pos h
apply_op-Fits gid (install_shard op) s pos h =
    unfold Fits apply_install_shard in
    λ i lt. elim (Bool-cases (not (op.config_num == s.config.num))) [
      | inl e ↦ rw e (h i lt)
      | inr e ↦ rw e (
          fits-install_all op.shard_data op.shards i s.shards gid (shard_gid s.config i)
            (shard_gid s.prev_config i) (h i lt))
    ]
apply_op-Fits gid (delete_shard n shards) s pos h =
    unfold Fits apply_delete_shard in
    λ i lt. elim (Bool-cases (not (n == s.config.num))) [
      | inl e ↦ rw e (h i lt)
      | inr e ↦ rw e (
          fits-delete_all shards i s.shards gid (shard_gid s.config i) (shard_gid s.prev_config i)
            (h i lt))
    ]
apply_op-Fits gid empty s pos h = h

-- The state that StartServer makes.
abbrev pub start : GroupState
start =
    let none_yet : Config = record { num = 0; shards = replicate n_shards 0; groups = [] } in
    record { shards = []; dedup = []; config = none_yet; prev_config = none_yet }

shard_gid-zeros :
    (n i : ℕ) → shard_gid (record { num = 0; shards = replicate n 0; groups = [] }) i ≡ 0
unfolding shard_gid
shard_gid-zeros zero i = refl
shard_gid-zeros (suc n) zero = refl
shard_gid-zeros (suc n) (suc i) = shard_gid-zeros n i

pub start-Fits : (gid : ℕ) → 0 < gid → Fits gid start
unfolding Fits lookup
start-Fits gid pos i lt = ground (arith, shard_gid-zeros n_shards i)
