-- ===== src/KvRaft/ExactlyOnce.antt =====
-- Every Put and Append takes effect once, however often its command is in the log.
use mit_6824_raft.Prelude.{
  ◌≡◌, refl, ap, ◌∙◌, Bool, true, false, ◌&&◌, ◌||◌, not, List, [], ◌∷◌, GoString, Map, nat_eq,
  bytes_eq, lookup, insert, lookup-insert, leb, ◌==◌, if◌then◌else◌, arith, Bool-cases, inl, inr,
}
use mit_6824_raft.KvRaft.Server.{ok, is_get, Op, Store, is_duplicate, execute, apply_op}

-- The store after a log of commands.
unfoldable pub replay : List Op → Store → Store
replay [] s = s
replay (op ∷ ops) s = replay ops (apply_op op s).0

abbrev pub empty : Store
empty = record { kv_data = []; dedup = [] }

-- An earlier Put or Append of the same client, numbered no lower, has taken the place of `op`.
abbrev pub covers : Op → Op → Bool
covers e op = not (is_get e.type) && (e.client_id == op.client_id && leb op.seq e.seq)

pub covered : List Op → Op → Bool
covered [] op = false
covered (e ∷ es) op = covers e op || covered es op

-- The commands that count: a Put or an Append only if none before it covers it.
-- `past` holds what came before.
pub effective : List Op → List Op → List Op
effective past [] = []
effective past (op ∷ ops) =
    let rest = effective (op ∷ past) ops in
    if not (is_get op.type) && covered past op then rest else op ∷ rest

-- The specification: each command does to the data what its type says.
pub run : List Op → Map GoString GoString → Map GoString GoString
run [] m = m
run (op ∷ ops) m = run ops (execute op.type op m).0

-- The table of clients after one command.
dedup-apply_op :
    (e : Op) (s : Store)
    → (apply_op e s).0.dedup ≡ (
        if is_get e.type
        then s.dedup
        else if is_duplicate e s
        then s.dedup
        else insert e.client_id (record { seq = e.seq; value = []; err = ok }) s.dedup)
unfolding apply_op execute
dedup-apply_op e s = ground arith

-- What the table of clients says of a command after one more command.
is_duplicate-apply_op :
    (e op : Op) (s : Store) → is_duplicate op (apply_op e s).0 ≡ (covers e op || is_duplicate op s)
unfolding is_duplicate
is_duplicate-apply_op e op s =
    rw (dedup-apply_op e s, is_duplicate)
      (ground (
        arith,
        lookup-insert e.client_id op.client_id (record { seq = e.seq; value = []; err = ok })
            s.dedup,
      ))

kv_data-apply_op :
    (op : Op) (s : Store)
    → (apply_op op s).0.kv_data ≡ (
        if not (is_get op.type) && is_duplicate op s
        then s.kv_data
        else (execute op.type op s.kv_data).0)
unfolding apply_op
kv_data-apply_op op s = ground arith

-- Replaying a log has the data of the specification on the commands that count.
replay-effective :
    (past ops : List Op) (s : Store)
    → ((op : Op) → is_duplicate op s ≡ covered past op)
    → (replay ops s).kv_data ≡ run (effective past ops) s.kv_data
unfolding replay run effective covered
replay-effective past [] s h = refl
replay-effective past (op ∷ ops) s h =
    let s' = (apply_op op s).0 in
    let next =
      λ (o : Op). is_duplicate-apply_op op o s ∙ ap (λ (b : Bool). covers op o || b) (h o) in
    let rest = replay-effective (op ∷ past) ops s' next in
    elim (Bool-cases (not (is_get op.type) && covered past op)) [
      | inl skip ↦
          rw skip (
            rest ∙ ap (run (effective (op ∷ past) ops)) (kv_data-apply_op op s ∙ (rw (h op, skip))))
      | inr counts ↦ rw counts (
          rest ∙ ap (run (effective (op ∷ past) ops)) (kv_data-apply_op op s ∙ (rw (h op, counts))))
    ]

-- Exactly once: after any log the data is what the specification gives on the commands that count,
-- each Get, and each Put or Append that no earlier one of its client with its number or a higher
-- one precedes.
pub exactly_once : (ops : List Op) → (replay ops empty).kv_data ≡ run (effective [] ops) []
exactly_once ops = replay-effective [] ops empty (λ op. unfold is_duplicate lookup covered in refl)

duplicate-replay :
    (op : Op) (later : List Op) (s : Store)
    → is_duplicate op s ≡ true
    → is_duplicate op (replay later s) ≡ true
unfolding replay
duplicate-replay op [] s h = h
duplicate-replay op (e ∷ later) s h =
    duplicate-replay op later (apply_op e s).0 (is_duplicate-apply_op e op s ∙ ground (arith, h))

-- A retry is ignored: once a Put or Append is in the log, a later copy of it changes nothing of the
-- store, whatever commands of any clients stand between them.
pub retry_ignored :
    (op : Op) (later : List Op) (s : Store)
    → is_get op.type ≡ false
    → let s' = replay later (apply_op op s).0 in (apply_op op s').0 ≡ s'
retry_ignored op later s h =
    let first : is_duplicate op (apply_op op s).0 ≡ true =
      is_duplicate-apply_op op op s ∙ ground (arith, h) in
    let dup = duplicate-replay op later (apply_op op s).0 first in unfold apply_op in rw (dup, h)
