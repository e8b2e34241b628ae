-- ===== src/ShardCtrler/Rebalance.antt =====
-- shardctrler/server.go: rebalance. The maps `target`, `count` and `valid` are tables over the sorted
-- group ids; a loop that walks them all is a recursion over the ids.
use mit_6824_raft.Prelude.{
  ℕ, zero, suc, ◌+◌, ◌-◌, ◌/◌, ◌%◌, Bool, true, false, ◌&&◌, ◌||◌, not, Option, none, some, List,
  [], ◌∷◌, ◌++◌, length, get_elem?, set, replicate, Map, nat_eq, lookup, insert, ltb, leb, ◌==◌,
  if◌then◌else◌, GoString,
}
use mit_6824_raft.ShardCtrler.Config.{Config, n_shards}

-- sort.Ints
unfoldable pub insert_sorted : ℕ → List ℕ → List ℕ
insert_sorted a [] = a ∷ []
insert_sorted a (b ∷ bs) = if leb a b then a ∷ b ∷ bs else b ∷ insert_sorted a bs

unfoldable pub sort_ints : List ℕ → List ℕ
sort_ints [] = []
sort_ints (a ∷ as') = insert_sorted a (sort_ints as')

unfoldable pub keys : Map ℕ (List GoString) → List ℕ
keys [] = []
keys ((k, v) ∷ m) = k ∷ keys m

unfoldable pub elem : ℕ → List ℕ → Bool
elem a [] = false
elem a (b ∷ bs) = b == a || elem a bs

-- m[k] of a map of numbers: 0 where the key is missing.
abbrev pub number_or_zero : Option ℕ → ℕ
number_or_zero none = 0
number_or_zero (some n) = n

unfoldable pub at : Map ℕ ℕ → ℕ → ℕ
at m k = number_or_zero (lookup k m)

-- The first `extra` groups get one shard more; `i` is the position of the first id.
unfoldable pub targets : ℕ → ℕ → ℕ → List ℕ → Map ℕ ℕ
targets base extra i [] = []
targets base extra i (gid ∷ gids) =
    (gid, if ltb i extra then base + 1 else base) ∷ targets base extra (suc i) gids

-- The first pass over the shards from `s` on: the counts, and the shards that need a home.
unfoldable pub survey : List ℕ → ℕ → List ℕ → Map ℕ ℕ → List ℕ → Map ℕ ℕ × List ℕ
survey gids s [] count unassigned = (count, unassigned)
survey gids s (g ∷ shards) count unassigned =
    let keep = not (g == 0) && elem g gids in
    survey gids (suc s) shards (if keep then insert g (at count g + 1) count else count)
      (if keep then unassigned else unassigned ++ s ∷ [])

-- `for s := NShards - 1; s >= 0; s-- { if c.Shards[s] == gid …`: the shard found below n, if any.
unfoldable pub last_owned : ℕ → ℕ → List ℕ → Option ℕ
last_owned gid zero shards = none
last_owned gid (suc s) shards =
    let lower = last_owned gid s shards in
    elim (get_elem? shards s) [ none ↦ lower | some g ↦ if g == gid then some s else lower ]

pub record Plan : Type 0 where
  pub shards : List ℕ
  pub unassigned : List ℕ
  pub count : Map ℕ ℕ

-- One round of the release loop of a group.
unfoldable pub release_one : ℕ → ℕ → Plan → Plan
release_one gid s p = record {
  shards = set p.shards s 0;
  unassigned = p.unassigned ++ s ∷ [];
  count = insert gid (at p.count gid - 1) p.count;
}

-- `for count[gid] > target[gid]`, on fuel; where no shard is found the Go loop would not end, and
-- the model stops.
unfoldable pub release : ℕ → Map ℕ ℕ → ℕ → Plan → Plan
release zero target gid p = p
release (suc fuel) target gid p = elim (ltb (at target gid) (at p.count gid)) [
  | false ↦ p
  | true ↦ elim (last_owned gid n_shards p.shards) [
    | none ↦ p
    | some s ↦ release fuel target gid (release_one gid s p)
  ]
]

-- A group releases at most all shards.
unfoldable pub release_all : Map ℕ ℕ → List ℕ → Plan → Plan
release_all target [] p = p
release_all target (gid ∷ gids) p = release_all target gids (release n_shards target gid p)

-- `for count[gid] < target[gid] && ui < len(unassigned)`: `unassigned` holds what is left.
unfoldable pub fill : Map ℕ ℕ → ℕ → List ℕ → List ℕ → Map ℕ ℕ → Plan
fill target gid [] shards count = record { shards = shards; unassigned = []; count = count }
fill target gid (s ∷ left) shards count =
    let next = fill target gid left (set shards s gid) (insert gid (at count gid + 1) count) in
    if ltb (at count gid) (at target gid)
    then next
    else record { shards = shards; unassigned = s ∷ left; count = count }

unfoldable pub fill_all : Map ℕ ℕ → List ℕ → Plan → Plan
fill_all target [] p = p
fill_all target (gid ∷ gids) p =
    fill_all target gids (fill target gid p.unassigned p.shards p.count)

unfoldable pub sort_unassigned : Plan → Plan
sort_unassigned p = record p { unassigned = sort_ints p.unassigned }

unfoldable pub surveyed : List ℕ → List ℕ → Plan
surveyed gids shards =
    let (count, unassigned) = survey gids 0 shards [] [] in
    record { shards = shards; unassigned = unassigned; count = count }

-- The new shards, for the sorted ids of the groups.
unfoldable pub assign : List ℕ → List ℕ → List ℕ
assign gids shards =
    let n = length gids in
    let target = targets (n_shards / n) (n_shards % n) 0 gids in
    (fill_all target gids (sort_unassigned (release_all target gids (surveyed gids shards)))).shards

unfoldable pub rebalance : Config → Config
rebalance c =
    let gids = sort_ints (keys c.groups) in
    record c { shards = if length gids == 0 then replicate n_shards 0 else assign gids c.shards }
