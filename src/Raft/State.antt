-- ===== src/Raft/State.antt =====
-- raft/raft.go and raft/persister.go: the state of a peer, the log's index helpers, persistence,
-- timers and the step down to follower. An index out of range is `none` (Go panics there).
use mit_6824_raft.Prelude.{
  ℕ, ◌+◌, ◌-◌, ◌<◌, ◌≡◌, Bool, true, false, Option, none, some, List, [], ◌∷◌, length, get_elem?,
  ltb, ◌==◌, if◌then◌else◌,
}

-- []byte
abbrev pub Bytes : Type 0
Bytes = List ℕ

pub data Role : Type 0 where
  follower candidate leader : Role

-- A nil `Command` (that of the dummy entry at slot 0) is `none`.
pub record LogEntry (C : Type 0) : Type 0 where
  pub term : ℕ
  pub command : Option C

pub record ApplyMsg (C : Type 0) : Type 0 where
  pub command_valid : Bool
  pub command : Option C
  pub command_index : ℕ
  pub snapshot_valid : Bool
  pub snapshot : Bytes
  pub snapshot_term : ℕ
  pub snapshot_index : ℕ

pub record Persister : Type 0 where
  pub raftstate : Bytes
  pub snapshot : Bytes

pub make_persister : Persister
make_persister = record { raftstate = []; snapshot = [] }

-- `clone`: a copy with the same bytes.
clone_from : Bytes → List ℕ
clone_from [] = []
clone_from (b ∷ bs) = b ∷ clone_from bs

unfoldable pub clone : Bytes → Bytes
unfolding clone_from
clone orig = clone_from orig

unfoldable pub copy : Persister → Persister
copy ps = record { raftstate = ps.raftstate; snapshot = ps.snapshot }

unfoldable pub read_raft_state : Persister → Bytes
read_raft_state ps = clone ps.raftstate

unfoldable pub read_snapshot : Persister → Bytes
read_snapshot ps = clone ps.snapshot

unfoldable pub raft_state_size : Persister → ℕ
raft_state_size ps = length ps.raftstate

unfoldable pub snapshot_size : Persister → ℕ
snapshot_size ps = length ps.snapshot

unfoldable pub save : Bytes → Bytes → Persister → Persister
save raftstate snapshot ps = record { raftstate = clone raftstate; snapshot = clone snapshot }

-- What `encodeState` writes, in its order.
pub record HardState (C : Type 0) : Type 0 where
  pub current_term : ℕ
  pub voted_for : Option ℕ
  pub log : List (LogEntry C)
  pub last_included_index : ℕ
  pub last_included_term : ℕ

-- encoding/gob behind labgob, of the persistent fields: what is encoded decodes to itself, and is
-- not empty.
pub record Codec (C : Type 0) : Type 0 where
  pub encode : HardState C → Bytes
  pub decode : Bytes → Option (HardState C)
  pub decode-encode : (h : HardState C) → decode (encode h) ≡ some h
  pub encode_nonempty : (h : HardState C) → 0 < length (encode h)

-- time.Now() and the value that rand.Int63n returns.
pub record Clock : Type 0 where
  pub now : ℕ
  pub roll : ℕ

-- `voted_for` is `none` for -1. The peers are numbered below `peers`.
pub record Raft (C : Type 0) : Type 0 where
  pub peers : ℕ
  pub persister : Persister
  pub me : ℕ
  pub dead : Bool
  pub current_term : ℕ
  pub voted_for : Option ℕ
  pub log : List (LogEntry C)
  pub last_included_index : ℕ
  pub last_included_term : ℕ
  pub commit_index : ℕ
  pub last_applied : ℕ
  pub role : Role
  pub next_index : List ℕ
  pub match_index : List ℕ
  pub election_reset_at : ℕ
  pub election_timeout : ℕ

-- In nanoseconds, as time.Duration.
abbrev pub heartbeat_interval : ℕ
heartbeat_interval = 100_000_000

abbrev pub election_timeout_lo : ℕ
election_timeout_lo = 300_000_000

abbrev pub election_timeout_hi : ℕ
election_timeout_hi = 600_000_000

abbrev pub is_leader : Role → Bool
is_leader leader = true
is_leader _ = false

abbrev pub is_candidate : Role → Bool
is_candidate candidate = true
is_candidate _ = false

unfoldable pub min : ℕ → ℕ → ℕ
min a b = if ltb a b then a else b

unfoldable pub max : ℕ → ℕ → ℕ
max a b = if ltb b a then a else b

module _ {C : Type 0} where
  abbrev pub dummy : ℕ → LogEntry C
  dummy t = record { term = t; command = none }

  unfoldable pub last_log_index : Raft C → ℕ
  last_log_index rf = rf.last_included_index + length rf.log - 1

  unfoldable pub entry_at : Raft C → ℕ → Option (LogEntry C)
  entry_at rf idx =
      if ltb idx rf.last_included_index
      then none
      else get_elem? rf.log (idx - rf.last_included_index)

  abbrev pub entry_term : Option (LogEntry C) → Option ℕ
  entry_term none = none
  entry_term (some e) = some e.term

  unfoldable pub term_at : Raft C → ℕ → Option ℕ
  unfolding entry_at
  term_at rf idx = entry_term (entry_at rf idx)

  unfoldable pub get_state : Raft C → ℕ × Bool
  get_state rf = (rf.current_term, is_leader rf.role)

  unfoldable pub has_current_term_log : Raft C → Option Bool
  has_current_term_log rf = elim (term_at rf (last_log_index rf)) [
    | none ↦ none
    | some t ↦ some (t == rf.current_term)
  ]

  abbrev pub hard_state : Raft C → HardState C
  hard_state rf = record {
    current_term = rf.current_term;
    voted_for = rf.voted_for;
    log = rf.log;
    last_included_index = rf.last_included_index;
    last_included_term = rf.last_included_term;
  }

  unfoldable pub reset_election_timer : Clock → Raft C → Raft C
  reset_election_timer clk rf = record rf {
    election_reset_at = clk.now;
    election_timeout = election_timeout_lo + clk.roll;
  }

  unfoldable pub kill : Raft C → Raft C
  kill rf = record rf { dead = true }

  unfoldable pub killed : Raft C → Bool
  killed rf = rf.dead

module _ {C : Type 0} ⦃codec : Codec C⦄ where
  unfoldable pub encode_state : Raft C → Bytes
  encode_state rf = codec.encode (hard_state rf)

  unfoldable pub persist : Raft C → Raft C
  persist rf = record rf {
    persister = save (encode_state rf) (read_snapshot rf.persister) rf.persister;
  }

  unfoldable pub become_follower : ℕ → Raft C → Raft C
  become_follower term rf =
      persist (record rf { current_term = term; voted_for = none; role = follower })

  -- `if args.Term > rf.currentTerm { rf.becomeFollower(args.Term) }`, in each RPC handler.
  unfoldable pub observe_term : ℕ → Raft C → Raft C
  observe_term term rf = if ltb rf.current_term term then become_follower term rf else rf

  -- What the handlers of AppendEntries and InstallSnapshot do for a leader that is not behind:
  -- step down to its term, be a follower, restart the election timer.
  unfoldable pub heed_leader : Clock → ℕ → Raft C → Raft C
  heed_leader clk term rf =
      reset_election_timer clk (record (observe_term term rf) { role = follower })

  -- The fields that decoding restores; what is already applied is what the snapshot covers.
  restore : HardState C → Raft C → Raft C
  restore h rf = record rf {
    current_term = h.current_term;
    voted_for = h.voted_for;
    log = h.log;
    last_included_index = h.last_included_index;
    last_included_term = h.last_included_term;
    commit_index = h.last_included_index;
    last_applied = h.last_included_index;
  }

  unfoldable pub read_persist : Bytes → Raft C → Raft C
  unfolding restore
  read_persist bytes rf =
      if ltb (length bytes) 1 then record rf { log = dummy 0 ∷ [] } else elim (codec.decode bytes) [
        | none ↦ record rf { log = dummy 0 ∷ [] }
        | some h ↦ restore h rf
      ]

  -- Make(peers, me, persister, applyCh): `&Raft{}` has every field at its zero value.
  unfoldable pub make : Clock → ℕ → ℕ → Persister → Raft C
  make clk peers me ps =
      let rf : Raft C = record {
        peers = peers;
        persister = ps;
        me = me;
        dead = false;
        current_term = 0;
        voted_for = none;
        log = [];
        last_included_index = 0;
        last_included_term = 0;
        commit_index = 0;
        last_applied = 0;
        role = follower;
        next_index = [];
        match_index = [];
        election_reset_at = 0;
        election_timeout = 0;
      } in
      read_persist (read_raft_state ps) (reset_election_timer clk rf)
