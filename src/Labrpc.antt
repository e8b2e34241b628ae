-- ===== src/Labrpc.antt =====
-- labrpc/labrpc.go: the network between clerks and servers: its switches, and the way of one request.
-- Ends and servers have numbers for names; a server's address is a number too, and `none` is nil.
pub mod Delivery
pub mod Outcomes
use mit_6824_raft.Prelude.{
  ℕ, ◌+◌, Bool, true, false, ◌&&◌, ◌||◌, not, Option, none, some, List, [], ◌∷◌, length, GoString,
  Map, nat_eq, lookup, insert, erase, ◌==◌, if◌then◌else◌, ◌>>=◌,
}

pub record Network : Type 0 where
  pub reliable : Bool
  pub long_delays : Bool
  pub long_reordering : Bool
  pub ends : Map ℕ ℕ
  pub enabled : Map ℕ Bool
  pub servers : Map ℕ (Option ℕ)
  pub connections : Map ℕ (Option ℕ)
  pub count : ℕ
  pub bytes : ℕ

abbrev pub make_network : Network
make_network = record {
  reliable = true;
  long_delays = false;
  long_reordering = false;
  ends = [];
  enabled = [];
  servers = [];
  connections = [];
  count = 0;
  bytes = 0;
}

unfoldable pub set_reliable : Bool → Network → Network
set_reliable on rn = record rn { reliable = on }

unfoldable pub set_long_reordering : Bool → Network → Network
set_long_reordering on rn = record rn { long_reordering = on }

unfoldable pub set_long_delays : Bool → Network → Network
set_long_delays on rn = record rn { long_delays = on }

-- The zero values of a map's missing key.
abbrev pub or_false : Option Bool → Bool
or_false none = false
or_false (some b) = b

abbrev pub or_nil : Option (Option ℕ) → Option ℕ
or_nil none = none
or_nil (some p) = p

pub record EndnameInfo : Type 0 where
  pub enabled : Bool
  pub servername : Option ℕ
  pub server : Option ℕ
  pub reliable : Bool
  pub long_reordering : Bool

unfoldable pub read_endname_info : ℕ → Network → EndnameInfo
read_endname_info endname rn =
    let servername = or_nil (lookup endname rn.connections) in
    record {
      enabled = or_false (lookup endname rn.enabled);
      servername = servername;
      server = servername >>= λ name. or_nil (lookup name rn.servers);
      reliable = rn.reliable;
      long_reordering = rn.long_reordering;
    }

-- rn.servers[servername] != server, where the server is not nil.
unfoldable pub is_other : Option ℕ → ℕ → Bool
is_other none server = true
is_other (some p) server = not (p == server)

unfoldable pub is_server_dead : ℕ → ℕ → ℕ → Network → Bool
is_server_dead endname servername server rn =
    not (or_false (lookup endname rn.enabled))
    || is_other (or_nil (lookup servername rn.servers)) server

-- What a round of the wait comes to: the handler has returned, or 100 milliseconds have passed, with
-- the network of that moment.
pub data Poll : Type 0 where
  returned : Poll
  passed : Network → Poll

-- `for replyOK == false && serverDead == false`: replyOK, or `none` while it waits.
unfoldable pub wait_reply : ℕ → ℕ → ℕ → List Poll → Option Bool
wait_reply endname servername server [] = none
wait_reply endname servername server (returned ∷ polls) = some true
wait_reply endname servername server (passed rn ∷ polls) =
    let rest = wait_reply endname servername server polls in
    if is_server_dead endname servername server rn then some false else rest

-- What chance brings: whether the request is dropped, whether the reply is, and whether the reply is
-- one of those that long reordering holds back.
pub record Chance : Type 0 where
  pub drop_request : Bool
  pub drop_reply : Bool
  pub hold_back : Bool

-- What goes out on replyCh: replyMsg{false, nil}; the handler's answer, at once; or the answer when
-- a timer of 200 milliseconds and more has fired.
pub data Outcome : Type 0 where
  failed : Outcome
  replied : GoString → Outcome
  held_back : GoString → Outcome

-- What the caller gets in the end.
abbrev pub received : Outcome → Option GoString
received failed = none
received (replied answer) = some answer
received (held_back answer) = some answer

-- `atomic.AddInt64(&rn.bytes, …)`, on the network that stands when the reply goes out: `late` at
-- once, `later` when the timer fires.
unfoldable pub count_reply : Outcome → Network → Network → Network
count_reply failed late later = late
count_reply (replied answer) late later = record late { bytes = late.bytes + length answer }
count_reply (held_back answer) late later = record later { bytes = later.bytes + length answer }

-- The request of `endname`, while the rounds of the wait are `polls`, and with the network `late` at
-- the last isServerDead, just before the reply: whether the handler is called, with the answer
-- `answer`, and what goes out. The delay of a request is left out.
unfoldable pub deliver :
    ℕ → ℕ → ℕ → Bool → Bool → Chance → List Poll → Network → GoString → Option (Bool × Outcome)
deliver endname servername server reliable long_reordering chance polls late answer =
    if not reliable && chance.drop_request then some (false, failed) else (do
      reply_ok ← wait_reply endname servername server polls
      let dead = is_server_dead endname servername server late
      some (
        true,
        if not reply_ok || dead
            then failed
            else if not reliable && chance.drop_reply
            then failed
            else if long_reordering && chance.hold_back
            then held_back answer
            else replied answer,
      ))

-- `if enabled && servername != nil && server != nil`; the delay of a call that fails here is left out.
unfoldable pub route :
    ℕ
    → Bool
    → Option ℕ
    → Option ℕ
    → Bool
    → Bool
    → Chance
    → List Poll
    → Network
    → GoString
    → Option (Bool × Outcome)
route endname true (some servername) (some server) reliable long_reordering chance polls late
      answer =
    deliver endname servername server reliable long_reordering chance polls late answer
route endname _ _ _ reliable long_reordering chance polls late answer = some (false, failed)

unfoldable pub process_req :
    ℕ → Network → Chance → List Poll → Network → GoString → Option (Bool × Outcome)
process_req endname rn chance polls late answer =
    let info = read_endname_info endname rn in
    route endname info.enabled info.servername info.server info.reliable info.long_reordering chance
      polls late answer

-- The counters of the goroutine that takes the requests.
unfoldable pub take_request : GoString → Network → Network
take_request args rn = record rn { count = rn.count + 1; bytes = rn.bytes + length args }

-- `none` is log.Fatalf.
unfoldable pub make_end : ℕ → Network → Option Network
make_end endname rn = elim (lookup endname rn.ends) [
  | some e ↦ none
  | none ↦ some (record rn {
    ends = insert endname endname rn.ends;
    enabled = insert endname false rn.enabled;
    connections = insert endname none rn.connections;
  })
]

unfoldable pub delete_end : ℕ → Network → Option Network
delete_end endname rn = elim (lookup endname rn.ends) [
  | none ↦ none
  | some e ↦ some (record rn {
    ends = erase endname rn.ends;
    enabled = erase endname rn.enabled;
    connections = erase endname rn.connections;
  })
]

unfoldable pub add_server : ℕ → ℕ → Network → Network
add_server servername rs rn = record rn { servers = insert servername (some rs) rn.servers }

unfoldable pub delete_server : ℕ → Network → Network
delete_server servername rn = record rn { servers = insert servername none rn.servers }

unfoldable pub connect : ℕ → ℕ → Network → Network
connect endname servername rn = record rn {
  connections = insert endname (some servername) rn.connections;
}

unfoldable pub enable : ℕ → Bool → Network → Network
enable endname enabled rn = record rn { enabled = insert endname enabled rn.enabled }
