-- ===== src/Labrpc/Outcomes.antt =====
-- labrpc/labrpc.go, processReq: when a request is answered, when it is lost, and when it waits.
use mathlib.Core.Option.{none-ne-some}
use mit_6824_raft.Prelude.{
  ℕ, ◌≡◌, ◌∙◌, refl, ap, sym, Bool, true, false, ◌&&◌, Option, none, some, List, [], ◌∷◌, GoString,
  All, nat_eq, lookup, ◌>>=◌, Option-cases, Bool-cases, if_true, if_false, inl, inr,
}
use mit_6824_raft.Labrpc.{
  Network, or_nil, read_endname_info, is_server_dead, Poll, returned, passed, wait_reply, Chance,
  Outcome, failed, replied, held_back, received, route, process_req,
}
use mit_6824_raft.Labrpc.Delivery.{
  Alive, Timed, Delivered, dead-Alive, answer_of, finish, sent_is, delivering, deliver-over,
  process_req-Delivered, Delivered-process_req,
}

-- A round of the wait that passed with the server there.
abbrev pub StillUp : ℕ → ℕ → ℕ → Poll → Type 0
StillUp endname servername server returned = ⊥
StillUp endname servername server (passed rn) = Alive endname servername server rn

-- A request that was given to a server that is there and has not answered.
pub record Waits (endname : ℕ) (rn : Network) (polls : List Poll) : Type 0 where
  pub servername : ℕ
  pub server : ℕ
  pub connected : or_nil (lookup endname rn.connections) ≡ some servername
  pub at_request : Alive endname servername server rn
  pub still_up : All (StillUp endname servername server) polls

-- What processReq may come to.
pub data Settled (endname : ℕ) (rn : Network) (chance : Chance) (polls : List Poll) (late : Network)
    (answer : GoString) : Option (Bool × Outcome) → Type 0 where
  answered :
      {called : Bool} {out : Outcome}
      → called ≡ true
      → Timed rn.long_reordering chance out answer
      → Delivered endname rn chance polls late
      → Settled endname rn chance polls late answer (some (called, out))
  lost :
      {called : Bool}
      → ¬ Delivered endname rn chance polls late
      → Settled endname rn chance polls late answer (some (called, failed))
  waiting : Waits endname rn polls → Settled endname rn chance polls late answer none

wait_reply-StillUp :
    (endname servername server : ℕ) (polls : List Poll)
    → wait_reply endname servername server polls ≡ none
    → All (StillUp endname servername server) polls
unfolding wait_reply
wait_reply-StillUp endname servername server [] e = tt
wait_reply-StillUp endname servername server (returned ∷ polls) e = cc
wait_reply-StillUp endname servername server (passed rn ∷ polls) e =
    elim (Bool-cases (is_server_dead endname servername server rn)) [
      | inl dead ↦ let gave_up = sym (if_true _ _ dead) ∙ e in cc
      | inr alive ↦ (
        dead-Alive endname servername server rn alive,
        wait_reply-StillUp endname servername server polls (sym (if_false _ _ alive) ∙ e),
      )
    ]

finish-none : (a b c d e : Bool) (out : Outcome) → ¬ (finish a b c d e out ≡ none)
finish-none true b c d e out h = none-ne-some _ (sym h)
finish-none false true c d e out h = none-ne-some _ (sym h)
finish-none false false c d e out h = none-ne-some _ (sym h)

received-answer_of :
    (held : Bool) (answer : GoString) → received (answer_of held answer) ≡ some answer
received-answer_of true answer = refl
received-answer_of false answer = refl

module _ (endname : ℕ) (rn : Network) (chance : Chance) (polls : List Poll) (late : Network)
    (answer : GoString) where
  routed_none :
      (enabled : Bool) (conn srv : Option ℕ)
      → route endname enabled conn srv rn.reliable rn.long_reordering chance polls late answer
        ≡ none
      → (name : ℕ) × (server : ℕ) × (conn ≡ some name)
        × (srv ≡ some server)
        × (enabled ≡ true)
        × (delivering endname rn chance polls late answer name server ≡ none)
  unfolding route
  routed_none true (some name) (some server) e = (name, server, refl, refl, refl, e)
  routed_none true (some name) none e = cc
  routed_none true none srv e = cc
  routed_none false conn srv e = cc

  none-Waits : process_req endname rn chance polls late answer ≡ none → Waits endname rn polls
  unfolding process_req read_endname_info
  none-Waits e =
      let (name, server, conn, srv, on, e') = routed_none _ _ _ e in
      elim (Option-cases (wait_reply endname name server polls)) [
        | inl w ↦ record {
          servername = name;
          server = server;
          connected = conn;
          at_request = record {
            enabled = on;
            there = sym (ap (λ o. o >>= λ n. or_nil (lookup n rn.servers)) conn) ∙ srv;
          };
          still_up = wait_reply-StillUp endname name server polls w;
        }
        | inr (ok, over) ↦ absurd (
            finish-none rn.reliable chance.drop_request chance.drop_reply ok
              (is_server_dead endname name server late) _
              (sym (deliver-over endname rn chance polls late answer name server over) ∙ e'))
      ]

  some-Settled :
      (called : Bool) (out : Outcome)
      → process_req endname rn chance polls late answer ≡ some (called, out)
      → Settled endname rn chance polls late answer (some (called, out))
  some-Settled called failed e = lost λ d.
      let same = sent_is (sym (Delivered-process_req endname rn chance polls late answer d) ∙ e) in
      none-ne-some answer
        (ap received same.1 ∙ received-answer_of (rn.long_reordering && chance.hold_back) answer)
  some-Settled called (replied r) e =
      let (is, timed, d) = process_req-Delivered endname rn chance polls late answer e refl in
      answered is timed d
  some-Settled called (held_back r) e =
      let (is, timed, d) = process_req-Delivered endname rn chance polls late answer e refl in
      answered is timed d

  -- A request is answered exactly where it got through both ways, and the reply is the handler's
  -- answer: the end was enabled and connected to a server that was there when the request was taken,
  -- the handler returned while every check of the wait before found the server there, the last check
  -- after that found the end still enabled and the server, the same one, still there, and on an
  -- unreliable network neither the request nor the reply was dropped. The reply goes out at that
  -- check, unless long reordering was on and chance held it back: then it goes out when a timer has
  -- fired, whatever the network is by then. A request that did not get through fails, unless it
  -- still waits for a server that every check so far found there.
  pub process_req_exact :
      Settled endname rn chance polls late answer (process_req endname rn chance polls late answer)
  process_req_exact = elim (Option-cases (process_req endname rn chance polls late answer)) [
    | inl e ↦ rw e (waiting (none-Waits e))
    | inr (x, e) ↦ rw e (some-Settled x.0 x.1 e)
  ]
