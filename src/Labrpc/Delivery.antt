-- ===== src/Labrpc/Delivery.antt =====
-- labrpc/labrpc.go: what a reply that comes back says of the server.
use mathlib.Core.Option.{some_inj, none-ne-some}
use mit_6824_raft.Prelude.{
  ℕ, ◌≡◌, ◌⊎◌, ◌∙◌, refl, ap, sym, Bool, true, false, ◌&&◌, ◌||◌, not, Option, none, some, List,
  GoString, nat_eq, lookup, lookup-insert_self, insert, ==_iff, if◌then◌else◌, ◌>>=◌, arith,
  Option-cases, Bool-cases, if_true, if_false, [], ◌∷◌, inl, inr,
}
use mit_6824_raft.Labrpc.{
  Network, or_false, or_nil, read_endname_info, is_other, is_server_dead, Poll, returned, passed,
  wait_reply, Chance, Outcome, failed, replied, held_back, received, deliver, route, process_req,
  delete_server,
}

-- The end is enabled on the network and the server is there under its name.
pub record Alive (endname servername server : ℕ) (rn : Network) : Type 0 where
  pub enabled : or_false (lookup endname rn.enabled) ≡ true
  pub there : or_nil (lookup servername rn.servers) ≡ some server

-- The handler returned in a round of the wait, and the server was there in every round before.
pub data Handled (endname servername server : ℕ) : List Poll → Type 0 where
  now : {polls : List Poll} → Handled endname servername server (returned ∷ polls)
  later :
      {rn : Network} {polls : List Poll}
      → Alive endname servername server rn
      → Handled endname servername server polls
      → Handled endname servername server (passed rn ∷ polls)

-- When the answer goes out: at once, or, under long reordering, when a timer has fired.
abbrev pub Timed : Bool → Chance → Outcome → GoString → Type 0
Timed long_reordering chance out answer =
    ((out ≡ replied answer) × ((long_reordering && chance.hold_back) ≡ false))
    ⊎ ((out ≡ held_back answer) × (long_reordering ≡ true) × (chance.hold_back ≡ true))

-- The way of a request whose reply comes back.
pub record Delivered (endname : ℕ) (rn : Network) (chance : Chance) (polls : List Poll)
    (late : Network) : Type 0 where
  pub servername : ℕ
  pub server : ℕ
  pub connected : or_nil (lookup endname rn.connections) ≡ some servername
  pub at_request : Alive endname servername server rn
  pub handled : Handled endname servername server polls
  pub at_check : Alive endname servername server late
  pub not_dropped : (not rn.reliable && (chance.drop_request || chance.drop_reply)) ≡ false

is_other-false : (o : Option ℕ) (server : ℕ) → is_other o server ≡ false → o ≡ some server
unfolding is_other
is_other-false none server h = cc
is_other-false (some p) server h = ground (arith, h, ==_iff p server)

is_other-same : (server : ℕ) → is_other (some server) server ≡ false
unfolding is_other
is_other-same server = ground arith

pub dead-Alive :
    (endname servername server : ℕ) (rn : Network)
    → is_server_dead endname servername server rn ≡ false
    → Alive endname servername server rn
unfolding is_server_dead
dead-Alive endname servername server rn h = record {
  enabled = ground (arith, h);
  there = is_other-false _ server (ground (arith, h));
}

Alive-dead :
    (endname servername server : ℕ) (rn : Network)
    → Alive endname servername server rn
    → is_server_dead endname servername server rn ≡ false
unfolding is_server_dead
Alive-dead endname servername server rn a = grind (arith, a.enabled, a.there, is_other-same server)

pub wait_reply-Handled :
    (endname servername server : ℕ) (polls : List Poll)
    → wait_reply endname servername server polls ≡ some true
    → Handled endname servername server polls
unfolding wait_reply
wait_reply-Handled endname servername server [] e = cc
wait_reply-Handled endname servername server (returned ∷ polls) e = now
wait_reply-Handled endname servername server (passed rn ∷ polls) e =
    elim (Bool-cases (is_server_dead endname servername server rn)) [
      | inl dead ↦ let gave_up = sym (if_true _ _ dead) ∙ e in cc
      | inr alive ↦
          later (dead-Alive endname servername server rn alive)
            (wait_reply-Handled endname servername server polls (sym (if_false _ _ alive) ∙ e))
    ]

Handled-wait_reply :
    (endname servername server : ℕ) (polls : List Poll)
    → Handled endname servername server polls
    → wait_reply endname servername server polls ≡ some true
unfolding wait_reply
Handled-wait_reply endname servername server _ now = refl
Handled-wait_reply endname servername server _ (later {rn = rn} {polls = polls} a h) =
    if_false _ _ (Alive-dead endname servername server rn a)
    ∙ Handled-wait_reply endname servername server polls h

-- What goes out once the wait is over.
abbrev pub answer_of : Bool → GoString → Outcome
answer_of held answer = if held then held_back answer else replied answer

-- What `deliver` says once the wait is over.
abbrev pub finish : Bool → Bool → Bool → Bool → Bool → Outcome → Option (Bool × Outcome)
finish reliable drop_request drop_reply reply_ok dead out =
    if not reliable && drop_request
    then some (false, failed)
    else some (
      true,
      if not reply_ok || dead then failed else if not reliable && drop_reply then failed else out,
    )

abbrev Finished : Bool → Bool → Bool → Bool → Bool → Type 0
Finished reliable drop_request drop_reply reply_ok dead =
    (reply_ok ≡ true) × (dead ≡ false) × ((not reliable && (drop_request || drop_reply)) ≡ false)

pub nothing_back :
    {b c : Bool} {o : Outcome} {r : GoString}
    → ◌≡◌ {A = Option (Bool × Outcome)} (some (b, failed)) (some (c, o))
    → received o ≡ some r
    → ⊥
nothing_back {r = r} e g =
    none-ne-some r (ap (λ (x : Bool × Outcome). received x.1) (some_inj.0 e) ∙ g)

pub sent_is :
    {b c : Bool} {out o : Outcome}
    → ◌≡◌ {A = Option (Bool × Outcome)} (some (b, out)) (some (c, o))
    → (c ≡ b) × (o ≡ out)
sent_is e =
    let p = some_inj.0 e in
    (sym (ap (λ (x : Bool × Outcome). x.0) p), sym (ap (λ (x : Bool × Outcome). x.1) p))

finish-some :
    (a b c d e : Bool) (out : Outcome) {called : Bool} {o : Outcome} {r : GoString}
    → finish a b c d e out ≡ some (called, o)
    → received o ≡ some r
    → (called ≡ true) × (o ≡ out) × Finished a b c d e
finish-some true b c true false out h g = let (x, y) = sent_is h in (x, y, (refl, refl, refl))
finish-some true b c true true out h g = absurd (nothing_back h g)
finish-some true b c false e out h g = absurd (nothing_back h g)
finish-some false true c d e out h g = absurd (nothing_back h g)
finish-some false false true true false out h g = absurd (nothing_back h g)
finish-some false false false true false out h g =
    let (x, y) = sent_is h in (x, y, (refl, refl, refl))
finish-some false false c true true out h g = absurd (nothing_back h g)
finish-some false false c false e out h g = absurd (nothing_back h g)

finish-all :
    (a b c d e : Bool) (out : Outcome)
    → Finished a b c d e
    → finish a b c d e out ≡ some (true, out)
finish-all true b c true false out h = refl
finish-all true b c d true out h = cc
finish-all true b c false e out h = cc
finish-all false true c d e out h = cc
finish-all false false true d e out h = cc
finish-all false false false true false out h = refl
finish-all false false false d true out h = cc
finish-all false false false false e out h = cc

answer_of-Timed :
    (long held : Bool) (out : Outcome) (answer : GoString)
    → out ≡ answer_of (long && held) answer
    → ((out ≡ replied answer) × ((long && held) ≡ false))
      ⊎ ((out ≡ held_back answer) × (long ≡ true) × (held ≡ true))
answer_of-Timed true true out answer e = inr (e, refl, refl)
answer_of-Timed true false out answer e = inl (e, refl)
answer_of-Timed false held out answer e = inl (e, refl)

module _ (endname : ℕ) (rn : Network) (chance : Chance) (polls : List Poll) (late : Network)
    (answer : GoString) where
  abbrev pub delivering : ℕ → ℕ → Option (Bool × Outcome)
  delivering name server =
      deliver endname name server rn.reliable rn.long_reordering chance polls late answer

  abbrev pub going_out : Outcome
  going_out = answer_of (rn.long_reordering && chance.hold_back) answer

  pub deliver-over :
      (name server : ℕ) {ok : Bool}
      → wait_reply endname name server polls ≡ some ok
      → delivering name server
        ≡ finish rn.reliable chance.drop_request chance.drop_reply ok
            (is_server_dead endname name server late)
            going_out
  unfolding deliver
  deliver-over name server e = simp (e, deliver)

  deliver-waits :
      (name server : ℕ)
      → wait_reply endname name server polls ≡ none
      → delivering name server
        ≡ (if not rn.reliable && chance.drop_request then some (false, failed) else none)
  unfolding deliver
  deliver-waits name server e = simp (e, deliver)

  no_reply_yet :
      (b : Bool) {called : Bool} {o : Outcome} {reply : GoString}
      → ◌≡◌ {A = Option (Bool × Outcome)}
          (if b then some (false, failed) else none)
          (some (called, o))
      → received o ≡ some reply
      → ⊥
  no_reply_yet true e g = nothing_back e g
  no_reply_yet false e g = none-ne-some _ e

  delivered :
      (name server : ℕ) {called : Bool} {o : Outcome} {reply : GoString}
      → or_nil (lookup endname rn.connections) ≡ some name
      → or_nil (lookup name rn.servers) ≡ some server
      → or_false (lookup endname rn.enabled) ≡ true
      → delivering name server ≡ some (called, o)
      → received o ≡ some reply
      → (called ≡ true)
        × Timed rn.long_reordering chance o answer
        × Delivered endname rn chance polls late
  delivered name server conn srv on e g =
      elim (Option-cases (wait_reply endname name server polls)) [
        | inl waiting ↦ absurd (
            no_reply_yet (not rn.reliable && chance.drop_request)
              (sym (deliver-waits name server waiting) ∙ e) g)
        | inr (ok, over) ↦
            let dead = is_server_dead endname name server late in
            let (called, same, (in_time, alive, kept)) =
              finish-some rn.reliable chance.drop_request chance.drop_reply ok dead going_out
                (sym (deliver-over name server over) ∙ e) g in
            (
              called,
              answer_of-Timed rn.long_reordering chance.hold_back _ answer same,
              record {
                servername = name;
                server = server;
                connected = conn;
                at_request = record { enabled = on; there = srv };
                handled = wait_reply-Handled endname name server polls (over ∙ ap some in_time);
                at_check = dead-Alive endname name server late alive;
                not_dropped = kept;
              },
            )
      ]

  routed :
      (enabled : Bool) (conn srv : Option ℕ) {called : Bool} {o : Outcome} {reply : GoString}
      → route endname enabled conn srv rn.reliable rn.long_reordering chance polls late answer
        ≡ some (called, o)
      → received o ≡ some reply
      → (name : ℕ) × (server : ℕ) × (conn ≡ some name)
        × (srv ≡ some server)
        × (enabled ≡ true)
        × (delivering name server ≡ some (called, o))
  unfolding route
  routed true (some name) (some server) e g = (name, server, refl, refl, refl, e)
  routed true (some name) none e g = absurd (nothing_back e g)
  routed true none srv e g = absurd (nothing_back e g)
  routed false conn srv e g = absurd (nothing_back e g)

  -- What is true when a reply comes back.
  pub process_req-Delivered :
      {called : Bool} {out : Outcome} {reply : GoString}
      → process_req endname rn chance polls late answer ≡ some (called, out)
      → received out ≡ some reply
      → (called ≡ true)
        × Timed rn.long_reordering chance out answer
        × Delivered endname rn chance polls late
  unfolding process_req read_endname_info
  process_req-Delivered e g =
      let (name, server, conn, srv, on, e') = routed _ _ _ e g in
      delivered name server conn
        (sym (ap (λ o. o >>= λ n. or_nil (lookup n rn.servers)) conn) ∙ srv) on e' g

  -- Such a request does come back with the answer.
  pub Delivered-process_req :
      Delivered endname rn chance polls late
      → process_req endname rn chance polls late answer ≡ some (true, going_out)
  unfolding process_req read_endname_info route
  Delivered-process_req d =
      let name = d.servername in
      let server = d.server in
      ap
        (λ b.
          route endname b (or_nil (lookup endname rn.connections))
            (or_nil (lookup endname rn.connections) >>= λ n. or_nil (lookup n rn.servers))
            rn.reliable rn.long_reordering chance polls late answer)
        d.at_request.enabled
      ∙ ap
          (λ o.
            route endname true o (o >>= λ n. or_nil (lookup n rn.servers)) rn.reliable
              rn.long_reordering chance polls late answer)
          d.connected
      ∙ ap
          (λ o.
            route endname true (some name) o rn.reliable rn.long_reordering chance polls late
              answer)
          d.at_request.there
      ∙ deliver-over name server (Handled-wait_reply endname name server polls d.handled)
      ∙ finish-all rn.reliable chance.drop_request chance.drop_reply true
          (is_server_dead endname name server late) going_out
          (refl, Alive-dead endname name server late d.at_check, d.not_dropped)

-- A killed server answers nobody from then on, but for the replies that long reordering holds back:
-- where DeleteServer was called before the last check, by the name that the end was connected to,
-- the caller gets no reply.
pub delete_server-silent :
    (endname name : ℕ) (rn : Network) (chance : Chance) (polls : List Poll) (before : Network)
    (answer : GoString) {called : Bool} {out : Outcome} {reply : GoString}
    → or_nil (lookup endname rn.connections) ≡ some name
    → process_req endname rn chance polls (delete_server name before) answer ≡ some (called, out)
    → ¬ (received out ≡ some reply)
unfolding delete_server
delete_server-silent endname name rn chance polls before answer conn e g =
    let (called, timed, d) =
      process_req-Delivered endname rn chance polls (delete_server name before) answer e g in
    let is : d.servername ≡ name = some_inj.0 (sym d.connected ∙ conn) in
    none-ne-some d.server (
      sym (ap or_nil (lookup-insert_self name none before.servers))
      ∙ ap (λ n. or_nil (lookup n (insert name none before.servers))) (sym is)
      ∙ d.at_check.there)
