-- ===== src/Tests/Networks.antt =====
-- labrpc at a concrete network: a call that is answered, one whose server is killed in between, and one
-- whose reply is held back.
use mit_6824_raft.Prelude.{◌≡◌, refl, true, false, none, some, [], ◌∷◌, lookup, insert}
use mit_6824_raft.Labrpc.{
  Network, Chance, replied, failed, held_back, count_reply, returned, passed, make_network,
  read_endname_info, is_other, is_server_dead, wait_reply, deliver, route, process_req,
  delete_server,
}
use mit_6824_raft.Labrpc.Outcomes.{Settled, process_req_exact}

abbrev net : Network
net = record make_network {
  reliable = false;
  ends = (1, 1) ∷ [];
  enabled = (1, true) ∷ [];
  servers = (2, some 7) ∷ [];
  connections = (1, some 2) ∷ [];
}

abbrev lucky : Chance
lucky = record { drop_request = false; drop_reply = false; hold_back = false }

answered :
    process_req 1 net lucky (passed net ∷ returned ∷ []) net (9 ∷ [])
    ≡ some (true, replied (9 ∷ []))
unfolding process_req read_endname_info route deliver wait_reply is_server_dead is_other lookup
answered = refl

killed :
    process_req 1 net lucky (passed net ∷ returned ∷ []) (delete_server 2 net) (9 ∷ [])
    ≡ some (true, failed)
unfolding process_req read_endname_info route deliver wait_reply is_server_dead is_other lookup
    delete_server insert
killed = refl

-- With long reordering a reply that is held back comes though the server is killed meanwhile.
abbrev reordering : Network
reordering = record net { long_reordering = true }

abbrev held : Chance
held = record lucky { hold_back = true }

late_answer :
    process_req 1 reordering held (returned ∷ []) reordering (9 ∷ [])
    ≡ some (true, held_back (9 ∷ []))
unfolding process_req read_endname_info route deliver wait_reply is_server_dead is_other lookup
late_answer = refl

late_count :
    count_reply (held_back (9 ∷ [])) reordering (delete_server 2 reordering)
    ≡ record reordering { servers = (2, none) ∷ []; bytes = 1 }
unfolding count_reply delete_server insert
late_count = refl

process_req_exact_example :
    Settled 1 reordering held
      (returned ∷ [])
      reordering
      (9 ∷ [])
      (process_req 1 reordering held (returned ∷ []) reordering (9 ∷ []))
process_req_exact_example = process_req_exact 1 reordering held (returned ∷ []) reordering (9 ∷ [])
