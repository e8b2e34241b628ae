-- ===== src/Raft/Durable.antt =====
-- What a crash keeps: the stored bytes against the state of the peer, and the order in which the
-- states of one peer follow one another.
use mit_6824_raft.Prelude.{
  sym, ℕ, ◌≤◌, ◌<◌, ◌≡◌, refl, ap, ◌∙◌, none, some, [], ◌∷◌, length, ltb, if◌then◌else◌, arith,
  Bool-cases, inl, inr, ltb→lt,
}
use mit_6824_raft.Raft.State.{
  Bytes, Raft, Codec, Clock, Persister, HardState, dummy, hard_state, clone, save, persist,
  read_raft_state, encode_state, become_follower, observe_term, reset_election_timer, read_persist,
  make,
}

pub clone_lem : (bs : Bytes) → clone bs ≡ bs
unfolding clone
clone_lem [] = refl
clone_lem (b ∷ bs) = ap (λ t. b ∷ t) (clone_lem bs)

module _ {C : Type 0} where
  -- The state of a peer that has never stored anything.
  abbrev blank : HardState C
  blank = record {
    current_term = 0;
    voted_for = none;
    log = dummy 0 ∷ [];
    last_included_index = 0;
    last_included_term = 0;
  }

module _ {C : Type 0} (codec : Codec C) where
  pub persister-make :
      (clk : Clock) (peers me : ℕ) (ps : Persister)
      → (make {C = C} ⦃codec = codec⦄ clk peers me ps).persister ≡ ps
  unfolding make read_persist reset_election_timer
  persister-make clk peers me ps = ground arith

module _ {C : Type 0} ⦃codec : Codec C⦄ where
  -- The persistent state that a restart reads back from stored bytes.
  unfoldable pub stored : Bytes → HardState C
  stored bytes =
      if ltb (length bytes) 1
      then blank
      else elim (codec.decode bytes) [ none ↦ blank | some h ↦ h ]

  pub record IsDurable (rf : Raft C) : Type 0 where
    pub kept : stored rf.persister.raftstate ≡ hard_state rf

  pub stored-encode : (h : HardState C) → stored (clone (codec.encode h)) ≡ h
  unfolding stored
  stored-encode h = rw clone_lem (ground (arith, codec.encode_nonempty h, codec.decode-encode h))

  hard_state-read_persist :
      (bytes : Bytes) (rf : Raft C)
      → rf.current_term ≡ 0
      → rf.voted_for ≡ none
      → rf.last_included_index ≡ 0
      → rf.last_included_term ≡ 0
      → hard_state (read_persist bytes rf) ≡ stored bytes
  unfolding read_persist stored
  hard_state-read_persist bytes rf p q r s = ground arith

  -- What Make reads back does not depend on the clock or on the peers.
  pub hard_state-make :
      (clk : Clock) (peers me : ℕ) (ps : Persister)
      → hard_state (make clk peers me ps) ≡ stored ps.raftstate
  unfolding make reset_election_timer read_raft_state
  hard_state-make clk peers me ps = rw clone_lem (hard_state-read_persist _ _ refl refl refl refl)

  -- One peer at two times, with or without a crash between them.
  pub record Later (rf rf' : Raft C) : Type 0 where
    pub durable : IsDurable rf → IsDurable rf'
    pub term_le : rf.current_term ≤ rf'.current_term
    pub vote_kept :
        (v : ℕ)
        → rf'.current_term ≡ rf.current_term
        → rf.voted_for ≡ some v
        → rf'.voted_for ≡ some v

  pub Later-refl : (rf : Raft C) → Later rf rf
  Later-refl rf = record { durable = λ d. d; term_le = omega arith; vote_kept = λ v e h. h }

  pub Later-trans : (a b c : Raft C) → Later a b → Later b c → Later a c
  Later-trans a b c p q = record {
    durable = λ d. q.durable (p.durable d);
    term_le = omega (arith, p.term_le, q.term_le);
    vote_kept = λ v e h.
        let ba : b.current_term ≡ a.current_term = omega (arith, p.term_le, q.term_le, e) in
        let cb : c.current_term ≡ b.current_term = omega (arith, p.term_le, q.term_le, e) in
        q.vote_kept v cb (p.vote_kept v ba h);
  }

  -- A change of volatile fields only.
  pub Later-volatile :
      (rf rf' : Raft C)
      → rf'.persister ≡ rf.persister
      → hard_state rf' ≡ hard_state rf
      → Later rf rf'
  Later-volatile rf rf' p h = record {
    durable = λ d. record { kept = ground (arith, d.kept, p, h) };
    term_le = ground (arith, h);
    vote_kept = λ v e k. ground (arith, h, k);
  }

  -- A change of persistent fields that is saved, at an unchanged vote or in a later term.
  pub Later-saved :
      (rf rf' : Raft C)
      → rf'.persister.raftstate ≡ clone (codec.encode (hard_state rf'))
      → rf.current_term ≤ rf'.current_term
      → ((v : ℕ)
          → rf'.current_term ≡ rf.current_term
          → rf.voted_for ≡ some v
          → rf'.voted_for ≡ some v)
      → Later rf rf'
  Later-saved rf rf' p t k = record {
    durable = λ d. record { kept = ap stored p ∙ stored-encode (hard_state rf') };
    term_le = t;
    vote_kept = k;
  }

  -- A restart of a durable peer keeps its persistent state.
  pub Later-make :
      (rf : Raft C) (clk : Clock) → IsDurable rf → Later rf (make clk rf.peers rf.me rf.persister)
  Later-make rf clk d =
      Later-volatile rf _ (persister-make codec clk rf.peers rf.me rf.persister)
        (hard_state-make clk rf.peers rf.me rf.persister ∙ d.kept)

  pub Later-become_follower :
      (term : ℕ) (rf : Raft C) → rf.current_term < term → Later rf (become_follower term rf)
  unfolding become_follower persist encode_state save
  Later-become_follower term rf h =
      Later-saved rf _ refl (omega arith) (λ v e k. absurd (omega arith))

  pub Later-observe_term : (term : ℕ) (rf : Raft C) → Later rf (observe_term term rf)
  unfolding observe_term
  Later-observe_term term rf = elim (Bool-cases (ltb rf.current_term term)) [
    | inl newer ↦ rw newer (Later-become_follower term rf (ltb→lt _ _ newer))
    | inr same ↦ rw same (Later-refl rf)
  ]

  pub observe_term-term_ge : (term : ℕ) (rf : Raft C) → term ≤ (observe_term term rf).current_term
  unfolding observe_term become_follower persist
  observe_term-term_ge term rf = ground arith

module _ {C : Type 0} (codec : Codec C) where
  -- A peer that was made from stored bytes, or from none, is durable.
  pub make-IsDurable :
      (clk : Clock) (peers me : ℕ) (ps : Persister)
      → IsDurable {C = C} ⦃codec = codec⦄ (make ⦃codec = codec⦄ clk peers me ps)
  make-IsDurable clk peers me ps = record {
    kept =
        ap (λ (p : Persister). stored ⦃codec = codec⦄ p.raftstate)
          (persister-make codec clk peers me ps)
        ∙ sym (hard_state-make ⦃codec = codec⦄ clk peers me ps);
  }
