-- ===== src/Raft/Applier/Order.antt =====
-- The applier of a valid peer: what it delivers, and in which order.
use mit_6824_raft.Prelude.{
  ◌+◌, ◌≤◌, ◌<◌, ◌≡◌, ◌⊎◌, true, false, ◌&&◌, Option, none, some, leb, ltb, arith, inl, inr, leb→le,
  ltb→le, Returns, returned, Returns-bind, Returns-if, Returns-of, Bool-cases,
}
use mit_6824_raft.Raft.State.{Raft, ApplyMsg, LogEntry, entry_at, killed}
use mit_6824_raft.Raft.Applier.{command_msg, deliver_next, apply_next}
use mit_6824_raft.Raft.Log.{IsValid, entry_at-some}

module _ {C : Type 0} where
  pub data Delivered (rf : Raft C) : Raft C × Option (ApplyMsg C) → Type 0 where
    waits :
        ((rf.dead ≡ true) ⊎ (rf.commit_index ≤ rf.last_applied))
          ⊎ (rf.last_applied < rf.last_included_index)
        → Delivered rf (rf, none)
    delivered :
        (e : LogEntry C)
        → rf.last_applied < rf.commit_index
        → entry_at rf (rf.last_applied + 1) ≡ some e
        → IsValid (record rf { last_applied = rf.last_applied + 1 })
        → Delivered rf (
          record rf { last_applied = rf.last_applied + 1 },
          some (command_msg e (rf.last_applied + 1)),
        )

  waits_lem :
      (rf : Raft C)
      → (ltb rf.last_applied rf.commit_index && leb rf.last_included_index rf.last_applied) ≡ false
      → ((rf.dead ≡ true) ⊎ (rf.commit_index ≤ rf.last_applied))
        ⊎ (rf.last_applied < rf.last_included_index)
  waits_lem rf h = elim (Bool-cases (ltb rf.last_applied rf.commit_index)) [
    | inl behind ↦ inr (ground (arith, h, behind))
    | inr done ↦ inl (inr (ltb→le _ _ done))
  ]

  -- On a valid peer a round of the applier does not panic. It delivers the committed entry right
  -- behind the last one that was applied, under its index, and counts it as applied, which leaves
  -- the peer valid; or it waits, and then the peer is killed, has nothing committed to apply, or has
  -- a snapshot ahead of what it applied.
  pub apply_next_exact : (rf : Raft C) → IsValid rf → Returns (Delivered rf) (apply_next rf)
  unfolding apply_next deliver_next killed
  apply_next_exact rf v =
      Returns-if _ rf.dead _ _ (λ killed. returned (waits (inl (inl killed))))
        λ alive.
          Returns-if _
            (ltb rf.last_applied rf.commit_index && leb rf.last_included_index rf.last_applied) _ _
            (λ ready.
              let lt : rf.last_applied < rf.commit_index = ground (arith, ready) in
              let ge : rf.last_included_index ≤ rf.last_applied = ground (arith, ready) in
              Returns-if _ (leb (rf.last_applied + 1) rf.last_included_index) _ _
                (λ past. absurd (omega (arith, leb→le _ _ past, ge)))
                λ next.
                  let (e, at) =
                    entry_at-some rf (rf.last_applied + 1) (omega (arith, ge))
                      (omega (arith, lt, v.commit_lt)) in
                  Returns-bind (λ x. entry_at rf (rf.last_applied + 1) ≡ some x) _
                    (entry_at rf (rf.last_applied + 1)) _ (Returns-of _ _ at at)
                    λ x e' _. returned (
                      delivered x lt e' (record {
                        head = v.head;
                        applied_le = omega (arith, lt);
                        included_le = v.included_le;
                        commit_lt = v.commit_lt;
                      })))
            (λ idle. returned (waits (waits_lem rf idle)))
