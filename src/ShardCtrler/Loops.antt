-- ===== src/ShardCtrler/Loops.antt =====
-- rebalance: the loops that release shards and hand them out, towards a target for each group.
use mit_6824_raft.Prelude.{
  ℕ, zero, suc, ◌+◌, ◌≤◌, ◌≡◌, ◌⊎◌, inl, inr, refl, sym, subst, true, false, none, some, List, [],
  ◌∷◌, length, get_elem?, set, Map, nat_eq, insert, ◌==◌, ==_iff, ltb, ltb→lt, ltb→le, arith,
  Option-cases, Bool-cases, All,
}
use mit_6824_raft.ShardCtrler.Config.{n_shards}
use mit_6824_raft.ShardCtrler.Rebalance.{
  at, last_owned, Plan, release_one, release, release_all, fill, fill_all,
}
use mit_6824_raft.ShardCtrler.Counting.{
  one_if, occ, occ-set, occ-le-length, last_owned-some, last_owned-none,
}
use mit_6824_raft.ShardCtrler.Plans.{Counted, given-Counted, released-Counted, differ}

release-stops :
    (fuel : ℕ) (target : Map ℕ ℕ) (gid : ℕ) (p : Plan)
    → ltb (at target gid) (at p.count gid) ≡ false
    → release (suc fuel) target gid p ≡ p
unfolding release
release-stops fuel target gid p e = simp (e, release)

release-empty :
    (fuel : ℕ) (target : Map ℕ ℕ) (gid : ℕ) (p : Plan)
    → ltb (at target gid) (at p.count gid) ≡ true
    → last_owned gid n_shards p.shards ≡ none
    → release (suc fuel) target gid p ≡ p
unfolding release
release-empty fuel target gid p e f = simp (e, f, release)

release-goes :
    (fuel : ℕ) (target : Map ℕ ℕ) (gid : ℕ) (p : Plan) {s : ℕ}
    → ltb (at target gid) (at p.count gid) ≡ true
    → last_owned gid n_shards p.shards ≡ some s
    → release (suc fuel) target gid p ≡ release fuel target gid (release_one gid s p)
unfolding release
release-goes fuel target gid p e f = simp (e, f, release)

fill-goes :
    (target : Map ℕ ℕ) (gid s : ℕ) (left shards : List ℕ) (count : Map ℕ ℕ)
    → ltb (at count gid) (at target gid) ≡ true
    → fill target gid (s ∷ left) shards count
      ≡ fill target gid left (set shards s gid) (insert gid (at count gid + 1) count)
unfolding fill
fill-goes target gid s left shards count e = simp (e, fill)

fill-stops :
    (target : Map ℕ ℕ) (gid s : ℕ) (left shards : List ℕ) (count : Map ℕ ℕ)
    → ltb (at count gid) (at target gid) ≡ false
    → fill target gid (s ∷ left) shards count
      ≡ record { shards = shards; unassigned = s ∷ left; count = count }
unfolding fill
fill-stops target gid s left shards count e = simp (e, fill)

module _ (gids : List ℕ) (uniq : (x : ℕ) → occ x gids ≤ 1) (no_zero : occ 0 gids ≡ 0)
    (target : Map ℕ ℕ) where
  pub record Released (p q : Plan) : Type 0 where
    pub counted : Counted gids uniq no_zero q
    pub shrinks : (h : ℕ) → occ h gids ≡ 1 → occ h q.shards ≤ occ h p.shards

  release_one-occ :
      (gid s : ℕ) (p : Plan)
      → occ gid gids ≡ 1
      → get_elem? p.shards s ≡ some gid
      → (occ gid (release_one gid s p).shards + 1 ≡ occ gid p.shards)
        × ((x : ℕ) → occ x gids ≡ 1 → occ x (release_one gid s p).shards ≤ occ x p.shards)
  unfolding release_one
  release_one-occ gid s p own there = (
    ground (
      arith,
      occ-set gid s 0 p.shards there,
      differ gids uniq no_zero 0 gid no_zero own,
      ==_iff gid gid,
    ),
    λ x o. ground (arith, occ-set x s 0 p.shards there, differ gids uniq no_zero 0 x no_zero o),
  )

  release-Released :
      (fuel gid : ℕ) (p : Plan)
      → occ gid gids ≡ 1
      → Counted gids uniq no_zero p
      → occ gid p.shards ≤ at target gid + fuel
      → Released p (release fuel target gid p)
        × (occ gid (release fuel target gid p).shards ≤ at target gid)
  unfolding release
  release-Released zero gid p own c h =
      (record { counted = c; shrinks = λ x o. omega arith }, omega (arith, h))
  release-Released (suc fuel) gid p own c h =
      let Goal : Plan → Type 0 = λ q. Released p q × (occ gid q.shards ≤ at target gid) in
      let stay : Released p p = record { counted = c; shrinks = λ x o. omega arith } in
      elim (Bool-cases (ltb (at target gid) (at p.count gid))) [
        | inr low ↦
            subst Goal (sym (release-stops fuel target gid p low))
              (stay, omega (arith, ltb→le _ _ low, c.agree gid own))
        | inl high ↦ elim (Option-cases (last_owned gid n_shards p.shards)) [
          | inl nothing ↦ subst Goal (sym (release-empty fuel target gid p high nothing)) (
            stay,
            omega (arith, last_owned-none gid n_shards p.shards nothing (omega (arith, c.len))),
          )
          | inr (s, e) ↦
              let there = last_owned-some gid n_shards p.shards e in
              let c' = released-Counted gids uniq no_zero gid s p own there c in
              let less = release_one-occ gid s p own there in
              let r =
                release-Released fuel gid (release_one gid s p) own c' (omega (arith, less.0, h)) in
              subst Goal (sym (release-goes fuel target gid p high e)) (
                record {
                  counted = r.0.counted;
                  shrinks = λ x o. omega (arith, r.0.shrinks x o, less.1 x o);
                },
                r.1,
              )
        ]
      ]

  -- Each of the groups owns no more than its target.
  abbrev pub Within : List ℕ → Plan → Type 0
  Within gs p = All (λ g. occ g p.shards ≤ at target g) gs

  abbrev pub Ours : List ℕ → Type 0
  Ours gs = All (λ g. occ g gids ≡ 1) gs

  pub release_all-Within :
      (gs : List ℕ) (p : Plan)
      → Ours gs
      → Counted gids uniq no_zero p
      → Released p (release_all target gs p) × Within gs (release_all target gs p)
  unfolding release_all
  release_all-Within [] p ours c = (record { counted = c; shrinks = λ x o. omega arith }, tt)
  release_all-Within (g ∷ gs) p (own, ours) c =
      let bound : occ g p.shards ≤ at target g + n_shards =
        omega (arith, occ-le-length g p.shards, c.len) in
      let first = release-Released n_shards g p own c bound in
      let rest = release_all-Within gs (release n_shards target g p) ours first.0.counted in
      (
        record {
          counted = rest.0.counted;
          shrinks = λ x o. omega (arith, first.0.shrinks x o, rest.0.shrinks x o);
        },
        (omega (arith, first.1, rest.0.shrinks g own), rest.1),
      )

  -- What handing out shards keeps.
  pub record Filled (p q : Plan) : Type 0 where
    pub counted : Counted gids uniq no_zero q
    pub grows : (h : ℕ) → occ h gids ≡ 1 → occ h p.shards ≤ occ h q.shards
    pub bounded :
        (h : ℕ) → occ h gids ≡ 1 → occ h p.shards ≤ at target h → occ h q.shards ≤ at target h
    pub stays : length p.unassigned ≡ 0 → length q.unassigned ≡ 0

  -- A group is full, or no shard is left.
  abbrev pub Full : Plan → ℕ → Type 0
  Full q g = (length q.unassigned ≡ 0) ⊎ (at target g ≤ occ g q.shards)

  given-occ :
      (gid s : ℕ) (left shards : List ℕ) (count : Map ℕ ℕ)
      → occ gid gids ≡ 1
      → Counted gids uniq no_zero (record { shards = shards; unassigned = s ∷ left; count = count })
      → (h : ℕ) → occ h gids ≡ 1
      → occ h (set shards s gid) ≡ occ h shards + one_if (gid == h)
  unfolding occ
  given-occ gid s left shards count own c h o =
      let (x, there, unowned) = c.homeless.free s (ground arith) in
      ground (arith, occ-set h s gid shards there, differ gids uniq no_zero x h unowned o)

  fill-Filled :
      (gid : ℕ) (un shards : List ℕ) (count : Map ℕ ℕ)
      → occ gid gids ≡ 1
      → Counted gids uniq no_zero (record { shards = shards; unassigned = un; count = count })
      → Filled
          (record { shards = shards; unassigned = un; count = count })
          (fill target gid un shards count)
        × Full (fill target gid un shards count) gid
  unfolding fill
  fill-Filled gid [] shards count own c = (
    record { counted = c; grows = λ h o. omega arith; bounded = λ h o b. b; stays = λ e. e },
    inl refl,
  )
  fill-Filled gid (s ∷ left) shards count own c =
      let p : Plan = record { shards = shards; unassigned = s ∷ left; count = count } in
      let Goal : Plan → Type 0 = λ q. Filled p q × Full q gid in
      elim (Bool-cases (ltb (at count gid) (at target gid))) [
        | inr full ↦ subst Goal (sym (fill-stops target gid s left shards count full)) (
          record { counted = c; grows = λ h o. omega arith; bounded = λ h o b. b; stays = λ e. e },
          inr (omega (arith, ltb→le _ _ full, c.agree gid own)),
        )
        | inl room ↦
            let step = given-occ gid s left shards count own c in
            let r =
              fill-Filled gid left (set shards s gid) (insert gid (at count gid + 1) count) own
                (given-Counted gids uniq no_zero gid s left shards count own c) in
            subst Goal (sym (fill-goes target gid s left shards count room)) (
              record {
                counted = r.0.counted;
                grows = λ h o. omega (arith, step h o, r.0.grows h o);
                bounded = λ h o b.
                    r.0.bounded h o
                      (ground (arith, step h o, b, ltb→lt _ _ room, c.agree gid own, ==_iff gid h));
                stays = λ e. absurd (omega (arith, e));
              },
              r.1,
            )
      ]

  pub fill_all-Filled :
      (gs : List ℕ) (p : Plan)
      → Ours gs
      → Counted gids uniq no_zero p
      → Filled p (fill_all target gs p) × All (Full (fill_all target gs p)) gs
  unfolding fill_all
  fill_all-Filled [] p ours c =
      (record { counted = c; grows = λ h o. omega arith; bounded = λ h o b. b; stays = λ e. e }, tt)
  fill_all-Filled (g ∷ gs) p (own, ours) c =
      let first = fill-Filled g p.unassigned p.shards p.count own c in
      let mid = fill target g p.unassigned p.shards p.count in
      let rest = fill_all-Filled gs mid ours first.0.counted in
      let last = fill_all target gs mid in
      let full : Full last g = elim first.1 [
        | inl none_left ↦ inl (rest.0.stays none_left)
        | inr enough ↦ inr (omega (arith, enough, rest.0.grows g own))
      ] in
      (
        record {
          counted = rest.0.counted;
          grows = λ h o. omega (arith, first.0.grows h o, rest.0.grows h o);
          bounded = λ h o b. rest.0.bounded h o (first.0.bounded h o b);
          stays = λ e. rest.0.stays (first.0.stays e);
        },
        (full, rest.1),
      )
