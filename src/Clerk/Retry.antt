-- ===== src/Clerk/Retry.antt =====
-- The loop of a clerk finds a server that answers.
use mit_6824_raft.Prelude.{
  ℕ, zero, suc, ◌+◌, ◌-◌, ◌%◌, ◌≤◌, ◌<◌, ◌≡◌, ◌≢◌, ◌∙◌, inl, inr, ap, sym, subst, Option, none,
  some, List, length, get_elem?, get_elem?-some, lt-get_elem?, if◌then◌else◌, ◌==◌, ltb, ℕ_discrete,
  arith, ◌>>=◌, Option-cases,
}
use mathlib.Core.Option.{some_inj}
use native.Mathlib.Nat.{mod-lt, mod_self, mod-eq_of_lt, mod-add-mod}
use mit_6824_raft.Clerk.{Tried, returned, trying, retry}

next_lem : (l n : ℕ) → l < n → (l + 1) % n ≡ (if suc l == n then 0 else suc l)
next_lem l n h = elim (ℕ_discrete (suc l) n) [
  | yes e ↦ grind (arith, e, mod_self n)
  | no ne ↦ let lt : l + 1 < n = omega (arith, ne) in grind (arith, ne, mod-eq_of_lt lt)
]

-- How many servers come before the server `good`, from `l` on.
abbrev distance : ℕ → ℕ → ℕ → ℕ
distance n good l = if ltb good l then n + good - l else good - l

-- The rounds that are enough, where `good` answers each call from the round `since` on.
abbrev needs : ℕ → ℕ → ℕ → ℕ → ℕ → ℕ
needs n since good t leader = if ltb t since then (since - t) + n else distance n good leader + 1

needs_next :
    (n since good t l rounds : ℕ)
    → l < n
    → good < n
    → (since ≤ t → l ≢ good)
    → needs n since good t l ≤ suc rounds
    → needs n since good (suc t) (if suc l == n then 0 else suc l) ≤ rounds
needs_next n since good t l rounds h g ne need = grind arith

needs_pos : (n since good t l : ℕ) → l < n → good < n → 0 < needs n since good t l
needs_pos n since good t l h g = ground arith

module _ {S R V : Type 0} (servers : List S) (call : ℕ → S → Option R) (accept : R → Option V) where
  -- The loop is at the call `t`, to the server `leader`.
  pub data Found (t leader : ℕ) : Tried V → Type 0 where
    found :
        (k : ℕ) (at : ℕ) (s : S) (v : V)
        → at ≡ (leader + k) % length servers
        → get_elem? servers at ≡ some s
        → (call (t + k) s >>= accept) ≡ some v
        → ((j : ℕ) (u : S)
            → j < k
            → get_elem? servers ((leader + j) % length servers) ≡ some u
            → (call (t + j) u >>= accept) ≡ none)
        → Found t leader (returned at v (t + k))
    none_yet : Found t leader trying

  retry-some :
      (rounds t leader : ℕ) {s : S} {v : V}
      → get_elem? servers leader ≡ some s
      → (call t s >>= accept) ≡ some v
      → retry servers call accept (suc rounds) t leader ≡ returned leader v t
  unfolding retry
  retry-some rounds t leader e f = simp (e, f, retry)

  retry-none :
      (rounds t leader : ℕ) {s : S}
      → get_elem? servers leader ≡ some s
      → (call t s >>= accept) ≡ none
      → retry servers call accept (suc rounds) t leader
        ≡ retry servers call accept rounds (suc t) ((leader + 1) % length servers)
  unfolding retry
  retry-none rounds t leader e f = simp (e, f, retry)

  retry-lt : (leader : ℕ) → leader < length servers → (leader + 1) % length servers < length servers
  retry-lt leader h = mod-lt (leader + 1) (omega arith)

  -- From some round on the server `good` answers each call, as at a stable leader.
  retry-returns_from :
      (since good : ℕ) (s : S)
      → get_elem? servers good ≡ some s
      → ((t : ℕ) → since ≤ t → (call t s >>= accept) ≢ none)
      → (rounds t leader : ℕ) → leader < length servers
      → needs (length servers) since good t leader ≤ rounds
      → (at : ℕ) × (v : V) × (k : ℕ) × (retry servers call accept rounds t leader ≡ returned at v k)
  retry-returns_from since good s here ok zero t leader h need = absurd (
      omega (
        arith,
        need,
        needs_pos (length servers) since good t leader h (lt-get_elem? servers good here),
      ))
  retry-returns_from since good s here ok (suc rounds) t leader h need =
      let (u, at) = get_elem?-some servers leader h in
      elim (Option-cases (call t u >>= accept)) [
        | inr (v, e) ↦ (leader, v, t, retry-some rounds t leader at e)
        | inl e ↦
            let (a, v, k, r) =
              retry-returns_from since good s here ok rounds (suc t) ((leader + 1) % length servers)
                (retry-lt leader h)
                (subst (λ l. needs (length servers) since good (suc t) l ≤ rounds)
                  (sym (next_lem leader (length servers) h))
                  (needs_next (length servers) since good t leader rounds h
                    (lt-get_elem? servers good here)
                    (λ late same. ok t late (
                      ap (λ x. call t x >>= accept)
                        (some_inj.0 (sym here ∙ ap (get_elem? servers) (sym same) ∙ at))
                      ∙ e))
                    need)) in
            (a, v, k, retry-none rounds t leader at e ∙ r)
      ]

  pub retry_returns :
      (since good : ℕ) (s : S)
      → get_elem? servers good ≡ some s
      → ((t : ℕ) → since ≤ t → (call t s >>= accept) ≢ none)
      → (rounds leader : ℕ) → leader < length servers
      → since + length servers ≤ rounds
      → (at : ℕ) × (v : V) × (k : ℕ) × (retry servers call accept rounds 0 leader ≡ returned at v k)
  retry_returns since good s here ok rounds leader h enough =
      retry-returns_from since good s here ok rounds 0 leader h
        (ground (arith, h, enough, lt-get_elem? servers good here))

  Found-first :
      (t leader : ℕ) (s : S) (v : V)
      → leader < length servers
      → get_elem? servers leader ≡ some s
      → (call t s >>= accept) ≡ some v
      → Found t leader (returned leader v t)
  Found-first t leader s v h at e =
      subst (λ k. Found t leader (returned leader v k)) (omega arith)
        (found 0 leader s v (sym (ap (λ l. l % length servers) (omega arith) ∙ mod-eq_of_lt h)) at
          (ap (λ k. call k s >>= accept) (omega arith) ∙ e) (λ j u lt. elim lt [ ]))

  earlier :
      (t leader k : ℕ) (s : S)
      → leader < length servers
      → get_elem? servers leader ≡ some s
      → (call t s >>= accept) ≡ none
      → ((j : ℕ) (u : S)
          → j < k
          → get_elem? servers (((leader + 1) % length servers + j) % length servers) ≡ some u
          → (call (suc t + j) u >>= accept) ≡ none)
      → (j : ℕ) (u : S) → j < suc k
      → get_elem? servers ((leader + j) % length servers) ≡ some u
      → (call (t + j) u >>= accept) ≡ none
  earlier t leader k s h at e before zero u lt here =
      let same : (leader + 0) % length servers ≡ leader =
        ap (λ l. l % length servers) (omega arith) ∙ mod-eq_of_lt h in
      let is = some_inj.0 (sym here ∙ ap (get_elem? servers) same ∙ at) in
      let now : t + 0 ≡ t = omega arith in
      ap (λ x. call x u >>= accept) now ∙ ap (λ x. call t x >>= accept) is ∙ e
  earlier t leader k s h at e before (suc j) u lt here =
      let n = length servers in
      let same : ((leader + 1) % n + j) % n ≡ (leader + suc j) % n =
        mod-add-mod (leader + 1) n j ∙ ap (λ l. l % n) (omega arith) in
      let later : t + suc j ≡ suc t + j = omega arith in
      ap (λ x. call x u >>= accept) later
      ∙ before j u (omega (arith, lt)) (ap (get_elem? servers) same ∙ here)

  Found-next :
      (t leader : ℕ) (r : Tried V) (s : S)
      → leader < length servers
      → get_elem? servers leader ≡ some s
      → (call t s >>= accept) ≡ none
      → Found (suc t) ((leader + 1) % length servers) r
      → Found t leader r
  Found-next t leader r s h at e (found k to u v is there answer before) =
      let n = length servers in
      subst (λ x. Found t leader (returned to v x)) (omega arith)
        (found (suc k) to u v (is ∙ mod-add-mod (leader + 1) n k ∙ ap (λ l. l % n) (omega arith))
          there (ap (λ x. call x u >>= accept) (omega arith) ∙ answer)
          (earlier t leader k s h at e before))
  Found-next t leader r s h at e none_yet = none_yet

  -- What the loop returns comes from the first call whose answer is accepted; the calls go to the
  -- servers in turn, from the hint on. There is no panic where the hint is one of the servers.
  pub retry-Found :
      (rounds t leader : ℕ)
      → leader < length servers
      → Found t leader (retry servers call accept rounds t leader)
  unfolding retry
  retry-Found zero t leader h = none_yet
  retry-Found (suc rounds) t leader h =
      let (s, at) = get_elem?-some servers leader h in
      elim (Option-cases (call t s >>= accept)) [
        | inr (v, e) ↦
            subst (Found t leader) (sym (retry-some rounds t leader at e))
              (Found-first t leader s v h at e)
        | inl e ↦ subst (Found t leader) (sym (retry-none rounds t leader at e)) (
            Found-next t leader _ s h at e
              (retry-Found rounds (suc t) ((leader + 1) % length servers) (retry-lt leader h)))
      ]

  returned_at : {at at' : ℕ} {v v' : V} {k k' : ℕ} → returned at v k ≡ returned at' v' k' → at ≡ at'
  returned_at e = cc

  Found-lt :
      (t leader : ℕ) (r : Tried V) {at k : ℕ} {v : V}
      → Found t leader r
      → r ≡ returned at v k
      → at < length servers
  Found-lt t leader r {at} (found k to s v is there answer before) e =
      omega (arith, lt-get_elem? servers to there, returned_at e)
  Found-lt t leader r none_yet e = cc

  pub returned-lt :
      (rounds t leader : ℕ) {at k : ℕ} {v : V}
      → leader < length servers
      → retry servers call accept rounds t leader ≡ returned at v k
      → at < length servers
  returned-lt rounds t leader h e = Found-lt t leader _ (retry-Found rounds t leader h) e
