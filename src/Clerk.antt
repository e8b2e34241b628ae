-- ===== src/Clerk.antt =====
-- kvraft/client.go and shardctrler/client.go: the loop of each call of a clerk, which asks the
-- servers in turn from the one that led last. `call t s` is what the t-th call, to server s, comes
-- back with; `none` where labrpc's Call returns false.
pub mod Retry
use mit_6824_raft.Prelude.{
  ℕ, zero, suc, ◌+◌, ◌%◌, Option, none, some, List, length, get_elem?, ◌>>=◌,
}

-- The loop returned a value, from which server and at which call; or it is still trying; or it
-- panicked, as there is no such server.
pub data Tried (V : Type 0) : Type 0 where
  returned : ℕ → V → ℕ → Tried V
  trying : Tried V
  panicked : Tried V

module _ {S R V : Type 0} (servers : List S) (call : ℕ → S → Option R) (accept : R → Option V) where
  -- `for { … leader = (leader + 1) % len(ck.servers) }`, for a number of rounds.
  unfoldable pub retry : ℕ → ℕ → ℕ → Tried V
  retry zero t leader = trying
  retry (suc rounds) t leader = elim (get_elem? servers leader) [
    | none ↦ panicked
    | some s ↦ elim (call t s >>= accept) [
      | some v ↦ returned leader v t
      | none ↦ retry rounds (suc t) ((leader + 1) % length servers)
    ]
  ]

-- atomic.StoreInt32(&ck.leaderHint, int32(leader)), where the loop returns.
unfoldable pub new_hint : {V : Type 0} → ℕ → Tried V → ℕ
new_hint hint (returned leader v t) = leader
new_hint hint trying = hint
new_hint hint panicked = hint
