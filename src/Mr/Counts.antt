-- ===== src/Mr/Counts.antt =====
-- How many tasks are done, and what the counters of the coordinator say of it.
use mathlib.Core.Bool.{true≢false}
use mathlib.Core.Option.{none-ne-some}
use mit_6824_raft.Prelude.{
  ◌+◌, ◌<◌, ◌⊎◌, none, sym, ltb→lt, lt→ltb, if_true, if_false, ℕ, zero, suc, ◌-◌, ◌≤◌, ◌≡◌, refl,
  ap, ◌∙◌, true, false, some, List, [], ◌∷◌, length, get_elem?, set, replicate, All, if◌then◌else◌,
  arith, Bool-cases, inl, inr, OnSome, on_some, OnSome-map,
}
use mit_6824_raft.Mr.Coordinator.{
  idle, in_progress, done, TaskState, task_timeout, TaskInfo, Coordinator, is_available,
  first_available, started, is_done,
}

unfoldable pub count_done : List TaskInfo → ℕ
count_done [] = 0
count_done (t ∷ ts) = if is_done t.state then suc (count_done ts) else count_done ts

-- The counters count the tasks that are done, and there is a task for each file and bucket.
pub record IsValid (c : Coordinator) : Type 0 where
  pub files_len : length c.files ≡ c.n_map
  pub map_len : length c.map_tasks ≡ c.n_map
  pub reduce_len : length c.reduce_tasks ≡ c.n_reduce
  pub map_count : c.map_done ≡ count_done c.map_tasks
  pub reduce_count : c.reduce_done ≡ count_done c.reduce_tasks

abbrev pub IsDone : TaskInfo → Type 0
IsDone t = t.state ≡ done

count_done-le : (ts : List TaskInfo) → count_done ts ≤ length ts
unfolding count_done
count_done-le [] = omega arith
count_done-le (t ∷ ts) = ground (arith, count_done-le ts)

pub All-IsDone : (ts : List TaskInfo) → length ts ≤ count_done ts → All IsDone ts
unfolding count_done
All-IsDone [] h = tt
All-IsDone (t ∷ ts) h =
    (ground (arith, h, count_done-le ts), All-IsDone ts (ground (arith, h, count_done-le ts)))

pub count_done-All : (ts : List TaskInfo) → All IsDone ts → count_done ts ≡ length ts
unfolding count_done
count_done-All [] h = refl
count_done-All (t ∷ ts) h = ground (arith, h.0, count_done-All ts h.1)

pub count_done-replicate :
    (n : ℕ) → count_done (replicate n (record { state = idle; start_time = 0 })) ≡ 0
unfolding count_done
count_done-replicate zero = refl
count_done-replicate (suc n) = count_done-replicate n

-- A task that may be handed out: nobody has it, or its worker has had it for longer than the timeout.
abbrev pub IsFree : ℕ → TaskInfo → Type 0
IsFree now t = (t.state ≡ idle) ⊎ ((t.state ≡ in_progress) × (t.start_time + task_timeout < now))

pub is_available-IsFree : (now : ℕ) (t : TaskInfo) → is_available now t ≡ true → IsFree now t
unfolding is_available
is_available-IsFree now t h = available_state t.state t.start_time h
  where
    available_state :
        (s : TaskState) (start : ℕ)
        → is_available now (record { state = s; start_time = start }) ≡ true
        → IsFree now (record { state = s; start_time = start })
    available_state idle start h = inl refl
    available_state in_progress start h = inr (refl, omega (arith, ltb→lt _ _ h))
    available_state done start h = cc

pub IsFree-is_available : (now : ℕ) (t : TaskInfo) → IsFree now t → is_available now t ≡ true
unfolding is_available
IsFree-is_available now t (inl e) = rw e refl
IsFree-is_available now t (inr (e, late)) = rw e (lt→ltb _ _ (omega arith))

-- The task that is found stands in range and is free.
pub first_available-some :
    (now i : ℕ) (ts : List TaskInfo)
    → OnSome
        (λ j. (i ≤ j) × ((t : TaskInfo) × (get_elem? ts (j - i) ≡ some t) × IsFree now t))
        (first_available now i ts)
unfolding first_available
first_available-some now i [] = OnSome.on_none
first_available-some now i (t ∷ ts) = elim (Bool-cases (is_available now t)) [
  | inl free ↦
      let first : i - i ≡ 0 = omega arith in
      rw free
        (on_some (omega arith, (t, ap (get_elem? (t ∷ ts)) first, is_available-IsFree now t free)))
  | inr busy ↦ rw busy (
      OnSome-map _ _ _
        (λ j f.
          let slot : j - i ≡ suc (j - suc i) = omega (arith, f.0) in
          (omega (arith, f.0), (f.1.0, ap (get_elem? (t ∷ ts)) slot ∙ f.1.1, f.1.2)))
        (first_available-some now (suc i) ts))
]

-- Where none is found, none is free.
pub first_available-none :
    (now i : ℕ) (ts : List TaskInfo)
    → first_available now i ts ≡ none
    → All (λ t. ¬ IsFree now t) ts
unfolding first_available
first_available-none now i [] e = tt
first_available-none now i (t ∷ ts) e = elim (Bool-cases (is_available now t)) [
  | inl free ↦ absurd (none-ne-some i (sym e ∙ if_true _ _ free))
  | inr busy ↦ (
    (λ f. true≢false (sym (IsFree-is_available now t f) ∙ busy)),
    first_available-none now (suc i) ts (sym (if_false _ _ busy) ∙ e),
  )
]

pub count_done-started :
    (now now' : ℕ) (ts : List TaskInfo) (i : ℕ) {t : TaskInfo}
    → get_elem? ts i ≡ some t
    → IsFree now t
    → count_done (set ts i (started now')) ≡ count_done ts
unfolding count_done
count_done-started now now' [] i h a = refl
count_done-started now now' (x ∷ ts) zero h (inl e) = ground (arith, h, e)
count_done-started now now' (x ∷ ts) zero h (inr (e, late)) = ground (arith, h, e)
count_done-started now now' (x ∷ ts) (suc i) h a =
    ground (arith, count_done-started now now' ts i h a)

pub count_done-marked :
    (ts : List TaskInfo) (i : ℕ) {t : TaskInfo}
    → get_elem? ts i ≡ some t
    → is_done t.state ≡ false
    → count_done (set ts i (record t { state = done })) ≡ suc (count_done ts)
unfolding count_done
count_done-marked [] i h a = cc
count_done-marked (x ∷ ts) zero h a = ground (arith, h, a)
count_done-marked (x ∷ ts) (suc i) h a = ground (arith, count_done-marked ts i h a)
