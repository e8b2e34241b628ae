-- ===== src/Mr/Progress.antt =====
-- mr/coordinator.go: which tasks are done after a request or a report, and what a request hands out.
use mit_6824_raft.Prelude.{
  ℕ, zero, suc, ◌+◌, ◌<◌, ◌≡◌, ◌⊎◌, inl, inr, refl, sym, subst, ◌∙◌, if◌then◌else◌, lt-get_elem?,
  Bool, true, false, some, List, [], ◌∷◌, length, get_elem?, set, get_elem?-set_ne, ℕ_discrete,
  >>=-eq-some,
}
use mathlib.Core.Option.{some_inj}
use mit_6824_raft.Mr.Coordinator.{
  TaskType, task_none, task_map, task_reduce, task_exit, TaskInfo, Coordinator, RequestTaskReply,
  done, started, is_done, mark_done, report_type,
}
use mit_6824_raft.Mr.Tasks.{InRange, Assigned, map_task, reduce_task, no_task, all_finished}

abbrev pub tasks : Coordinator → TaskType → List TaskInfo
tasks c task_map = c.map_tasks
tasks c task_reduce = c.reduce_tasks
tasks c task_none = []
tasks c task_exit = []

abbrev pub DoneAt : List TaskInfo → ℕ → Type 0
DoneAt ts j = (t : TaskInfo) × (get_elem? ts j ≡ some t) × (t.state ≡ done)

abbrev pub Finished : Coordinator → TaskType → ℕ → Type 0
Finished c t j = DoneAt (tasks c t) j

set-DoneAt :
    (ts : List TaskInfo) (i j : ℕ) (v : TaskInfo) → DoneAt (set ts i v) j → (i ≡ j) ⊎ DoneAt ts j
set-DoneAt ts i j v (t, at, d) = elim (ℕ_discrete i j) [
  | yes e ↦ inl e
  | no ne ↦ inr (t, sym (get_elem?-set_ne ts i j v ne) ∙ at, d)
]

started-DoneAt :
    (now : ℕ) (ts : List TaskInfo) (i j : ℕ) → DoneAt (set ts i (started now)) j → DoneAt ts j
started-DoneAt now [] i j h = h
started-DoneAt now (t ∷ ts) zero zero h = cc
started-DoneAt now (t ∷ ts) zero (suc j) h = h
started-DoneAt now (t ∷ ts) (suc i) zero h = h
started-DoneAt now (t ∷ ts) (suc i) (suc j) h = started-DoneAt now ts i j h

-- Handing out a task finishes none.
pub Assigned-Finished :
    (now : ℕ) (c : Coordinator) (r : Coordinator × RequestTaskReply) (t : TaskType) (j : ℕ)
    → Assigned now c r
    → Finished r.0 t j
    → Finished c t j
Assigned-Finished now c r task_map j (map_task i f t e g k l) h =
    started-DoneAt now c.map_tasks i j h
Assigned-Finished now c r task_reduce j (map_task i f t e g k l) h = h
Assigned-Finished now c r task_map j (reduce_task i a f t e k l) h = h
Assigned-Finished now c r task_reduce j (reduce_task i a f t e k l) h =
    started-DoneAt now c.reduce_tasks i j h
Assigned-Finished now c r task_none j (map_task i f t e g k l) h = h
Assigned-Finished now c r task_none j (reduce_task i a f t e k l) h = h
Assigned-Finished now c r task_exit j (map_task i f t e g k l) h = h
Assigned-Finished now c r task_exit j (reduce_task i a f t e k l) h = h
Assigned-Finished now c r t j (no_task b e) h = h
Assigned-Finished now c r t j (all_finished a b e) h = h

marked-DoneAt :
    (b : Bool) (i j n : ℕ) (ts : List TaskInfo) (v : TaskInfo)
    → DoneAt (if◌then◌else◌ {A = List TaskInfo × ℕ} b (ts, n) (set ts i v, n + 1)).0 j
    → (i ≡ j) ⊎ DoneAt ts j
marked-DoneAt true i j n ts v d = inr d
marked-DoneAt false i j n ts v d = set-DoneAt ts i j v d

mark_done-DoneAt :
    (i j n : ℕ) (ts : List TaskInfo) {r : List TaskInfo × ℕ}
    → mark_done i ts n ≡ some r
    → DoneAt r.0 j
    → (i ≡ j) ⊎ DoneAt ts j
unfolding mark_done
mark_done-DoneAt i j n ts {r} e d =
    let (t, at, e') = >>=-eq-some (get_elem? ts i) _ e in
    marked-DoneAt (is_done t.state) i j n ts (record t { state = done })
      (subst (λ (x : List TaskInfo × ℕ). DoneAt x.0 j) (sym (some_inj.0 e')) d)

mark_done-lt :
    (i n : ℕ) (ts : List TaskInfo) {r : List TaskInfo × ℕ}
    → mark_done i ts n ≡ some r
    → i < length ts
unfolding mark_done
mark_done-lt i n ts {r} e =
    let (t, at, e') = >>=-eq-some (get_elem? ts i) _ e in lt-get_elem? ts i at

-- A report finishes the task that it names, at most, and the job stays the same.
pub data AfterReport (t : TaskType) (i : ℕ) (c c' : Coordinator) : Type 0 where
  after_report :
      c'.files ≡ c.files
      → c'.n_reduce ≡ c.n_reduce
      → InRange (record { type = t; task_id = i }) c
      → ((u : TaskType) (j : ℕ) → Finished c' u j → ((t ≡ u) × (i ≡ j)) ⊎ Finished c u j)
      → AfterReport t i c c'

pub AfterReport-InRange :
    {t : TaskType} {i : ℕ} {c c' : Coordinator}
    → AfterReport t i c c'
    → InRange (record { type = t; task_id = i }) c
AfterReport-InRange (after_report fs n within fin) = within

finished_at : (t : TaskType) (i j : ℕ) {A : Type 0} → (i ≡ j) ⊎ A → ((t ≡ t) × (i ≡ j)) ⊎ A
finished_at t i j (inl e) = inl (refl, e)
finished_at t i j (inr a) = inr a

map-Finished :
    (i : ℕ) (c : Coordinator) (r : List TaskInfo × ℕ) (u : TaskType) (j : ℕ)
    → mark_done i c.map_tasks c.map_done ≡ some r
    → Finished (record c { map_tasks = r.0; map_done = r.1 }) u j
    → ((task_map ≡ u) × (i ≡ j)) ⊎ Finished c u j
map-Finished i c r task_map j m d =
    finished_at task_map i j (mark_done-DoneAt i j c.map_done c.map_tasks m d)
map-Finished i c r task_reduce j m d = inr d
map-Finished i c r task_none j m d = inr d
map-Finished i c r task_exit j m d = inr d

reduce-Finished :
    (i : ℕ) (c : Coordinator) (r : List TaskInfo × ℕ) (u : TaskType) (j : ℕ)
    → mark_done i c.reduce_tasks c.reduce_done ≡ some r
    → Finished (record c { reduce_tasks = r.0; reduce_done = r.1 }) u j
    → ((task_reduce ≡ u) × (i ≡ j)) ⊎ Finished c u j
reduce-Finished i c r task_map j m d = inr d
reduce-Finished i c r task_reduce j m d =
    finished_at task_reduce i j (mark_done-DoneAt i j c.reduce_done c.reduce_tasks m d)
reduce-Finished i c r task_none j m d = inr d
reduce-Finished i c r task_exit j m d = inr d

pub report_type-AfterReport :
    (t : TaskType) (i : ℕ) (c c' : Coordinator) → report_type t i c ≡ some c' → AfterReport t i c c'
unfolding report_type
report_type-AfterReport task_map i c c' e =
    let (r, m, e') = >>=-eq-some (mark_done i c.map_tasks c.map_done) _ e in
    subst (AfterReport task_map i c) (some_inj.0 e') (
      after_report refl refl ((λ _. mark_done-lt i _ _ m), (λ x. cc))
        (λ u j. map-Finished i c r u j m))
report_type-AfterReport task_reduce i c c' e =
    let (r, m, e') = >>=-eq-some (mark_done i c.reduce_tasks c.reduce_done) _ e in
    subst (AfterReport task_reduce i c) (some_inj.0 e') (
      after_report refl refl ((λ x. cc), (λ _. mark_done-lt i _ _ m))
        (λ u j. reduce-Finished i c r u j m))
report_type-AfterReport task_none i c c' e =
    subst (AfterReport task_none i c) (some_inj.0 e)
      (after_report refl refl ((λ x. cc), (λ x. cc)) (λ u j. inr))
report_type-AfterReport task_exit i c c' e =
    subst (AfterReport task_exit i c) (some_inj.0 e)
      (after_report refl refl ((λ x. cc), (λ x. cc)) (λ u j. inr))
