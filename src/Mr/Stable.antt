-- ===== src/Mr/Stable.antt =====
-- mr/: a file that a task has written stays as it is.
use mathlib.Core.Option.{some_inj}
use mit_6824_raft.Prelude.{
  ℕ, ◌≡◌, ◌∙◌, inl, inr, sym, subst, ap, none, some, List, [], ◌∷◌, lookup, ◌>>=◌, >>=-eq-some,
  Option-cases,
}
use mit_6824_raft.Mr.Coordinator.{TaskType, request_task, report_task}
use mit_6824_raft.Mr.Files.{FileName, FileOp, name_eq}
use mit_6824_raft.Mr.System.{
  App, Work, System, Event, requested, operated, reported, stopped, set_work, begin, request,
  operate_work, report_work, step,
}
use mit_6824_raft.Mr.Crash.{Final}
use mit_6824_raft.Mr.Outputs.{Job, spec}
use mit_6824_raft.Mr.Invariant.{OnTask, Inv, keeps_right}

pub request_busy :
    (app : App) (pid now : ℕ) (sys : System) {w : Work}
    → sys.work pid ≡ some w
    → request app pid now sys ≡ none
unfolding request
request_busy app pid now sys e = simp (e, request)

pub request_free :
    (app : App) (pid now : ℕ) (sys : System)
    → sys.work pid ≡ none
    → request app pid now sys ≡ (
        request_task now sys.coordinator >>= λ x. some (record sys {
          coordinator = x.0;
          work = set_work pid (begin app pid x.1 sys.files) sys.work;
        }))
unfolding request
request_free app pid now sys e = simp (e, request)

-- Neither a request nor a report touches a file.
request-files :
    (app : App) (pid now : ℕ) (sys : System) {sys' : System}
    → request app pid now sys ≡ some sys'
    → sys.files ≡ sys'.files
request-files app pid now sys e = elim (Option-cases (sys.work pid)) [
  | inr (w, busy) ↦ let nothing = sym (request_busy app pid now sys busy) ∙ e in cc
  | inl free ↦
      let (x, given, e') =
        >>=-eq-some (request_task now sys.coordinator) _
          (sym (request_free app pid now sys free) ∙ e) in
      ap (λ (s : System). s.files) (some_inj.0 e')
]

report_work-files :
    (pid : ℕ) (t : TaskType) (i : ℕ) (left : List FileOp) (sys : System) {sys' : System}
    → report_work pid (record { type = t; task_id = i; left = left }) sys ≡ some sys'
    → sys.files ≡ sys'.files
unfolding report_work
report_work-files pid t i (o ∷ ops) sys e = cc
report_work-files pid t i [] sys e =
    let (c, given, e') =
      >>=-eq-some (report_task (record { type = t; task_id = i }) sys.coordinator) _ e in
    ap (λ (s : System). s.files) (some_inj.0 e')

module _ (job : Job) where
  operate_work-right :
      (pid : ℕ) (t : TaskType) (i : ℕ) (left : List FileOp) (sys : System) {sys' : System}
      (f : FileName)
      → OnTask job pid (record { type = t; task_id = i; left = left }) sys.files
      → operate_work pid (record { type = t; task_id = i; left = left }) sys ≡ some sys'
      → Final f
      → lookup f sys.files ≡ spec job f
      → lookup f sys'.files ≡ spec job f
  unfolding operate_work
  operate_work-right pid t i [] sys f on e final right = cc
  operate_work-right pid t i (o ∷ ops) sys f on e final right =
      let (op, opened, follows) = on.pending in
      subst (λ (s : System). lookup f s.files ≡ spec job f) (some_inj.0 e)
        (keeps_right job pid op o ops sys.files opened follows f final right)

  pub step-right :
      (ev : Event) (sys : System) {sys' : System} (f : FileName)
      → Inv job sys
      → step job.app ev sys ≡ some sys'
      → Final f
      → lookup f sys.files ≡ spec job f
      → lookup f sys'.files ≡ spec job f
  unfolding step
  step-right (requested pid now) sys f v e final right =
      ap (lookup f) (sym (request-files job.app pid now sys e)) ∙ right
  step-right (operated pid) sys f v e final right =
      let (w, at, e') = >>=-eq-some (sys.work pid) _ e in
      operate_work-right pid w.type w.task_id w.left sys f (v.on_task pid w at) e' final right
  step-right (reported pid) sys f v e final right =
      let (w, at, e') = >>=-eq-some (sys.work pid) _ e in
      ap (lookup f) (sym (report_work-files pid w.type w.task_id w.left sys e')) ∙ right
  step-right (stopped pid) sys f v e final right =
      ap (lookup f) (sym (ap (λ (s : System). s.files) (some_inj.0 e))) ∙ right
