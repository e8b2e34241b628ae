-- ===== src/Mr/Run.antt =====
-- mr/: every event keeps the invariant of the coordinator, the workers and the files.
use mathlib.Core.Option.{some_inj}
use mathlib.Core.Bool.{true≢false}
use mit_6824_raft.Prelude.{
  ℕ, ◌≡◌, ◌≢◌, ◌⊎◌, ◌∙◌, inl, inr, sym, subst, Option, none, some, List, [], ◌∷◌, ==_iff, ◌==◌,
  >>=-eq-some, Bool-cases, if_true, if_false, Returns-some, some_unique,
}
use mit_6824_raft.Mr.Coordinator.{Coordinator, TaskType, report_type, report_task, ReportTaskArgs}
use mit_6824_raft.Mr.Counts.{IsValid}
use mit_6824_raft.Mr.Tasks.{report_task-IsValid}
use mit_6824_raft.Mr.Files.{Files, FileOp, input, name_eq, run_op}
use mit_6824_raft.Mr.System.{Work, System, set_work, operate_work, report_work}
use mit_6824_raft.Mr.Crash.{Pending-step, Target-step}
use mit_6824_raft.Mr.Outputs.{Job, spec}
use mit_6824_raft.Mr.Progress.{
  AfterReport, after_report, report_type-AfterReport, AfterReport-InRange,
}
use mit_6824_raft.Mr.Invariant.{
  Written, Output-Final, OnTask, Inv, keeps_right, keeps_same, keeps_OnTask,
}

pub set_work-cases :
    (pid p : ℕ) (w : Option Work) (work : ℕ → Option Work) {v : Work}
    → set_work pid w work p ≡ some v
    → ((pid ≡ p) × (w ≡ some v)) ⊎ ((pid ≢ p) × (work p ≡ some v))
unfolding set_work
set_work-cases pid p w work e = elim (Bool-cases (pid == p)) [
  | inl same ↦ inl ((==_iff pid p).0 same, sym (if_true _ _ same) ∙ e)
  | inr other ↦
      inr ((λ is. true≢false (sym ((==_iff pid p).1 is) ∙ other)), sym (if_false _ _ other) ∙ e)
]

module _ (job : Job) where
  -- Giving up a task, or having finished it.
  pub without-OnTask :
      (pid : ℕ) (sys : System)
      → Inv job sys
      → (q : ℕ) (w : Work) → set_work pid none sys.work q ≡ some w
      → OnTask job q w sys.files
  without-OnTask pid sys v q w e = elim (set_work-cases pid q none sys.work e) [
    | inl (same, x) ↦ cc
    | inr (ne, at) ↦ v.on_task q w at
  ]

  moved :
      (pid q : ℕ) (w u : Work) (fs : Files)
      → pid ≡ q
      → w ≡ u
      → OnTask job pid w fs
      → OnTask job q u fs
  moved pid q w u fs e f t = subst (λ x. OnTask job x u fs) e (subst (λ x. OnTask job pid x fs) f t)

  -- After an operation of the worker `pid`.
  operated-Inv :
      (pid : ℕ) (w : Work) (o : FileOp) (ops : List FileOp) (sys : System)
      → Inv job sys
      → OnTask job pid (record w { left = o ∷ ops }) sys.files
      → Inv job (record sys {
        files = run_op o sys.files;
        work = set_work pid (some (record w { left = ops })) sys.work;
      })
  operated-Inv pid w o ops sys v t =
      let (op, opened, follows) = t.pending in
      let right = keeps_right job pid op o ops sys.files opened follows in
      let mine : OnTask job pid (record w { left = ops }) (run_op o sys.files) = record {
        pending = Pending-step (spec job) pid op o ops sys.files opened follows;
        promised = λ f out. elim (t.promised f out) [
          | inl e ↦ inl (right f (Output-Final job w.type w.task_id f out) e)
          | inr e ↦ Target-step (spec job) pid op o ops sys.files f opened follows e
        ];
      } in
      record {
        valid = v.valid;
        same_files = v.same_files;
        same_reduce = v.same_reduce;
        same_inputs = λ f.
            keeps_same job pid op o ops sys.files opened follows (input f) (λ x. x) (λ x. x)
            ∙ v.same_inputs f;
        on_task = λ q u e. elim (set_work-cases pid q _ sys.work e) [
          | inl (same, is) ↦ moved pid q _ u _ same (some_inj.0 is) mine
          | inr (ne, at) ↦
              keeps_OnTask job pid op o ops sys.files opened follows q u ne (v.on_task q u at)
        ];
        written = λ t i d f out. right f (Output-Final job t i f out) (v.written t i d f out);
      }

  pub operate-Inv :
      (pid : ℕ) (t : TaskType) (i : ℕ) (left : List FileOp) (sys : System) {sys' : System}
      → Inv job sys
      → OnTask job pid (record { type = t; task_id = i; left = left }) sys.files
      → operate_work pid (record { type = t; task_id = i; left = left }) sys ≡ some sys'
      → Inv job sys'
  unfolding operate_work
  operate-Inv pid t i [] sys v on e = cc
  operate-Inv pid t i (o ∷ ops) sys v on e =
      subst (Inv job) (some_inj.0 e)
        (operated-Inv pid (record { type = t; task_id = i; left = [] }) o ops sys v on)

  -- A task with nothing left has written its outputs.
  finished-Written :
      (pid : ℕ) (t u : TaskType) (i j : ℕ) (fs : Files)
      → OnTask job pid (record { type = t; task_id = i; left = [] }) fs
      → t ≡ u
      → i ≡ j
      → Written job u j fs
  finished-Written pid t u i j fs on e e' =
      subst (λ x. Written job x j fs) e
        (subst (λ x. Written job t x fs) e'
          (λ f out. elim (on.promised f out) [ inl right ↦ right | inr h ↦ elim h [ ] ]))

  reported-Inv :
      (pid : ℕ) (t : TaskType) (i : ℕ) (sys : System) (c : Coordinator)
      → Inv job sys
      → OnTask job pid (record { type = t; task_id = i; left = [] }) sys.files
      → AfterReport t i sys.coordinator c
      → IsValid c
      → Inv job (record sys { coordinator = c; work = set_work pid none sys.work })
  reported-Inv pid t i sys c v on (after_report fs n within fin) valid = record {
    valid = valid;
    same_files = fs ∙ v.same_files;
    same_reduce = n ∙ v.same_reduce;
    same_inputs = v.same_inputs;
    on_task = without-OnTask pid sys v;
    written = λ u j d. elim (fin u j d) [
      | inl (e, e') ↦ finished-Written pid t u i j sys.files on e e'
      | inr was ↦ v.written u j was
    ];
  }

  pub report-Inv :
      (pid : ℕ) (t : TaskType) (i : ℕ) (left : List FileOp) (sys : System) {sys' : System}
      → Inv job sys
      → OnTask job pid (record { type = t; task_id = i; left = left }) sys.files
      → report_work pid (record { type = t; task_id = i; left = left }) sys ≡ some sys'
      → Inv job sys'
  unfolding report_work report_task
  report-Inv pid t i (o ∷ ops) sys v on e = cc
  report-Inv pid t i [] sys v on e =
      let args : ReportTaskArgs = record { type = t; task_id = i } in
      let (c, e', e'') = >>=-eq-some (report_type t i sys.coordinator) _ e in
      let after = report_type-AfterReport t i sys.coordinator c e' in
      let (c', right, valid) =
        Returns-some _ _
          (report_task-IsValid args sys.coordinator v.valid (AfterReport-InRange after)) in
      subst (Inv job) (some_inj.0 e'')
        (reported-Inv pid t i sys c v on after (some_unique IsValid right e' valid))
