-- ===== src/Mr/Invariant.antt =====
-- mr/: what holds of the coordinator, the workers and the files after any events.
use mit_6824_raft.Prelude.{
  ℕ, ◌≡◌, ◌≢◌, ◌⊎◌, ◌∙◌, inl, inr, subst, Option, none, some, List, ◌∷◌, GoString, lookup,
}
use mit_6824_raft.Mr.Coordinator.{TaskType, task_none, task_map, task_reduce, task_exit}
use mit_6824_raft.Mr.Counts.{IsValid}
use mit_6824_raft.Mr.Files.{FileName, Files, FileOp, input, name_eq, run_op}
use mit_6824_raft.Mr.System.{Work, System}
use mit_6824_raft.Mr.Crash.{
  Temp, Final, Temp-Final, Temp-unique, Follows, OpenIn, Pending, Target, Pending-keeps,
}
use mit_6824_raft.Mr.Outputs.{Job, spec, Output}
use mit_6824_raft.Mr.Progress.{Finished}

module _ (job : Job) where
  -- An output file of a task holds what it is to hold.
  abbrev pub Written : TaskType → ℕ → Files → Type 0
  Written t i fs = (f : FileName) → Output job t i f → lookup f fs ≡ spec job f

  pub Output-Final : (t : TaskType) (i : ℕ) (f : FileName) → Output job t i f → Final f
  Output-Final task_map i f o = subst Final o.2 tt
  Output-Final task_reduce i f o = subst Final o tt
  Output-Final task_none i f o = elim o [ ]
  Output-Final task_exit i f o = elim o [ ]

  -- A worker is in the middle of its task, and each output is there or will be written.
  pub record OnTask (pid : ℕ) (w : Work) (fs : Files) : Type 0 where
    pub pending : Pending (spec job) pid fs w.left
    pub promised :
        (f : FileName)
        → Output job w.type w.task_id f
        → (lookup f fs ≡ spec job f) ⊎ Target f w.left

  pub record Inv (sys : System) : Type 0 where
    pub valid : IsValid sys.coordinator
    pub same_files : sys.coordinator.files ≡ job.inputs
    pub same_reduce : sys.coordinator.n_reduce ≡ job.n_reduce
    pub same_inputs : (f : GoString) → lookup (input f) sys.files ≡ lookup (input f) job.start
    pub on_task : (pid : ℕ) (w : Work) → sys.work pid ≡ some w → OnTask pid w sys.files
    pub written : (t : TaskType) (i : ℕ) → Finished sys.coordinator t i → Written t i sys.files

  -- An operation of one worker keeps what is right, and leaves the other workers' temporary files.
  module _ (pid : ℕ) (op : Option (FileName × GoString)) (o : FileOp) (ops : List FileOp)
      (fs : Files) (p : OpenIn (spec job) pid fs op) (h : Follows (spec job) pid op (o ∷ ops)) where
    pub keeps_right :
        (f : FileName) → Final f → lookup f fs ≡ spec job f → lookup f (run_op o fs) ≡ spec job f
    keeps_right f final e =
        elim (Pending-keeps (spec job) pid op o ops fs f p h (λ t. Temp-Final pid f t final)) [
          | inl same ↦ same ∙ e
          | inr right ↦ right.0
        ]

    pub keeps_same :
        (f : FileName) → ¬ Temp pid f → ¬ Final f → lookup f (run_op o fs) ≡ lookup f fs
    keeps_same f t final = elim (Pending-keeps (spec job) pid op o ops fs f p h t) [
      | inl same ↦ same
      | inr right ↦ absurd (final right.1)
    ]

    keeps_open :
        (q : ℕ) (op' : Option (FileName × GoString))
        → pid ≢ q
        → OpenIn (spec job) q fs op'
        → OpenIn (spec job) q (run_op o fs) op'
    keeps_open q none ne _ = tt
    keeps_open q (some (t, old)) ne (mine, e) =
        (mine, keeps_same t (λ his. ne (Temp-unique pid q t his mine)) (Temp-Final q t mine) ∙ e)

    pub keeps_OnTask : (q : ℕ) (w : Work) → pid ≢ q → OnTask q w fs → OnTask q w (run_op o fs)
    keeps_OnTask q w ne t =
        let (op', open', follows) = t.pending in
        record {
          pending = (op', keeps_open q op' ne open', follows);
          promised = λ f out. elim (t.promised f out) [
            | inl e ↦ inl (keeps_right f (Output-Final w.type w.task_id f out) e)
            | inr e ↦ inr e
          ];
        }
