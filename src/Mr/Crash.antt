-- ===== src/Mr/Crash.antt =====
-- mr/worker.go: what the temporary files and the renames are for. Workers whose operations come in any
-- order, and that stop at any point, never leave a part of an output under its final name. `spec`
-- says what each output file is to hold.
use mathlib.Core.List.{append-nil, append_assoc}
use mit_6824_raft.Prelude.{
  ℕ, ◌≡◌, ◌∙◌, ◌⊎◌, inl, inr, refl, ap, sym, subst, false, Option, none, some, List, [], ◌∷◌, ◌++◌,
  GoString, if◌then◌else◌, if_true, if_false, Bool-cases, lookup, insert, erase, lookup-insert,
  lookup-erase, lookup-insert_self,
}
use mit_6824_raft.Mr.Files.{
  FileName, input, map_out, map_tmp, reduce_out, reduce_tmp, Files, FileOp, create, write, rename,
  name_eq, run_op, write_all, replace_file, concat,
}
use mit_6824_raft.Mr.Replace.{run_op-write, run_op-rename}

-- The temporary files of the process `pid`, and the output files.
abbrev pub Temp : ℕ → FileName → Type 0
Temp pid (map_tmp p m r) = p ≡ pid
Temp pid (reduce_tmp p r) = p ≡ pid
Temp pid _ = ⊥

abbrev pub Final : FileName → Type 0
Final (map_out m r) = Unit
Final (reduce_out r) = Unit
Final _ = ⊥

pub Temp-Final : (pid : ℕ) (f : FileName) → Temp pid f → ¬ Final f
Temp-Final pid (input s) p q = q
Temp-Final pid (map_out m r) p q = p
Temp-Final pid (map_tmp i m r) p q = q
Temp-Final pid (reduce_out r) p q = p
Temp-Final pid (reduce_tmp i r) p q = q

pub Temp-unique : (i j : ℕ) (f : FileName) → Temp i f → Temp j f → i ≡ j
Temp-unique i j (input s) p q = elim p [ ]
Temp-unique i j (map_out m r) p q = elim p [ ]
Temp-unique i j (map_tmp k m r) p q = sym p ∙ q
Temp-unique i j (reduce_out r) p q = elim p [ ]
Temp-unique i j (reduce_tmp k r) p q = sym p ∙ q

-- The final names that are yet to be written.
abbrev pub Target : FileName → List FileOp → Type 0
Target f [] = ⊥
Target f (create g ∷ ops) = Target f ops
Target f (write g text ∷ ops) = Target f ops
Target f (rename g to ∷ ops) = (to ≡ f) ⊎ Target f ops

module _ (spec : FileName → Option GoString) (pid : ℕ) where
  -- What a worker has yet to do, by the file that it has open and the text written to that.
  abbrev pub Follows : Option (FileName × GoString) → List FileOp → Type 0
  Follows none [] = Unit
  Follows none (create f ∷ ops) = Temp pid f × Follows (some (f, [])) ops
  Follows none (write f text ∷ ops) = ⊥
  Follows none (rename f g ∷ ops) = ⊥
  Follows (some (t, old)) [] = ⊥
  Follows (some (t, old)) (create f ∷ ops) = ⊥
  Follows (some (t, old)) (write f text ∷ ops) = (f ≡ t) × Follows (some (t, old ++ text)) ops
  Follows (some (t, old)) (rename f g ∷ ops) =
      (f ≡ t) × Final g × (spec g ≡ some old) × Follows none ops

  abbrev pub OpenIn : Files → Option (FileName × GoString) → Type 0
  OpenIn fs none = Unit
  OpenIn fs (some (t, old)) = Temp pid t × (lookup t fs ≡ some old)

  abbrev pub Pending : Files → List FileOp → Type 0
  Pending fs ops = (o : Option (FileName × GoString)) × OpenIn fs o × Follows o ops

  held :
      (t g : FileName) (fs : Files) {old : GoString}
      → g ≡ t
      → lookup t fs ≡ some old
      → lookup g fs ≡ some old
  held t g fs same e = ap (λ x. lookup x fs) same ∙ e

  other : (g f : FileName) → Temp pid g → ¬ Temp pid f → name_eq.beq g f ≡ false
  other g f p out = elim (Bool-cases (name_eq.beq g f)) [
    | inl e ↦ absurd (out (subst (Temp pid) ((name_eq.beq_iff g f).0 e) p))
    | inr e ↦ e
  ]

  pub Pending-step :
      (op : Option (FileName × GoString)) (o : FileOp) (ops : List FileOp) (fs : Files)
      → OpenIn fs op
      → Follows op (o ∷ ops)
      → Pending (run_op o fs) ops
  unfolding run_op
  Pending-step none (create f) ops fs _ (t, h) = (some (f, []), (t, lookup-insert_self f [] fs), h)
  Pending-step none (write f text) ops fs _ h = elim h [ ]
  Pending-step none (rename f g) ops fs _ h = elim h [ ]
  Pending-step (some (t, old)) (create f) ops fs _ h = elim h [ ]
  Pending-step (some (t, old)) (write f text) ops fs (p, e) (same, h) = (
    some (t, old ++ text),
    (
      p,
      ap (lookup t) (run_op-write f text fs (held t f fs same e))
          ∙ ap (λ x. lookup t (insert x (old ++ text) fs)) same
          ∙ lookup-insert_self t (old ++ text) fs,
    ),
    h,
  )
  Pending-step (some (t, old)) (rename f g) ops fs p (same, final, right, h) = (none, tt, h)

  -- An operation leaves a file that is not its own temporary one as it was, or with what the file
  -- is to hold.
  pub Pending-keeps :
      (op : Option (FileName × GoString)) (o : FileOp) (ops : List FileOp) (fs : Files)
      (f : FileName)
      → OpenIn fs op
      → Follows op (o ∷ ops)
      → ¬ Temp pid f
      → (lookup f (run_op o fs) ≡ lookup f fs) ⊎ ((lookup f (run_op o fs) ≡ spec f) × Final f)
  unfolding run_op
  Pending-keeps none (create g) ops fs f _ (t, h) out =
      inl (lookup-insert g f [] fs ∙ if_false _ _ (other g f t out))
  Pending-keeps none (write g text) ops fs f _ h out = elim h [ ]
  Pending-keeps none (rename g g') ops fs f _ h out = elim h [ ]
  Pending-keeps (some (t, old)) (create g) ops fs f _ h out = elim h [ ]
  Pending-keeps (some (t, old)) (write g text) ops fs f (p, e) (same, h) out = inl (
      ap (lookup f) (run_op-write g text fs (held t g fs same e))
      ∙ lookup-insert g f (old ++ text) fs
      ∙ if_false _ _ (other g f (subst (Temp pid) (sym same) p) out))
  Pending-keeps (some (t, old)) (rename g to) ops fs f (p, e) (same, final, right, h) out =
      let run : lookup f (run_op (rename g to) fs)
          ≡ (if name_eq.beq to f then some old else lookup f (erase g fs)) =
        ap (lookup f) (run_op-rename g to fs (held t g fs same e))
        ∙ lookup-insert to f old (erase g fs) in
      elim (Bool-cases (name_eq.beq to f)) [
        | inl e ↦
            let is : to ≡ f = (name_eq.beq_iff to f).0 e in
            inr (run ∙ if_true _ _ e ∙ sym right ∙ ap spec is, subst Final is final)
        | inr e ↦ inl (
            run
            ∙ if_false _ _ e
            ∙ lookup-erase g f fs
            ∙ if_false _ _ (other g f (subst (Temp pid) (sym same) p) out))
      ]

  -- A final file that is to be written is there once no operation that writes it is left.
  pub Target-step :
      (op : Option (FileName × GoString)) (o : FileOp) (ops : List FileOp) (fs : Files)
      (f : FileName)
      → OpenIn fs op
      → Follows op (o ∷ ops)
      → Target f (o ∷ ops)
      → (lookup f (run_op o fs) ≡ spec f) ⊎ Target f ops
  unfolding run_op
  Target-step op (create g) ops fs f p h t = inr t
  Target-step op (write g text) ops fs f p h t = inr t
  Target-step none (rename g to) ops fs f p h t = elim h [ ]
  Target-step (some (u, old)) (rename g to) ops fs f p h (inr t) = inr t
  Target-step (some (u, old)) (rename g to) ops fs f (p, e) (same, final, right, h) (inl is) = inl (
      ap (lookup f) (run_op-rename g to fs (held u g fs same e))
      ∙ lookup-insert to f old (erase g fs)
      ∙ if_true _ _ ((name_eq.beq_iff to f).1 is)
      ∙ sym right
      ∙ ap spec is)

  Follows-writes :
      (tmp final : FileName) (old : GoString) (texts : List GoString) (rest : List FileOp)
      → Final final
      → spec final ≡ some (old ++ concat texts)
      → Follows none rest
      → Follows (some (tmp, old)) (write_all tmp texts ++ rename tmp final ∷ rest)
  unfolding write_all concat
  Follows-writes tmp final old [] rest f e h = (refl, f, e ∙ ap some (append-nil old), h)
  Follows-writes tmp final old (text ∷ texts) rest f e h = (
    refl,
    Follows-writes tmp final (old ++ text) texts rest f
        (e ∙ ap some (sym (append_assoc old text (concat texts)))) h,
  )

  -- A whole output file that is written under a temporary name.
  pub Follows-replace_file :
      (tmp final : FileName) (texts : List GoString) (rest : List FileOp)
      → Temp pid tmp
      → Final final
      → spec final ≡ some (concat texts)
      → Follows none rest
      → Follows none (replace_file tmp final texts ++ rest)
  unfolding replace_file
  Follows-replace_file tmp final texts rest t f e h = (
    t,
    subst (Follows (some (tmp, [])))
        (sym (append_assoc (write_all tmp texts) (rename tmp final ∷ []) rest))
        (Follows-writes tmp final [] texts rest f e h),
  )

pub Target-append_right : (f : FileName) (xs ys : List FileOp) → Target f ys → Target f (xs ++ ys)
Target-append_right f [] ys t = t
Target-append_right f (create g ∷ xs) ys t = Target-append_right f xs ys t
Target-append_right f (write g text ∷ xs) ys t = Target-append_right f xs ys t
Target-append_right f (rename g to ∷ xs) ys t = inr (Target-append_right f xs ys t)

pub Target-append_left : (f : FileName) (xs ys : List FileOp) → Target f xs → Target f (xs ++ ys)
Target-append_left f [] ys t = elim t [ ]
Target-append_left f (create g ∷ xs) ys t = Target-append_left f xs ys t
Target-append_left f (write g text ∷ xs) ys t = Target-append_left f xs ys t
Target-append_left f (rename g to ∷ xs) ys (inl e) = inl e
Target-append_left f (rename g to ∷ xs) ys (inr t) = inr (Target-append_left f xs ys t)

pub Target-replace_file :
    (tmp final : FileName) (texts : List GoString) → Target final (replace_file tmp final texts)
unfolding replace_file
Target-replace_file tmp final texts =
    Target-append_right final (write_all tmp texts) (rename tmp final ∷ []) (inl refl)
