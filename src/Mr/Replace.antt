-- ===== src/Mr/Replace.antt =====
-- Files that are written under a temporary name and renamed.
use mathlib.Core.List.{append-nil, append_assoc}
use mit_6824_raft.Prelude.{
  ◌≡◌, ◌≢◌, refl, none, some, List, [], ◌∷◌, ◌++◌, GoString, insert, erase, lookup, ap, beq_refl,
  if_true, ◌∙◌, lookup-insert, lookup-erase, lookup-insert_self, if◌then◌else◌, arith,
}
use mit_6824_raft.Mr.Files.{
  FileName, Files, FileOp, create, write, rename, name_eq, run_op, run_ops, write_all, replace_file,
  concat,
}

pub run_ops-append :
    (xs ys : List FileOp) (fs : Files) → run_ops (xs ++ ys) fs ≡ run_ops ys (run_ops xs fs)
unfolding run_ops
run_ops-append [] ys fs = refl
run_ops-append (o ∷ xs) ys fs = run_ops-append xs ys (run_op o fs)

pub run_op-write :
    (f : FileName) (text : GoString) (fs : Files) {old : GoString}
    → lookup f fs ≡ some old
    → run_op (write f text) fs ≡ insert f (old ++ text) fs
unfolding run_op
run_op-write f text fs e = rw (e, run_op) refl

pub run_op-rename :
    (f g : FileName) (fs : Files) {text : GoString}
    → lookup f fs ≡ some text
    → run_op (rename f g) fs ≡ insert g text (erase f fs)
unfolding run_op
run_op-rename f g fs e = rw (e, run_op) refl

write_all-lookup :
    (tmp f : FileName) (texts : List GoString) (fs : Files) {old : GoString}
    → lookup tmp fs ≡ some old
    → lookup f (run_ops (write_all tmp texts) fs)
      ≡ (if name_eq.beq tmp f then some (old ++ concat texts) else lookup f fs)
unfolding run_ops write_all concat
write_all-lookup tmp f [] fs {old} e = grind (arith, name_eq.beq_iff tmp f, append-nil old, e)
write_all-lookup tmp f (text ∷ texts) fs {old} e =
    let fs' = insert tmp (old ++ text) fs in
    ap (λ x. lookup f (run_ops (write_all tmp texts) x)) (run_op-write tmp text fs e)
    ∙ write_all-lookup tmp f texts fs' (lookup-insert_self tmp (old ++ text) fs)
    ∙ grind (arith, append_assoc old text (concat texts), lookup-insert tmp f (old ++ text) fs)

-- After it the final file holds all of the texts, the temporary one is gone, and every other file
-- is as before.
pub replace_file-lookup :
    (tmp final f : FileName) (texts : List GoString) (fs : Files)
    → tmp ≢ final
    → lookup f (run_ops (replace_file tmp final texts) fs) ≡ (
        if name_eq.beq final f
        then some (concat texts)
        else if name_eq.beq tmp f
        then none
        else lookup f fs)
unfolding run_ops replace_file run_op
replace_file-lookup tmp final f texts fs ne =
    let fs' = run_op (create tmp) fs in
    let fs'' = run_ops (write_all tmp texts) fs' in
    let made : lookup tmp fs' ≡ some [] = lookup-insert_self tmp [] fs in
    let written : lookup tmp fs'' ≡ some (concat texts) =
      write_all-lookup tmp tmp texts fs' made ∙ if_true _ _ (beq_refl tmp) in
    ap (lookup f) (run_ops-append (write_all tmp texts) (rename tmp final ∷ []) fs')
    ∙ ap (lookup f) (run_op-rename tmp final fs'' written)
    ∙ lookup-insert final f (concat texts) (erase tmp fs'')
    ∙ grind (
      arith,
      lookup-erase tmp f fs'',
      write_all-lookup tmp f texts fs' made,
      lookup-insert tmp f [] fs,
    )
