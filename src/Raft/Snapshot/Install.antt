-- ===== src/Raft/Snapshot/Install.antt =====
-- The InstallSnapshot handler of a valid peer.
use mit_6824_raft.Prelude.{
  ◌+◌, ◌-◌, ◌≤◌, ◌<◌, ◌≡◌, ◌⊎◌, refl, ap, ◌∙◌, Option, none, some, List, length, get_elem?, leb,
  ltb, ◌==◌, arith, inl, inr, leb→le, ltb→lt, ltb→le, Returns, returned, Returns-bind, Returns-if,
  Returns-of, length-drop,
}
use mit_6824_raft.Raft.State.{
  Raft, Codec, Clock, ApplyMsg, LogEntry, last_log_index, term_at, entry_term, save, heed_leader,
}
use mit_6824_raft.Raft.Snapshot.{
  InstallSnapshotArgs, InstallSnapshotReply, installed_log, raise_applied, save_with, snapshot_msg,
  adopt_snapshot, install_snapshot,
}
use mit_6824_raft.Raft.Snapshot.Keeps.{trimmed_log_lem}
use mit_6824_raft.Raft.Durable.{clone_lem}
use mit_6824_raft.Raft.Log.{IsValid, length_pos, last_log_index_lem, term_at-some}
use mit_6824_raft.Raft.Append.Handler.{heed_leader-same, heed_leader-entry_at, heed_leader-IsValid}

module _ {C : Type 0} where
  -- Where the snapshot ends at a committed index of the log, it has the log's term there.
  abbrev pub RespectsLog : InstallSnapshotArgs → Raft C → Type 0
  RespectsLog args rf =
      rf.last_included_index < args.last_included_index
      → args.last_included_index ≤ rf.commit_index
      → term_at rf args.last_included_index ≡ some args.last_included_term

  -- The new log has the snapshot's term in front and still covers the commit index.
  record Covering (args : InstallSnapshotArgs) (rf : Raft C) (log : List (LogEntry C))
      : Type 0 where
    pub head : entry_term (get_elem? log 0) ≡ some args.last_included_term
    pub pos : 0 < length log
    pub covers : rf.commit_index < args.last_included_index + length log

  installed_log-Covering :
      (args : InstallSnapshotArgs) (rf : Raft C)
      → IsValid rf
      → rf.last_included_index < args.last_included_index
      → RespectsLog args rf
      → Returns (Covering args rf) (installed_log args rf)
  unfolding installed_log
  installed_log-Covering args rf v gt agree =
      let last = last_log_index_lem rf (length_pos rf v) in
      Returns-if _ (ltb args.last_included_index (last_log_index rf)) _ _
        (λ inside.
          let lt : args.last_included_index < rf.last_included_index + length rf.log =
            omega (arith, ltb→lt _ _ inside, last) in
          let (t, at) = term_at-some rf args.last_included_index (omega (arith, gt)) lt in
          Returns-bind (λ u. u ≡ t) _ (term_at rf args.last_included_index) _
            (Returns-of _ _ at refl)
            λ u e _.
              Returns-if _ (u == args.last_included_term) _ _
                (λ same.
                  Returns-of _ _
                    (trimmed_log_lem rf args.last_included_index (omega (arith, gt)) lt
                      args.last_included_term)
                    (record {
                      head = refl;
                      pos = omega arith;
                      covers = omega (
                        arith,
                        gt,
                        lt,
                        v.commit_lt,
                        length-drop (args.last_included_index - rf.last_included_index + 1) rf.log,
                      );
                    }))
                (λ differs. returned (record {
                  head = refl;
                  pos = omega arith;
                  covers = ground (arith, agree gt, e, differs);
                })))
        (λ beyond. returned (record {
          head = refl;
          pos = omega arith;
          covers = omega (arith, ltb→le _ _ beyond, last, v.commit_lt);
        }))

module _ {C : Type 0} where
  -- What the handler does: nothing to the log, and no message; or the snapshot is taken and sent.
  pub data Installed (args : InstallSnapshotArgs) (rf : Raft C)
      : Raft C × (InstallSnapshotReply × Option (ApplyMsg C)) → Type 0 where
    ignored :
        {rf' : Raft C} {reply : InstallSnapshotReply}
        → (args.term < rf.current_term) ⊎ (args.last_included_index ≤ rf.last_included_index)
        → rf'.last_included_index ≡ rf.last_included_index
        → rf'.log ≡ rf.log
        → IsValid rf'
        → Installed args rf (rf', (reply, none))
    installed :
        {rf' : Raft C} {reply : InstallSnapshotReply}
        → rf.current_term ≤ args.term
        → rf.last_included_index < args.last_included_index
        → rf'.last_included_index ≡ args.last_included_index
        → rf'.persister.snapshot ≡ args.bytes
        → args.last_included_index ≤ rf'.last_applied
        → rf.last_applied ≤ rf'.last_applied
        → IsValid rf'
        → Installed args rf (rf', (reply, some (snapshot_msg args)))

module _ {C : Type 0} ⦃codec : Codec C⦄ where
  -- The state with the new log, before it is stored.
  abbrev taken : InstallSnapshotArgs → Raft C → List (LogEntry C) → Raft C
  taken args rf log = raise_applied args.last_included_index (record rf {
    log = log;
    last_included_index = args.last_included_index;
    last_included_term = args.last_included_term;
  })

  taken-IsValid :
      (args : InstallSnapshotArgs) (rf : Raft C) (log : List (LogEntry C))
      → IsValid rf
      → Covering args rf log
      → IsValid (save_with args.bytes (taken args rf log))
  unfolding raise_applied save_with
  taken-IsValid args rf log v c = record {
    head = c.head;
    applied_le = ground (arith, v.applied_le);
    included_le = ground arith;
    commit_lt = ground (arith, c.pos, c.covers);
  }

  taken-applied :
      (args : InstallSnapshotArgs) (rf : Raft C) (log : List (LogEntry C))
      → let rf' = save_with args.bytes (taken args rf log) in
        (args.last_included_index ≤ rf'.last_applied)
        × (rf.last_applied ≤ rf'.last_applied)
        × (rf'.last_included_index ≡ args.last_included_index)
        × (rf'.persister.snapshot ≡ args.bytes)
  unfolding raise_applied save_with save
  taken-applied args rf log = (ground arith, ground arith, refl, clone_lem args.bytes)

  RespectsLog-heed_leader :
      (clk : Clock) (args : InstallSnapshotArgs) (rf : Raft C)
      → RespectsLog args rf
      → RespectsLog args (heed_leader clk args.term rf)
  unfolding term_at
  RespectsLog-heed_leader clk args rf agree above committed =
      let (log, inc, inct, comm, app) = heed_leader-same clk args.term rf in
      ap entry_term (heed_leader-entry_at clk args.term rf args.last_included_index)
      ∙ agree (omega (arith, above, inc)) (omega (arith, committed, comm))

  adopt_snapshot-Installed :
      (clk : Clock) (args : InstallSnapshotArgs) (rf : Raft C)
      → rf.current_term ≤ args.term
      → IsValid rf
      → RespectsLog args rf
      → Returns (Installed args rf) (adopt_snapshot args (heed_leader clk args.term rf))
  unfolding adopt_snapshot
  adopt_snapshot-Installed clk args rf le v agree =
      let rf' = heed_leader clk args.term rf in
      let v' = heed_leader-IsValid clk args.term rf v in
      let (log, inc, inct, comm, app) = heed_leader-same clk args.term rf in
      Returns-if _ (leb args.last_included_index rf'.last_included_index) _ _
        (λ old. returned (ignored (inr (omega (arith, leb→le _ _ old, inc))) inc log v'))
        λ newer.
          let gt : rf'.last_included_index < args.last_included_index = ground (arith, newer) in
          Returns-bind (Covering args rf') _ (installed_log args rf') _
            (installed_log-Covering args rf' v' gt (RespectsLog-heed_leader clk args rf agree))
            λ new e c.
              let a = taken-applied args rf' new in
              returned (
                installed le (omega (arith, gt, inc)) a.2 a.3 a.0 (omega (arith, a.1, app))
                  (taken-IsValid args rf' new v' c))

  -- On a valid peer, for a snapshot that does not contradict what the peer has committed,
  -- InstallSnapshot does not panic and leaves a valid peer. A request of an older term, or for a
  -- snapshot that is not ahead of the peer's, leaves the log and sends the service no message. Any
  -- other is stored, moves the peer's snapshot and what counts as applied to its index, never back,
  -- and is sent to the service.
  pub install_snapshot_total :
      (clk : Clock) (args : InstallSnapshotArgs) (rf : Raft C)
      → IsValid rf
      → RespectsLog args rf
      → Returns (Installed args rf) (install_snapshot clk args rf)
  unfolding install_snapshot
  install_snapshot_total clk args rf v agree =
      Returns-if _ (ltb args.term rf.current_term) _ _
        (λ old. returned (ignored (inl (ltb→lt _ _ old)) refl refl v))
        (λ fresh. adopt_snapshot-Installed clk args rf (ltb→le _ _ fresh) v agree)
