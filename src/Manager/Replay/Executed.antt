-- ===== src/Manager/Replay/Executed.antt =====
-- One command, and a list of commands, on the current branch of a sequential manager.
use state_fork.Prelude.{
  ℕ, ◌≡◌, refl, ap, ◌∙◌, sym, true, Option, none, some, List, [], ◌∷◌, ◌++◌, arith, eq_refl,
  append_assoc, append-nil,
}
use state_fork.Exec.{Result, ok, err}
use state_fork.Dict.{get}
use state_fork.Dict.Laws.{get-update}
use state_fork.Manager.State.{Manager, Command, ExecResult, BranchState}
use state_fork.Manager.Branches.{get_branch_state, update_branch}
use state_fork.Manager.Snapshot.{ask, note}
use state_fork.Manager.Exec.{
  exec_command, exec_branch, exec_active, exec_finished, log_command, log_timed_command,
}
use state_fork.Manager.Restore.{replay}
use state_fork.Manager.Replay.{
  Outside, IsFaithful, Kept, Kept-trans, Kept-refl, sequential, run_all,
}

module _ {E S : Type 0} (o : Outside E S) where
  -- From `m`, where the current branch has the state `before`, the commands `cs` led to `m'`.
  pub record Executed (m : Manager E) (before : BranchState) (cs : List Command) (m' : Manager E)
      : Type 0 where
    pub after : BranchState
    pub same_branch : m'.current_branch_id ≡ m.current_branch_id
    pub at : get m'.branches m'.current_branch_id ≡ some after
    pub active : after.active ≡ true
    pub last : after.last_snapshot_id ≡ before.last_snapshot_id
    pub log : after.command_log ≡ before.command_log ++ cs
    pub ran : o.live m'.extra ≡ run_all o cs (o.live m.extra)
    pub graph : m'.snapshot_graph ≡ m.snapshot_graph
    pub kept : Kept o m.extra m'.extra

  -- The bookkeeping after a command, by either outcome.
  exec_finished-Executed :
      (c : Command) (elapsed : ℕ) (r : Result ExecResult) (m m₁ : Manager E) (st : BranchState)
      → get m.branches m.current_branch_id ≡ some st
      → st.active ≡ true
      → m₁ ≡ record m { extra = m₁.extra }
      → o.live m₁.extra ≡ o.run c (o.live m.extra)
      → Kept o m.extra m₁.extra
      → (x : ExecResult) × ((exec_finished m.current_branch_id c st elapsed r m₁).0 ≡ ok x)
        × Executed m st (c ∷ []) (exec_finished m.current_branch_id c st elapsed r m₁).1
  unfolding exec_finished update_branch note log_command log_timed_command
  exec_finished-Executed c elapsed (err e) m m₁ st at active same ran kept = (
    _,
    refl,
    record {
      after = log_command c st;
      same_branch = ap (λ (x : Manager E). x.current_branch_id) same;
      at = ground (
        arith,
        get-update m₁.branches m.current_branch_id m₁.current_branch_id (log_command c),
        eq_refl m.current_branch_id,
      );
      active = active;
      last = refl;
      log = refl;
      ran = ran;
      graph = ap (λ (x : Manager E). x.snapshot_graph) same;
      kept = kept;
    },
  )
  exec_finished-Executed c elapsed (ok r) m m₁ st at active same ran kept = (
    r,
    refl,
    record {
      after = log_timed_command c elapsed st;
      same_branch = ap (λ (x : Manager E). x.current_branch_id) same;
      at = ground (
        arith,
        get-update m₁.branches m.current_branch_id m₁.current_branch_id
            (log_timed_command c elapsed),
        eq_refl m.current_branch_id,
      );
      active = active;
      last = refl;
      log = refl;
      ran = ran;
      graph = ap (λ (x : Manager E). x.snapshot_graph) same;
      kept = kept;
    },
  )

  module _ (f : IsFaithful o) where
    exec_active-Executed :
        (c : Command) (t : Option ℕ) (m : Manager E) (st : BranchState)
        → get m.branches m.current_branch_id ≡ some st
        → st.active ≡ true
        → (x : ExecResult) × ((exec_active (sequential o) m.current_branch_id c t st m).0 ≡ ok x)
          × Executed m st (c ∷ []) (exec_active (sequential o) m.current_branch_id c t st m).1
    unfolding exec_active ask sequential
    exec_active-Executed c t m st at active =
        exec_finished-Executed c _ _ m _ st at active refl
          (f.time_live _ ∙ f.exec_runs c t m.current_branch_id _ ∙ ap (o.run c) (f.time_live _))
          (Kept-trans o (f.time_keeps _)
            (Kept-trans o (f.exec_keeps c t m.current_branch_id _) (f.time_keeps _)))

    -- A command that is executed on the current branch runs, is logged, and does not raise.
    pub exec_command-Executed :
        (c : Command) (t : Option ℕ) (m : Manager E) (st : BranchState)
        → get m.branches m.current_branch_id ≡ some st
        → st.active ≡ true
        → (x : ExecResult) × ((exec_command (sequential o) c t m).0 ≡ ok x)
          × Executed m st (c ∷ []) (exec_command (sequential o) c t m).1
    unfolding exec_command exec_branch get_branch_state
    exec_command-Executed c t m st at active =
        rw (at, exec_command, exec_branch, get_branch_state)
          (simp active (exec_active-Executed c t m st at active))

    -- The replay of a list of commands runs them all in order.
    pub replay-Executed :
        (cs : List Command) (m : Manager E) (st : BranchState)
        → get m.branches m.current_branch_id ≡ some st
        → st.active ≡ true
        → ((replay (sequential o) cs m).0 ≡ ok tt) × Executed m st cs (replay (sequential o) cs m).1
    unfolding replay
    replay-Executed [] m st at active = (
      refl,
      record {
        after = st;
        same_branch = refl;
        at = at;
        active = active;
        last = refl;
        log = sym (append-nil st.command_log);
        ran = refl;
        graph = refl;
        kept = Kept-refl o m.extra;
      },
    )
    replay-Executed (c ∷ cs) m st at active =
        let (x, done, first) = exec_command-Executed c none m st at active in
        let (ended, rest) =
          replay-Executed cs (exec_command (sequential o) c none m).1 first.after first.at
            first.active in
        rw (done, replay)
          (
            ended,
            record {
              after = rest.after;
              same_branch = rest.same_branch ∙ first.same_branch;
              at = rest.at;
              active = rest.active;
              last = rest.last ∙ first.last;
              log =
                  rest.log ∙ ap (λ l. l ++ cs) first.log ∙ append_assoc st.command_log (c ∷ []) cs;
              ran = rest.ran ∙ ap (run_all o cs) first.ran;
              graph = rest.graph ∙ first.graph;
              kept = Kept-trans o first.kept rest.kept;
            },
          )
