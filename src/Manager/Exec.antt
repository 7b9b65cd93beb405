-- ===== src/Manager/Exec.antt =====
-- controller/base_env_manager.py: `exec_command` and its template `_exec_branch`.
use state_fork.Prelude.{
  ℕ, ◌+◌, ◌-◌, String, Option, none, some, [], ◌∷◌, ◌++◌, or_else, if◌then◌else◌, nonempty, ◌<>◌,
}
use state_fork.Exec.{Result, ok, err, attempt, pure, gets, modify, ◌>>=◌, ◌>>◌}
use state_fork.Dict.{get}
use state_fork.Manager.State.{Manager, Op, Hooks, Command, BranchState, ExecResult, backend_failed}
use state_fork.Manager.Branches.{get_branch_state, update_branch}
use state_fork.Manager.Snapshot.{ask, note}

abbrev pub failed_exec : String → ExecResult
failed_exec message = record { returncode = backend_failed; stdout = ""; stderr = message }

pub no_longer_active : String → String
no_longer_active branch_id = "Branch " <> branch_id <> " is no longer active."

unfoldable pub log_command : Command → BranchState → BranchState
log_command command state = record state { command_log = state.command_log ++ command ∷ [] }

unfoldable pub log_timed_command : Command → ℕ → BranchState → BranchState
log_timed_command command elapsed state = record state {
  cumulative_exec_time = state.cumulative_exec_time + elapsed;
  command_log = state.command_log ++ command ∷ [];
}

-- `snapshot_id or "<none>"`
unfoldable pub snapshot_label : Option String → String
snapshot_label none = "<none>"
snapshot_label (some snapshot_id) = if nonempty snapshot_id then snapshot_id else "<none>"

module _ {E : Type 0} where
  -- `state.current_snapshot_id or "<none>"`, read through the fetched `state`
  unfoldable pub target_snapshot : String → BranchState → Manager E → String
  target_snapshot branch_id fetched m =
      let state = or_else (get m.branches branch_id) fetched in
      snapshot_label state.current_snapshot_id

  -- What follows `_core_exec`. Where it raised, the command is logged and its time is not counted.
  unfoldable pub exec_finished :
      String → Command → BranchState → ℕ → Result ExecResult → Op E ExecResult
  exec_finished branch_id command state elapsed (err exc) = do
    modify (update_branch branch_id (log_command command))
    target ← gets (target_snapshot branch_id state)
    modify (note "exec" target elapsed branch_id)
    pure (failed_exec exc.message)
  exec_finished branch_id command state elapsed (ok result) = do
    modify (update_branch branch_id (log_timed_command command elapsed))
    target ← gets (target_snapshot branch_id state)
    modify (note "exec" target elapsed branch_id)
    pure result

module _ {E : Type 0} (h : Hooks E) where
  unfoldable pub exec_active : String → Command → Option ℕ → BranchState → Op E ExecResult
  exec_active branch_id command timeout state = do
    start ← ask h.time
    outcome ← attempt (h.core_exec command timeout branch_id)
    stop ← ask h.time
    exec_finished branch_id command state (stop - start) outcome

  unfoldable pub exec_branch : String → Command → Option ℕ → Op E ExecResult
  exec_branch branch_id command timeout = do
    state ← get_branch_state branch_id
    if state.active
        then exec_active branch_id command timeout state
        else pure (failed_exec (no_longer_active branch_id))

  unfoldable pub exec_command : Command → Option ℕ → Op E ExecResult
  exec_command command timeout = do
    branch_id ← gets (λ m. m.current_branch_id)
    exec_branch branch_id command timeout
