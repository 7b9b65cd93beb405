-- ===== src/Waypoint/Hooks.antt =====
-- controller/waypoint_env_manager.py: the other hooks of the backend.
use state_fork.Prelude.{
  ℕ, ◌-◌, String, Bool, true, false, Option, none, some, List, [], ◌∷◌, ◌<>◌, or_else,
  if◌then◌else◌, nonempty, truthy,
}
use state_fork.Exec.{ok, err, Result, ok, err, pure, attempt, ◌>>=◌}
use state_fork.Text.{join}
use state_fork.Manager.State.{Command, argv, line, ExecResult, backend_failed, timed_out}
use state_fork.Forkable.State.{ForkHooks}
use state_fork.Waypoint.State.{
  Tools, Session, WaypointOp, WaypointFork, ForkDetails, Ran, completed, expired,
}
use state_fork.Backends.Platform.{Completed}
use state_fork.Waypoint.Process.{run_waypoint, run_checked, in_world}
use state_fork.Exec.Recover.{recover, on_process_error}
use state_fork.Waypoint.Parse.{parse_fork_line}
use state_fork.Waypoint.Snapshots.{
  library, session_id, try_run, core_list_branches, core_snapshot, core_park_branch,
}

module _ {W : Type 0} (t : Tools W) where
  -- A run whose `CalledProcessError` is the answer `False`.
  unfoldable pub succeeds : List String → WaypointOp W Bool
  succeeds args = recover (on_process_error false) (run_checked t args >>= λ c. pure true)

  -- The second attempt, where the first one failed.
  unfoldable pub cleanup_forced : String → Bool → WaypointOp W Bool
  cleanup_forced session true = pure true
  cleanup_forced session false = succeeds ("cleanup" ∷ session ∷ "--force" ∷ [])

  unfoldable pub core_cleanup : WaypointOp W (Option Bool)
  core_cleanup = do
    session ← session_id t
    first ← succeeds ("cleanup" ∷ session ∷ [])
    cleaned ← cleanup_forced session first
    pure (some cleaned)

  -- command if isinstance(command, str) else shlex.join(command)
  unfoldable pub command_line : Command → String
  command_line (argv words) = join words
  command_line (line text) = text

  unfoldable pub exec_result : Option ℕ → Result Ran → ExecResult
  exec_result timeout (ok (completed c)) = record {
    returncode = c.returncode;
    stdout = c.stdout;
    stderr = c.stderr;
  }
  exec_result timeout (ok (expired out errors)) = record {
    returncode = timed_out;
    stdout = or_else out "";
    stderr = or_else errors "" <> ("\n[timeout after " <> (t.seconds timeout <> "s]"));
  }
  exec_result timeout (err e) = record {
    returncode = backend_failed;
    stdout = "";
    stderr = e.message;
  }

  -- `_exec_raw`
  unfoldable pub core_exec : Command → Option ℕ → String → WaypointOp W ExecResult
  core_exec command timeout fork_id m =
      let session = m.extra.backend.session_id in
      if nonempty session
      then (do
        ran ←
            attempt (
              run_waypoint t ("exec" ∷ session ∷ fork_id ∷ "--" ∷ command_line command ∷ [])
                timeout)
        pure (exec_result timeout ran))
          m
      else (
        ok (record {
          returncode = backend_failed;
          stdout = "";
          stderr = "No session_id available";
        }),
        m,
      )

  unfoldable pub copy_args : String → String → String → Bool → List String
  copy_args session host_path fork_ref true = "cp" ∷ session ∷ host_path ∷ fork_ref ∷ []
  copy_args session host_path fork_ref false = "cp" ∷ session ∷ fork_ref ∷ host_path ∷ []

  unfoldable pub copy_result : Result Completed → Bool × String
  copy_result (ok c) = (true, "")
  copy_result (err e) = (false, e.message)

  unfoldable pub core_copy : String → String → String → Bool → WaypointOp W (Bool × String)
  core_copy branch_id host_path env_path into m =
      let session = m.extra.backend.session_id in
      let host = t.abspath m.extra.backend.world host_path in
      if nonempty session
      then (do
        ran ← attempt (run_checked t (copy_args session host (branch_id <> ":" <> env_path) into))
        pure (copy_result ran))
          m
      else (ok (false, "No session_id available"), m)

  unfoldable pub core_discard_branch : String → WaypointOp W Bool
  core_discard_branch branch_id = do
    session ← session_id t
    succeeds ("destroy" ∷ session ∷ branch_id ∷ [])

  unfoldable pub fork_args : String → String → Option String → List String
  fork_args session snapshot_id fork_id =
      "fork"
      ∷ session
      ∷ snapshot_id
      ∷ (if truthy fork_id then "--id" ∷ or_else fork_id "" ∷ [] else [])

  -- What follows the command; `none` is a fork that failed or an output that cannot be parsed.
  unfoldable pub fork_ran : String → ℕ → Option Completed → WaypointOp W (Option (WaypointFork × ℕ))
  fork_ran snapshot_id start none = pure none
  fork_ran snapshot_id start (some c) = do
    stop ← library t t.time
    pure (elim (parse_fork_line c.stdout snapshot_id) [
      | none ↦ none
      | some fork ↦ some (fork, stop - start)
    ])

  unfoldable pub materialize : String → Option String → WaypointOp W (Option (WaypointFork × ℕ))
  materialize snapshot_id fork_id = do
    session ← session_id t
    start ← library t t.time
    ran ← try_run t (fork_args session snapshot_id fork_id)
    fork_ran snapshot_id start ran

  unfoldable pub with_outcome :
      Option (WaypointFork × ℕ) → List (WaypointFork × ℕ) → List (WaypointFork × ℕ)
  with_outcome none results = results
  with_outcome (some outcome) results = outcome ∷ results

  -- The pool runs the forks at the same time and gives their outcomes in the order of the requests;
  -- here they run one after another.
  unfoldable pub core_fork : String → List (Option String) → WaypointOp W (List (WaypointFork × ℕ))
  core_fork snapshot_id [] = pure []
  core_fork snapshot_id (requested ∷ more) = do
    outcome ← materialize snapshot_id requested
    results ← core_fork snapshot_id more
    pure (with_outcome outcome results)

  -- The backend, as the forkable class sees it.
  unfoldable pub waypoint : ForkHooks ForkDetails (Session W)
  waypoint = record {
    core_snapshot = core_snapshot t;
    core_cleanup = core_cleanup;
    core_exec = core_exec;
    core_copy = core_copy;
    core_fork = core_fork;
    core_discard_branch = core_discard_branch;
    core_park_branch = core_park_branch t;
    core_list_branches = core_list_branches t;
    coin = in_world t t.coin;
    uuid_hex = in_world t t.uuid_hex;
    time = in_world t t.time;
  }
