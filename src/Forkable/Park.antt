-- ===== src/Forkable/Park.antt =====
-- controller/forkable_env_manager.py: `park_branch`, and the operations on a named branch.
use state_fork.Prelude.{
  ℕ, String, Bool, true, false, Option, none, some, ◌||◌, not, if◌then◌else◌, ◌==◌, ◌<>◌,
}
use state_fork.Exec.{
  Exec, Result, ok, err, key_error, ErrorKind, pure, modify, attempt, ◌>>=◌, ◌>>◌,
}
use state_fork.Dict.{get}
use state_fork.Manager.State.{Command, ExecResult, BranchState, default_branch_id}
use state_fork.Manager.Branches.{set_current_branch, record_snapshot_node}
use state_fork.Manager.Snapshot.{note, physical_node, snapshot_branch as snapshot_registered}
use state_fork.Manager.Exec.{exec_branch, failed_exec}
use state_fork.Manager.Copy.{copy_branch}
use state_fork.Forkable.State.{ForkOp, ForkHooks, is_live}
use state_fork.Forkable.Branches.{forget_branch}
use state_fork.Forkable.Restore.{hooks}

-- `try: …  except KeyError: …`; any other exception goes on.
unfoldable pub handled : {A : Type 0} → A → ErrorKind → String → Result A
handled a key_error message = ok a
handled a kind message = err (record { kind = kind; message = message })

unfoldable pub or_key_error : {S A : Type 0} → A → Exec S A → Exec S A
or_key_error a m = do
  outcome ← attempt m
  elim outcome [ ok b ↦ pure b | err e ↦ λ s. (handled a e.kind e.message, s) ]

module _ {D B : Type 0} where
  -- Parking the current branch makes `main` the current one.
  unfoldable pub leave_branch : String → ForkOp D B Unit
  leave_branch branch_id m =
      if branch_id == m.current_branch_id
      then set_current_branch default_branch_id m
      else (ok tt, m)

  -- What follows `_core_park_branch`, by its result.
  unfoldable pub park_captured :
      String → Option String → Option String × ℕ → ForkOp D B (Option String)
  park_captured branch_id parent_id (none, elapsed) = pure none
  park_captured branch_id parent_id (some snapshot_id, elapsed) = do
    modify (record_snapshot_node (physical_node snapshot_id parent_id))
    modify (note "park" snapshot_id elapsed branch_id)
    leave_branch branch_id
    modify (forget_branch branch_id)
    pure (some snapshot_id)

module _ {D B : Type 0} (h : ForkHooks D B) where
  unfoldable pub park_active : String → BranchState → ForkOp D B (Option String)
  park_active branch_id state = do
    parked ← h.core_park_branch branch_id
    park_captured branch_id state.last_snapshot_id parked

  unfoldable pub park_branch : String → ForkOp D B (Option String)
  park_branch branch_id m =
      if branch_id == default_branch_id || not (is_live m branch_id)
      then (ok none, m)
      else elim (get m.branches branch_id) [
        | none ↦ (ok none, m)
        | some state ↦ if state.active then park_active branch_id state m else (ok none, m)
      ]

  unfoldable pub snapshot_branch : String → Bool → ForkOp D B (Option String)
  snapshot_branch branch_id true m = park_branch branch_id m
  snapshot_branch branch_id false m =
      if is_live m branch_id
      then or_key_error none (snapshot_registered (hooks h) branch_id true) m
      else (ok none, m)

  unfoldable pub exec_on_branch : String → Command → Option ℕ → ForkOp D B ExecResult
  exec_on_branch branch_id command timeout m =
      if is_live m branch_id
      then or_key_error (failed_exec ("Branch " <> branch_id <> " is no longer registered."))
          (exec_branch (hooks h) branch_id command timeout) m
      else (ok (failed_exec ("Branch " <> branch_id <> " not found.")), m)

  unfoldable pub copy_in_branch : String → String → String → ForkOp D B Bool
  copy_in_branch branch_id host_src path m =
      if is_live m branch_id
      then or_key_error false (copy_branch (hooks h) branch_id host_src path true) m
      else (ok false, m)

  unfoldable pub copy_out_branch : String → String → String → ForkOp D B Bool
  copy_out_branch branch_id path host_dst m =
      if is_live m branch_id
      then or_key_error false (copy_branch (hooks h) branch_id host_dst path false) m
      else (ok false, m)
