-- ===== src/Manager/Restore.antt =====
-- controller/base_env_manager.py: `restore` and its template `_restore_current_branch`.
use state_fork.Prelude.{ℕ, String, Bool, true, false, Option, none, some, List, [], ◌∷◌}
use state_fork.Exec.{pure, gets, modify, ◌>>=◌, ◌>>◌}
use state_fork.Dict.{get}
use state_fork.Manager.State.{Op, Hooks, Command, SnapshotNode}
use state_fork.Manager.Branches.{get_branch_state, set_branch_position}
use state_fork.Manager.Snapshot.{note}
use state_fork.Manager.Ancestry.{Walk, arrived, gave_up, resolve}
use state_fork.Manager.Exec.{exec_command}

module _ {E : Type 0} (h : Hooks E) where
  -- The loop over `replay_commands`: an exit code other than zero is only logged.
  unfoldable pub replay : List Command → Op E Unit
  replay [] = pure tt
  replay (command ∷ commands) = do exec_command h command none; replay commands

  -- What follows `_core_restore`, by its result.
  unfoldable pub restore_entered : String → SnapshotNode → List Command → Bool × ℕ → Op E Bool
  restore_entered snapshot_id ancestor commands (false, elapsed) = pure false
  restore_entered snapshot_id ancestor commands (true, elapsed) = do
    active ← gets (λ m. m.current_branch_id)
    modify (note "restore" ancestor.snapshot_id elapsed active)
    replay commands
    modify (set_branch_position active (some snapshot_id))
    pure true

  unfoldable pub restore_from : String → String → SnapshotNode → List Command → Op E Bool
  restore_from snapshot_id departing ancestor commands = do
    entered ← h.core_restore ancestor.snapshot_id departing
    restore_entered snapshot_id ancestor commands entered

  -- What `_restore_current_branch` does with the outcome of the walk.
  unfoldable pub restore_walked : String → String → Option Walk → Op E Bool
  restore_walked snapshot_id departing (some (arrived ancestor commands)) =
      restore_from snapshot_id departing ancestor commands
  restore_walked snapshot_id departing (some (gave_up reason)) = pure false
  restore_walked snapshot_id departing none = pure false

  unfoldable pub restore_found : String → String → Option SnapshotNode → Op E Bool
  restore_found snapshot_id departing none = pure false
  restore_found snapshot_id departing (some node) = do
    graph ← gets (λ m. m.snapshot_graph)
    restore_walked snapshot_id departing (resolve graph node)

  unfoldable pub restore : String → Op E Bool
  restore snapshot_id = do
    current ← gets (λ m. m.current_branch_id)
    departing ← get_branch_state current
    node ← gets (λ m. get m.snapshot_graph snapshot_id)
    restore_found snapshot_id departing.branch_id node
