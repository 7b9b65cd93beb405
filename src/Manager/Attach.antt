-- ===== src/Manager/Attach.antt =====
-- controller/criu_env_manager.py, `CRIUAttachManager.__init__`, and controller/hybrid_env_manager.py,
-- `HybridAttachManager.__init__`: a manager that attaches to a running application starts from a
-- snapshot of it.
use state_fork.Prelude.{ℕ, String, Option, none, some}
use state_fork.Exec.{PyError, runtime_error, raise, gets, modify, ◌>>=◌, ◌>>◌}
use state_fork.Manager.State.{Op, Hooks, BranchState}
use state_fork.Manager.Branches.{update_branch, record_snapshot_node}
use state_fork.Manager.Snapshot.{physical_node}

abbrev pub no_initial_snapshot : PyError
no_initial_snapshot = record {
  kind = runtime_error;
  message = "Failed to create initial snapshot.";
}

-- The setters `self.current_snapshot_id = …` and `self.last_snapshot_id = …`.
unfoldable pub stand_at : String → BranchState → BranchState
stand_at snapshot_id state = record state {
  current_snapshot_id = some snapshot_id;
  last_snapshot_id = some snapshot_id;
}

module _ {E : Type 0} (h : Hooks E) where
  unfoldable pub attach_captured : String → Option String × ℕ → Op E Unit
  attach_captured branch_id (none, elapsed) = raise no_initial_snapshot
  attach_captured branch_id (some snapshot_id, elapsed) = do
    modify (record_snapshot_node (physical_node snapshot_id none))
    modify (update_branch branch_id (stand_at snapshot_id))

  unfoldable pub attach : Op E Unit
  attach = do
    branch_id ← gets (λ m. m.current_branch_id)
    captured ← h.core_snapshot branch_id
    attach_captured branch_id captured
