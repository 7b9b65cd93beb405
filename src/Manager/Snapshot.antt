-- ===== src/Manager/Snapshot.antt =====
-- controller/base_env_manager.py: `snapshot` and its template `_snapshot_branch`.
use state_fork.Prelude.{
  ℕ, String, Bool, true, false, Option, none, some, List, [], ◌<>◌, if◌then◌else◌,
}
use state_fork.Exec.{ok, pure, gets, modify, ◌>>=◌, ◌>>◌}
use state_fork.Decider.{Decider, random, always_true, always_false, threshold, decide}
use state_fork.Benchmark.{add_entry}
use state_fork.Manager.State.{Manager, Op, Hooks, Command, SnapshotNode, BranchState}
use state_fork.Manager.Branches.{get_branch_state, update_branch, record_snapshot_node}

module _ {E : Type 0} where
  -- A library function that reads the outside.
  unfoldable pub ask : {A : Type 0} → (E → A × E) → Op E A
  ask f m = let (a, e) = f m.extra in (ok a, record m { extra = e })

  -- `self._stats.add_entry(…)`
  unfoldable pub note : String → String → ℕ → String → Manager E → Manager E
  note operation target_id elapsed branch_id m = record m {
    stats = add_entry operation target_id elapsed branch_id m.stats;
  }

-- What a snapshot leaves in the branch state.
unfoldable pub after_capture : String → Bool → BranchState → BranchState
after_capture snapshot_id take_physical state = record state {
  current_snapshot_id = some snapshot_id;
  last_snapshot_id = some snapshot_id;
  command_log = [];
  cumulative_exec_time = if take_physical then 0 else state.cumulative_exec_time;
}

unfoldable pub physical_node : String → Option String → SnapshotNode
physical_node snapshot_id parent_id = record {
  snapshot_id = snapshot_id;
  parent_id = parent_id;
  children = [];
  is_virtual = false;
  replay_commands = [];
}

unfoldable pub virtual_node : String → Option String → List Command → SnapshotNode
virtual_node snapshot_id parent_id commands = record {
  snapshot_id = snapshot_id;
  parent_id = parent_id;
  children = [];
  is_virtual = true;
  replay_commands = commands;
}

module _ {E : Type 0} (h : Hooks E) where
  -- `self.decider.decide(context)`; only the random policy draws a coin.
  unfoldable pub consult : Decider → ℕ → Op E Bool
  unfolding decide
  consult random elapsed = ask h.coin
  consult always_true elapsed =
      pure (decide true always_true (record { cumulative_exec_time = elapsed }))
  consult always_false elapsed =
      pure (decide true always_false (record { cumulative_exec_time = elapsed }))
  consult (threshold t) elapsed =
      pure (decide true (threshold t) (record { cumulative_exec_time = elapsed }))

  -- `force_physical or self.decider.decide(context)`
  unfoldable pub take_physical : Bool → ℕ → Op E Bool
  take_physical true elapsed m = (ok true, m)
  take_physical false elapsed m = consult m.decider elapsed m

  -- The bookkeeping that follows either kind of snapshot.
  unfoldable pub commit_snapshot : String → SnapshotNode → Bool → Manager E → Manager E
  commit_snapshot branch_id node physical m =
      let recorded = record_snapshot_node node m in
      let moved = update_branch branch_id (after_capture node.snapshot_id physical) recorded in
      record (h.after_snapshot branch_id node.snapshot_id moved) { is_cleaned_up = false }

  -- What follows `_core_snapshot`, by its result.
  unfoldable pub snapshot_captured :
      String → Option String → Option String × ℕ → Op E (Option String)
  snapshot_captured branch_id parent_id (none, elapsed) = pure none
  snapshot_captured branch_id parent_id (some snapshot_id, elapsed) = do
    modify (note "snapshot" snapshot_id elapsed branch_id)
    modify (commit_snapshot branch_id (physical_node snapshot_id parent_id) true)
    pure (some snapshot_id)

  unfoldable pub snapshot_physical : String → Option String → Op E (Option String)
  snapshot_physical branch_id parent_id = do
    captured ← h.core_snapshot branch_id
    snapshot_captured branch_id parent_id captured

  unfoldable pub snapshot_virtual : String → Option String → List Command → Op E (Option String)
  snapshot_virtual branch_id parent_id commands = do
    hex ← ask h.uuid_hex
    modify (commit_snapshot branch_id (virtual_node ("v" <> hex) parent_id commands) false)
    pure (some ("v" <> hex))

  unfoldable pub snapshot_active : String → Bool → BranchState → Op E (Option String)
  snapshot_active branch_id force_physical state = do
    physical ← take_physical force_physical state.cumulative_exec_time
    if physical
        then snapshot_physical branch_id state.last_snapshot_id
        else snapshot_virtual branch_id state.last_snapshot_id state.command_log

  unfoldable pub snapshot_branch : String → Bool → Op E (Option String)
  snapshot_branch branch_id force_physical = do
    state ← get_branch_state branch_id
    if state.active then snapshot_active branch_id force_physical state else pure none

  unfoldable pub snapshot : Op E (Option String)
  snapshot = do branch_id ← gets (λ m. m.current_branch_id); snapshot_branch branch_id false
