-- ===== src/Waypoint/Attach.antt =====
-- controller/waypoint_env_manager.py: `WaypointAttachManager.__init__`, after the constructor of the
-- forkable class.
use state_fork.Prelude.{ℕ, pos, String, true, Option, none, some, if◌then◌else◌}
use state_fork.Exec.{Result, ok, err, pure, raise, gets, modify, attempt, ◌>>=◌, ◌>>◌}
use state_fork.Dict.{get, has, put}
use state_fork.Manager.Branches.{record_snapshot_node, set_branch_position}
use state_fork.Manager.Snapshot.{physical_node}
use state_fork.Manager.Attach.{no_initial_snapshot}
use state_fork.Forkable.State.{is_live, set_live}
use state_fork.Forkable.Listing.{list_branches, base_or_none}
use state_fork.Waypoint.State.{Tools, Waypoint, WaypointOp, WaypointFork}
use state_fork.Waypoint.Process.{assert_supports_forking}
use state_fork.Waypoint.Hooks.{waypoint}
use state_fork.Waypoint.Snapshots.{core_snapshot}
use state_fork.Waypoint.Hydrate.{sync_snapshot_tree}

-- (record.base_checkpoint or None) if record else None
unfoldable pub base_of : Option WaypointFork → Option String
base_of none = none
base_of (some fork) = base_or_none fork.base_snapshot_id

-- A minimal record, where the registry could not be read.
unfoldable pub minimal_fork : String → String → WaypointFork
minimal_fork id sid = record {
  id = id;
  base_snapshot_id = sid;
  status = "running";
  details = record { pid = pos 0; socket = ""; restore_duration = none };
}

module _ {W : Type 0} where
  unfoldable pub current_base : Waypoint W → Option String
  current_base m = base_of (get m.extra.live_branches m.current_branch_id)

  unfoldable pub record_initial : String → Option String → Waypoint W → Waypoint W
  record_initial sid parent m =
      if has m.snapshot_graph sid then m else record_snapshot_node (physical_node sid parent) m

  unfoldable pub stand_current : String → Waypoint W → Waypoint W
  stand_current sid m = set_branch_position m.current_branch_id (some sid) m

  unfoldable pub keep_record : String → Waypoint W → Waypoint W
  keep_record sid m =
      let id = m.current_branch_id in
      if is_live m id then m else set_live (put m.extra.live_branches id (minimal_fork id sid)) m

  unfoldable pub attach_captured : Option String → Option String × ℕ → WaypointOp W Unit
  attach_captured parent (none, elapsed) = raise no_initial_snapshot
  attach_captured parent (some sid, elapsed) = do
    modify (record_initial sid parent)
    modify (stand_current sid)
    modify (keep_record sid)

  -- A manager whose binary cannot fork has nothing to clean up.
  unfoldable pub supported : Result (Unit {0}) → WaypointOp W Unit
  supported (ok _) = pure tt
  supported (err e) = do modify (λ m. record m { is_cleaned_up = true }); raise e

unfoldable pub attach : {W : Type 0} → Tools W → WaypointOp W Unit
attach t = do
  outcome ← attempt (assert_supports_forking t)
  supported outcome
  sync_snapshot_tree t
  list_branches (waypoint t)
  parent ← gets current_base
  branch_id ← gets (λ m. m.current_branch_id)
  captured ← core_snapshot t branch_id
  attach_captured parent captured
