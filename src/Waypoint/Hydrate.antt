-- ===== src/Waypoint/Hydrate.antt =====
-- controller/waypoint_env_manager.py: `sync_snapshot_tree`, which adds the checkpoints of a session
-- to the snapshot graph.
use state_fork.Prelude.{
  ℕ, suc, String, Option, none, some, List, [], ◌∷◌, or_else, if◌then◌else◌, truthy,
}
use state_fork.Exec.{ok, ◌>>=◌}
use state_fork.Dict.{Dict, get, has}
use state_fork.Manager.State.{Manager, SnapshotNode}
use state_fork.Manager.Branches.{link, record_snapshot_node, register_snapshot_resource}
use state_fork.Manager.Snapshot.{physical_node}
use state_fork.Waypoint.State.{Tools, WaypointOp, CheckpointEntry, Listing}
use state_fork.Waypoint.Snapshots.{query}

-- entry.get("parent_id") or None
unfoldable pub parent_or_none : Option String → Option String
parent_or_none parent = if truthy parent then parent else none

-- The entries that have an id, with their parents.
unfoldable pub checkpoints_of : List CheckpointEntry → List (String × Option String)
checkpoints_of [] = []
checkpoints_of (entry ∷ entries) =
    let rest = checkpoints_of entries in
    if truthy entry.id then (or_else entry.id "", parent_or_none entry.parent_id) ∷ rest else rest

module _ {E : Type 0} where
  -- One round of pass 1: the node is created where it is not known, and counted.
  unfoldable pub add_checkpoint : String → Option String → ℕ × Manager E → ℕ × Manager E
  add_checkpoint id parent (added, m) =
      let m₁ = register_snapshot_resource id id m in
      if has m₁.snapshot_graph id
      then (added, m₁)
      else (suc added, record_snapshot_node (physical_node id parent) m₁)

  -- Pass 1.
  unfoldable pub add_checkpoints : List (String × Option String) → ℕ × Manager E → ℕ × Manager E
  add_checkpoints [] x = x
  add_checkpoints ((id, parent) ∷ entries) x = add_checkpoints entries (add_checkpoint id parent x)

-- One round of pass 2: the node is linked below its parent, if that is in the graph.
unfoldable pub link_checkpoint : String → Dict SnapshotNode → Dict SnapshotNode
link_checkpoint id graph = elim (get graph id) [
  | none ↦ graph
  | some node ↦ link node.parent_id node.snapshot_id graph
]

-- Pass 2.
unfoldable pub link_checkpoints :
    List (String × Option String) → Dict SnapshotNode → Dict SnapshotNode
link_checkpoints [] graph = graph
link_checkpoints ((id, parent) ∷ entries) graph =
    link_checkpoints entries (link_checkpoint id graph)

module _ {E : Type 0} where
  unfoldable pub hydrate : List (String × Option String) → Manager E → ℕ × Manager E
  hydrate entries m =
      let (added, m₁) = add_checkpoints entries (0, m) in
      (added, record m₁ { snapshot_graph = link_checkpoints entries m₁.snapshot_graph })

module _ {W : Type 0} where
  -- What follows the query; without an answer nothing is added.
  unfoldable pub hydrate_listed : Option Listing → WaypointOp W ℕ
  hydrate_listed none m = (ok 0, m)
  hydrate_listed (some listing) m =
      let (added, m') = hydrate (checkpoints_of (or_else listing.checkpoints [])) m in
      (ok added, m')

unfoldable pub sync_snapshot_tree : {W : Type 0} → Tools W → WaypointOp W ℕ
sync_snapshot_tree t = do listing ← query t; hydrate_listed listing
