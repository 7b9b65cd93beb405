-- ===== src/Manager/Branches.antt =====
-- controller/base_env_manager.py: the helpers on branch states and on the snapshot registry.
use state_fork.Prelude.{
  String, false, true, Option, none, some, List, [], ◌∷◌, ◌++◌, ◌&&◌, if◌then◌else◌, truthy,
  contains, ◌<>◌,
}
use state_fork.Exec.{ok, err, PyError, key_error}
use state_fork.Dict.{Dict, get, has, put, pop, update, keys}
use state_fork.Manager.State.{Manager, Op, SnapshotNode, BranchState, new_branch}

pub not_registered : String → PyError
not_registered branch_id = record {
  kind = key_error;
  message = "Branch '" <> branch_id <> "' is not registered.";
}

-- The position at a snapshot, with nothing executed since.
unfoldable pub position : Option String → BranchState → BranchState
position snapshot_id state = record state {
  active = true;
  current_snapshot_id = snapshot_id;
  last_snapshot_id = snapshot_id;
  command_log = [];
  cumulative_exec_time = 0;
}

module _ {E : Type 0} where
  unfoldable pub get_branch_state : String → Op E BranchState
  get_branch_state branch_id m = elim (get m.branches branch_id) [
    | none ↦ (err (not_registered branch_id), m)
    | some state ↦ (ok state, m)
  ]

  unfoldable pub register_branch : String → Option String → Manager E → Manager E
  register_branch branch_id base m =
      if has m.branches branch_id
      then m
      else record m { branches = put m.branches branch_id (new_branch branch_id base) }

  -- A write through a `BranchState` that was fetched from the registry.
  unfoldable pub update_branch : String → (BranchState → BranchState) → Manager E → Manager E
  update_branch branch_id f m = record m { branches = update m.branches branch_id f }

  unfoldable pub remove_branch : String → Manager E → Manager E
  remove_branch branch_id m = record m {
    branches =
        pop (update m.branches branch_id (λ state. record state { active = false })) branch_id;
  }

  unfoldable pub set_current_branch : String → Op E Unit
  set_current_branch branch_id m =
      if has m.branches branch_id
      then (ok tt, record m { current_branch_id = branch_id })
      else (err (not_registered branch_id), m)

  unfoldable pub set_branch_position : String → Option String → Manager E → Manager E
  set_branch_position branch_id snapshot_id m =
      update_branch branch_id (position snapshot_id) (register_branch branch_id snapshot_id m)

  unfoldable pub register_snapshot_resource : String → String → Manager E → Manager E
  register_snapshot_resource snapshot_id resource_id m = record m {
    snapshots = put m.snapshots snapshot_id resource_id;
  }

  unfoldable pub snapshot_resource : String → Manager E → Option String
  snapshot_resource snapshot_id m = get m.snapshots snapshot_id

  unfoldable pub remove_snapshot_resource : String → Manager E → Manager E
  remove_snapshot_resource snapshot_id m = record m { snapshots = pop m.snapshots snapshot_id }

  unfoldable pub list_snapshots : Manager E → List String
  list_snapshots m = keys m.snapshots

-- `if child not in children: children.append(child)`
unfoldable pub add_child : String → SnapshotNode → SnapshotNode
add_child child node =
    if contains child node.children
    then node
    else record node { children = node.children ++ child ∷ [] }

-- The child is linked below its parent where the parent is a node of the graph.
unfoldable pub link : Option String → String → Dict SnapshotNode → Dict SnapshotNode
link none child graph = graph
link (some parent) child graph =
    if truthy (some parent) && has graph parent
    then update graph parent (add_child child)
    else graph

unfoldable pub record_snapshot_node : {E : Type 0} → SnapshotNode → Manager E → Manager E
record_snapshot_node node m = record m {
  snapshot_graph =
      link node.parent_id node.snapshot_id (put m.snapshot_graph node.snapshot_id node);
}
