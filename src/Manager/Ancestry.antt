-- ===== src/Manager/Ancestry.antt =====
-- controller/base_env_manager.py: the loop of `_restore_current_branch` that walks from a snapshot
-- up to its nearest physical ancestor and collects the commands to replay.
pub mod Fuel
pub mod Resolution
use state_fork.Prelude.{
  ℕ, zero, suc, String, true, false, Option, none, some, List, [], ◌∷◌, ◌++◌, contains, length,
}
use state_fork.Dict.{Dict, get}
use state_fork.Manager.State.{SnapshotNode, Command}

-- Why the walk gives up.
pub data WalkError : Type 0 where
  cycle no_physical_ancestor missing_parent : WalkError

pub data Walk : Type 0 where
  arrived : SnapshotNode → List Command → Walk
  gave_up : WalkError → Walk

-- `none` is a walk that has used up its fuel.
unfoldable pub walk :
    ℕ → Dict SnapshotNode → SnapshotNode → List Command → List String → Option Walk
walk zero graph node commands visited = none
walk (suc fuel) graph node commands visited = elim node.is_virtual [
  | false ↦ some (arrived node commands)
  | true ↦ elim (contains node.snapshot_id visited) [
    | true ↦ some (gave_up cycle)
    | false ↦ elim node.parent_id [
      | none ↦ some (gave_up no_physical_ancestor)
      | some parent_id ↦ elim (get graph parent_id) [
        | none ↦ some (gave_up missing_parent)
        | some parent ↦
            walk fuel graph parent (node.replay_commands ++ commands) (node.snapshot_id ∷ visited)
      ]
    ]
  ]
]

-- A walk visits each node of the graph once at most, so this fuel is enough.
unfoldable pub resolve : Dict SnapshotNode → SnapshotNode → Option Walk
resolve graph node = walk (suc (length graph)) graph node [] []
