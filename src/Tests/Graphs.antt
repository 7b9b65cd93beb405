-- ===== src/Tests/Graphs.antt =====
-- A chain of virtual snapshots above a physical one.
use state_fork.Prelude.{List, ◌≡◌, ◌≢◌, ◌↔◌, refl, some, none, [], ◌∷◌, ℕ, arith}
use state_fork.Dict.{get}
use state_fork.Manager.State.{Manager, SnapshotNode, Command, line, new_manager}
use state_fork.Manager.Branches.{record_snapshot_node}
use state_fork.Manager.Snapshot.{physical_node, virtual_node}
use state_fork.Manager.Ancestry.{resolve, arrived}
use state_fork.Manager.Ancestry.Fuel.{resolve-ne-none}
use state_fork.Manager.Ancestry.Resolution.{Resolves, KeysMatch, resolve-iff-Resolves}
use state_fork.Manager.Replay.Graph.{record_snapshot_node-KeysMatch}
use state_fork.Tests.Unfold.{managers}

abbrev root : SnapshotNode
root = physical_node "p" none

abbrev middle : SnapshotNode
middle = virtual_node "v1" (some "p") (line "a" ∷ line "b" ∷ [])

abbrev top : SnapshotNode
top = virtual_node "v2" (some "v1") (line "c" ∷ [])

abbrev bare : Manager (Unit {0})
bare = new_manager "Graph" none tt

abbrev chain : Manager (Unit {0})
chain = record_snapshot_node top (record_snapshot_node middle (record_snapshot_node root bare))

bare-KeysMatch : KeysMatch bare.snapshot_graph
unfolding new_manager get
bare-KeysMatch key node h = absurd (ground arith)

chain-KeysMatch : KeysMatch chain.snapshot_graph
chain-KeysMatch = record_snapshot_node-KeysMatch top _ (
    record_snapshot_node-KeysMatch middle _
      (record_snapshot_node-KeysMatch root bare bare-KeysMatch))

top_stored : get chain.snapshot_graph "v2" ≡ some top
unfolding managers
top_stored = refl

resolve-ne-none_example : resolve chain.snapshot_graph top ≢ none
resolve-ne-none_example = resolve-ne-none chain.snapshot_graph "v2" top top_stored

abbrev root_linked : SnapshotNode
root_linked = record root { children = "v1" ∷ [] }

abbrev way_down : List Command
way_down = line "a" ∷ line "b" ∷ line "c" ∷ []

resolve-iff-Resolves_example :
    (resolve chain.snapshot_graph top ≡ some (arrived root_linked way_down))
    ↔ ((n : ℕ) × Resolves chain.snapshot_graph n top root_linked way_down)
resolve-iff-Resolves_example =
    resolve-iff-Resolves chain.snapshot_graph "v2" top root_linked way_down chain-KeysMatch
      top_stored

resolved : resolve chain.snapshot_graph top ≡ some (arrived root_linked way_down)
unfolding managers
resolved = refl

abbrev sibling : SnapshotNode
sibling = physical_node "q" (some "p")
