-- ===== src/Manager/Ancestry/Fuel.antt =====
-- The fuel of the walk to a physical ancestor, measured by the nodes that are left to visit.
use state_fork.Prelude.{
  ℕ, zero, suc, ◌+◌, ◌≤◌, ◌<◌, ◌≡◌, ◌≢◌, String, false, none, some, List, [], ◌∷◌, ◌++◌, arith,
  contains, length, if◌then◌else◌, eq_iff,
}
use state_fork.Dict.{Dict, get}
use state_fork.Manager.State.{SnapshotNode, Command}
use state_fork.Manager.Ancestry.{resolve, walk}

-- How many nodes of the graph the walk has not visited.
unseen : List String → Dict SnapshotNode → ℕ
unseen visited [] = 0
unseen visited ((k, n) ∷ graph) =
    (if contains n.snapshot_id visited then 0 else 1) + unseen visited graph

unseen-le-length :
    (visited : List String) (graph : Dict SnapshotNode) → unseen visited graph ≤ length graph
unfolding unseen
unseen-le-length visited [] = omega arith
unseen-le-length visited ((k, n) ∷ graph) = ground (arith, unseen-le-length visited graph)

unseen-cons-le :
    (id : String) (visited : List String) (graph : Dict SnapshotNode)
    → unseen (id ∷ visited) graph ≤ unseen visited graph
unfolding unseen contains
unseen-cons-le id visited [] = omega arith
unseen-cons-le id visited ((k, n) ∷ graph) = ground (arith, unseen-cons-le id visited graph)

-- A visit to a new node leaves one node less.
unseen-cons-lt :
    (key : String) (visited : List String) (graph : Dict SnapshotNode) {node : SnapshotNode}
    → get graph key ≡ some node
    → contains node.snapshot_id visited ≡ false
    → unseen (node.snapshot_id ∷ visited) graph < unseen visited graph
unfolding unseen contains get
unseen-cons-lt key visited [] h new = absurd (ground arith)
unseen-cons-lt key visited ((k, n) ∷ graph) {node} h new = ground (
  arith,
  unseen-cons-lt key visited graph {node = node},
  unseen-cons-le node.snapshot_id visited graph,
  eq_iff n.snapshot_id node.snapshot_id,
)

walk-ne-none :
    (fuel : ℕ) (graph : Dict SnapshotNode) (key : String) (node : SnapshotNode)
    (commands : List Command) (visited : List String)
    → get graph key ≡ some node
    → unseen visited graph < fuel
    → walk fuel graph node commands visited ≢ none
unfolding walk
walk-ne-none zero graph key node commands visited h f = absurd (omega arith)
walk-ne-none (suc fuel) graph key node commands visited h f = grind (
  arith,
  λ (p : String) (n : SnapshotNode).
      walk-ne-none fuel graph p n (node.replay_commands ++ commands) (node.snapshot_id ∷ visited),
  unseen-cons-lt key visited graph,
)

-- For a snapshot of the graph the walk ends within the fuel that `resolve` gives it, whatever
-- cycles the graph has.
pub resolve-ne-none :
    (graph : Dict SnapshotNode) (key : String) (node : SnapshotNode)
    → get graph key ≡ some node
    → resolve graph node ≢ none
unfolding resolve
resolve-ne-none graph key node h =
    walk-ne-none (suc (length graph)) graph key node [] [] h
      (omega (arith, unseen-le-length [] graph))
