-- ===== src/Tests/Trees.antt =====
-- A tree of two snapshots.
use state_fork.Manager.Tree.Complete.{Ordered, has_row, tree_rows_complete}
use state_fork.Prelude.{List, [], arith, none, nonempty, refl, some, subst, true, ◌≡◌}
use state_fork.Exec.{ok}
use state_fork.Dict.{get, has}
use state_fork.Manager.State.{Manager, new_manager}
use state_fork.Manager.Branches.{record_snapshot_node, set_branch_position}
use state_fork.Manager.Snapshot.{physical_node}
use state_fork.Manager.Tree.{
  Row, current_at, each, insert, joined, last_at, left_behind, line_of, mark, not_after,
  print_snapshot_tree, recurse, roots, sorted, tree_rows, tree_text,
}
use state_fork.Manager.Tree.Recorded.{Known, record_snapshot_node-Ordered}
use state_fork.Tests.Unfold.{managers}

abbrev bare : Manager (Unit {0})
bare = new_manager "Base" none tt

abbrev rooted : Manager (Unit {0})
rooted = record_snapshot_node (physical_node "s" none) bare

bare-Ordered : Ordered bare.snapshot_graph
unfolding new_manager get
bare-Ordered = record {
  depth = λ id. 0;
  low = λ id node e. absurd (ground (arith, e));
  falls = λ id child node e. absurd (ground (arith, e));
  known = λ id parent node e. absurd (ground (arith, e));
}

rooted-Ordered : Ordered rooted.snapshot_graph
unfolding managers
rooted-Ordered =
    record_snapshot_node-Ordered (physical_node "s" none) bare bare-Ordered refl refl
      λ p e. absurd (ground (arith, e))

root-Known : Known rooted.snapshot_graph (some "s")
unfolding managers
root-Known p e =
    let same : "s" ≡ p = ground (arith, e) in
    subst (λ k. (nonempty k ≡ true) × (has rooted.snapshot_graph k ≡ true)) same (refl, refl)

abbrev taller : Manager (Unit {0})
taller = record_snapshot_node (physical_node "t" (some "s")) rooted

fresh_id : get rooted.snapshot_graph "t" ≡ none
unfolding managers
fresh_id = refl

no_children : (physical_node "t" (some "s")).children ≡ []
unfolding physical_node
no_children = refl

parent-Known : Known rooted.snapshot_graph (physical_node "t" (some "s")).parent_id
unfolding physical_node
parent-Known = root-Known

record_snapshot_node-Ordered_example : Ordered taller.snapshot_graph
unfolding physical_node
record_snapshot_node-Ordered_example =
    record_snapshot_node-Ordered (physical_node "t" (some "s")) rooted rooted-Ordered fresh_id
      no_children parent-Known

stored_root : get rooted.snapshot_graph "s" ≡ some (physical_node "s" none)
unfolding managers
stored_root = refl

tree_rows_complete_example :
    (rows : List Row) × (tree_rows rooted.snapshot_graph ≡ some (ok rows))
    × (has_row "s" rows ≡ true)
tree_rows_complete_example =
    tree_rows_complete rooted.snapshot_graph "s" (physical_node "s" none) rooted-Ordered stored_root

abbrev grown : Manager (Unit {0})
grown = set_branch_position "main" (some "t") taller

-- The text that is printed.
printed : print_snapshot_tree grown ≡ some (ok "Snapshot Tree:\n - s\n   - t (current: main)\n")
unfolding managers print_snapshot_tree tree_text tree_rows recurse each roots current_at last_at
    mark left_behind not_after insert sorted joined line_of
printed = refl
