-- ===== src/Manager/Tree.antt =====
-- controller/base_env_manager.py: `print_snapshot_tree`.
pub mod Complete
pub mod Grown
pub mod Recorded
use state_fork.Prelude.{
  Bool, List, Option, String, [], false, if◌then◌else◌, is_empty, is_some, length, map, none,
  nonempty, or_else, some, suc, true, zero, ℕ, ◌++◌, ◌<>◌, ◌==◌, ◌||◌, ◌∷◌,
}
use state_fork.Exec.{Result, err, key_error, ok}
use state_fork.Dict.{Dict, get, put}
use state_fork.Manager.State.{BranchState, Manager, SnapshotNode}
use Prim.Native.Nat.{Ordering}
use Prim.Native.String.{compare}

-- The branches that stand at a snapshot.
abbrev pub Marks : Type 0
Marks = Dict (List String)

-- marks.setdefault(snapshot, []).append(branch_id)
unfoldable pub mark : Option String → String → Marks → Marks
mark none branch_id marks = marks
mark (some snapshot) branch_id marks =
    if nonempty snapshot
    then put marks snapshot (or_else (get marks snapshot) [] ++ branch_id ∷ [])
    else marks

unfoldable pub current_at : Marks → Dict BranchState → Marks
current_at marks [] = marks
current_at marks ((branch_id, state) ∷ branches) =
    current_at (mark state.current_snapshot_id branch_id marks) branches

-- The last snapshot, where it is not the current one.
unfoldable pub left_behind : Option String → Option String → Option String
left_behind (some last) (some current) = if last == current then none else some last
left_behind last current = last

unfoldable pub last_at : Marks → Dict BranchState → Marks
last_at marks [] = marks
last_at marks ((branch_id, state) ∷ branches) =
    last_at (mark (left_behind state.last_snapshot_id state.current_snapshot_id) branch_id marks)
      branches

unfoldable pub not_after : String → String → Bool
not_after s t = elim (compare s t) [ Ordering.gt ↦ false | _ ↦ true ]

unfoldable pub insert : String → List String → List String
insert s [] = s ∷ []
insert s (t ∷ ts) = let rest = insert s ts in if not_after s t then s ∷ t ∷ ts else t ∷ rest

unfoldable pub sorted : List String → List String
sorted [] = []
sorted (s ∷ ss) = insert s (sorted ss)

-- separator.join(texts)
unfoldable pub joined : String → List String → String
joined separator [] = ""
joined separator (s ∷ []) = s
joined separator (s ∷ t ∷ ts) = s <> separator <> joined separator (t ∷ ts)

abbrev marker : String → Option (List String) → List String
marker word none = []
marker word (some branches) = (word <> joined ", " (sorted branches)) ∷ []

abbrev suffix_of : List String → String
suffix_of [] = ""
suffix_of (m ∷ ms) = " (" <> joined "; " (m ∷ ms) <> ")"

-- A line of the tree.
pub record Row : Type 0 where
  pub indent : String
  pub snapshot : String

unfoldable pub line_of : Marks → Marks → Row → String
line_of current last row =
    row.indent
    <> "- "
    <> row.snapshot
    <> suffix_of
        (marker "current: " (get current row.snapshot) ++ marker "last: " (get last row.snapshot))

-- The lines of a traversal. `none` stands for a traversal without an end.
abbrev pub Rows : Type 0
Rows = Option (Result (List Row))

abbrev pub then_rows : List Row → Rows → Rows
then_rows rows none = none
then_rows rows (some (err exc)) = some (err exc)
then_rows rows (some (ok more)) = some (ok (rows ++ more))

abbrev pub both : Rows → Rows → Rows
both none rest = none
both (some (err exc)) rest = some (err exc)
both (some (ok rows)) rest = then_rows rows rest

unfoldable pub each : (String → Rows) → List String → Rows
each f [] = some (ok [])
each f (x ∷ xs) = both (f x) (each f xs)

abbrev pub visit : String → String → (List String → Rows) → Option SnapshotNode → Rows
visit indent snapshot below none =
    some (err (record { kind = key_error; message = "'" <> snapshot <> "'" }))
visit indent snapshot below (some node) =
    then_rows (record { indent = indent; snapshot = snapshot } ∷ []) (below node.children)

unfoldable pub recurse : ℕ → Dict SnapshotNode → String → String → Rows
recurse zero graph indent snapshot = none
recurse (suc fuel) graph indent snapshot =
    visit indent snapshot (each (recurse fuel graph (indent <> "  "))) (get graph snapshot)

unfoldable pub roots : Dict SnapshotNode → List String
roots [] = []
roots ((id, node) ∷ graph) =
    let rest = roots graph in if is_some node.parent_id then rest else id ∷ rest

unfoldable pub tree_rows : Dict SnapshotNode → Rows
tree_rows graph = each (recurse (suc (length graph)) graph " ") (roots graph)

abbrev no_tree : String
no_tree = "No snapshot tree available.\n"

unfoldable pub tree_text : Marks → Marks → Rows → Option (Result String)
tree_text current last none = none
tree_text current last (some (err exc)) = some (err exc)
tree_text current last (some (ok rows)) =
    some (ok (joined "\n" ("Snapshot Tree:" ∷ map (line_of current last) rows) <> "\n"))

unfoldable pub print_snapshot_tree : {E : Type 0} → Manager E → Option (Result String)
print_snapshot_tree m =
    if is_empty m.snapshot_graph || is_empty (roots m.snapshot_graph)
    then some (ok no_tree)
    else tree_text (current_at [] m.branches) (last_at [] m.branches) (tree_rows m.snapshot_graph)
