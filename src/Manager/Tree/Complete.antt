-- ===== src/Manager/Tree/Complete.antt =====
-- What the tree shows.
use state_fork.Prelude.{
  Bool, Bool-cases, List, Option-cases, String, [], ap, arith, contains, eq_iff, eq_refl, false,
  inl, inr, length, none, refl, some, subst, suc, true, zero, ℕ, ◌++◌, ◌+◌, ◌<>◌, ◌<◌, ◌==◌, ◌||◌,
  ◌∙◌, ◌∷◌, ◌≡◌, ◌≤◌,
}
use state_fork.Exec.{ok}
use state_fork.Dict.{Dict, get}
use state_fork.Manager.State.{SnapshotNode}
use state_fork.Manager.Tree.{Row, Rows, both, each, recurse, roots, then_rows, tree_rows, visit}

-- A graph as recording fresh nodes below stored parents makes it: a child is stored and lies deeper than
-- its parent, no node lies deeper than there are nodes, and a node with a parent is one of its children.
pub record Ordered (graph : Dict SnapshotNode) : Type 0 where
  pub depth : String → ℕ
  pub low : (id : String) (node : SnapshotNode) → get graph id ≡ some node → depth id < length graph
  pub falls :
      (id child : String) (node : SnapshotNode)
      → get graph id ≡ some node
      → contains child node.children ≡ true
      → (below : SnapshotNode) × (get graph child ≡ some below) × (depth id < depth child)
  pub known :
      (id parent : String) (node : SnapshotNode)
      → get graph id ≡ some node
      → node.parent_id ≡ some parent
      → (above : SnapshotNode) × (get graph parent ≡ some above)
        × (contains id above.children ≡ true)

-- A snapshot and those below it.
data Below (graph : Dict SnapshotNode) : String → String → Type 0 where
  here : (id : String) → Below graph id id
  under :
      (id child d : String) (node : SnapshotNode)
      → get graph id ≡ some node
      → contains child node.children ≡ true
      → Below graph child d
      → Below graph id d

abbrev pub has_row : String → List Row → Bool
has_row id [] = false
has_row id (row ∷ rows) = row.snapshot == id || has_row id rows

has_row-append :
    (id : String) (rows more : List Row)
    → has_row id (rows ++ more) ≡ (has_row id rows || has_row id more)
has_row-append id [] more = refl
has_row-append id (row ∷ rows) more = elim (Bool-cases (row.snapshot == id)) [
  | inl e ↦ simp e refl
  | inr e ↦ simp e (has_row-append id rows more)
]

module _ (graph : Dict SnapshotNode) where
  -- The lines of a traversal that ends, with a line for every snapshot below.
  abbrev Shows : String → Rows → Type 0
  Shows id outcome =
      (rows : List Row) × (outcome ≡ some (ok rows))
      × ((d : String) → Below graph id d → has_row d rows ≡ true)

  abbrev ShowsAll : List String → Rows → Type 0
  ShowsAll ids outcome =
      (rows : List Row) × (outcome ≡ some (ok rows))
      × ((id d : String) → contains id ids ≡ true → Below graph id d → has_row d rows ≡ true)

  split_row :
      (x id d : String) (xs : List String) (rows more : List Row)
      → ((d : String) → Below graph x d → has_row d rows ≡ true)
      → ((id d : String) → contains id xs ≡ true → Below graph id d → has_row d more ≡ true)
      → contains id (x ∷ xs) ≡ true
      → Below graph id d
      → has_row d (rows ++ more) ≡ true
  unfolding contains
  split_row x id d xs rows more first rest c b = elim (Bool-cases (id == x)) [
    | inl e ↦
        let same : id ≡ x = (eq_iff id x).0 e in
        rw has_row-append (ground (arith, first d (subst (λ i. Below graph i d) same b)))
    | inr e ↦ rw has_row-append (ground (arith, rest id d (ground (arith, e, c)) b))
  ]

  each-ShowsAll :
      (f : String → Rows) (ids : List String)
      → ((id : String) → contains id ids ≡ true → Shows id (f id))
      → ShowsAll ids (each f ids)
  unfolding each contains
  each-ShowsAll f [] shows = ([], refl, λ id d c b. absurd (ground (arith, c)))
  each-ShowsAll f (x ∷ xs) shows =
      let (rows, shown, first) = shows x (ground (arith, (eq_iff x x).1 refl)) in
      let (more, shown_rest, rest) = each-ShowsAll f xs λ id c. shows id (ground (arith, c)) in
      (
        rows ++ more,
        ap (λ o. both o (each f xs)) shown ∙ ap (then_rows rows) shown_rest,
        λ id d c b. split_row x id d xs rows more first rest c b,
      )

  module _ (o : Ordered graph) where
    top_row :
        (indent : String) (node : SnapshotNode) (more : List Row)
        → ((child d : String)
            → contains child node.children ≡ true
            → Below graph child d
            → has_row d more ≡ true)
        → {id d : String} → get graph id ≡ some node
        → Below graph id d
        → has_row d (record { indent = indent; snapshot = id } ∷ more) ≡ true
    top_row indent node more rest g (here id) = rw eq_refl refl
    top_row indent node more rest g (under id child d other g' c b) =
        let same : other ≡ node = ground (arith, g, g') in
        ground (arith, rest child d (subst (λ n. contains child n.children ≡ true) same c) b)

    recurse-Shows :
        (fuel : ℕ) (indent id : String) (node : SnapshotNode)
        → get graph id ≡ some node
        → length graph ≤ o.depth id + fuel
        → Shows id (recurse fuel graph indent id)
    unfolding recurse
    recurse-Shows zero indent id node g enough = absurd (omega (arith, o.low id node g, enough))
    recurse-Shows (suc fuel) indent id node g enough =
        let deeper = recurse fuel graph (indent <> "  ") in
        let (more, shown, rest) = each-ShowsAll deeper node.children λ child c.
          let (below, stored, falls) = o.falls id child node g c in
          recurse-Shows fuel (indent <> "  ") child below stored (omega (arith, falls, enough)) in
        (
          record { indent = indent; snapshot = id } ∷ more,
          ap (visit indent id (each deeper)) g
              ∙ ap (then_rows (record { indent = indent; snapshot = id } ∷ [])) shown,
          λ d b. top_row indent node more rest g b,
        )

    -- A root above a snapshot.
    climb :
        (n : ℕ) (id d : String) (node : SnapshotNode)
        → o.depth id < n
        → get graph id ≡ some node
        → Below graph id d
        → (root : String) × (top : SnapshotNode) × (get graph root ≡ some top)
          × (top.parent_id ≡ none)
          × Below graph root d
    climb zero id d node deep g b = absurd (omega (arith, deep))
    climb (suc n) id d node deep g b = elim (Option-cases node.parent_id) [
      | inl e ↦ (id, node, g, e, b)
      | inr (parent, e) ↦
          let (above, stored, child) = o.known id parent node g e in
          let (below, same, falls) = o.falls parent id above stored child in
          climb n parent d above (omega (arith, falls, deep)) stored
            (under parent id d above stored child b)
    ]

roots-contains :
    (graph : Dict SnapshotNode) (id : String) (node : SnapshotNode)
    → get graph id ≡ some node
    → node.parent_id ≡ none
    → contains id (roots graph) ≡ true
unfolding roots get contains
roots-contains [] id node g e = absurd (ground (arith, g))
roots-contains ((key, other) ∷ graph) id node g e =
    ground (
      arith,
      e,
      g,
      eq_iff key id,
      eq_iff id key,
      (eq_iff id id).1 refl,
      roots-contains graph id node,
    )

roots-stored :
    (graph : Dict SnapshotNode) (id : String)
    → contains id (roots graph) ≡ true
    → (node : SnapshotNode) × (get graph id ≡ some node)
unfolding roots get contains
roots-stored [] id c = absurd (ground (arith, c))
roots-stored ((key, other) ∷ graph) id c = elim (Bool-cases (key == id)) [
  | inl e ↦ (other, rw e refl)
  | inr e ↦
      let (node, g) = roots-stored graph id (ground (arith, c, e, eq_iff key id, eq_iff id key)) in
      (node, rw e g)
]

-- In an ordered graph the traversal of the tree ends without an exception, and every snapshot of the
-- graph has a line.
pub tree_rows_complete :
    (graph : Dict SnapshotNode) (id : String) (node : SnapshotNode)
    → Ordered graph
    → get graph id ≡ some node
    → (rows : List Row) × (tree_rows graph ≡ some (ok rows)) × (has_row id rows ≡ true)
unfolding tree_rows
tree_rows_complete graph id node o g =
    let (rows, shown, all) =
      each-ShowsAll graph (recurse (suc (length graph)) graph " ") (roots graph) λ root c.
        let (top, stored) = roots-stored graph root c in
        recurse-Shows graph o (suc (length graph)) " " root top stored (omega arith) in
    let (root, top, stored, free, b) =
      climb graph o (suc (o.depth id)) id id node (omega arith) g (here id) in
    (rows, shown, all root id (roots-contains graph root top stored free) b)
