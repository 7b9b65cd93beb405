-- ===== src/Manager/Replay/Graph.antt =====
-- The state that a snapshot id denotes, and what a new node leaves of the older ones.
use state_fork.Prelude.{
  contains, Option-cases, ℕ, suc, ◌≡◌, refl, ap, ◌∙◌, sym, ◌&&◌, inl, inr, String, true, false,
  Option, none, some, List, [], ◌∷◌, ◌++◌, arith, eq_refl, eq_iff, ◌==◌, Bool-cases, truthy,
  if◌then◌else◌,
}
use state_fork.Dict.{Dict, get, has}
use state_fork.Dict.Laws.{has-update, has-put, get-update, get-put}
use state_fork.Manager.State.{Manager, Command, SnapshotNode}
use state_fork.Manager.Branches.{link, add_child, record_snapshot_node}
use state_fork.Manager.Ancestry.Resolution.{Resolves, physical, replayed, KeysMatch}
use state_fork.Manager.Replay.{Outside, run_all, run_all-append}

-- `Denotes graph image o id s`: the snapshot `id` stands for the environment state `s`, which is its
-- stored image or follows from its parent's by its commands.
pub data Denotes {E S : Type 0} (o : Outside E S) (graph : Dict SnapshotNode)
    (image : String → Option S) : String → S → Type 0 where
  stored :
      (id : String) (node : SnapshotNode) (s : S)
      → get graph id ≡ some node
      → node.is_virtual ≡ false
      → image id ≡ some s
      → Denotes o graph image id s
  derived :
      (id : String) (node : SnapshotNode) (parent_id : String) (s t : S)
      → get graph id ≡ some node
      → node.is_virtual ≡ true
      → node.parent_id ≡ some parent_id
      → Denotes o graph image parent_id s
      → t ≡ run_all o node.replay_commands s
      → Denotes o graph image id t

-- `graph'` has the nodes of `graph`, with the same parents and commands.
abbrev pub Extends : Dict SnapshotNode → Dict SnapshotNode → Type 0
Extends graph graph' =
    (id : String) (node : SnapshotNode)
    → get graph id ≡ some node
    → (children : List String) × (get graph' id ≡ some (record node { children = children }))

module _ {E S : Type 0} (o : Outside E S) where
  pub Denotes-extends :
      {graph graph' : Dict SnapshotNode} {image image' : String → Option S} {id : String} {s : S}
      → Extends graph graph'
      → ((i : String) → has graph i ≡ true → image' i ≡ image i)
      → Denotes o graph image id s
      → Denotes o graph' image' id s
  Denotes-extends ext same (stored id node s g v i) =
      let (children, g') = ext id node g in
      stored id (record node { children = children }) s g' v (same id (ground arith) ∙ i)
  Denotes-extends ext same (derived id node p s t g v e d eq) =
      let (children, g') = ext id node g in
      derived id (record node { children = children }) p s t g' v e (Denotes-extends ext same d) eq

  -- The state that a snapshot denotes is unique.
  pub Denotes-unique :
      {graph : Dict SnapshotNode} {image : String → Option S} {id id' : String} {s t : S}
      → Denotes o graph image id s
      → Denotes o graph image id' t
      → id ≡ id'
      → s ≡ t
  Denotes-unique (stored id node s g v i) (stored id' node' s' g' v' i') q = ground arith
  Denotes-unique (stored id node s g v i) (derived id' node' p t t' g' v' e d eq) q =
      absurd (ground arith)
  Denotes-unique (derived id node p t t' g v e d eq) (stored id' node' s' g' v' i') q =
      absurd (ground arith)
  Denotes-unique (derived id node p s t g v e d eq) (derived id' node' p' s' t' g' v' e' d' eq') q =
      let same : node ≡ node' = ground arith in
      let start : s ≡ s' = Denotes-unique d d' (ground arith) in ground arith

  -- A way up to a physical ancestor whose image is stored tells what the snapshot denotes.
  pub Resolves-Denotes :
      {graph : Dict SnapshotNode} {image : String → Option S} {n : ℕ} {node ancestor : SnapshotNode}
      {path : List Command} (id : String) (base : S)
      → KeysMatch graph
      → get graph id ≡ some node
      → Resolves graph n node ancestor path
      → image ancestor.snapshot_id ≡ some base
      → Denotes o graph image id (run_all o path base)
  Resolves-Denotes id base km g (physical node v) i =
      stored id node base g v (simp (km id node g) at i)
  Resolves-Denotes id base km g (replayed {commands = path} node p v e g' r) i =
      derived id node p (run_all o path base) _ g v e (Resolves-Denotes p base km g' r i)
        (run_all-append o path node.replay_commands base)

  -- A snapshot that denotes a state has a physical ancestor from which its commands lead there.
  pub Denotes-Resolves :
      {graph : Dict SnapshotNode} {image : String → Option S} {id : String} {s : S}
      → KeysMatch graph
      → Denotes o graph image id s
      → (node ancestor : SnapshotNode) × (n : ℕ) × (path : List Command) × (base : S) × (get graph
            id
          ≡ some node)
        × Resolves graph n node ancestor path
        × (image ancestor.snapshot_id ≡ some base)
        × (s ≡ run_all o path base)
  Denotes-Resolves km (stored id node s g v i) =
      (node, node, 0, [], s, g, physical node v, simp (km id node g) i, refl)
  Denotes-Resolves km (derived id node p s t g v e d eq) =
      let (parent, ancestor, n, path, base, g', r, i, eq') = Denotes-Resolves km d in
      (
        node,
        ancestor,
        suc n,
        path ++ node.replay_commands,
        base,
        g,
        replayed node p v e g' r,
        i,
        eq
            ∙ ap (run_all o node.replay_commands) eq'
            ∙ sym (run_all-append o path node.replay_commands base),
      )

-- What a link makes of the node under `id`.
unfoldable pub relink :
    Option String → String → Dict SnapshotNode → String → SnapshotNode → SnapshotNode
relink none child graph id node = node
relink (some p) child graph id node =
    if (truthy (some p) && has graph p) && p == id then add_child child node else node

pub get-link :
    (parent : Option String) (child : String) (graph : Dict SnapshotNode) (id : String)
    (node : SnapshotNode)
    → get graph id ≡ some node
    → get (link parent child graph) id ≡ some (relink parent child graph id node)
unfolding link relink
get-link none child graph id node g = g
get-link (some p) child graph id node g = ground (arith, get-update graph p id (add_child child))

-- It changes the children of nodes alone.
relink-children :
    (parent : Option String) (child : String) (graph : Dict SnapshotNode) (id : String)
    (node : SnapshotNode)
    → (children : List String) × (relink parent child graph id node
        ≡ record node { children = children })
unfolding relink add_child
relink-children none child graph id node = (node.children, refl)
relink-children (some p) child graph id node =
    elim (Bool-cases ((truthy (some p) && has graph p) && p == id)) [
      | inr e ↦ (node.children, ground arith)
      | inl e ↦ elim (Bool-cases (contains child node.children)) [
        | inl k ↦ (node.children, ground arith)
        | inr k ↦ (node.children ++ child ∷ [], ground arith)
      ]
    ]

pub link-Extends :
    (parent : Option String) (child : String) (graph : Dict SnapshotNode)
    → Extends graph (link parent child graph)
link-Extends parent child graph id node g =
    let (children, e) = relink-children parent child graph id node in
    (children, get-link parent child graph id node g ∙ ap some e)

pub has-link :
    (parent : Option String) (child : String) (graph : Dict SnapshotNode) (id : String)
    → has (link parent child graph) id ≡ has graph id
unfolding link
has-link none child graph id = refl
has-link (some p) child graph id = ground (arith, has-update graph p id (add_child child))

add_child-id :
    (child : String) (node : SnapshotNode) → (add_child child node).snapshot_id ≡ node.snapshot_id
unfolding add_child
add_child-id child node = ground arith

pub link-KeysMatch :
    (parent : Option String) (child : String) (graph : Dict SnapshotNode)
    → KeysMatch graph
    → KeysMatch (link parent child graph)
unfolding link
link-KeysMatch none child graph km key node g = km key node g
link-KeysMatch (some p) child graph km key node g = elim (Option-cases (get graph key)) [
  | inl e ↦ absurd (ground (arith, get-update graph p key (add_child child)))
  | inr (n, e) ↦
      ground (arith, get-update graph p key (add_child child), add_child-id child n, km key n)
]

module _ {E : Type 0} (node : SnapshotNode) (m : Manager E) where
  pub record_snapshot_node-Extends :
      get m.snapshot_graph node.snapshot_id ≡ none
      → Extends m.snapshot_graph (record_snapshot_node node m).snapshot_graph
  unfolding record_snapshot_node
  record_snapshot_node-Extends new id n g = link-Extends node.parent_id node.snapshot_id _ id n (
      ground (arith, get-put m.snapshot_graph node.snapshot_id id node, eq_iff node.snapshot_id id))

  -- The new node can be looked up.
  pub get-record_snapshot_node :
      (children : List String) × (get (record_snapshot_node node m).snapshot_graph node.snapshot_id
        ≡ some (record node { children = children }))
  unfolding record_snapshot_node
  get-record_snapshot_node = link-Extends node.parent_id node.snapshot_id _ node.snapshot_id node (
      ground (
        arith,
        get-put m.snapshot_graph node.snapshot_id node.snapshot_id node,
        eq_refl node.snapshot_id,
      ))

  -- The ids of the graph after a node is recorded.
  pub has-record_snapshot_node :
      (id : String)
      → has (record_snapshot_node node m).snapshot_graph id
        ≡ (if node.snapshot_id == id then true else has m.snapshot_graph id)
  unfolding record_snapshot_node
  has-record_snapshot_node id =
      has-link node.parent_id node.snapshot_id _ id
      ∙ has-put m.snapshot_graph node.snapshot_id id node

  pub record_snapshot_node-KeysMatch :
      KeysMatch m.snapshot_graph → KeysMatch (record_snapshot_node node m).snapshot_graph
  unfolding record_snapshot_node
  record_snapshot_node-KeysMatch km = link-KeysMatch node.parent_id node.snapshot_id _ (λ key n g.
      ground (
        arith,
        get-put m.snapshot_graph node.snapshot_id key node,
        eq_iff node.snapshot_id key,
        km key n,
      ))
