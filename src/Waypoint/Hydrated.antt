-- ===== src/Waypoint/Hydrated.antt =====
-- What the hydration of the snapshot graph does to known nodes and to
-- the listed checkpoints, whatever the order of the listing.
use state_fork.Prelude.{
  eq_iff, map, subst, sym, ap, sym, String, true, Option, none, some, List, [], ◌∷◌, ◌++◌, ◌≡◌,
  refl, ◌∙◌, ◌==◌, ◌||◌, ◌&&◌, contains, truthy, arith, eq_refl, inl, inr, Bool-cases, Option-cases,
}
use state_fork.Dict.{Dict, get, has}
use state_fork.Manager.State.{SnapshotNode}
use state_fork.Manager.Branches.{add_child, link}
use state_fork.Manager.Replay.Graph.{get-link, relink, has-link}
use state_fork.Waypoint.Hydrate.{link_checkpoint, link_checkpoints}

contains-append :
    (c : String) (xs ys : List String) → contains c (xs ++ ys) ≡ (contains c xs || contains c ys)
unfolding contains
contains-append c [] ys = refl
contains-append c (x ∷ xs) ys = ground (arith, contains-append c xs ys)

-- A node becomes another one that differs in having more children.
pub record Fuller (node node' : SnapshotNode) : Type 0 where
  pub parent : node'.parent_id ≡ node.parent_id
  pub own : node'.snapshot_id ≡ node.snapshot_id
  pub virtual : node'.is_virtual ≡ node.is_virtual
  pub commands : node'.replay_commands ≡ node.replay_commands
  pub children : (c : String) → contains c node.children ≡ true → contains c node'.children ≡ true

pub Fuller-refl : (node : SnapshotNode) → Fuller node node
Fuller-refl node = record {
  parent = refl;
  own = refl;
  virtual = refl;
  commands = refl;
  children = λ c h. h;
}

Fuller-trans : {a b c : SnapshotNode} → Fuller a b → Fuller b c → Fuller a c
Fuller-trans p q = record {
  parent = q.parent ∙ p.parent;
  own = q.own ∙ p.own;
  virtual = q.virtual ∙ p.virtual;
  commands = q.commands ∙ p.commands;
  children = λ c h. q.children c (p.children c h);
}

add_child-Fuller : (child : String) (node : SnapshotNode) → Fuller node (add_child child node)
unfolding add_child
add_child-Fuller child node = elim (Bool-cases (contains child node.children)) [
  | inl e ↦ simp e (Fuller-refl node)
  | inr e ↦ simp e (record {
    parent = refl;
    own = refl;
    virtual = refl;
    commands = refl;
    children = λ c h. ground (arith, contains-append c node.children (child ∷ []));
  })
]

contains-add_child :
    (child : String) (node : SnapshotNode) → contains child (add_child child node).children ≡ true
unfolding add_child contains
contains-add_child child node =
    ground (arith, contains-append child node.children (child ∷ []), eq_refl child)

relink-Fuller :
    (parent : Option String) (child : String) (graph : Dict SnapshotNode) (id : String)
    (node : SnapshotNode)
    → Fuller node (relink parent child graph id node)
unfolding relink
relink-Fuller none child graph id node = Fuller-refl node
relink-Fuller (some p) child graph id node =
    elim (Bool-cases ((truthy (some p) && has graph p) && p == id)) [
      | inl e ↦ simp e (add_child-Fuller child node)
      | inr e ↦ simp e (Fuller-refl node)
    ]

-- The nodes of a graph stay, with more children.
abbrev pub Retains : Dict SnapshotNode → Dict SnapshotNode → Type 0
Retains graph graph' =
    (id : String) (node : SnapshotNode)
    → get graph id ≡ some node
    → (node' : SnapshotNode) × (get graph' id ≡ some node') × Fuller node node'

pub Retains-trans : (a b c : Dict SnapshotNode) → Retains a b → Retains b c → Retains a c
Retains-trans a b c p q id node g =
    let (n₁, g₁, f₁) = p id node g in let (n₂, g₂, f₂) = q id n₁ g₁ in (n₂, g₂, Fuller-trans f₁ f₂)

pub Retains-refl : (graph : Dict SnapshotNode) → Retains graph graph
Retains-refl graph id node g = (node, g, Fuller-refl node)

-- And no others come.
pub record Grows (graph graph' : Dict SnapshotNode) : Type 0 where
  pub same_ids : (id : String) → has graph' id ≡ has graph id
  pub kept : Retains graph graph'

Grows-refl : (graph : Dict SnapshotNode) → Grows graph graph
Grows-refl graph = record { same_ids = λ id. refl; kept = Retains-refl graph }

Grows-trans : {a b c : Dict SnapshotNode} → Grows a b → Grows b c → Grows a c
Grows-trans {a} {b} {c} p q = record {
  same_ids = λ id. q.same_ids id ∙ p.same_ids id;
  kept = Retains-trans a b c p.kept q.kept;
}

pub link-Grows :
    (parent : Option String) (child : String) (graph : Dict SnapshotNode)
    → Grows graph (link parent child graph)
link-Grows parent child graph = record {
  same_ids = has-link parent child graph;
  kept = λ id node g. (
    relink parent child graph id node,
    get-link parent child graph id node g,
    relink-Fuller parent child graph id node,
  );
}

link_checkpoint-Grows :
    (id : String) (graph : Dict SnapshotNode) → Grows graph (link_checkpoint id graph)
unfolding link_checkpoint
link_checkpoint-Grows id graph = elim (Option-cases (get graph id)) [
  | inl e ↦ rw (e, link_checkpoint) (Grows-refl graph)
  | inr (node, e) ↦ rw (e, link_checkpoint) (link-Grows node.parent_id node.snapshot_id graph)
]

pub link_checkpoints-Grows :
    (entries : List (String × Option String)) (graph : Dict SnapshotNode)
    → Grows graph (link_checkpoints entries graph)
unfolding link_checkpoints
link_checkpoints-Grows [] graph = Grows-refl graph
link_checkpoints-Grows ((id, parent) ∷ entries) graph =
    Grows-trans (link_checkpoint-Grows id graph)
      (link_checkpoints-Grows entries (link_checkpoint id graph))

-- A node whose parent is in the graph is one of the parent's children.
pub record Linked (graph : Dict SnapshotNode) (id : String) : Type 0 where
  pub at :
      (node parent : SnapshotNode) (p : String)
      → get graph id ≡ some node
      → node.parent_id ≡ some p
      → truthy (some p) ≡ true
      → get graph p ≡ some parent
      → contains node.snapshot_id parent.children ≡ true

pub known :
    (graph : Dict SnapshotNode) (id : String)
    → has graph id ≡ true
    → (node : SnapshotNode) × (get graph id ≡ some node)
known graph id h = elim (Option-cases (get graph id)) [
  | inl e ↦ absurd (ground arith)
  | inr found ↦ found
]

agree :
    (graph : Dict SnapshotNode) (id : String) (a b : SnapshotNode)
    → get graph id ≡ some a
    → get graph id ≡ some b
    → a ≡ b
agree graph id a b g h = ground arith

contains-relink :
    (p child : String) (graph : Dict SnapshotNode) (q : SnapshotNode)
    → truthy (some p) ≡ true
    → get graph p ≡ some q
    → contains child (relink (some p) child graph p q).children ≡ true
unfolding relink
contains-relink p child graph q ht hg = simp (ht, hg, eq_refl p) (contains-add_child child q)

link_checkpoint-at :
    (id : String) (graph : Dict SnapshotNode) (n : SnapshotNode)
    → get graph id ≡ some n
    → link_checkpoint id graph ≡ link n.parent_id n.snapshot_id graph
unfolding link_checkpoint
link_checkpoint-at id graph n g = rw (g, link_checkpoint) refl

link_checkpoint-Linked :
    (id : String) (graph : Dict SnapshotNode) → Linked (link_checkpoint id graph) id
link_checkpoint-Linked id graph = record {
  at = λ node parent p g hp ht gp.
      let grown = link_checkpoint-Grows id graph in
      let (n, g₀) = known graph id (sym (grown.same_ids id) ∙ ground arith) in
      let (q, q₀) = known graph p (sym (grown.same_ids p) ∙ ground arith) in
      let (n', g₁, f) = grown.kept id n g₀ in
      let same : n' ≡ node = agree _ id n' node g₁ g in
      let at_p : n.parent_id ≡ some p = sym f.parent ∙ ap (λ x. x.parent_id) same ∙ hp in
      let new : parent ≡ relink n.parent_id n.snapshot_id graph p q = agree _ p _ _ gp (
        ap (λ w. get w p) (link_checkpoint-at id graph n g₀)
        ∙ get-link n.parent_id n.snapshot_id graph p q q₀) in
      ap (λ s. contains s parent.children) (sym (ap (λ x. x.snapshot_id) same) ∙ f.own)
      ∙ ap (λ x. contains n.snapshot_id x.children) new
      ∙ ap (λ o. contains n.snapshot_id (relink o n.snapshot_id graph p q).children) at_p
      ∙ contains-relink p n.snapshot_id graph q ht q₀;
}

Linked-Grows :
    {graph graph' : Dict SnapshotNode} (id : String)
    → Grows graph graph'
    → Linked graph id
    → Linked graph' id
Linked-Grows {graph} {graph'} id grown linked = record {
  at = λ node parent p g hp ht gp.
      let (n, g₀) = known graph id (sym (grown.same_ids id) ∙ ground arith) in
      let (q, q₀) = known graph p (sym (grown.same_ids p) ∙ ground arith) in
      let (n', g₁, f) = grown.kept id n g₀ in
      let (q', q₁, f') = grown.kept p q q₀ in
      let same : n' ≡ node = agree _ id n' node g₁ g in
      let same_q : q' ≡ parent = agree _ p q' parent q₁ gp in
      let before = linked.at n q p g₀ (sym f.parent ∙ ap (λ x. x.parent_id) same ∙ hp) ht q₀ in
      ap (λ s. contains s parent.children) (sym (ap (λ x. x.snapshot_id) same) ∙ f.own)
      ∙ ap (λ x. contains n.snapshot_id x.children) (sym same_q)
      ∙ f'.children n.snapshot_id before;
}

pub link_checkpoints-Linked :
    (entries : List (String × Option String)) (graph : Dict SnapshotNode) (id : String)
    → contains id (map (λ e. e.0) entries) ≡ true
    → Linked (link_checkpoints entries graph) id
unfolding link_checkpoints contains
link_checkpoints-Linked [] graph id h = absurd (ground arith)
link_checkpoints-Linked ((i, parent) ∷ entries) graph id h = elim (Bool-cases (id == i)) [
  | inl e ↦
      let rest = link_checkpoints-Grows entries (link_checkpoint i graph) in
      Linked-Grows id rest (
        subst (λ j. Linked (link_checkpoint j graph) id) ((eq_iff id i).0 e)
          (link_checkpoint-Linked id graph))
  | inr e ↦ link_checkpoints-Linked entries (link_checkpoint i graph) id (ground arith)
]
