-- ===== src/Backends/Registry.antt =====
-- The resources that the backends register for their physical snapshots.
pub mod Calls
pub mod Container
pub mod Hybrid
pub mod Gvisor
pub mod Criu
pub mod Loyal
pub mod Restores
pub mod Attached
pub mod Starts
use state_fork.Text.{path_join}
use state_fork.Prelude.{Bool-cases, Option-cases, inl, inr, none, refl, subst, sym, ◌&&◌, ◌==◌, ◌∙◌}
use state_fork.Dict.{has, put, update}
use state_fork.Dict.Laws.{get-update}
use state_fork.Manager.Branches.{add_child, register_branch, set_branch_position, update_branch}
use state_fork.Manager.Snapshot.{note}
use state_fork.Manager.Stable.{IsStable}
use state_fork.Prelude.{
  Option, String, arith, eq_iff, false, nonempty, some, true, truthy, ◌<>◌, ◌↔◌, ◌≡◌, ◌≢◌,
}
use state_fork.Dict.{Dict, get}
use state_fork.Dict.Laws.{get-put}
use state_fork.Manager.State.{Manager, SnapshotNode}
use state_fork.Manager.Branches.{link, record_snapshot_node, register_snapshot_resource}
use text.Mathlib.TextLemmas.{append-ne-nil_of_right_ne-nil, append-eq-nil_iff}

-- Every physical snapshot of the graph has a resource, whose name is not empty.
pub record Stocked {E : Type 0} (m : Manager E) : Type 0 where
  pub resources :
      (id : String) (node : SnapshotNode)
      → get m.snapshot_graph id ≡ some node
      → node.is_virtual ≡ false
      → truthy (get m.snapshots node.snapshot_id) ≡ true

-- A physical snapshot may be recorded under an id that has a resource.
abbrev pub HasResource : {E : Type 0} → SnapshotNode → Manager E → Type 0
HasResource node m = node.is_virtual ≡ false → truthy (get m.snapshots node.snapshot_id) ≡ true

pub nonempty_iff : (s : String) → (nonempty s ≡ true) ↔ (s ≢ "")
nonempty_iff s = (
  λ h e. ground (arith, eq_iff s "", h, e),
  λ h. ground (arith, eq_iff s "", λ (e : s ≡ ""). h e),
)

pub nonempty-append : (s t : String) → nonempty t ≡ true → nonempty (s <> t) ≡ true
nonempty-append s t h =
    (nonempty_iff (s <> t)).1 (append-ne-nil_of_right_ne-nil s ((nonempty_iff t).0 h))

pub nonempty-append_left : (s t : String) → nonempty s ≡ true → nonempty (s <> t) ≡ true
nonempty-append_left s t h =
    (nonempty_iff (s <> t)).1 λ e. (nonempty_iff s).0 h (append-eq-nil_iff.0 e).0

pub path_join-nonempty :
    (directory name : String) → nonempty name ≡ true → nonempty (path_join directory name) ≡ true
unfolding path_join
path_join-nonempty directory name h = ground (
  arith,
  nonempty-append directory name h,
  nonempty-append directory ("/" <> name) (nonempty-append_left "/" name refl),
  h,
)

-- A new child changes nothing else of a node.
update-node :
    (graph : Dict SnapshotNode) (key child id : String) (node : SnapshotNode)
    → get (update graph key (add_child child)) id ≡ some node
    → (old : SnapshotNode) × (get graph id ≡ some old)
      × (old.is_virtual ≡ node.is_virtual)
      × (old.snapshot_id ≡ node.snapshot_id)
unfolding add_child
update-node graph key child id node h = elim (Option-cases (get graph id)) [
  | inl nothing ↦ absurd (ground (arith, get-update graph key id (add_child child), nothing, h))
  | inr (old, at) ↦ (
    old,
    at,
    ground (arith, get-update graph key id (add_child child), at, h),
    ground (arith, get-update graph key id (add_child child), at, h),
  )
]

-- A link changes no node but for its children.
link-node :
    (parent : Option String) (child : String) (graph : Dict SnapshotNode) (id : String)
    (node : SnapshotNode)
    → get (link parent child graph) id ≡ some node
    → (old : SnapshotNode) × (get graph id ≡ some old)
      × (old.is_virtual ≡ node.is_virtual)
      × (old.snapshot_id ≡ node.snapshot_id)
unfolding link
link-node none child graph id node h = (node, h, refl, refl)
link-node (some parent) child graph id node h =
    elim (Bool-cases (truthy (some parent) && has graph parent)) [
      | inl e ↦ update-node graph parent child id node (rw e at h)
      | inr e ↦ (node, rw e at h, refl, refl)
    ]

module _ {E : Type 0} where
  recorded-resource :
      (node : SnapshotNode) (m : Manager E)
      → HasResource node m
      → Stocked m
      → (id : String) (found : SnapshotNode)
      → get (put m.snapshot_graph node.snapshot_id node) id ≡ some found
      → found.is_virtual ≡ false
      → truthy (get m.snapshots found.snapshot_id) ≡ true
  recorded-resource node m fit s id found e physical = elim (Bool-cases (node.snapshot_id == id)) [
    | inl same ↦
        let own : node ≡ found =
          ground (arith, get-put m.snapshot_graph node.snapshot_id id node, same, e) in
        subst (λ n. truthy (get m.snapshots n.snapshot_id) ≡ true) own
          (fit (subst (λ n. n.is_virtual ≡ false) (sym own) physical))
    | inr other ↦
        s.resources id found
          (ground (arith, get-put m.snapshot_graph node.snapshot_id id node, other, e)) physical
  ]

  record_snapshot_node-Stocked :
      (node : SnapshotNode) (m : Manager E)
      → HasResource node m
      → Stocked m
      → Stocked (record_snapshot_node node m)
  unfolding record_snapshot_node
  record_snapshot_node-Stocked node m fit s = record {
    resources = λ id found e physical.
        let (old, at, same, named) = link-node node.parent_id node.snapshot_id _ id found e in
        subst (λ i. truthy (get m.snapshots i) ≡ true) named
          (recorded-resource node m fit s id old at (same ∙ physical));
  }

  pub register-Stocked :
      (id resource : String) (m : Manager E)
      → nonempty resource ≡ true
      → Stocked m
      → Stocked (register_snapshot_resource id resource m)
  unfolding register_snapshot_resource
  register-Stocked id resource m full s = record {
    resources =
        λ other node e physical. rw get-put (ground (arith, s.resources other node e physical));
  }

  -- The bookkeeping of the base class.
  pub Stocked-IsStable : IsStable (Stocked {E = E}) HasResource
  unfolding note update_branch set_branch_position register_branch
  Stocked-IsStable = record {
    noted = λ operation target elapsed branch m s. record { resources = s.resources };
    updated = λ branch f m s. record { resources = s.resources };
    positioned = λ branch at m s. elim (Bool-cases (has m.branches branch)) [
      | inl e ↦ simp e (record { resources = s.resources })
      | inr e ↦ simp e (record { resources = s.resources })
    ];
    recorded = record_snapshot_node-Stocked;
    fit_noted = λ node operation target elapsed branch m fit. fit;
    flagged = λ b m s. record { resources = s.resources };
  }
