-- ===== src/Backends/Container/Stored.antt =====
-- A snapshot of a container stays restorable, whatever else the manager does before its cleanup.
use state_fork.Prelude.{eq_refl}
use state_fork.Manager.Snapshot.{physical_node}
use state_fork.Prelude.{
  Bool-cases, Option, String, arith, eq_iff, false, inl, inr, none, refl, some, true, truthy, ◌&&◌,
  ◌==◌, ◌∙◌, ◌≡◌, ◌≢◌, ◌⊎◌,
}
use state_fork.Dict.{Dict, get, has, put, update}
use state_fork.Dict.Laws.{get-put, get-update}
use state_fork.Manager.State.{Manager, SnapshotNode}
use state_fork.Manager.Branches.{
  add_child, link, record_snapshot_node, register_branch, set_branch_position, update_branch,
}
use state_fork.Manager.Snapshot.{note}
use state_fork.Manager.Stable.{IsStable}
use state_fork.Backends.Host.{Host}
use state_fork.Backends.Container.{Container, image_name}
use state_fork.Backends.Container.Engine.{Engine, Kept}

-- The graph has a physical snapshot under its id.
pub record Physical (graph : Dict SnapshotNode) (id : String) : Type 0 where
  pub node : SnapshotNode
  pub found : get graph id ≡ some node
  pub physical : node.is_virtual ≡ false
  pub own : node.snapshot_id ≡ id

update-Physical :
    (graph : Dict SnapshotNode) (key child id : String)
    → Physical graph id
    → Physical (update graph key (add_child child)) id
unfolding add_child
update-Physical graph key child id x = elim (Bool-cases (key == id)) [
  | inl e ↦ record {
    node = add_child child x.node;
    found = rw get-update (rw e (rw x.found refl));
    physical = ground (arith, x.physical);
    own = ground (arith, x.own);
  }
  | inr e ↦ record {
    node = x.node;
    found = rw get-update (rw e x.found);
    physical = x.physical;
    own = x.own;
  }
]

pub link-Physical :
    (parent : Option String) (child : String) (graph : Dict SnapshotNode) (id : String)
    → Physical graph id
    → Physical (link parent child graph) id
unfolding link
link-Physical none child graph id x = x
link-Physical (some parent) child graph id x =
    elim (Bool-cases (truthy (some parent) && has graph parent)) [
      | inl e ↦ rw e (update-Physical graph parent child id x)
      | inr e ↦ rw e x
    ]

-- A physical snapshot that is recorded stands in the graph.
pub put_self-Physical :
    (graph : Dict SnapshotNode) (id : String) (parent : Option String)
    → Physical (put graph id (physical_node id parent)) id
unfolding physical_node
put_self-Physical graph id parent = record {
  node = physical_node id parent;
  found = rw get-put (rw eq_refl refl);
  physical = refl;
  own = refl;
}

-- A virtual snapshot with that id would take its place.
abbrev pub Fit : {E : Type 0} → String → SnapshotNode → Manager E → Type 0
Fit id node m = (node.is_virtual ≡ false) ⊎ (node.snapshot_id ≢ id)

put-Physical :
    (graph : Dict SnapshotNode) (node : SnapshotNode) (id : String)
    → (node.is_virtual ≡ false) ⊎ (node.snapshot_id ≢ id)
    → Physical graph id
    → Physical (put graph node.snapshot_id node) id
put-Physical graph node id fit x = elim (Bool-cases (node.snapshot_id == id)) [
  | inl e ↦ elim fit [
    | inl physical ↦ record {
      node = node;
      found = rw get-put (rw e refl);
      physical = physical;
      own = (eq_iff node.snapshot_id id).0 e;
    }
    | inr other ↦ absurd (other ((eq_iff node.snapshot_id id).0 e))
  ]
  | inr e ↦ record {
    node = x.node;
    found = rw get-put (rw e x.found);
    physical = x.physical;
    own = x.own;
  }
]

module _ {W S : Type 0} (g : Engine W S) (c : Container) (id : String) (kept : Option S) where
  -- The snapshot `id` is recorded, its image is registered and holds `kept`.
  pub record Stored (m : Manager (Host Container W)) : Type 0 where
    pub config : m.extra.config ≡ c
    pub registered : get m.snapshots id ≡ some (image_name c id)
    pub recorded : Physical m.snapshot_graph id
    pub held : g.image m.extra.world (image_name c id) ≡ kept
    pub issued : g.issued m.extra.world id ≡ true

  pub Stored-world :
      (m : Manager (Host Container W)) (w : W)
      → Kept g m.extra.world w
      → Stored m
      → Stored (record m { extra = record m.extra { world = w } })
  Stored-world m w k s = record {
    config = s.config;
    registered = s.registered;
    recorded = s.recorded;
    held = k.images (image_name c id) ∙ s.held;
    issued = k.issued id s.issued;
  }

  -- The bookkeeping of the base class.
  pub Stored-IsStable : IsStable Stored (Fit id)
  unfolding note update_branch set_branch_position register_branch record_snapshot_node
  Stored-IsStable = record {
    noted = λ operation target elapsed branch m s. record {
      config = s.config;
      registered = s.registered;
      recorded = s.recorded;
      held = s.held;
      issued = s.issued;
    };
    updated = λ branch f m s. record {
      config = s.config;
      registered = s.registered;
      recorded = s.recorded;
      held = s.held;
      issued = s.issued;
    };
    positioned = λ branch at m s. elim (Bool-cases (has m.branches branch)) [
      | inl e ↦ simp e (record {
        config = s.config;
        registered = s.registered;
        recorded = s.recorded;
        held = s.held;
        issued = s.issued;
      })
      | inr e ↦ simp e (record {
        config = s.config;
        registered = s.registered;
        recorded = s.recorded;
        held = s.held;
        issued = s.issued;
      })
    ];
    recorded = λ node m fit s. record {
      config = s.config;
      registered = s.registered;
      recorded =
          link-Physical node.parent_id node.snapshot_id _ id
            (put-Physical m.snapshot_graph node id fit s.recorded);
      held = s.held;
      issued = s.issued;
    };
    fit_noted = λ node operation target elapsed branch m fit. fit;
    flagged = λ b m s. record {
      config = s.config;
      registered = s.registered;
      recorded = s.recorded;
      held = s.held;
      issued = s.issued;
    };
  }
