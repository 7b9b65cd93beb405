-- ===== src/Waypoint/Synced.antt =====
-- `sync_snapshot_tree` as a whole.
use state_fork.Prelude.{
  subst, sym, ℕ, String, true, false, Option, List, [], ◌∷◌, ◌≡◌, refl, ◌∙◌, map, ◌==◌, contains,
  arith, eq_iff, eq_refl, inl, inr, Bool-cases,
}
use state_fork.Dict.{Dict, has, put}
use state_fork.Dict.Laws.{get-put, has-put}
use state_fork.Manager.State.{Manager, SnapshotNode}
use state_fork.Manager.Branches.{record_snapshot_node, register_snapshot_resource}
use state_fork.Manager.Snapshot.{physical_node}
use state_fork.Manager.Replay.Graph.{has-record_snapshot_node}
use state_fork.Waypoint.Hydrate.{add_checkpoint, add_checkpoints, link_checkpoints, hydrate}
use state_fork.Waypoint.Hydrated.{
  Retains, Retains-refl, Retains-trans, Fuller-refl, link-Grows, link_checkpoints-Grows, Linked,
  link_checkpoints-Linked,
}

put-Retains :
    (id : String) (node : SnapshotNode) (graph : Dict SnapshotNode)
    → has graph id ≡ false
    → Retains graph (put graph id node)
put-Retains id node graph new i n g =
    (n, get-put graph id i node ∙ ground (arith, eq_iff id i), Fuller-refl n)

module _ {E : Type 0} where
  -- What hydration leaves of the manager: the graph and the registry grow, the rest stays.
  pub record Joined (m m' : Manager E) : Type 0 where
    pub retains : Retains m.snapshot_graph m'.snapshot_graph
    pub ids : (id : String) → has m.snapshot_graph id ≡ true → has m'.snapshot_graph id ≡ true
    pub resources : (id : String) → has m.snapshots id ≡ true → has m'.snapshots id ≡ true
    pub branches : m'.branches ≡ m.branches
    pub current : m'.current_branch_id ≡ m.current_branch_id
    pub stats : m'.stats ≡ m.stats
    pub extra : m'.extra ≡ m.extra

  -- A checkpoint that is in the graph and can be forked from.
  pub record Present (id : String) (m : Manager E) : Type 0 where
    pub node : has m.snapshot_graph id ≡ true
    pub resource : has m.snapshots id ≡ true

  Joined-refl : (m : Manager E) → Joined m m
  Joined-refl m = record {
    retains = Retains-refl m.snapshot_graph;
    ids = λ id h. h;
    resources = λ id h. h;
    branches = refl;
    current = refl;
    stats = refl;
    extra = refl;
  }

  Joined-trans : {a b c : Manager E} → Joined a b → Joined b c → Joined a c
  Joined-trans {a} {b} {c} p q = record {
    retains = Retains-trans a.snapshot_graph b.snapshot_graph c.snapshot_graph p.retains q.retains;
    ids = λ id h. q.ids id (p.ids id h);
    resources = λ id h. q.resources id (p.resources id h);
    branches = q.branches ∙ p.branches;
    current = q.current ∙ p.current;
    stats = q.stats ∙ p.stats;
    extra = q.extra ∙ p.extra;
  }

  Present-Joined : {m m' : Manager E} (id : String) → Joined m m' → Present id m → Present id m'
  Present-Joined id j p = record { node = j.ids id p.node; resource = j.resources id p.resource }

  record_snapshot_node-Retains :
      (node : SnapshotNode) (m : Manager E)
      → has m.snapshot_graph node.snapshot_id ≡ false
      → Retains m.snapshot_graph (record_snapshot_node node m).snapshot_graph
  unfolding record_snapshot_node
  record_snapshot_node-Retains node m new =
      Retains-trans _ (put m.snapshot_graph node.snapshot_id node) _
        (put-Retains node.snapshot_id node m.snapshot_graph new)
        (link-Grows node.parent_id node.snapshot_id _).kept

  record_snapshot_node-Joined :
      (node : SnapshotNode) (m : Manager E)
      → has m.snapshot_graph node.snapshot_id ≡ false
      → Joined m (record_snapshot_node node m)
  unfolding record_snapshot_node
  record_snapshot_node-Joined node m new = record {
    retains = record_snapshot_node-Retains node m new;
    ids = λ id h. has-record_snapshot_node node m id ∙ ground arith;
    resources = λ id h. h;
    branches = refl;
    current = refl;
    stats = refl;
    extra = refl;
  }

  register-Joined :
      (id : String) (m : Manager E)
      → Joined m (register_snapshot_resource id id m)
        × (has (register_snapshot_resource id id m).snapshots id ≡ true)
  unfolding register_snapshot_resource
  register-Joined id m = (
    record {
      retains = Retains-refl m.snapshot_graph;
      ids = λ i h. h;
      resources = λ i h. has-put m.snapshots id i id ∙ ground arith;
      branches = refl;
      current = refl;
      stats = refl;
      extra = refl;
    },
    has-put m.snapshots id id id ∙ ground (arith, eq_refl id),
  )

  physical_node-Joined :
      (id : String) (parent : Option String) (m : Manager E)
      → has m.snapshot_graph id ≡ false
      → Joined m (record_snapshot_node (physical_node id parent) m)
        × (has (record_snapshot_node (physical_node id parent) m).snapshot_graph id ≡ true)
  unfolding physical_node
  physical_node-Joined id parent m new = (
    record_snapshot_node-Joined (physical_node id parent) m new,
    has-record_snapshot_node (physical_node id parent) m id ∙ ground (arith, eq_refl id),
  )

  add_checkpoint-Joined :
      (id : String) (parent : Option String) (added : ℕ) (m : Manager E)
      → Joined m (add_checkpoint id parent (added, m)).1
        × Present id (add_checkpoint id parent (added, m)).1
  unfolding add_checkpoint
  add_checkpoint-Joined id parent added m =
      let m₁ : Manager E = register_snapshot_resource id id m in
      let (j, r) = register-Joined id m in
      elim (Bool-cases (has m₁.snapshot_graph id)) [
        | inl e ↦ simp e (j, record { node = e; resource = r })
        | inr e ↦
            let (j₂, n) = physical_node-Joined id parent m₁ e in
            simp e (Joined-trans j j₂, record { node = n; resource = j₂.resources id r })
      ]

  add_checkpoints-Joined :
      (entries : List (String × Option String)) (added : ℕ) (m : Manager E)
      → Joined m (add_checkpoints entries (added, m)).1
        × ((id : String)
            → contains id (map (λ e. e.0) entries) ≡ true
            → Present id (add_checkpoints entries (added, m)).1)
  unfolding add_checkpoints contains
  add_checkpoints-Joined [] added m = (Joined-refl m, λ id h. absurd (ground arith))
  add_checkpoints-Joined ((i, parent) ∷ entries) added m =
      let (first, here) = add_checkpoint-Joined i parent added m in
      let (rest, listed) =
        add_checkpoints-Joined entries (add_checkpoint i parent (added, m)).0
          (add_checkpoint i parent (added, m)).1 in
      (
        Joined-trans first rest,
        λ id h. elim (Bool-cases (id == i)) [
          | inl e ↦ Present-Joined id rest (
              subst (λ j. Present j (add_checkpoint i parent (added, m)).1)
                (sym ((eq_iff id i).0 e)) here)
          | inr e ↦ listed id (ground arith)
        ],
      )

  -- What hydration promises for a listing of checkpoints with their parents.
  pub record Hydrated (entries : List (String × Option String)) (m m' : Manager E) : Type 0 where
    pub joined : Joined m m'
    pub present : (id : String) → contains id (map (λ e. e.0) entries) ≡ true → Present id m'
    pub linked :
        (id : String) → contains id (map (λ e. e.0) entries) ≡ true → Linked m'.snapshot_graph id

  link_checkpoints-Joined :
      (entries : List (String × Option String)) (m : Manager E)
      → Joined m (record m { snapshot_graph = link_checkpoints entries m.snapshot_graph })
  link_checkpoints-Joined entries m =
      let grown = link_checkpoints-Grows entries m.snapshot_graph in
      record {
        retains = grown.kept;
        ids = λ id h. grown.same_ids id ∙ h;
        resources = λ id h. h;
        branches = refl;
        current = refl;
        stats = refl;
        extra = refl;
      }

  pub hydrate-Hydrated :
      (entries : List (String × Option String)) (m : Manager E)
      → Hydrated entries m (hydrate entries m).1
  unfolding hydrate
  hydrate-Hydrated entries m =
      let (joined, present) = add_checkpoints-Joined entries 0 m in
      let m₁ : Manager E = (add_checkpoints entries (0, m)).1 in
      let linked = link_checkpoints-Joined entries m₁ in
      record {
        joined = Joined-trans joined linked;
        present = λ id h. Present-Joined id linked (present id h);
        linked = λ id h. link_checkpoints-Linked entries m₁.snapshot_graph id h;
      }
