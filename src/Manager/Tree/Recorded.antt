-- ===== src/Manager/Tree/Recorded.antt =====
-- The order of a graph through `_record_snapshot_node`.
use state_fork.Prelude.{
  Bool, Bool-cases, Option, Option-cases, String, [], ap, arith, eq_iff, false, inl, inr, length,
  none, nonempty, refl, some, subst, suc, true, ◌<◌, ◌==◌, ◌∙◌, ◌∷◌, ◌≡◌,
}
use state_fork.Dict.{Dict, get, has, put, update}
use state_fork.Dict.Laws.{get-put, get-update, has-put}
use state_fork.Manager.State.{Manager, SnapshotNode}
use state_fork.Manager.Branches.{add_child, link, record_snapshot_node}
use state_fork.Manager.Tree.Complete.{Ordered}
use state_fork.Manager.Tree.Grown.{Grown, Grown-Ordered}

-- Whether a snapshot is the parent that a node names.
abbrev picks : Option String → String → Bool
picks none i = false
picks (some p) i = p == i

-- The parent that a node names is stored.
abbrev pub Known : Dict SnapshotNode → Option String → Type 0
Known graph parent = (p : String) → parent ≡ some p → (nonempty p ≡ true) × (has graph p ≡ true)

length-put :
    {V : Type 0} (d : Dict V) (k : String) (v : V)
    → get d k ≡ none
    → length (put d k v) ≡ suc (length d)
unfolding get put
length-put [] k v new = refl
length-put ((j, w) ∷ d) k v new = elim (Bool-cases (j == k)) [
  | inl e ↦ absurd (ground (arith, new, e))
  | inr e ↦ rw e (ap suc (length-put d k v (rw e at new)))
]

length-update :
    {V : Type 0} (d : Dict V) (k : String) (f : V → V) → length (update d k f) ≡ length d
unfolding update
length-update [] k f = refl
length-update ((j, w) ∷ d) k f = ap suc (length-update d k f)

module _ (graph : Dict SnapshotNode) (id : String) (node : SnapshotNode)
    (new : get graph id ≡ none) where
  stored_of :
      (p : String) → has graph p ≡ true → (before : SnapshotNode) × (get graph p ≡ some before)
  stored_of p h = elim (Option-cases (get graph p)) [
    | inl e ↦ absurd (ground (arith, h, e))
    | inr (before, e) ↦ (before, e)
  ]

  link-Grown :
      (parent : Option String)
      → Known graph parent
      → Grown graph (link parent id (put graph id node)) id node (picks parent)
  unfolding link
  link-Grown none known = record {
    at = λ i. get-put graph id i node;
    more = length-put graph id node new;
  }
  link-Grown (some p) known =
      let (full, stored) = known p refl in
      let there : has (put graph id node) p ≡ true =
        ground (arith, has-put graph id p node, stored) in
      rw full (
        rw there (record {
          at = λ i. ground (
            arith,
            get-update (put graph id node) p i (add_child id),
            get-put graph id i node,
            eq_iff p i,
            eq_iff id i,
            (stored_of p stored).1,
            new,
            ap (λ k. get graph k) {x = p} {y = i},
          );
          more = length-update (put graph id node) p (add_child id) ∙ length-put graph id node new;
        }))

  module _ (o : Ordered graph) (leaf : node.children ≡ []) where
    link-Ordered :
        (parent : Option String)
        → node.parent_id ≡ parent
        → Known graph parent
        → Ordered (link parent id (put graph id node))
    link-Ordered none e known =
        Grown-Ordered graph _ id node (picks none) (link-Grown none known) new leaf o 0
          (omega arith) (λ i over. absurd (ground (arith, over)))
          (λ p named. absurd (ground (arith, named, e)))
    link-Ordered (some p) e known =
        let (before, stored) = stored_of p (known p refl).1 in
        Grown-Ordered graph _ id node (picks (some p)) (link-Grown (some p) known) new leaf o
          (suc (o.depth p)) (omega (arith, o.low p before stored))
          (λ i over. subst (λ k. o.depth k < suc (o.depth p)) ((eq_iff p i).0 over) (omega arith))
          (λ q named.
            let same : p ≡ q = ground (arith, named, e) in
            (before, subst (λ k. get graph k ≡ some before) same stored, (eq_iff p q).1 same))

-- Recording a new snapshot without children, whose parent is stored if it has one, keeps a graph
-- ordered.
pub record_snapshot_node-Ordered :
    {E : Type 0} (node : SnapshotNode) (m : Manager E)
    → Ordered m.snapshot_graph
    → get m.snapshot_graph node.snapshot_id ≡ none
    → node.children ≡ []
    → Known m.snapshot_graph node.parent_id
    → Ordered (record_snapshot_node node m).snapshot_graph
unfolding record_snapshot_node
record_snapshot_node-Ordered node m o new leaf known =
    link-Ordered m.snapshot_graph node.snapshot_id node new o leaf node.parent_id refl known
