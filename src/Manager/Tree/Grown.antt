-- ===== src/Manager/Tree/Grown.antt =====
-- Recording a fresh node keeps the order of a graph.
use state_fork.Prelude.{sym, ℕ, ◌<◌, ◌∙◌, ◌≤◌}
use state_fork.Manager.Tree.Complete.{Ordered}
use state_fork.Prelude.{subst, true, ◌⊎◌}
use mathlib.Core.Option
use state_fork.Prelude.{
  Bool, Bool-cases, List, Option-cases, String, [], ap, arith, contains, eq_iff, false,
  if◌then◌else◌, inl, inr, length, none, refl, some, suc, ◌++◌, ◌==◌, ◌||◌, ◌∷◌, ◌≡◌,
}
use state_fork.Dict.{Dict, get}
use state_fork.Manager.State.{SnapshotNode}
use state_fork.Manager.Branches.{add_child}

-- `graph'` is `graph` with a node under a new id, which is a child of the nodes that `above` picks.
pub record Grown (graph graph' : Dict SnapshotNode) (id : String) (node : SnapshotNode)
    (above : String → Bool) : Type 0 where
  pub at :
      (i : String)
      → get graph' i ≡ (
          if id == i
          then some node
          else if above i
          then Option.map (add_child id) (get graph i)
          else get graph i)
  pub more : length graph' ≡ suc (length graph)

contains-append :
    (s : String) (xs ys : List String) → contains s (xs ++ ys) ≡ (contains s xs || contains s ys)
unfolding contains
contains-append s [] ys = refl
contains-append s (x ∷ xs) ys = elim (Bool-cases (s == x)) [
  | inl e ↦ simp e refl
  | inr e ↦ simp e (contains-append s xs ys)
]

-- The children after one was added.
contains-add_child :
    (s child : String) (node : SnapshotNode)
    → contains s (add_child child node).children ≡ (contains s node.children || s == child)
unfolding add_child contains
contains-add_child s child node = elim (Bool-cases (contains child node.children)) [
  | inl e ↦ ground (arith, e, eq_iff s child)
  | inr e ↦ simp e (rw contains-append (ground arith))
]

add_child-parent :
    (child : String) (node : SnapshotNode) → (add_child child node).parent_id ≡ node.parent_id
unfolding add_child
add_child-parent child node = ground arith

module _ (graph graph' : Dict SnapshotNode) (id : String) (node : SnapshotNode)
    (above : String → Bool) (g : Grown graph graph' id node above) (new : get graph id ≡ none)
    (leaf : node.children ≡ []) where
  -- An older node, and what it was.
  old :
      (i : String) (n : SnapshotNode)
      → get graph' i ≡ some n
      → (id == i) ≡ false
      → (before : SnapshotNode) × (get graph i ≡ some before)
        × (n ≡ (if above i then add_child id before else before))
  old i n e other = elim (Option-cases (get graph i)) [
    | inl none_before ↦ absurd (ground (arith, g.at i, e, other, none_before))
    | inr (before, stored) ↦ (before, stored, ground (arith, g.at i, e, other, stored))
  ]

  kept :
      (i : String) (before : SnapshotNode)
      → get graph i ≡ some before
      → ((id == i) ≡ false)
        × (get graph' i ≡ some (if above i then add_child id before else before))
  kept i before stored = elim (Bool-cases (id == i)) [
    | inl e ↦ absurd (ground (arith, stored, new, ap (λ k. get graph k) ((eq_iff id i).0 e)))
    | inr e ↦ (e, ground (arith, g.at i, e, stored))
  ]

  get-own : get graph' id ≡ some node
  get-own = ground (arith, g.at id, (eq_iff id id).1 refl)

  no_child : (child : String) → contains child node.children ≡ true → ⊥
  unfolding contains
  no_child child c = absurd (ground (arith, subst (λ cs. contains child cs ≡ true) leaf c))

  -- The children of an older node are those that it had, and the new one where it is above it.
  old-child :
      (i child : String) (before : SnapshotNode)
      → contains child (if above i then add_child id before else before).children ≡ true
      → (contains child before.children ≡ true) ⊎ ((above i ≡ true) × (child ≡ id))
  old-child i child before c = elim (Bool-cases (above i)) [
    | inl e ↦ elim (Bool-cases (contains child before.children)) [
      | inl had ↦ inl had
      | inr had ↦ inr (
        e,
        (eq_iff child id).0 (ground (arith, rw e at c, contains-add_child child id before, had)),
      )
    ]
    | inr e ↦ inl (rw e at c)
  ]

  still-child :
      (i child : String) (before : SnapshotNode)
      → contains child before.children ≡ true
      → contains child (if above i then add_child id before else before).children ≡ true
  still-child i child before c = elim (Bool-cases (above i)) [
    | inl e ↦ rw e (ground (arith, contains-add_child child id before, c))
    | inr e ↦ rw e c
  ]

  same_parent :
      (i : String) (before : SnapshotNode)
      → (if above i then add_child id before else before).parent_id ≡ before.parent_id
  same_parent i before = elim (Bool-cases (above i)) [
    | inl e ↦ rw e (add_child-parent id before)
    | inr e ↦ rw e refl
  ]

  module _ (o : Ordered graph) (level : ℕ) (shallow : level ≤ length graph)
      (deeper : (i : String) → above i ≡ true → o.depth i < level)
      (parent_above : (p : String)
        → node.parent_id ≡ some p
        → (before : SnapshotNode) × (get graph p ≡ some before) × (above p ≡ true)) where
    abbrev depth_of : String → ℕ
    depth_of i = if id == i then level else o.depth i

    low_of : (i : String) (n : SnapshotNode) → get graph' i ≡ some n → depth_of i < length graph'
    low_of i n e = elim (Bool-cases (id == i)) [
      | inl own ↦ rw own (omega (arith, g.more, shallow))
      | inr other ↦
          let (before, stored, same) = old i n e other in
          rw other (omega (arith, g.more, o.low i before stored))
    ]

    -- A stored snapshot keeps its depth.
    depth-old :
        (i : String) (before : SnapshotNode) → get graph i ≡ some before → depth_of i ≡ o.depth i
    depth-old i before stored = rw (kept i before stored).0 refl

    falls_of :
        (i child : String) (n : SnapshotNode)
        → get graph' i ≡ some n
        → contains child n.children ≡ true
        → (below : SnapshotNode) × (get graph' child ≡ some below) × (depth_of i < depth_of child)
    falls_of i child n e c = elim (Bool-cases (id == i)) [
      | inl own ↦
          let here : get graph' i ≡ some node =
            subst (λ k. get graph' k ≡ some node) ((eq_iff id i).0 own) get-own in
          let same : n ≡ node = ground (arith, e, here) in
          absurd (no_child child (subst (λ k. contains child k.children ≡ true) same c))
      | inr other ↦
          let (before, stored, same) = old i n e other in
          let had = subst (λ k. contains child k.children ≡ true) same c in
          elim (old-child i child before had) [
            | inl older ↦
                let (below, found, falls) = o.falls i child before stored older in
                (
                  (if above child then add_child id below else below),
                  (kept child below found).1,
                  omega (arith, falls, depth-old i before stored, depth-old child below found),
                )
            | inr (over, fresh) ↦ (
              node,
              subst (λ k. get graph' k ≡ some node) (sym fresh) get-own,
              subst (λ k. depth_of i < depth_of k) (sym fresh)
                  (rw ((eq_iff id id).1 refl)
                    (omega (arith, deeper i over, depth-old i before stored))),
            )
          ]
    ]

    known_of :
        (i p : String) (n : SnapshotNode)
        → get graph' i ≡ some n
        → n.parent_id ≡ some p
        → (over : SnapshotNode) × (get graph' p ≡ some over) × (contains i over.children ≡ true)
    known_of i p n e parent = elim (Bool-cases (id == i)) [
      | inl own ↦
          let same_id = (eq_iff id i).0 own in
          let here : get graph' i ≡ some node =
            subst (λ k. get graph' k ≡ some node) same_id get-own in
          let same : n ≡ node = ground (arith, e, here) in
          let (before, stored, over) =
            parent_above p (subst (λ k. k.parent_id ≡ some p) same parent) in
          (
            (if above p then add_child id before else before),
            (kept p before stored).1,
            rw over (ground (arith, contains-add_child i id before, (eq_iff i id).1 (sym same_id))),
          )
      | inr other ↦
          let (before, stored, same) = old i n e other in
          let had : before.parent_id ≡ some p =
            sym (same_parent i before) ∙ subst (λ k. k.parent_id ≡ some p) same parent in
          let (over, found, child) = o.known i p before stored had in
          (
            (if above p then add_child id over else over),
            (kept p over found).1,
            still-child p i over child,
          )
    ]

    pub Grown-Ordered : Ordered graph'
    Grown-Ordered = record { depth = depth_of; low = low_of; falls = falls_of; known = known_of }
