-- ===== src/Backends/Registry/Loyal.antt =====
-- Backends whose hook reloads every snapshot that has a resource.
use state_fork.Prelude.{Option, none, ◌≢◌}
use state_fork.Manager.Branches.{get_branch_state}
use state_fork.Manager.Restore.{restore, restore_found}
use state_fork.Manager.Stable.{get_branch_state-state}
use state_fork.Prelude.{
  Bool, Bool-cases, List, String, [], ap, arith, false, inl, inr, refl, some, subst, suc, sym, true,
  zero, ℕ, ◌∙◌, ◌≡◌,
}
use state_fork.Exec.{gets, modify, ok}
use state_fork.Dict.{Dict, get}
use state_fork.Manager.State.{Command, Hooks, Manager, SnapshotNode}
use state_fork.Manager.Branches.{set_branch_position}
use state_fork.Manager.Snapshot.{note}
use state_fork.Manager.Ancestry.{arrived, resolve, walk}
use state_fork.Manager.Restore.{replay, restore_entered, restore_from, restore_walked}
use state_fork.Exec.Ensures.{Ensures, Ensures-bind, Ensures-after, Ensures-pure, Ensures-gets}
use state_fork.Backends.Registry.{Stocked}
use state_fork.Backends.Registry.Calls.{Has}
use state_fork.Manager.Ancestry.Resolution.{walk_climbs}

-- The walk arrives at a physical node of the graph.
walk-found :
    (fuel : ℕ) (graph : Dict SnapshotNode) (node ancestor : SnapshotNode) (key : String)
    (commands path : List Command) (visited : List String)
    → get graph key ≡ some node
    → walk fuel graph node commands visited ≡ some (arrived ancestor path)
    → (id : String) × (get graph id ≡ some ancestor) × (ancestor.is_virtual ≡ false)
unfolding walk
walk-found zero graph node ancestor key commands path visited g h = absurd (ground (arith, h))
walk-found (suc fuel) graph node ancestor key commands path visited g h =
    elim (Bool-cases node.is_virtual) [
      | inr e ↦
          let same : node ≡ ancestor = ground (arith, h, e) in
          (key, g ∙ ap some same, subst (λ n. n.is_virtual ≡ false) same e)
      | inl e ↦
          let (p, parent, hp, at, rest) =
            walk_climbs graph fuel node commands visited e h (cc) (cc) (cc) in
          walk-found fuel graph parent ancestor p _ path _ at rest
    ]

resolve-found :
    (graph : Dict SnapshotNode) (node ancestor : SnapshotNode) (key : String) (path : List Command)
    → get graph key ≡ some node
    → resolve graph node ≡ some (arrived ancestor path)
    → (id : String) × (get graph id ≡ some ancestor) × (ancestor.is_virtual ≡ false)
unfolding resolve
resolve-found graph node ancestor key path = walk-found _ graph node ancestor key [] path []

module _ {E : Type 0} (h : Hooks E) where
  -- The hook does not report a failure where the snapshot has a resource.
  abbrev pub IsLoyal : Type 0
  IsLoyal = (id branch : String) → Ensures (Has id) (h.core_restore id branch) (λ r m. r.0 ≡ true)

  restore_entered-true :
      (id : String) (ancestor : SnapshotNode) (commands : List Command) (r : Bool × ℕ)
      → Ensures (λ m. r.0 ≡ true) (restore_entered h id ancestor commands r) (λ v m. v ≡ true)
  unfolding restore_entered
  restore_entered-true id ancestor commands (false, elapsed) =
      Ensures-pure false λ m e. absurd (ground (arith, e))
  restore_entered-true id ancestor commands (true, elapsed) =
      Ensures-after (gets λ m. m.current_branch_id) _ λ active.
        Ensures-after (modify (note "restore" ancestor.snapshot_id elapsed active)) _ λ noted.
          Ensures-after (replay h commands) _ λ replayed.
            Ensures-after (modify (set_branch_position active (some id))) _
              λ positioned. Ensures-pure true λ m e. refl

  module _ (loyal : IsLoyal) where
    restore_from-true :
        (id departing : String) (ancestor : SnapshotNode) (commands : List Command)
        → Ensures
            (Has ancestor.snapshot_id)
            (restore_from h id departing ancestor commands)
            (λ v m. v ≡ true)
    unfolding restore_from
    restore_from-true id departing ancestor commands =
        Ensures-bind (λ r m. r.0 ≡ true) _ _ (loyal ancestor.snapshot_id departing)
          λ r. restore_entered-true id ancestor commands r

    -- The manager and its graph as the restore found them.
    record Before (graph : Dict SnapshotNode) (m : Manager E) : Type 0 where
      stocked : Stocked m
      same : m.snapshot_graph ≡ graph

    restore_walked-true :
        (id departing : String) (graph found_graph : Dict SnapshotNode)
        (node ancestor : SnapshotNode) (path : List Command)
        → get graph id ≡ some node
        → resolve graph node ≡ some (arrived ancestor path)
        → Ensures
            (λ m. (found_graph ≡ graph) × Before graph m)
            (restore_walked h id departing (resolve found_graph node))
            (λ v m. v ≡ true)
    unfolding restore_walked
    restore_walked-true id departing graph found_graph node ancestor path g w = record {
      at = λ m b v.
          let (key, at, physical) = resolve-found graph node ancestor id path g w in
          let has : Has ancestor.snapshot_id m =
            b.1.stocked.resources key ancestor (ap (λ d. get d key) b.1.same ∙ at) physical in
          subst (λ o. (restore_walked h id departing o m).0 ≡ ok v → v ≡ true)
            (sym (ap (λ d. resolve d node) b.0 ∙ w))
            ((restore_from-true id departing ancestor path).at m has v);
    }

    restore_found-true :
        (id departing : String) (graph : Dict SnapshotNode) (node ancestor : SnapshotNode)
        (path : List Command) (found : Option SnapshotNode)
        → get graph id ≡ some node
        → resolve graph node ≡ some (arrived ancestor path)
        → found ≡ some node
        → Ensures (Before graph) (restore_found h id departing found) (λ v m. v ≡ true)
    unfolding restore_found
    restore_found-true id departing graph node ancestor path none g w e = absurd (ground (arith, e))
    restore_found-true id departing graph node ancestor path (some other) g w e =
        Ensures-bind (λ d m. (d ≡ graph) × Before graph m) _ _
          (Ensures-gets (λ m. m.snapshot_graph) λ m b. (b.same, b))
          λ d.
            let same : node ≡ other = ground (arith, e) in
            subst
              (λ n.
                Ensures (λ m. (d ≡ graph) × Before graph m)
                  (restore_walked h id departing (resolve d n)) (λ v m. v ≡ true))
              same (restore_walked-true id departing graph d node ancestor path g w)

    restore-loyal :
        (id : String) (graph : Dict SnapshotNode) (node ancestor : SnapshotNode)
        (path : List Command)
        → get graph id ≡ some node
        → resolve graph node ≡ some (arrived ancestor path)
        → Ensures (Before graph) (restore h id) (λ v m. v ≡ true)
    unfolding restore
    restore-loyal id graph node ancestor path g w =
        Ensures-bind (λ current. Before graph) _ _
          (Ensures-gets (λ m. m.current_branch_id) λ m b. b)
          λ current.
            Ensures-bind (λ departing. Before graph) (get_branch_state current) _
              (record {
                at = λ m b v e. subst (Before graph) (sym (get_branch_state-state current m)) b;
              })
              λ departing.
                Ensures-bind (λ found m. (found ≡ some node) × Before graph m)
                  (gets λ m. get m.snapshot_graph id)
                  (λ found. restore_found h id departing.branch_id found)
                  (Ensures-gets (λ m. get m.snapshot_graph id)
                    λ m b. (ap (λ d. get d id) b.same ∙ g, b))
                  λ found. record {
                    at = λ m b.
                        (restore_found-true id departing.branch_id graph node ancestor path found g
                            w b.0).at
                          m b.1;
                  }

    pub restore-ne-false :
        (id : String) (m : Manager E) (node ancestor : SnapshotNode) (path : List Command)
        → Stocked m
        → get m.snapshot_graph id ≡ some node
        → resolve m.snapshot_graph node ≡ some (arrived ancestor path)
        → (restore h id m).0 ≢ ok false
    restore-ne-false id m node ancestor path s g w e =
        let truth : false ≡ true =
          (restore-loyal id m.snapshot_graph node ancestor path g w).at m
            (record { stocked = s; same = refl }) false e in
        cc (truth)
