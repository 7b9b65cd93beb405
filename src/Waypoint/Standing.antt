-- ===== src/Waypoint/Standing.antt =====
-- Where a manager that attached to a Waypoint session stands.
use state_fork.Prelude.{
  Option-cases, ℕ, String, true, Option, none, some, [], ◌≡◌, refl, ◌∙◌, arith, eq_refl, inl, inr,
  Bool-cases, ap,
}
use state_fork.Exec.{gets, attempt}
use state_fork.Exec.Done.{Done, Done-bind}
use state_fork.Dict.{get, has}
use state_fork.Dict.Laws.{has-put, get-update}
use state_fork.Manager.State.{BranchState}
use state_fork.Manager.Branches.{position, register_branch, update_branch, set_branch_position}
use state_fork.Manager.Snapshot.{physical_node}
use state_fork.Manager.Sound.{has-register_branch_self}
use state_fork.Manager.Replay.Graph.{has-record_snapshot_node}
use state_fork.Forkable.State.{is_live}
use state_fork.Forkable.Listing.{list_branches}
use state_fork.Waypoint.State.{Tools, Waypoint}
use state_fork.Waypoint.Process.{assert_supports_forking}
use state_fork.Waypoint.Hooks.{waypoint}
use state_fork.Waypoint.Snapshots.{core_snapshot}
use state_fork.Waypoint.Hydrate.{sync_snapshot_tree}
use state_fork.Waypoint.Attach.{
  attach, attach_captured, supported, record_initial, stand_current, keep_record, current_base,
}

module _ {W : Type 0} where
  -- The current branch is live and active, and stands at a snapshot of the graph with an empty log.
  pub record Standing (m : Waypoint W) : Type 0 where
    pub live : is_live m m.current_branch_id ≡ true
    pub sid : String
    pub stored : has m.snapshot_graph sid ≡ true
    pub state : BranchState
    pub at : get m.branches m.current_branch_id ≡ some state
    pub active : state.active ≡ true
    pub last : state.last_snapshot_id ≡ some sid
    pub log : state.command_log ≡ []

  record_initial-stored :
      (sid : String) (parent : Option String) (m : Waypoint W)
      → has (record_initial sid parent m).snapshot_graph sid ≡ true
  unfolding record_initial physical_node
  record_initial-stored sid parent m = elim (Bool-cases (has m.snapshot_graph sid)) [
    | inl e ↦ simp e refl
    | inr e ↦
        simp e
          (has-record_snapshot_node (physical_node sid parent) m sid ∙ ground (arith, eq_refl sid))
  ]

  position-at :
      (id : String) (at : Option String) (m : Waypoint W)
      → (state : BranchState) × (get (set_branch_position id at m).branches id
          ≡ some (position at state))
  unfolding set_branch_position update_branch
  position-at id at m =
      let (state, e) =
        known_branch (register_branch id at m) id (has-register_branch_self id at m) in
      (state, get-update _ id id (position at) ∙ simp (eq_refl id, e) refl)
    where
      known_branch :
          (m : Waypoint W) (id : String)
          → has m.branches id ≡ true
          → (state : BranchState) × (get m.branches id ≡ some state)
      known_branch m id h = elim (Option-cases (get m.branches id)) [
        | inl e ↦ absurd (ground arith)
        | inr found ↦ found
      ]

  position-rest :
      (id : String) (at : Option String) (m : Waypoint W)
      → ((set_branch_position id at m).snapshot_graph ≡ m.snapshot_graph)
        × ((set_branch_position id at m).current_branch_id ≡ m.current_branch_id)
  unfolding set_branch_position update_branch register_branch
  position-rest id at m = (ground arith, ground arith)

  keep_record-Standing :
      (sid : String) (state : BranchState) (m : Waypoint W)
      → has m.snapshot_graph sid ≡ true
      → get m.branches m.current_branch_id ≡ some (position (some sid) state)
      → Standing (keep_record sid m)
  unfolding keep_record position
  keep_record-Standing sid state m stored at = elim (Bool-cases (is_live m m.current_branch_id)) [
    | inl e ↦ simp e (record {
      live = e;
      sid = sid;
      stored = stored;
      state = position (some sid) state;
      at = at;
      active = refl;
      last = refl;
      log = refl;
    })
    | inr e ↦ simp e (record {
      live =
          has-put m.extra.live_branches m.current_branch_id m.current_branch_id _
          ∙ ground (arith, eq_refl m.current_branch_id);
      sid = sid;
      stored = stored;
      state = position (some sid) state;
      at = at;
      active = refl;
      last = refl;
      log = refl;
    })
  ]

  attach_captured-Standing :
      (parent : Option String) (captured : Option String × ℕ)
      → Done Standing (attach_captured {W = W} parent captured)
  unfolding attach_captured stand_current
  attach_captured-Standing parent (none, elapsed) = record { at = λ m u q. absurd (ground arith) }
  attach_captured-Standing parent (some sid, elapsed) = record {
    at = λ m u q.
        let m₁ : Waypoint W = record_initial sid parent m in
        let (state, e) = position-at m₁.current_branch_id (some sid) m₁ in
        let (g, c) = position-rest m₁.current_branch_id (some sid) m₁ in
        keep_record-Standing sid state (set_branch_position m₁.current_branch_id (some sid) m₁)
          (ap (λ w. has w sid) g ∙ record_initial-stored sid parent m)
          (ap (λ i. get (set_branch_position m₁.current_branch_id (some sid) m₁).branches i) c ∙ e);
  }

-- A manager that attached to a Waypoint session without an exception, whatever the `waypoint`
-- program answered, has a live and active current branch, which stands at a snapshot of the graph
-- with nothing executed since.
pub attach-Standing : {W : Type 0} (t : Tools W) → Done Standing (attach t)
unfolding attach
attach-Standing t = Done-bind (attempt (assert_supports_forking t)) _ λ outcome.
    Done-bind (supported outcome) _ λ _. Done-bind (sync_snapshot_tree t) _ λ added.
      Done-bind (list_branches (waypoint t)) _ λ listed. Done-bind (gets current_base) _ λ parent.
        Done-bind (gets (λ m. m.current_branch_id)) _ λ branch_id.
          Done-bind (core_snapshot t branch_id) (attach_captured parent)
            (attach_captured-Standing parent)
