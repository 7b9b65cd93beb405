-- ===== src/Manager/Stable/Snapshot.antt =====
-- Invariants of `snapshot` and its parts.
use state_fork.Prelude.{refl, ◌≡◌}
use state_fork.Exec.{Result, continue, err, ok}
use state_fork.Manager.Snapshot.{ask, physical_node}
use state_fork.Exec.Keeps.{Keeps, keeps_rules}
use state_fork.Prelude.{ℕ, String, Bool, true, false, Option, none, some, List}
use state_fork.Manager.State.{Manager, Hooks, SnapshotNode, BranchState, Command}
use state_fork.Manager.Stable.{IsStable, HooksKeep, Keeps-get_branch_state}
use state_fork.Decider.{Decider, random}
use state_fork.Manager.Snapshot.{
  consult, take_physical, commit_snapshot, snapshot_captured, snapshot_physical, snapshot_virtual,
  snapshot_active, snapshot_branch, snapshot,
}

module _ {E : Type 0} {P : Manager E → Type 0} {Fit : SnapshotNode → Manager E → Type 0}
    (h : Hooks E) (k : HooksKeep P Fit h) (st : IsStable P Fit) where
  consult-Keeps : (d : Decider) (elapsed : ℕ) → Keeps P (consult h d elapsed)
  unfolding consult
  consult-Keeps random elapsed = k.coin
  consult-Keeps _ elapsed = search keeps_rules

  take_physical-Keeps : (force : Bool) (elapsed : ℕ) → Keeps P (take_physical h force elapsed)
  unfolding take_physical
  take_physical-Keeps true elapsed = record { at = λ m p. p }
  take_physical-Keeps false elapsed = record {
    at = λ m p. (consult-Keeps m.decider elapsed).at m p;
  }

  commit_snapshot-Keeps :
      (branch : String) (node : SnapshotNode) (physical : Bool) (m : Manager E)
      → Fit node m
      → P m
      → P (commit_snapshot h branch node physical m)
  unfolding commit_snapshot
  commit_snapshot-Keeps branch node physical m fit p = st.flagged false _ (
      k.after_snapshot branch node.snapshot_id _ (st.updated branch _ _ (st.recorded node m fit p)))

  snapshot_captured-Keeps :
      (branch : String) (parent : Option String) (r : Result (Option String × ℕ)) (m : Manager E)
      → P m
      → ((id : String) (elapsed : ℕ)
          → r ≡ ok (some id, elapsed)
          → (parent : Option String) → Fit (physical_node id parent) m)
      → P (continue r (snapshot_captured h branch parent) m).1
  unfolding snapshot_captured
  snapshot_captured-Keeps branch parent (err exc) m p fit = p
  snapshot_captured-Keeps branch parent (ok (none, elapsed)) m p fit = p
  snapshot_captured-Keeps branch parent (ok (some id, elapsed)) m p fit =
      commit_snapshot-Keeps branch (physical_node id parent) true _
        (st.fit_noted _ "snapshot" id elapsed branch m (fit id elapsed refl parent))
        (st.noted "snapshot" id elapsed branch m p)

  snapshot_physical-Keeps :
      (branch : String) (parent : Option String) → Keeps P (snapshot_physical h branch parent)
  unfolding snapshot_physical
  snapshot_physical-Keeps branch parent = record {
    at = λ m p.
        snapshot_captured-Keeps branch parent (h.core_snapshot branch m).0 _
          ((k.core_snapshot branch).at m p) (k.fit_captured branch m p);
  }

  snapshot_virtual-Keeps :
      (branch : String) (parent : Option String) (commands : List Command)
      → Keeps P (snapshot_virtual h branch parent commands)
  unfolding snapshot_virtual ask
  snapshot_virtual-Keeps branch parent commands = record {
    at = λ m p.
        commit_snapshot-Keeps branch _ false _ (k.fit_drawn m p parent commands)
          (k.uuid_hex.at m p);
  }

  snapshot_active-Keeps :
      (branch : String) (force : Bool) (state : BranchState)
      → Keeps P (snapshot_active h branch force state)
  unfolding snapshot_active
  snapshot_active-Keeps branch force state =
      search (keeps_rules, take_physical-Keeps, snapshot_physical-Keeps, snapshot_virtual-Keeps)

  pub snapshot_branch-Keeps :
      (branch : String) (force : Bool) → Keeps P (snapshot_branch h branch force)
  unfolding snapshot_branch
  snapshot_branch-Keeps branch force =
      search (keeps_rules, Keeps-get_branch_state, snapshot_active-Keeps)

  pub snapshot-Keeps : Keeps P (snapshot h)
  unfolding snapshot
  snapshot-Keeps = search (keeps_rules, snapshot_branch-Keeps)
