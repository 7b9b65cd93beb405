-- ===== src/Manager/Stable/Attach.antt =====
-- Invariants of the first snapshot.
use state_fork.Prelude.{Option, String, none, refl, some, ℕ, ◌≡◌}
use state_fork.Exec.{Result, continue, err, ok}
use state_fork.Exec.Keeps.{Keeps}
use state_fork.Manager.State.{Hooks, Manager, SnapshotNode}
use state_fork.Manager.Snapshot.{physical_node}
use state_fork.Manager.Attach.{attach, attach_captured, stand_at}
use state_fork.Manager.Stable.{IsStable, HooksKeep}

module _ {E : Type 0} {P : Manager E → Type 0} {Fit : SnapshotNode → Manager E → Type 0}
    (h : Hooks E) (k : HooksKeep P Fit h) (st : IsStable P Fit) where
  attach_captured-Keeps :
      (branch : String) (r : Result (Option String × ℕ)) (m : Manager E)
      → P m
      → ((id : String) (elapsed : ℕ)
          → r ≡ ok (some id, elapsed)
          → (parent : Option String) → Fit (physical_node id parent) m)
      → P (continue r (attach_captured h branch) m).1
  unfolding attach_captured
  attach_captured-Keeps branch (err exc) m p fit = p
  attach_captured-Keeps branch (ok (none, elapsed)) m p fit = p
  attach_captured-Keeps branch (ok (some id, elapsed)) m p fit =
      st.updated branch (stand_at id) _ (st.recorded _ m (fit id elapsed refl none) p)

  pub attach-Keeps : Keeps P (attach h)
  unfolding attach
  attach-Keeps = record {
    at = λ m p.
        let branch = m.current_branch_id in
        attach_captured-Keeps branch (h.core_snapshot branch m).0 _
          ((k.core_snapshot branch).at m p) (k.fit_captured branch m p);
  }
