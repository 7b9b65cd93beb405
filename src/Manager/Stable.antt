-- ===== src/Manager/Stable.antt =====
-- Invariants of a manager: what the operations of the base class keep, whatever the backend.
pub mod Snapshot
pub mod Exec
pub mod Restore
pub mod Calls
pub mod Attach
use state_fork.Prelude.{◌<>◌}
use state_fork.Exec.{ok}
use state_fork.Manager.Snapshot.{physical_node, virtual_node}
use state_fork.Prelude.{List, arith, ◌≡◌, ℕ, String, Bool, true, false, Option, none, some}
use state_fork.Exec.Keeps.{Keeps, keeps_rules}
use state_fork.Decider.{Decider, random}
use state_fork.Manager.State.{Manager, Hooks, SnapshotNode, BranchState, Command}
use state_fork.Manager.Branches.{
  get_branch_state, update_branch, record_snapshot_node, set_branch_position,
}
use state_fork.Manager.Snapshot.{
  snapshot_captured, ask, note, consult, take_physical, commit_snapshot, snapshot_physical,
  snapshot_virtual, snapshot_active, snapshot_branch, snapshot,
}

-- `P` survives the bookkeeping of the base class, where a node that is recorded is `Fit`.
pub record IsStable {E : Type 0} (P : Manager E → Type 0) (Fit : SnapshotNode → Manager E → Type 0)
    : Type 0 where
  pub noted :
      (operation target : String) (elapsed : ℕ) (branch : String) (m : Manager E)
      → P m
      → P (note operation target elapsed branch m)
  pub updated :
      (branch : String) (f : BranchState → BranchState) (m : Manager E)
      → P m
      → P (update_branch branch f m)
  pub positioned :
      (branch : String) (at : Option String) (m : Manager E)
      → P m
      → P (set_branch_position branch at m)
  pub recorded :
      (node : SnapshotNode) (m : Manager E) → Fit node m → P m → P (record_snapshot_node node m)
  pub fit_noted :
      (node : SnapshotNode) (operation target : String) (elapsed : ℕ) (branch : String)
      (m : Manager E)
      → Fit node m
      → Fit node (note operation target elapsed branch m)
  pub flagged : (b : Bool) (m : Manager E) → P m → P (record m { is_cleaned_up = b })

-- Every node is fit.
abbrev pub AnyNode : {E : Type 0} → SnapshotNode → Manager E → Type 0
AnyNode node m = Unit

-- The hooks of a backend keep `P`, and the ids that they give name fit nodes. The cleanup stands
-- apart: it may be the end of `P`.
pub record HooksKeep {E : Type 0} (P : Manager E → Type 0) (Fit : SnapshotNode → Manager E → Type 0)
    (h : Hooks E) : Type 0 where
  pub core_snapshot : (branch : String) → Keeps P (h.core_snapshot branch)
  pub core_restore : (id branch : String) → Keeps P (h.core_restore id branch)
  pub core_exec :
      (command : Command) (timeout : Option ℕ) (branch : String)
      → Keeps P (h.core_exec command timeout branch)
  pub core_copy :
      (branch host env : String) (into : Bool) → Keeps P (h.core_copy branch host env into)
  pub after_snapshot : (branch id : String) (m : Manager E) → P m → P (h.after_snapshot branch id m)
  pub coin : Keeps P (ask h.coin)
  pub uuid_hex : Keeps P (ask h.uuid_hex)
  pub fit_captured :
      (branch : String) (m : Manager E)
      → P m
      → (id : String) (elapsed : ℕ) → (h.core_snapshot branch m).0 ≡ ok (some id, elapsed)
      → (parent : Option String) → Fit (physical_node id parent) (h.core_snapshot branch m).1
  pub fit_drawn :
      (m : Manager E)
      → P m
      → (parent : Option String) (commands : List Command)
      → Fit (virtual_node ("v" <> (h.uuid_hex m.extra).0) parent commands) (ask h.uuid_hex m).1
  pub time : Keeps P (ask h.time)

pub get_branch_state-state :
    {E : Type 0} (branch : String) (m : Manager E) → (get_branch_state branch m).1 ≡ m
unfolding get_branch_state
get_branch_state-state branch m = ground arith

module _ {E : Type 0} {P : Manager E → Type 0} where
  pub Keeps-get_branch_state : (branch : String) → Keeps P (get_branch_state branch)
  Keeps-get_branch_state branch = record { at = λ m p. rw get_branch_state-state p }
