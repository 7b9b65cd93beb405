-- ===== src/Manager/Stable/Restore.antt =====
-- Invariants of `restore` and its parts.
use state_fork.Exec.Keeps.{Keeps, keeps_rules, Keeps-then}
use state_fork.Prelude.{ℕ, String, Bool, true, false, Option, none, some, List, [], ◌∷◌}
use state_fork.Manager.State.{Manager, Hooks, SnapshotNode, Command}
use state_fork.Manager.Stable.{IsStable, HooksKeep, Keeps-get_branch_state}
use state_fork.Manager.Ancestry.{Walk, arrived, gave_up}
use state_fork.Manager.Restore.{
  replay, restore_entered, restore_from, restore_walked, restore_found, restore,
}
use state_fork.Manager.Stable.Exec.{exec_command-Keeps}

module _ {E : Type 0} {P : Manager E → Type 0} {Fit : SnapshotNode → Manager E → Type 0}
    (h : Hooks E) (k : HooksKeep P Fit h) (st : IsStable P Fit) where
  replay-Keeps : (commands : List Command) → Keeps P (replay h commands)
  unfolding replay
  replay-Keeps [] = search keeps_rules
  replay-Keeps (command ∷ commands) =
      Keeps-then _ _ (exec_command-Keeps h k st command none) (replay-Keeps commands)

  restore_entered-Keeps :
      (id : String) (ancestor : SnapshotNode) (commands : List Command) (r : Bool × ℕ)
      → Keeps P (restore_entered h id ancestor commands r)
  unfolding restore_entered
  restore_entered-Keeps id ancestor commands (false, elapsed) = search keeps_rules
  restore_entered-Keeps id ancestor commands (true, elapsed) =
      search (keeps_rules, st.noted, replay-Keeps, st.positioned) depth 8

  restore_from-Keeps :
      (id departing : String) (ancestor : SnapshotNode) (commands : List Command)
      → Keeps P (restore_from h id departing ancestor commands)
  unfolding restore_from
  restore_from-Keeps id departing ancestor commands =
      search (keeps_rules, k.core_restore, restore_entered-Keeps)

  restore_walked-Keeps :
      (id departing : String) (w : Option Walk) → Keeps P (restore_walked h id departing w)
  unfolding restore_walked
  restore_walked-Keeps id departing none = search keeps_rules
  restore_walked-Keeps id departing (some (gave_up e)) = search keeps_rules
  restore_walked-Keeps id departing (some (arrived ancestor commands)) =
      restore_from-Keeps id departing ancestor commands

  restore_found-Keeps :
      (id departing : String) (o : Option SnapshotNode) → Keeps P (restore_found h id departing o)
  unfolding restore_found
  restore_found-Keeps id departing none = search keeps_rules
  restore_found-Keeps id departing (some node) = search (keeps_rules, restore_walked-Keeps)

  pub restore-Keeps : (id : String) → Keeps P (restore h id)
  unfolding restore
  restore-Keeps id = search (keeps_rules, Keeps-get_branch_state, restore_found-Keeps) depth 8
