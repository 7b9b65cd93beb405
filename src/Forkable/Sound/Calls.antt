-- ===== src/Forkable/Sound/Calls.antt =====
-- Any calls of a client on a forkable manager.
use state_fork.Prelude.{
  if◌then◌else◌, ℕ, String, Option, none, List, [], ◌∷◌, Bool, true, false, inl, inr, Bool-cases,
}
use state_fork.Exec.{ok}
use state_fork.Exec.Keeps.{Keeps}
use state_fork.Manager.State.{Command}
use state_fork.Manager.Snapshot.{snapshot}
use state_fork.Manager.Exec.{exec_command}
use state_fork.Manager.Copy.{copy_in, copy_out, cleanup}
use state_fork.Manager.Restore.{restore}
use state_fork.Manager.Stable.Snapshot.{snapshot-Keeps, snapshot_branch-Keeps}
use state_fork.Manager.Stable.Exec.{
  exec_command-Keeps, exec_branch-Keeps, copy_in-Keeps, copy_out-Keeps, copy_branch-Keeps,
  cleanup-Keeps,
}
use state_fork.Manager.Stable.Restore.{restore-Keeps}
use state_fork.Forkable.State.{Forkable, ForkOp, ForkHooks, is_live}
use state_fork.Forkable.Branches.{fork, discard_branch}
use state_fork.Forkable.Park.{
  or_key_error, park_branch, snapshot_branch, exec_on_branch, copy_in_branch, copy_out_branch,
}
use state_fork.Forkable.Listing.{list_branches}
use state_fork.Forkable.Sound.{IsForkSound, Contract, IsStable-IsForkSound}
use state_fork.Forkable.Sound.Branches.{fork-IsForkSound, discard_branch-IsForkSound}
use state_fork.Forkable.Sound.Listing.{list_branches-IsForkSound}
use state_fork.Forkable.Sound.Hooks.{hooks-HooksKeep}
use state_fork.Forkable.Sound.Park.{park_branch-IsForkSound, or_key_error-IsForkSound}
use state_fork.Forkable.Restore.{hooks}

-- The public operations of `ForkableEnvironmentManager`, those that it inherits included. The
-- aliases `destroy_fork` and `list_forks` are the operations that they name.
pub data Call : Type 0 where
  snapshots : Call
  restores : String → Call
  executes : Command → Option ℕ → Call
  copies_in copies_out : String → String → Call
  cleans_up : Call
  snapshots_branch : String → Bool → Call
  executes_on : String → Command → Option ℕ → Call
  copies_into copies_from : String → String → String → Call
  forks : String → ℕ → Option (List String) → Call
  discards parks : String → Call
  lists : Call

module _ {D B : Type 0} (h : ForkHooks D B) where
  -- The manager after one call, whether it returns or raises.
  unfoldable pub step : Call → Forkable D B → Forkable D B
  step snapshots m = (snapshot (hooks h) m).1
  step (restores id) m = (restore (hooks h) id m).1
  step (executes c t) m = (exec_command (hooks h) c t m).1
  step (copies_in host path) m = (copy_in (hooks h) host path m).1
  step (copies_out path host) m = (copy_out (hooks h) path host m).1
  step cleans_up m = (cleanup (hooks h) m).1
  step (snapshots_branch id park) m = (snapshot_branch h id park m).1
  step (executes_on id c t) m = (exec_on_branch h id c t m).1
  step (copies_into id host path) m = (copy_in_branch h id host path m).1
  step (copies_from id path host) m = (copy_out_branch h id path host m).1
  step (forks id n ids) m = (fork h id n ids m).1
  step (discards id) m = (discard_branch h id m).1
  step (parks id) m = (park_branch h id m).1
  step lists m = (list_branches h m).1

  unfoldable pub run : List Call → Forkable D B → Forkable D B
  run [] m = m
  run (c ∷ cs) m = run cs (step c m)

module _ {D B : Type 0} (h : ForkHooks D B) (k : Contract h) where
  named-IsForkSound :
      {A : Type 0} (id : String) (a b : A) (op : ForkOp D B A) (m : Forkable D B)
      → Keeps IsForkSound op
      → IsForkSound m
      → IsForkSound (if is_live m id then or_key_error a op m else (ok b, m)).1
  named-IsForkSound id a b op m kp s = elim (Bool-cases (is_live m id)) [
    | inl e ↦ simp e ((or_key_error-IsForkSound a op kp).at m s)
    | inr e ↦ simp e s
  ]

  snapshot_branch-IsForkSound :
      (id : String) (park : Bool) → Keeps IsForkSound (snapshot_branch h id park)
  unfolding snapshot_branch
  snapshot_branch-IsForkSound id true = record { at = (park_branch-IsForkSound h k id).at }
  snapshot_branch-IsForkSound id false = record {
    at = λ m.
        named-IsForkSound id none none _ m
          (snapshot_branch-Keeps (hooks h) (hooks-HooksKeep h k) IsStable-IsForkSound id true);
  }

  exec_on_branch-IsForkSound :
      (id : String) (c : Command) (t : Option ℕ) → Keeps IsForkSound (exec_on_branch h id c t)
  unfolding exec_on_branch
  exec_on_branch-IsForkSound id c t = record {
    at = λ m.
        named-IsForkSound id _ _ _ m
          (exec_branch-Keeps (hooks h) (hooks-HooksKeep h k) IsStable-IsForkSound id c t);
  }

  copy_in_branch-IsForkSound :
      (id host path : String) → Keeps IsForkSound (copy_in_branch h id host path)
  unfolding copy_in_branch
  copy_in_branch-IsForkSound id host path = record {
    at = λ m.
        named-IsForkSound id false false _ m (
          copy_branch-Keeps (hooks h) (hooks-HooksKeep h k) IsStable-IsForkSound id host path true);
  }

  copy_out_branch-IsForkSound :
      (id path host : String) → Keeps IsForkSound (copy_out_branch h id path host)
  unfolding copy_out_branch
  copy_out_branch-IsForkSound id path host = record {
    at = λ m.
        named-IsForkSound id false false _ m (
          copy_branch-Keeps (hooks h) (hooks-HooksKeep h k) IsStable-IsForkSound id host path
            false);
  }

  pub step-IsForkSound : (c : Call) (m : Forkable D B) → IsForkSound m → IsForkSound (step h c m)
  unfolding step hooks
  step-IsForkSound snapshots =
      (snapshot-Keeps (hooks h) (hooks-HooksKeep h k) IsStable-IsForkSound).at
  step-IsForkSound (restores id) =
      (restore-Keeps (hooks h) (hooks-HooksKeep h k) IsStable-IsForkSound id).at
  step-IsForkSound (executes c t) =
      (exec_command-Keeps (hooks h) (hooks-HooksKeep h k) IsStable-IsForkSound c t).at
  step-IsForkSound (copies_in host path) =
      (copy_in-Keeps (hooks h) (hooks-HooksKeep h k) IsStable-IsForkSound host path).at
  step-IsForkSound (copies_out path host) =
      (copy_out-Keeps (hooks h) (hooks-HooksKeep h k) IsStable-IsForkSound path host).at
  step-IsForkSound cleans_up =
      (cleanup-Keeps (hooks h) (hooks-HooksKeep h k) IsStable-IsForkSound k.core_cleanup).at
  step-IsForkSound (snapshots_branch id park) = (snapshot_branch-IsForkSound id park).at
  step-IsForkSound (executes_on id c t) = (exec_on_branch-IsForkSound id c t).at
  step-IsForkSound (copies_into id host path) = (copy_in_branch-IsForkSound id host path).at
  step-IsForkSound (copies_from id path host) = (copy_out_branch-IsForkSound id path host).at
  step-IsForkSound (forks id n ids) = (fork-IsForkSound h k id n ids).at
  step-IsForkSound (discards id) = (discard_branch-IsForkSound h k id).at
  step-IsForkSound (parks id) = (park_branch-IsForkSound h k id).at
  step-IsForkSound lists = (list_branches-IsForkSound h k).at

  -- After any calls on a sound forkable manager, failed ones included, `main` and the current
  -- branch are registered, every live branch has a state and is filed under its own id, and the
  -- benchmark log is numbered from one without a gap.
  pub run-IsForkSound :
      (cs : List Call) (m : Forkable D B) → IsForkSound m → IsForkSound (run h cs m)
  unfolding run
  run-IsForkSound [] m s = s
  run-IsForkSound (c ∷ cs) m s = run-IsForkSound cs (step h c m) (step-IsForkSound c m s)
