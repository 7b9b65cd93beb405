-- ===== src/Manager/Stable/Calls.antt =====
-- Any calls of a client, up to the cleanup.
use state_fork.Prelude.{List, Option, String, [], ℕ, ◌∷◌}
use state_fork.Manager.Snapshot.{snapshot}
use state_fork.Manager.Restore.{restore}
use state_fork.Manager.Exec.{exec_command}
use state_fork.Manager.Copy.{copy_in, copy_out}
use state_fork.Manager.State.{Manager, Hooks, SnapshotNode, Command}
use state_fork.Manager.Stable.{IsStable, HooksKeep}
use state_fork.Manager.Stable.Snapshot.{snapshot-Keeps}
use state_fork.Manager.Stable.Exec.{exec_command-Keeps, copy_in-Keeps, copy_out-Keeps}
use state_fork.Manager.Stable.Restore.{restore-Keeps}

-- The public operations of `EnvironmentManager`, without `cleanup`.
pub data Call : Type 0 where
  snapshots : Call
  restores : String → Call
  executes : Command → Option ℕ → Call
  copies_in copies_out : String → String → Call

module _ {E : Type 0} (h : Hooks E) where
  -- The manager after one call, whether it returns or raises.
  pub step : Call → Manager E → Manager E
  step snapshots m = (snapshot h m).1
  step (restores id) m = (restore h id m).1
  step (executes command timeout) m = (exec_command h command timeout m).1
  step (copies_in host path) m = (copy_in h host path m).1
  step (copies_out path host) m = (copy_out h path host m).1

  unfoldable pub run : List Call → Manager E → Manager E
  unfolding step
  run [] m = m
  run (c ∷ cs) m = run cs (step c m)

module _ {E : Type 0} {P : Manager E → Type 0} {Fit : SnapshotNode → Manager E → Type 0}
    (h : Hooks E) (k : HooksKeep P Fit h) (st : IsStable P Fit) where
  step-Keeps : (c : Call) (m : Manager E) → P m → P (step h c m)
  unfolding step
  step-Keeps snapshots = (snapshot-Keeps h k st).at
  step-Keeps (restores id) = (restore-Keeps h k st id).at
  step-Keeps (executes command timeout) = (exec_command-Keeps h k st command timeout).at
  step-Keeps (copies_in host path) = (copy_in-Keeps h k st host path).at
  step-Keeps (copies_out path host) = (copy_out-Keeps h k st path host).at

  pub run-Keeps : (cs : List Call) (m : Manager E) → P m → P (run h cs m)
  unfolding run
  run-Keeps [] m p = p
  run-Keeps (c ∷ cs) m p = run-Keeps cs (step h c m) (step-Keeps c m p)
