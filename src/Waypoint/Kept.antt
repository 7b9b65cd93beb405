-- ===== src/Waypoint/Kept.antt =====
-- What running programs changes.
use state_fork.Prelude.{
  ℤ, pos, negsuc, zero, suc, ℕ, String, Option, none, List, inl, inr, Bool-cases,
}
use state_fork.Exec.Keeps.{Keeps, Keeps-bind, Keeps-pure, Keeps-raise}
use state_fork.Manager.Branches.{register_snapshot_resource}
use state_fork.Manager.Snapshot.{ask}
use state_fork.Forkable.Restore.{lift_library}
use state_fork.Waypoint.State.{Tools, Session, Waypoint, Ran, completed, expired}
use state_fork.Backends.Platform.{Completed}
use state_fork.Waypoint.Process.{check_code, run_waypoint, run_checked, check, spawn, in_world}

module _ {W : Type 0} where
  unfoldable pub with_session : Session W → Waypoint W → Waypoint W
  with_session s m = record m { extra = record m.extra { backend = s } }

  -- A predicate on the controller's own records.
  pub record IsInner (P : Waypoint W → Type 0) : Type 0 where
    pub session : (s : Session W) (m : Waypoint W) → P m → P (with_session s m)
    pub resource :
        (id resource : String) (m : Waypoint W) → P m → P (register_snapshot_resource id resource m)

module _ {W : Type 0} (t : Tools W) {P : Waypoint W → Type 0} (i : IsInner P) where
  pub library-Keeps : {A : Type 0} (f : W → A × W) → Keeps P (ask (lift_library (in_world t f)))
  unfolding ask with_session
  library-Keeps f = record { at = λ m p. i.session _ m p }

  pub spawn-Keeps : (words : List String) (timeout : Option ℕ) → Keeps P (spawn t words timeout)
  unfolding spawn with_session
  spawn-Keeps words timeout = record { at = λ m p. i.session _ m p }

  pub run_waypoint-Keeps :
      (args : List String) (timeout : Option ℕ) → Keeps P (run_waypoint t args timeout)
  unfolding run_waypoint
  run_waypoint-Keeps args timeout = record {
    at = λ m p. elim (Bool-cases (t.executable m.extra.backend.world)) [
      | inl e ↦ simp e ((spawn-Keeps _ timeout).at m p)
      | inr e ↦ simp e p
    ];
  }

  check_code-Keeps :
      (args : List String) (c : Completed) (code : ℤ) → Keeps P (check_code t args c code)
  unfolding check_code
  check_code-Keeps args c (pos zero) = Keeps-pure c
  check_code-Keeps args c (pos (suc n)) = Keeps-raise _
  check_code-Keeps args c (negsuc n) = Keeps-raise _

  check-Keeps : (args : List String) (ran : Ran) → Keeps P (check t args ran)
  unfolding check
  check-Keeps args (expired stdout stderr) = Keeps-raise _
  check-Keeps args (completed c) = check_code-Keeps args c c.returncode

  pub run_checked-Keeps : (args : List String) → Keeps P (run_checked t args)
  unfolding run_checked
  run_checked-Keeps args = Keeps-bind _ _ (run_waypoint-Keeps args none) (check-Keeps args)
