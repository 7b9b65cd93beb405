-- ===== src/Waypoint/Sessions.antt =====
-- A Waypoint manager from its construction on.
use state_fork.Prelude.{subst, [], String, Option, none, some, List, ◌≡◌, arith}
use state_fork.Exec.{ok}
use state_fork.Decider.{Decider, random, always_true, always_false, threshold}
use state_fork.Dict.{get}
use state_fork.Manager.State.{new_manager}
use state_fork.Manager.Sound.{IsSound-new_manager}
use state_fork.Forkable.State.{Forkable}
use state_fork.Forkable.Listing.{new_forkable, validate_decider}
use state_fork.Forkable.Sound.{IsForkSound}
use state_fork.Forkable.Sound.Calls.{Call, run, run-IsForkSound}
use state_fork.Waypoint.State.{Tools, Session, Waypoint}
use state_fork.Waypoint.Hooks.{waypoint}
use state_fork.Waypoint.Attach.{attach}
use state_fork.Waypoint.Attached.{attach-IsForkSound}
use state_fork.Waypoint.Contract.{waypoint-Contract}

module _ {D B : Type 0} where
  new_manager-IsForkSound :
      (name : String) (decider : Option Decider) (backend : B)
      → IsForkSound {D = D}
          (new_manager name decider (record { live_branches = []; backend = backend }))
  unfolding new_manager get
  new_manager-IsForkSound name decider backend = record {
    base = IsSound-new_manager name decider _;
    live = λ id h. absurd (ground arith);
    filed = λ id b h. absurd (ground arith);
  }

  -- A new forkable manager is sound.
  pub new_forkable-IsForkSound :
      (name : String) (decider : Option Decider) (backend : B) (m : Forkable D B)
      → new_forkable name decider backend ≡ ok m
      → IsForkSound m
  unfolding new_forkable validate_decider
  new_forkable-IsForkSound name none backend m h =
      subst IsForkSound (ground arith) (new_manager-IsForkSound name none backend)
  new_forkable-IsForkSound name (some always_true) backend m h =
      subst IsForkSound (ground arith) (new_manager-IsForkSound name (some always_true) backend)
  new_forkable-IsForkSound name (some random) backend m h = absurd (ground arith)
  new_forkable-IsForkSound name (some always_false) backend m h = absurd (ground arith)
  new_forkable-IsForkSound name (some (threshold t)) backend m h = absurd (ground arith)

-- A Waypoint manager that was constructed, then attached to its session, and then had any calls, has
-- `main` and its current branch registered, every live branch registered and filed under its own id,
-- and its log numbered from one without a gap, whatever the `waypoint` program answered and whatever
-- failed.
pub attach-run :
    {W : Type 0} (t : Tools W) (decider : Option Decider) (s : Session W) (m : Waypoint W)
    (cs : List Call)
    → new_forkable "Waypoint" decider s ≡ ok m
    → IsForkSound (run (waypoint t) cs (attach t m).1)
attach-run t decider s m cs h =
    run-IsForkSound (waypoint t) (waypoint-Contract t) cs (attach t m).1
      ((attach-IsForkSound t).at m (new_forkable-IsForkSound "Waypoint" decider s m h))
