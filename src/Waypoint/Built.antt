-- ===== src/Waypoint/Built.antt =====
-- The invariant of a forkable manager and the building of a Waypoint session.
use state_fork.Exec.Keeps.{Keeps}
use state_fork.Decider.{Decider}
use state_fork.Waypoint.State.{Waypoint}
