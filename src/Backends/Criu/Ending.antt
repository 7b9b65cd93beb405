-- ===== src/Backends/Criu/Ending.antt =====
-- The wait for the end of a process that was asked to end.
use state_fork.Prelude.{ℕ, ℤ, ◌<◌, ◌≡◌, ◌≤◌}
use state_fork.Manager.State.{Manager}
use state_fork.Backends.Platform.{Platform, Processes}
use state_fork.Backends.Host.{Host}
use state_fork.Backends.Criu.{Criu}

-- A clock that goes on by one tick at least with every reading, and never back.
pub record Ticks {W : Type 0} (p : Platform W) (s : Processes W) : Type 0 where
  pub now : W → ℕ
  pub reads : (w : W) → (p.time w).0 ≡ now w
  pub ticks : (w : W) → now w < now (p.time w).1
  pub polls : (pid : ℤ) (w : W) → now w ≤ now (s.is_running pid w).1
