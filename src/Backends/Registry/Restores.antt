-- ===== src/Backends/Registry/Restores.antt =====
-- The restores of container and hybrid managers whose physical snapshots have resources.
use state_fork.Backends.Platform.{Platform}
use state_fork.Backends.Host.{Host}
use state_fork.Manager.State.{Manager}
use state_fork.Exec.Ensures.{Ensures}
use state_fork.Backends.Container as C
use state_fork.Backends.Container.{Container}
use state_fork.Backends.Hybrid as H
use state_fork.Backends.Hybrid.{Hybrid}
