-- ===== src/Backends/Container/Roundtrip.antt =====
-- Snapshots of containers, and the restores that bring them back.
use state_fork.Prelude.{List, String, refl, some, true, ◌≡◌}
use state_fork.Exec.{ok}
use state_fork.Decider.{always_true}
use state_fork.Manager.State.{Manager}
use state_fork.Manager.Snapshot.{snapshot}
use state_fork.Manager.Restore.{restore}
use state_fork.Manager.Stable.Calls.{Call, run, run-Keeps}
use state_fork.Backends.Platform.{Platform}
use state_fork.Backends.Host.{Host}
use state_fork.Backends.Container.{Container, container}
use state_fork.Backends.Container.Engine.{Engine, IsEngine}
use state_fork.Backends.Container.Stored.{Stored-IsStable}
use state_fork.Backends.Container.Kept.{container-HooksKeep}
use state_fork.Backends.Container.Captures.{snapshot-Ensures}
use state_fork.Backends.Container.Restores.{restore-Ensures}

-- On a container engine that does what its documentation says, a snapshot under the policy
-- `always_true` that returns an id, followed by any calls of the public operations but the cleanup,
-- failed ones included, and then a restore of that id that returns True, leaves the container with
-- what it held when the snapshot was taken.
pub restore-run-snapshot :
    {W S : Type 0} (g : Engine W S) (p : Platform W) (c : Container) (l : IsEngine g p c)
    (m : Manager (Host Container W)) (id : String) (calls : List Call)
    → m.extra.config ≡ c
    → m.decider ≡ always_true
    → (snapshot (container p) m).0 ≡ ok (some id)
    → (restore (container p) id (run (container p) calls (snapshot (container p) m).1)).0 ≡ ok true
    → g.live
        (restore
          (container p)
          id
          (run (container p) calls (snapshot (container p) m).1)).1.extra.world
      ≡ g.live m.extra.world
restore-run-snapshot g p c l m id calls same always taken restored =
    let kept = g.live m.extra.world in
    let (stored, hex) =
      (snapshot-Ensures g p c l kept).at m
        (record { before = record { config = same; live = refl }; decider = always }) (some id)
        taken id refl in
    (restore-Ensures g p c l id kept).at _
      (run-Keeps (container p) (container-HooksKeep g p c l id kept hex)
        (Stored-IsStable g c id kept) calls _ stored)
      true restored refl
