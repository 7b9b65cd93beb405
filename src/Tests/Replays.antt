-- ===== src/Tests/Replays.antt =====
-- A history on the `Box`: virtual snapshots, a restore through them, and commands between.
use state_fork.Prelude.{true, String, List, ◌≡◌, refl, some, none, [], ◌∷◌}
use state_fork.Exec.{ok}
use state_fork.Decider.{always_false}
use state_fork.Manager.State.{Manager, line, new_manager}
use state_fork.Manager.Snapshot.{snapshot}
use state_fork.Manager.Restore.{restore}
use state_fork.Manager.Attach.{attach}
use state_fork.Manager.Replay.{sequential}
use state_fork.Manager.Replay.Tracks.{Tracks, Moved}
use state_fork.Manager.Replay.History.{Call, executes, snapshots, run, run-Moved, restore-snapshot}
use state_fork.Manager.Replay.Snapshots.{Snapped, snapshot-Snapped}
use state_fork.Manager.Replay.Liveness.{restore-true}
use state_fork.Manager.Replay.Attached.{attach-Tracks}
use state_fork.Tests.Unfold.{managers}
use state_fork.Tests.Box.{name, Box, box, box-IsFaithful, box-Reloads}

abbrev shut_box : Box
shut_box = record { state = line "boot" ∷ []; images = []; next = 0 }

abbrev start : Manager Box
start = (attach (sequential box) (new_manager "Box" (some always_false) shut_box)).1

attached_ok : (attach (sequential box) (new_manager "Box" (some always_false) shut_box)).0 ≡ ok tt
unfolding managers sequential
attached_ok = refl

start-Tracks : Tracks box start
start-Tracks = attach-Tracks box box-IsFaithful "Box" (some always_false) shut_box attached_ok

attach-Tracks_example : Tracks box start
attach-Tracks_example =
    attach-Tracks box box-IsFaithful "Box" (some always_false) shut_box attached_ok

-- Two commands and a virtual snapshot, then a further command and snapshot.
abbrev before : List Call
before = executes (line "a") none ∷ snapshots ∷ executes (line "b") none ∷ []

abbrev later : List Call
later = executes (line "c") none ∷ snapshots ∷ executes (line "d") none ∷ []

abbrev prepared : Manager Box
prepared = run (sequential box) before start

prepared-Tracks : Tracks box prepared
prepared-Tracks = (run-Moved box box-IsFaithful before start start-Tracks).tracks

run-Moved_example : Moved box start prepared
run-Moved_example = run-Moved box box-IsFaithful before start start-Tracks

abbrev lasting : String
lasting = "vaaa"

taken : (snapshot (sequential box) prepared).0 ≡ ok (some lasting)
unfolding managers sequential run name
taken = refl

went_back :
    (restore
      (sequential box)
      lasting
      (run (sequential box) later (snapshot (sequential box) prepared).1)).0
    ≡ ok true
unfolding managers sequential run name
went_back = refl

restore-snapshot_example :
    (restore
      (sequential box)
      lasting
      (run (sequential box) later (snapshot (sequential box) prepared).1)).1.extra.state
    ≡ prepared.extra.state
restore-snapshot_example =
    restore-snapshot box box-IsFaithful prepared later lasting prepared-Tracks taken went_back

restore-true_example : (restore (sequential box) prepared-Tracks.base prepared).0 ≡ ok true
restore-true_example =
    restore-true box box-IsFaithful prepared prepared-Tracks.base prepared-Tracks.start
      prepared-Tracks box-Reloads prepared-Tracks.stands

snapshot-Snapped_example :
    Snapped box prepared
      (snapshot (sequential box) prepared).0
      (snapshot (sequential box) prepared).1
snapshot-Snapped_example = snapshot-Snapped box box-IsFaithful prepared prepared-Tracks
