-- ===== src/Waypoint/Snapshots.antt =====
-- controller/waypoint_env_manager.py: `_snapshot_waypoint`, `_core_list_branches` and the hooks that
-- stand on them.
use state_fork.Prelude.{
  ℕ, ◌-◌, pos, String, Bool, true, false, Option, none, some, List, [], ◌∷◌, or_else, if◌then◌else◌,
  nonempty, truthy,
}
use state_fork.Exec.{pure, gets, modify, ◌>>=◌, ◌>>◌}
use state_fork.Dict.{Dict, get}
use state_fork.Manager.Branches.{register_snapshot_resource}
use state_fork.Manager.Snapshot.{ask}
use state_fork.Forkable.Restore.{lift_library}
use state_fork.Forkable.Listing.{list_refreshed}
use state_fork.Waypoint.State.{Tools, Waypoint, WaypointOp, WaypointFork, ForkEntry, Listing}
use state_fork.Backends.Platform.{Completed}
use state_fork.Waypoint.Process.{on_listing_error, run_checked, in_world}
use state_fork.Exec.Recover.{recover, on_process_error}

module _ {W : Type 0} (t : Tools W) where
  abbrev pub library : {A : Type 0} → (W → A × W) → WaypointOp W A
  library f = ask (lift_library (in_world t f))

  unfoldable pub session_id : WaypointOp W String
  session_id = gets (λ m. m.extra.backend.session_id)

  -- A run of which a `CalledProcessError` is answered by `none`.
  unfoldable pub try_run : List String → WaypointOp W (Option Completed)
  try_run args = recover (on_process_error none) (run_checked t args >>= λ c. pure (some c))

  unfoldable pub snapshot_args : String → String → String → Bool → List String
  snapshot_args session branch_id snapshot_id park =
      "snapshot" ∷ session ∷ branch_id ∷ snapshot_id ∷ (if park then "--park" ∷ [] else [])

  -- What follows the command: `none` is a `CalledProcessError`.
  unfoldable pub snapshot_ran : String → ℕ → Option Completed → WaypointOp W (Option String × ℕ)
  snapshot_ran snapshot_id start none = pure (none, 0)
  snapshot_ran snapshot_id start (some c) = do
    stop ← library t.time
    modify (register_snapshot_resource snapshot_id snapshot_id)
    pure (some snapshot_id, stop - start)

  -- `_snapshot_waypoint`
  unfoldable pub snapshot_waypoint : String → Bool → WaypointOp W (Option String × ℕ)
  snapshot_waypoint branch_id park = do
    snapshot_id ← library t.uuid8
    session ← session_id
    start ← library t.time
    ran ← try_run (snapshot_args session branch_id snapshot_id park)
    snapshot_ran snapshot_id start ran

  -- The branch record that an entry of the listing stands for; what it leaves out is taken from the
  -- record that is known.
  unfoldable pub listed : Option WaypointFork → String → ForkEntry → WaypointFork
  listed known id entry = record {
    id = id;
    base_snapshot_id =
        if truthy entry.base_checkpoint_id
        then or_else entry.base_checkpoint_id ""
        else elim known [ none ↦ "" | some fork ↦ fork.base_snapshot_id ];
    status = or_else entry.status "running";
    details = record {
      pid = or_else entry.pid (pos 0);
      socket = or_else entry.socket_path "";
      restore_duration =
          if truthy entry.restore_duration
          then entry.restore_duration
          else elim known [ none ↦ none | some fork ↦ fork.details.restore_duration ];
    };
  }

  unfoldable pub refreshed_forks : Dict WaypointFork → List ForkEntry → List WaypointFork
  refreshed_forks live [] = []
  refreshed_forks live (entry ∷ entries) =
      let rest = refreshed_forks live entries in
      elim entry.id [
        | none ↦ rest
        | some id ↦ if nonempty id then listed (get live id) id entry ∷ rest else rest
      ]

  -- json.loads(proc.stdout)
  unfoldable pub decoded : Completed → WaypointOp W Listing
  decoded c m = (t.decode c.stdout, m)

  unfoldable pub list_json : String → WaypointOp W Listing
  list_json session = do c ← run_checked t ("list" ∷ session ∷ "--json" ∷ []); decoded c

  -- `waypoint list --json`, decoded; `none` where it fails or is no JSON.
  unfoldable pub query : WaypointOp W (Option Listing)
  query = do
    session ← session_id
    recover (on_listing_error none) (list_json session >>= λ listing. pure (some listing))

  unfoldable pub forks_of : Option Listing → Waypoint W → Option (List WaypointFork)
  forks_of none m = none
  forks_of (some listing) m =
      some (refreshed_forks m.extra.live_branches (or_else listing.forks []))

  unfoldable pub core_list_branches : WaypointOp W (Option (List WaypointFork))
  core_list_branches = do listing ← query; gets (forks_of listing)

  -- A snapshot resumes the branch in a new process, so the live branches are read again: this is
  -- `list_branches`.
  unfoldable pub refresh : Option String → WaypointOp W Unit
  refresh none = pure tt
  refresh (some snapshot_id) = do listing ← core_list_branches; list_refreshed listing; pure tt

  unfoldable pub core_snapshot : String → WaypointOp W (Option String × ℕ)
  core_snapshot branch_id = do
    captured ← snapshot_waypoint branch_id false
    refresh captured.0
    pure captured

  unfoldable pub core_park_branch : String → WaypointOp W (Option String × ℕ)
  core_park_branch branch_id = snapshot_waypoint branch_id true
