-- ===== src/Waypoint/Build.antt =====
-- controller/waypoint_env_manager.py: `WaypointBuildManager`.
use state_fork.Prelude.{Bool, List, Option, String, [], false, none, some, true, ℕ, ◌<>◌, ◌∷◌}
use state_fork.Exec.{PyError, gets, modify, ok, pure, raise, runtime_error, ◌>>=◌, ◌>>◌}
use state_fork.Waypoint.Attach.{attach}
use state_fork.Text.{partition, strip}
use state_fork.Benchmark.{attach_size_calculator}
use state_fork.Waypoint.State.{Tools, Waypoint, WaypointOp}
use state_fork.Waypoint.Process.{assert_supports_forking, run_checked}

abbrev unexpected : String → PyError
unexpected output = record {
  kind = runtime_error;
  message = "Unexpected output format: " <> output;
}

-- sid, work_dir = output.split(",", 1)
unfoldable pub two_fields : String → Option (String × String)
two_fields output = partition b',' output

abbrev two_of : String → Option (String × String) → Option (String × String)
two_of sid none = none
two_of sid (some (work_dir, more)) = some (sid, work_dir)

abbrev three_of : Option (String × String) → Option (String × String)
three_of none = none
three_of (some (sid, more)) = two_of sid (partition b',' more)

-- sid, work_dir, _ = output.split(",", 2)
unfoldable pub three_fields : String → Option (String × String)
three_fields output = three_of (partition b',' output)

unfoldable pub init_args : String → List String
init_args target_dir = "init" ∷ target_dir ∷ "--shell" ∷ "--quiet" ∷ []

unfoldable pub build_args : String → List String
build_args target_dir = "build" ∷ target_dir ∷ "--quiet" ∷ []

module _ {W : Type 0} (t : Tools W) where
  unfoldable pub target_dir : Option String → W → String
  target_dir none w = t.getcwd w
  target_dir (some dockerfile_dir) w = t.abspath w dockerfile_dir

  unfoldable pub fields_or_raise :
      String → Option (String × String) → WaypointOp W (String × String)
  fields_or_raise output none = raise (unexpected output)
  fields_or_raise output (some found) = pure found

  -- The session id and the work directory of the session that the program creates.
  unfoldable pub create_session : Bool → String → WaypointOp W (String × String)
  create_session false dir = do
    done ← run_checked t (init_args dir)
    let output = strip done.stdout
    fields_or_raise output (two_fields output)
  create_session true dir = do
    done ← run_checked t (build_args dir)
    let output = strip done.stdout
    fields_or_raise output (three_fields output)

  unfoldable pub set_session_id : String → Waypoint W → Waypoint W
  set_session_id sid m = record m {
    extra = record m.extra { backend = record m.extra.backend { session_id = sid } };
  }

  unfoldable pub counted : String → WaypointOp W ℕ
  counted cls m =
      let (n, w) = t.counted cls m.extra.backend.world in
      (ok n, record m { extra = record m.extra { backend = record m.extra.backend { world = w } } })

  unfoldable pub attach_calculator : String → WaypointOp W Unit
  attach_calculator name = do
    n ← counted "WaypointCalculator"
    modify (λ m. record m {
      stats = attach_size_calculator (record { name = name; instance_id = n }) m.stats;
    })

  -- `__init__` on a manager whose policy was validated. The session is created before the
  -- constructor of the parent class runs. The result is the work directory.
  unfoldable pub build : Option String → Bool → WaypointOp W String
  build dockerfile_dir should_build = do
    assert_supports_forking t
    dir ← gets (λ m. target_dir dockerfile_dir m.extra.backend.world)
    (sid, work_dir) ← create_session should_build dir
    modify (set_session_id sid)
    attach t
    attach_calculator "FILESYSTEM"
    attach_calculator "MEMORY"
    pure work_dir
