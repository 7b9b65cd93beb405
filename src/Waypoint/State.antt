-- ===== src/Waypoint/State.antt =====
-- controller/waypoint_env_manager.py: `WaypointFork`, the fields of `WaypointAttachManager`, and
-- what the backend calls outside the repository.
use state_fork.Prelude.{ℕ, ℤ, String, Bool, Option, List}
use state_fork.Exec.{Result}
use state_fork.Backends.Platform.{Completed}
use state_fork.Forkable.State.{Forkable, ForkOp, EnvironmentBranch}

-- The fields that `WaypointFork` adds to a branch record.
pub record ForkDetails : Type 0 where
  pub pid : ℤ
  pub socket : String
  pub restore_duration : Option String

abbrev pub WaypointFork : Type 0
WaypointFork = EnvironmentBranch ForkDetails

-- What `subprocess.run` returns, or a `TimeoutExpired` with what was captured.
pub data Ran : Type 0 where
  completed : Completed → Ran
  expired : Option String → Option String → Ran

-- The JSON of `waypoint list --json`, read through `entry.get(…)`.
pub record CheckpointEntry : Type 0 where
  pub id : Option String
  pub parent_id : Option String

pub record ForkEntry : Type 0 where
  pub id : Option String
  pub base_checkpoint_id : Option String
  pub status : Option String
  pub pid : Option ℤ
  pub socket_path : Option String
  pub restore_duration : Option String

pub record Listing : Type 0 where
  pub checkpoints : Option (List CheckpointEntry)
  pub forks : Option (List ForkEntry)

-- `W` is the world outside. `executable` is the test that `WAYPOINT_BIN` is an executable file,
-- `prefix` the words of `WAYPOINT_CMD_PREFIX`, `decode` is `json.loads`, `process_error` the text of
-- a `CalledProcessError`, `seconds` that of a timeout, `uuid8` is `str(uuid.uuid4())[:8]`. `counted`
-- counts the instances of a calculator's class.
pub record Tools (W : Type 0) : Type 0 where
  pub waypoint_bin : String
  pub executable : W → Bool
  pub prefix : W → List String
  pub subprocess_run : List String → Option ℕ → W → Result Ran × W
  pub decode : String → Result Listing
  pub process_error : List String → ℤ → String
  pub seconds : Option ℕ → String
  pub abspath : W → String → String
  pub getcwd : W → String
  pub counted : String → W → ℕ × W
  pub coin : W → Bool × W
  pub uuid8 : W → String × W
  pub uuid_hex : W → String × W
  pub time : W → ℕ × W

-- `forking_supported` is the module's `_forking_supported`.
pub record Session (W : Type 0) : Type 0 where
  pub session_id : String
  pub forking_supported : Bool
  pub world : W

abbrev pub Waypoint : Type 0 → Type 0
Waypoint W = Forkable ForkDetails (Session W)

abbrev pub WaypointOp : Type 0 → Type 0 → Type 0
WaypointOp W A = ForkOp ForkDetails (Session W) A
