-- ===== src/Backends/Platform.antt =====
-- What the backends call outside the repository: Python's `subprocess`, `os`, `shutil`, `uuid` and
-- `time`, and `psutil`.
use state_fork.Prelude.{ℕ, ℤ, String, Bool, Option, List}
use state_fork.Exec.{Result}

-- A process that ended.
pub record Completed : Type 0 where
  pub returncode : ℤ
  pub stdout : String
  pub stderr : String

-- `W` is the world outside. `subprocess_run` is `subprocess.run` without `check`, which raises where
-- the program cannot be started or is out of time. `process_error` is the text of a
-- `CalledProcessError`. `uuid8` and `uuid4` are the first 8 and 4 characters of `str(uuid.uuid4())`,
-- `uuid_hex` is `uuid.uuid4().hex[:7]`. `counted` counts the instances of a calculator's class.
pub record Platform (W : Type 0) : Type 0 where
  pub subprocess_run : List String → Option ℕ → W → Result Completed × W
  pub process_error : List String → ℤ → String
  pub makedirs : String → W → Result (Unit {0}) × W
  pub rmtree : String → W → W
  pub abspath : String → W → String
  pub uuid8 : W → String × W
  pub uuid4 : W → String × W
  pub uuid_hex : W → String × W
  pub coin : W → Bool × W
  pub time : W → ℕ × W
  pub counted : String → W → ℕ × W

-- The processes of the system; `show_pid` is `str(pid)`. `popen` starts one and gives its pid. `open_process` is
-- `psutil.Process(pid)`, and it and `terminate`, which sends SIGTERM, may raise `NoSuchProcess`.
pub record Processes (W : Type 0) : Type 0 where
  pub show_pid : ℤ → String
  pub popen : List String → W → Result ℤ × W
  pub poll : ℤ → W → Option ℤ × W
  pub pid_exists : ℤ → W → Bool × W
  pub open_process : ℤ → W → Result (Unit {0}) × W
  pub terminate : ℤ → W → Result (Unit {0}) × W
  pub is_running : ℤ → W → Bool × W
  pub kill : ℤ → W → Result (Unit {0}) × W
  pub wait : ℤ → ℕ → W → Result (Unit {0}) × W
