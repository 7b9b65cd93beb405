-- ===== src/Manager/State.antt =====
-- controller/base_env_manager.py: the data of `EnvironmentManager`, and the interface of its
-- backends. `E` stands for the fields that a subclass adds and the environment that it drives.
use state_fork.Prelude.{
  ℤ, pos, negsuc, ℕ, String, Bool, true, false, Option, none, List, [], ◌∷◌, or_else,
}
use state_fork.Exec.{Exec}
use state_fork.Dict.{Dict}
use state_fork.Decider.{Decider, always_true}
use state_fork.Benchmark.{BenchmarkStats, new_stats}

abbrev pub default_branch_id : String
default_branch_id = "main"

-- `List[str] | str`
pub data Command : Type 0 where
  argv : List String → Command
  line : String → Command

pub record SnapshotNode : Type 0 where
  pub snapshot_id : String
  pub parent_id : Option String
  pub children : List String
  pub is_virtual : Bool
  pub replay_commands : List Command

pub record BranchState : Type 0 where
  pub branch_id : String
  pub current_snapshot_id : Option String
  pub last_snapshot_id : Option String
  pub command_log : List Command
  pub cumulative_exec_time : ℕ
  pub active : Bool

pub new_branch : String → Option String → BranchState
new_branch branch_id base = record {
  branch_id = branch_id;
  current_snapshot_id = base;
  last_snapshot_id = base;
  command_log = [];
  cumulative_exec_time = 0;
  active = true;
}

-- Exit codes. A failure of the backend and a timeout are told by codes below zero.
abbrev pub ExitCode : Type 0
ExitCode = ℤ

abbrev pub exited : ℕ → ExitCode
exited = pos

abbrev pub backend_failed : ExitCode
backend_failed = negsuc 0

abbrev pub timed_out : ExitCode
timed_out = negsuc 1

-- (returncode, stdout, stderr)
pub record ExecResult : Type 0 where
  pub returncode : ExitCode
  pub stdout : String
  pub stderr : String

pub record Manager (E : Type 0) : Type 0 where
  pub backend_name : String
  pub snapshots : Dict String
  pub snapshot_graph : Dict SnapshotNode
  pub stats : BenchmarkStats
  pub branches : Dict BranchState
  pub current_branch_id : String
  pub is_cleaned_up : Bool
  pub decider : Decider
  pub extra : E

unfoldable pub new_manager : {E : Type 0} → String → Option Decider → E → Manager E
unfolding new_branch
new_manager backend_name decider extra = record {
  backend_name = backend_name;
  snapshots = [];
  snapshot_graph = [];
  stats = new_stats;
  branches = (default_branch_id, new_branch default_branch_id none) ∷ [];
  current_branch_id = default_branch_id;
  is_cleaned_up = false;
  decider = or_else decider always_true;
  extra = extra;
}

abbrev pub Op : Type 0 → Type 0 → Type 0
Op E A = Exec (Manager E) A

-- What the base class calls: the `_core_*` hooks and `_after_snapshot` of a subclass, and three
-- library functions, which reach nothing of the manager: `random.choice([True, False])`,
-- `uuid.uuid4().hex[:7]` and `time.time()`.
pub record Hooks (E : Type 0) : Type 0 where
  pub core_snapshot : String → Op E (Option String × ℕ)
  pub core_restore : String → String → Op E (Bool × ℕ)
  pub core_cleanup : Op E (Option Bool)
  pub core_exec : Command → Option ℕ → String → Op E ExecResult
  pub core_copy : String → String → String → Bool → Op E (Bool × String)
  pub after_snapshot : String → String → Manager E → Manager E
  pub coin : E → Bool × E
  pub uuid_hex : E → String × E
  pub time : E → ℕ × E
