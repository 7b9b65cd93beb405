-- ===== src/Shell/Api.antt =====
-- interface/shell.py: what the shell calls of a manager. `fork_api` is there for the instances of
-- `ForkableEnvironmentManager`.
use state_fork.Prelude.{ℕ, String, Bool, Option, none, some, List, map}
use state_fork.Exec.{Exec, pure, ◌>>=◌}
use state_fork.Manager.State.{Manager, Hooks, Command, ExecResult}
use state_fork.Manager.Snapshot.{snapshot}
use state_fork.Manager.Restore.{restore}
use state_fork.Manager.Exec.{exec_command}
use state_fork.Manager.Copy.{cleanup}
use state_fork.Forkable.State.{Forkable, ForkHooks, EnvironmentBranch}
use state_fork.Forkable.Branches.{fork, discard_branch}
use state_fork.Forkable.Restore.{hooks}
use state_fork.Forkable.Park.{exec_on_branch, snapshot_branch}
use state_fork.Forkable.Listing.{list_branches}

-- What the shell prints of a branch.
pub record Shown : Type 0 where
  pub id : String
  pub base : String
  pub status : String

pub record ForkApi (S : Type 0) : Type 0 where
  pub snapshot_branch : String → Bool → Exec S (Option String)
  pub list_branches : Exec S (List Shown)
  pub fork : String → ℕ → Exec S (List Shown)
  pub exec_on_branch : String → Command → Exec S ExecResult
  pub discard_branch : String → Exec S Bool

pub record Api (S : Type 0) : Type 0 where
  pub backend : S → String
  pub current_branch_id : S → String
  pub snapshot : Exec S (Option String)
  pub restore : String → Exec S Bool
  pub exec_command : Command → Exec S ExecResult
  pub cleanup : Exec S Bool
  pub fork_api : Option (ForkApi S)

unfoldable pub sequential_api : {E : Type 0} → Hooks E → Api (Manager E)
sequential_api h = record {
  backend = λ m. m.backend_name;
  current_branch_id = λ m. m.current_branch_id;
  snapshot = snapshot h;
  restore = restore h;
  exec_command = λ command. exec_command h command none;
  cleanup = cleanup h;
  fork_api = none;
}

abbrev shown : {D : Type 0} → EnvironmentBranch D → Shown
shown b = record { id = b.id; base = b.base_snapshot_id; status = b.status }

module _ {D B : Type 0} (h : ForkHooks D B) where
  unfoldable pub fork_api_of : ForkApi (Forkable D B)
  fork_api_of = record {
    snapshot_branch = snapshot_branch h;
    list_branches = (do branches ← list_branches h; pure (map shown branches));
    fork = λ snapshot_id n. (do branches ← fork h snapshot_id n none; pure (map shown branches));
    exec_on_branch = λ branch_id command. exec_on_branch h branch_id command none;
    discard_branch = discard_branch h;
  }

  unfoldable pub forkable_api : Api (Forkable D B)
  forkable_api = record (sequential_api (hooks h)) { fork_api = some fork_api_of }
