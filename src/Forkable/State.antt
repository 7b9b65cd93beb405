-- ===== src/Forkable/State.antt =====
-- controller/forkable_env_manager.py: the fields that `ForkableEnvironmentManager` adds, and the
-- primitives of its backends. `D` stands for the details that a backend adds to a branch record,
-- `B` for the environment outside.
use state_fork.Prelude.{ℕ, String, Bool, Option, List}
use state_fork.Dict.{Dict, has}
use state_fork.Manager.State.{Manager, Op, Command, ExecResult}

pub record EnvironmentBranch (D : Type 0) : Type 0 where
  pub id : String
  pub base_snapshot_id : String
  pub status : String
  pub details : D

pub record Fork (D B : Type 0) : Type 0 where
  pub live_branches : Dict (EnvironmentBranch D)
  pub backend : B

abbrev pub Forkable : Type 0 → Type 0 → Type 0
Forkable D B = Manager (Fork D B)

abbrev pub ForkOp : Type 0 → Type 0 → Type 0 → Type 0
ForkOp D B A = Op (Fork D B) A

-- The primitives that a forkable backend implements. `_core_restore` and `_after_snapshot` are not
-- among them: `ForkableEnvironmentManager` implements these itself.
pub record ForkHooks (D B : Type 0) : Type 0 where
  pub core_snapshot : String → ForkOp D B (Option String × ℕ)
  pub core_cleanup : ForkOp D B (Option Bool)
  pub core_exec : Command → Option ℕ → String → ForkOp D B ExecResult
  pub core_copy : String → String → String → Bool → ForkOp D B (Bool × String)
  pub core_fork : String → List (Option String) → ForkOp D B (List (EnvironmentBranch D × ℕ))
  pub core_discard_branch : String → ForkOp D B Bool
  pub core_park_branch : String → ForkOp D B (Option String × ℕ)
  pub core_list_branches : ForkOp D B (Option (List (EnvironmentBranch D)))
  pub coin : B → Bool × B
  pub uuid_hex : B → String × B
  pub time : B → ℕ × B

module _ {D B : Type 0} where
  -- branch_id in self._live_branches
  abbrev pub is_live : Forkable D B → String → Bool
  is_live m branch_id = has m.extra.live_branches branch_id

  abbrev pub set_live : Dict (EnvironmentBranch D) → Forkable D B → Forkable D B
  set_live live m = record m { extra = record m.extra { live_branches = live } }
