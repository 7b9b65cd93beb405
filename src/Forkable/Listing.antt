-- ===== src/Forkable/Listing.antt =====
-- controller/forkable_env_manager.py: `list_branches`, which refreshes the live branches from the
-- backend, and the constructor.
use state_fork.Prelude.{
  String, Bool, false, Option, none, some, List, [], ◌∷◌, ◌&&◌, ◌||◌, not, map, nonempty,
  if◌then◌else◌, ◌==◌, contains,
}
use state_fork.Exec.{Result, ok, err, value_error, PyError, pure, gets, modify, ◌>>=◌, ◌>>◌}
use state_fork.Decider.{Decider, random, always_true, always_false, threshold}
use state_fork.Dict.{Dict, get, put, keys, values}
use state_fork.Manager.State.{BranchState, default_branch_id, new_manager}
use state_fork.Manager.Branches.{register_branch, set_branch_position, remove_branch}
use state_fork.Forkable.State.{Forkable, ForkOp, ForkHooks, EnvironmentBranch, set_live}

-- `base_snapshot_id or None`
unfoldable pub base_or_none : String → Option String
base_or_none base = if nonempty base then some base else none

-- `state.current_snapshot_id != base`
unfoldable pub stands_at : String → Option BranchState → Bool
stands_at base none = false
stands_at base (some state) = elim state.current_snapshot_id [ none ↦ false | some at ↦ at == base ]

module _ {D : Type 0} where
  -- {branch.id: branch for branch in refreshed}
  unfoldable pub index_from :
      Dict (EnvironmentBranch D) → List (EnvironmentBranch D) → Dict (EnvironmentBranch D)
  index_from live [] = live
  index_from live (branch ∷ branches) = index_from (put live branch.id branch) branches

module _ {D B : Type 0} where
  -- One round of the loop over the refreshed branches. The backend is authoritative: a branch that
  -- stands elsewhere is moved.
  unfoldable pub refresh_branch : EnvironmentBranch D → Forkable D B → Forkable D B
  refresh_branch branch m =
      let base = branch.base_snapshot_id in
      let registered = register_branch branch.id (base_or_none base) m in
      if nonempty base && not (stands_at base (get registered.branches branch.id))
      then set_branch_position branch.id (some base) registered
      else registered

  unfoldable pub refresh_all : List (EnvironmentBranch D) → Forkable D B → Forkable D B
  refresh_all [] m = m
  refresh_all (branch ∷ branches) m = refresh_all branches (refresh_branch branch m)

  -- One round of the loop over the ids that were live before.
  unfoldable pub drop_stale : List String → String → Forkable D B → Forkable D B
  drop_stale refreshed id m =
      if contains id refreshed || id == default_branch_id || id == m.current_branch_id
      then m
      else remove_branch id m

  unfoldable pub drop_all : List String → List String → Forkable D B → Forkable D B
  drop_all refreshed [] m = m
  drop_all refreshed (id ∷ ids) m = drop_all refreshed ids (drop_stale refreshed id m)

  unfoldable pub adopt : List (EnvironmentBranch D) → Forkable D B → Forkable D B
  adopt refreshed m =
      let previous = keys m.extra.live_branches in
      drop_all (map (λ branch. branch.id) refreshed) previous
        (refresh_all refreshed (set_live (index_from [] refreshed) m))

  -- What follows `_core_list_branches`: without an answer the cached registry stands.
  unfoldable pub list_refreshed :
      Option (List (EnvironmentBranch D)) → ForkOp D B (List (EnvironmentBranch D))
  list_refreshed none = gets (λ m. values m.extra.live_branches)
  list_refreshed (some refreshed) = do modify (adopt refreshed); pure refreshed

module _ {D B : Type 0} (h : ForkHooks D B) where
  unfoldable pub list_branches : ForkOp D B (List (EnvironmentBranch D))
  list_branches = do refreshed ← h.core_list_branches; list_refreshed refreshed

abbrev physical_only : PyError
physical_only = record {
  kind = value_error;
  message =
      "Forkable environment managers currently require AlwaysTrueDecider (physical snapshots only).";
}

-- `_validate_decider`
unfoldable pub validate_decider : Option Decider → Result (Unit {0})
validate_decider none = ok tt
validate_decider (some always_true) = ok tt
validate_decider (some random) = err physical_only
validate_decider (some always_false) = err physical_only
validate_decider (some (threshold t)) = err physical_only

-- `__init__`
unfoldable pub new_forkable : {D B : Type 0} → String → Option Decider → B → Result (Forkable D B)
new_forkable backend_name decider backend = elim (validate_decider decider) [
  | err e ↦ err e
  | ok _ ↦ ok (new_manager backend_name decider (record { live_branches = []; backend = backend }))
]
