-- ===== src/Forkable/Branches.antt =====
-- controller/forkable_env_manager.py: `fork`, its materialization, and `discard_branch`.
use state_fork.Prelude.{
  ℕ, String, Bool, true, false, Option, none, some, List, [], ◌∷◌, ◌&&◌, ◌||◌, not, map,
  if◌then◌else◌, replicate, contains, ◌==◌,
}
use state_fork.Exec.{ok, pure, modify, ◌>>=◌, ◌>>◌}
use state_fork.Dict.{get, has, put, pop}
use state_fork.Manager.State.{BranchState, SnapshotNode, default_branch_id}
use state_fork.Manager.Branches.{register_branch, update_branch, remove_branch}
use state_fork.Manager.Snapshot.{note}
use state_fork.Forkable.State.{Forkable, ForkOp, ForkHooks, EnvironmentBranch, is_live, set_live}

-- len(set(ids)) == len(ids)
unfoldable pub distinct : List String → Bool
distinct [] = true
distinct (id ∷ ids) = not (contains id ids) && distinct ids

-- A branch id that may not be requested: one that is live, or `main`.
unfoldable pub is_taken : {D B : Type 0} → Forkable D B → String → Bool
is_taken m id = is_live m id || id == default_branch_id

-- set(ids) & (set(self._live_branches) | {DEFAULT_BRANCH_ID})
unfoldable pub conflicting : {D B : Type 0} → Forkable D B → List String → Bool
conflicting m [] = false
conflicting m (id ∷ ids) = is_taken m id || conflicting m ids

unfoldable pub set_active : Bool → BranchState → BranchState
set_active active state = record state { active = active }

module _ {D B : Type 0} where
  -- One round of the loop of `_materialize_branches`.
  unfoldable pub register_live : Bool → EnvironmentBranch D × ℕ → Forkable D B → Forkable D B
  register_live activate (branch, elapsed) m =
      let registered = register_branch branch.id (some branch.base_snapshot_id) m in
      let marked = update_branch branch.id (set_active activate) registered in
      note "fork" branch.id elapsed branch.id
        (set_live (put marked.extra.live_branches branch.id branch) marked)

  unfoldable pub register_all : Bool → List (EnvironmentBranch D × ℕ) → Forkable D B → Forkable D B
  register_all activate [] m = m
  register_all activate (outcome ∷ outcomes) m =
      register_all activate outcomes (register_live activate outcome m)

  -- The removal that follows once the backend branch is gone.
  unfoldable pub forget_branch : String → Forkable D B → Forkable D B
  forget_branch branch_id m =
      remove_branch branch_id (set_live (pop m.extra.live_branches branch_id) m)

  -- What follows `_core_discard_branch`, by its result.
  unfoldable pub discard_finished : String → Bool → ForkOp D B Bool
  discard_finished branch_id false = pure false
  discard_finished branch_id true = do modify (forget_branch branch_id); pure true

module _ {D B : Type 0} (h : ForkHooks D B) where
  unfoldable pub materialize_branches :
      String → List (Option String) → Bool → ForkOp D B (List (EnvironmentBranch D))
  materialize_branches snapshot_id requested activate = do
    outcomes ← h.core_fork snapshot_id requested
    modify (register_all activate outcomes)
    pure (map (λ outcome. outcome.0) outcomes)

  -- `requested` after the tests on `ids`; `n < 1` and an empty `ids` request nothing.
  unfoldable pub fork_requested :
      String → List (Option String) → ForkOp D B (List (EnvironmentBranch D))
  fork_requested snapshot_id [] = pure []
  fork_requested snapshot_id (id ∷ ids) = materialize_branches snapshot_id (id ∷ ids) true

  unfoldable pub fork_ids :
      String → ℕ → Option (List String) → ForkOp D B (List (EnvironmentBranch D))
  fork_ids snapshot_id n none m = fork_requested snapshot_id (replicate n none) m
  fork_ids snapshot_id n (some ids) m =
      if not (distinct ids) || conflicting m ids
      then (ok [], m)
      else fork_requested snapshot_id (map some ids) m

-- A registered branch that is still active.
unfoldable pub is_active : Option BranchState → Bool
is_active none = false
is_active (some state) = state.active

-- A node that is known to be virtual.
unfoldable pub known_virtual : Option SnapshotNode → Bool
known_virtual none = false
known_virtual (some node) = node.is_virtual

module _ {D B : Type 0} (h : ForkHooks D B) where
  unfoldable pub fork : String → ℕ → Option (List String) → ForkOp D B (List (EnvironmentBranch D))
  fork snapshot_id n ids m =
      if known_virtual (get m.snapshot_graph snapshot_id) || not (has m.snapshots snapshot_id)
      then (ok [], m)
      else fork_ids h snapshot_id n ids m

  unfoldable pub discard_active : String → ForkOp D B Bool
  discard_active branch_id = do
    gone ← h.core_discard_branch branch_id
    discard_finished branch_id gone

  unfoldable pub discard_branch : String → ForkOp D B Bool
  discard_branch branch_id m =
      if branch_id == default_branch_id || branch_id == m.current_branch_id
      then (ok false, m)
      else if is_live m branch_id && is_active (get m.branches branch_id)
      then discard_active branch_id m
      else (ok false, m)
