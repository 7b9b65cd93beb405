-- ===== src/Forkable/Restore.antt =====
-- controller/forkable_env_manager.py: `_core_restore`, the hooks that a forkable manager gives the
-- base class, and the operations on a named branch.
use state_fork.Prelude.{
  ℕ, ◌-◌, String, Bool, true, false, none, List, [], ◌∷◌, ◌||◌, if◌then◌else◌, ◌==◌,
}
use state_fork.Exec.{pure, ◌>>=◌, ◌>>◌}
use state_fork.Dict.{update}
use state_fork.Manager.State.{Hooks, default_branch_id}
use state_fork.Manager.Branches.{set_current_branch}
use state_fork.Manager.Snapshot.{ask}
use state_fork.Forkable.State.{Forkable, ForkOp, ForkHooks, Fork, EnvironmentBranch, set_live}
use state_fork.Forkable.Branches.{materialize_branches, discard_branch}

module _ {D B : Type 0} where
  -- A library function, lifted to the fields of a forkable manager.
  abbrev pub lift_library : {A : Type 0} → (B → A × B) → Fork D B → A × Fork D B
  lift_library f x = let (a, b) = f x.backend in (a, record x { backend = b })

  -- `_after_snapshot`: the live record of the branch moves to the new snapshot.
  unfoldable pub after_snapshot : String → String → Forkable D B → Forkable D B
  after_snapshot branch_id snapshot_id m =
      set_live
        (update m.extra.live_branches branch_id
          (λ branch. record branch { base_snapshot_id = snapshot_id }))
        m

module _ {D B : Type 0} (h : ForkHooks D B) where
  -- The departing branch is discarded, unless it is `main` or the restored one. A refusal is only
  -- logged.
  unfoldable pub retire : String → String → ForkOp D B Unit
  retire departing restored =
      if departing == default_branch_id || departing == restored
      then pure tt
      else discard_branch h departing >> pure tt

  unfoldable pub switch_to : ℕ → String → List (EnvironmentBranch D) → ForkOp D B (Bool × ℕ)
  switch_to start departing [] = pure (false, 0)
  switch_to start departing (restored ∷ others) = do
    set_current_branch restored.id
    retire departing restored.id
    stop ← ask (lift_library h.time)
    pure (true, stop - start)

  unfoldable pub core_restore : String → String → ForkOp D B (Bool × ℕ)
  core_restore snapshot_id departing = do
    start ← ask (lift_library h.time)
    branches ← materialize_branches h snapshot_id (none ∷ []) false
    switch_to start departing branches

  -- What the base class finds in a forkable manager.
  unfoldable pub hooks : Hooks (Fork D B)
  hooks = record {
    core_snapshot = h.core_snapshot;
    core_restore = core_restore;
    core_cleanup = h.core_cleanup;
    core_exec = h.core_exec;
    core_copy = h.core_copy;
    after_snapshot = after_snapshot;
    coin = lift_library h.coin;
    uuid_hex = lift_library h.uuid_hex;
    time = lift_library h.time;
  }
