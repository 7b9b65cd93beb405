-- ===== src/Forkable/Sound/Hooks.antt =====
-- The invariant and the hooks that a forkable manager gives the base class.
use state_fork.Manager.Stable.{AnyNode}
use state_fork.Prelude.{
  ◌-◌, ℕ, String, none, List, [], ◌∷◌, true, false, arith, ◌==◌, ◌||◌, inl, inr, Option-cases,
}
use state_fork.Exec.Keeps.{Keeps-if, Keeps, keeps_rules, Keeps-bind, Keeps-then, Keeps-pure}
use state_fork.Dict.{get}
use state_fork.Dict.Laws.{has-update, get-update}
use state_fork.Manager.State.{default_branch_id}
use state_fork.Manager.Snapshot.{ask}
use state_fork.Manager.Stable.{HooksKeep}
use state_fork.Forkable.State.{Forkable, ForkHooks, EnvironmentBranch}
use state_fork.Forkable.Restore.{
  after_snapshot, retire, switch_to, core_restore, hooks, lift_library,
}
use state_fork.Forkable.Sound.{IsForkSound, Contract, set_current_branch-IsForkSound}
use state_fork.Forkable.Sound.Branches.{
  materialize_branches-IsForkSound, discard_branch-IsForkSound,
}

module _ {D B : Type 0} where
  ask-IsForkSound : {A : Type 0} (f : B → A × B) → Keeps IsForkSound (ask (lift_library {D = D} f))
  unfolding ask
  ask-IsForkSound f = record {
    at = λ m s. record {
      base = record { main = s.base.main; current = s.base.current; numbered = s.base.numbered };
      live = s.live;
      filed = s.filed;
    };
  }

  after_snapshot-IsForkSound :
      (branch id : String) (m : Forkable D B)
      → IsForkSound m
      → IsForkSound (after_snapshot branch id m)
  unfolding after_snapshot
  after_snapshot-IsForkSound branch id m s = record {
    base = record { main = s.base.main; current = s.base.current; numbered = s.base.numbered };
    live = λ i h. s.live i (simp has-update at h);
    filed = λ i b h. elim (Option-cases (get m.extra.live_branches i)) [
      | inl e ↦ absurd (ground (arith, get-update m.extra.live_branches branch i moved))
      | inr (b', e) ↦ ground (arith, get-update m.extra.live_branches branch i moved, s.filed i b')
    ];
  }
    where
      moved : EnvironmentBranch D → EnvironmentBranch D
      moved b = record b { base_snapshot_id = id }

module _ {D B : Type 0} (h : ForkHooks D B) (k : Contract h) where
  retire-IsForkSound :
      (departing restored : String) → Keeps IsForkSound (retire h departing restored)
  unfolding retire
  retire-IsForkSound departing restored =
      Keeps-if (departing == default_branch_id || departing == restored) _ _ (λ _. Keeps-pure tt)
        (λ _. Keeps-then _ _ (discard_branch-IsForkSound h k departing) (Keeps-pure tt))

  switch_to-IsForkSound :
      (start : ℕ) (departing : String) (branches : List (EnvironmentBranch D))
      → Keeps IsForkSound (switch_to h start departing branches)
  unfolding switch_to
  switch_to-IsForkSound start departing [] = search keeps_rules
  switch_to-IsForkSound start departing (b ∷ bs) =
      Keeps-then _ _ (set_current_branch-IsForkSound b.id) (
        Keeps-then _ _ (retire-IsForkSound departing b.id)
          (Keeps-bind _ _ (ask-IsForkSound h.time) (λ stop. Keeps-pure (true, stop - start))))

  core_restore-IsForkSound :
      (id departing : String) → Keeps IsForkSound (core_restore h id departing)
  unfolding core_restore
  core_restore-IsForkSound id departing = Keeps-bind _ _ (ask-IsForkSound h.time) λ start.
      Keeps-bind _ _ (materialize_branches-IsForkSound h k id (none ∷ []) false)
        λ branches. switch_to-IsForkSound start departing branches

  pub hooks-HooksKeep : HooksKeep IsForkSound AnyNode (hooks h)
  unfolding hooks
  hooks-HooksKeep = record {
    core_snapshot = k.core_snapshot;
    core_restore = core_restore-IsForkSound;
    core_exec = k.core_exec;
    core_copy = k.core_copy;
    after_snapshot = after_snapshot-IsForkSound;
    coin = ask-IsForkSound h.coin;
    uuid_hex = ask-IsForkSound h.uuid_hex;
    fit_captured = λ branch m s id elapsed e parent. tt;
    fit_drawn = λ m s parent commands. tt;
    time = ask-IsForkSound h.time;
  }
