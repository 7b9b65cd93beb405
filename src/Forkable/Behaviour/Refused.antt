-- ===== src/Forkable/Behaviour/Refused.antt =====
-- controller/forkable_env_manager.py: the restores that fail.
use state_fork.Prelude.{
  String, Bool, ℕ, true, false, Option, none, some, List, [], ◌∷◌, ◌≡◌, ◌≢◌, refl, ◌∙◌, inl, inr,
  arith, Option-cases, map,
}
use state_fork.Exec.{Result, ok, err, continue, pure, modify, ◌>>◌, PyError}
use state_fork.Exec.Ends.{Ends, ends_rules}
use state_fork.Dict.{get}
use state_fork.Manager.State.{Hooks, Command, SnapshotNode}
use state_fork.Manager.Branches.{get_branch_state}
use state_fork.Manager.Snapshot.{ask}
use state_fork.Manager.Ancestry.{Walk, arrived, gave_up, resolve}
use state_fork.Manager.Restore.{
  restore, restore_found, restore_walked, restore_from, restore_entered,
}
use state_fork.Forkable.State.{Forkable, ForkHooks, EnvironmentBranch, Fork}
use state_fork.Forkable.Branches.{materialize_branches, register_all}
use state_fork.Forkable.Restore.{core_restore, switch_to, hooks}
use state_fork.Forkable.Sound.{Contract, Untouched}
use state_fork.Forkable.Behaviour.Discard.{Untouched-refl}

-- Not the answer `False`.
abbrev Lasts : Result Bool → Type 0
Lasts r = r ≢ ok false

-- Once the target is entered, the restore does not report a failure.
restore_entered-Lasts :
    {E : Type 0} (h : Hooks E) (id : String) (ancestor : SnapshotNode) (commands : List Command)
    (elapsed : ℕ)
    → Ends Lasts (restore_entered h id ancestor commands (true, elapsed))
unfolding restore_entered
restore_entered-Lasts h id ancestor commands elapsed = search (ends_rules, raised, done)
  where
    raised : (e : PyError) → Lasts (err e)
    raised e q = absurd (ground arith)

    done : Lasts (ok true)
    done q = absurd (ground arith)

-- Not an answer `(False, …)`.
abbrev Enters : Result (Bool × ℕ) → Type 0
Enters r = (t : ℕ) → r ≢ ok (false, t)

module _ {D B : Type 0} (h : ForkHooks D B) (k : Contract h) where
  switch_to-Enters :
      (start : ℕ) (departing : String) (b : EnvironmentBranch D) (bs : List (EnvironmentBranch D))
      → Ends Enters (switch_to h start departing (b ∷ bs))
  unfolding switch_to
  switch_to-Enters start departing b bs = search (ends_rules, raised, done)
    where
      raised : (e : PyError) → Enters (err e)
      raised e t q = absurd (ground arith)

      done : (u : ℕ) → Enters (ok (true, u))
      done u t q = absurd (ground arith)

  -- A `_core_restore` that answers `False` has switched to nothing.
  core_restore-refused :
      (start t : ℕ) (departing : String) (m m₁ : Forkable D B)
      (r : Result (List (EnvironmentBranch D × ℕ)))
      → Untouched m m₁
      → (continue
          (continue r
            (λ outcomes. do
              modify (register_all false outcomes)
              pure (map (λ outcome. outcome.0) outcomes))
            m₁).0
          (λ branches. switch_to h start departing branches)
          (continue r
            (λ outcomes. do
              modify (register_all false outcomes)
              pure (map (λ outcome. outcome.0) outcomes))
            m₁).1).0
        ≡ ok (false, t)
      → Untouched m
          (continue
            (continue r
              (λ outcomes. do
                modify (register_all false outcomes)
                pure (map (λ outcome. outcome.0) outcomes))
              m₁).0
            (λ branches. switch_to h start departing branches)
            (continue r
              (λ outcomes. do
                modify (register_all false outcomes)
                pure (map (λ outcome. outcome.0) outcomes))
              m₁).1).1
  unfolding switch_to register_all
  core_restore-refused start t departing m m₁ (err e) u q = u
  core_restore-refused start t departing m m₁ (ok []) u q = u
  core_restore-refused start t departing m m₁ (ok ((b, x) ∷ os)) u q =
      absurd ((switch_to-Enters start departing b (map (λ outcome. outcome.0) os)).at _ t q)

  hook-refused :
      (id departing : String) (t : ℕ) (m : Forkable D B)
      → ((hooks h).core_restore id departing m).0 ≡ ok (false, t)
      → Untouched m ((hooks h).core_restore id departing m).1
  unfolding hooks core_restore materialize_branches ask
  hook-refused id departing t m q =
      core_restore-refused _ t departing m _ _ (later refl (k.core_fork id (none ∷ []) _)) q
    where
      later :
          {e : Fork D B} {m' : Forkable D B}
          → e.live_branches ≡ m.extra.live_branches
          → Untouched (record m { extra = e }) m'
          → Untouched m m'
      later s u = record {
        branches = u.branches;
        current = u.current;
        stats = u.stats;
        graph = u.graph;
        live_branches = u.live_branches ∙ s;
      }

  restore_finished-refused :
      (id : String) (ancestor : SnapshotNode) (commands : List Command) (r : Result (Bool × ℕ))
      (m m₁ : Forkable D B)
      → ((t : ℕ) → r ≡ ok (false, t) → Untouched m m₁)
      → (continue r (restore_entered (hooks h) id ancestor commands) m₁).0 ≡ ok false
      → Untouched m (continue r (restore_entered (hooks h) id ancestor commands) m₁).1
  unfolding restore_entered
  restore_finished-refused id ancestor commands (err e) m m₁ u q = absurd (ground arith)
  restore_finished-refused id ancestor commands (ok (false, t)) m m₁ u q = u t refl
  restore_finished-refused id ancestor commands (ok (true, t)) m m₁ u q =
      absurd ((restore_entered-Lasts (hooks h) id ancestor commands t).at m₁ q)

  restore_walked-refused :
      (id departing : String) (w : Option Walk) (m : Forkable D B)
      → (restore_walked (hooks h) id departing w m).0 ≡ ok false
      → Untouched m (restore_walked (hooks h) id departing w m).1
  unfolding restore_walked restore_from
  restore_walked-refused id departing none m q = Untouched-refl m
  restore_walked-refused id departing (some (gave_up reason)) m q = Untouched-refl m
  restore_walked-refused id departing (some (arrived ancestor commands)) m q =
      restore_finished-refused id ancestor commands _ m _
        (λ t. hook-refused ancestor.snapshot_id departing t m) q

  restore_found-refused :
      (id departing : String) (node : Option SnapshotNode) (m : Forkable D B)
      → (restore_found (hooks h) id departing node m).0 ≡ ok false
      → Untouched m (restore_found (hooks h) id departing node m).1
  unfolding restore_found
  restore_found-refused id departing none m q = Untouched-refl m
  restore_found-refused id departing (some node) m q =
      restore_walked-refused id departing (resolve m.snapshot_graph node) m q

  -- A restore of a forkable manager that answers `False`, whatever the reason, has changed none of
  -- the controller's records: the current branch, the registries, the graph and the benchmark log
  -- are as they were.
  pub restore-refused :
      (id : String) (m : Forkable D B)
      → (restore (hooks h) id m).0 ≡ ok false
      → Untouched m (restore (hooks h) id m).1
  unfolding restore get_branch_state
  restore-refused id m q = elim (Option-cases (get m.branches m.current_branch_id)) [
    | inl e ↦ absurd (ground (arith, (rw (e, restore, get_branch_state) at q)))
    | inr (state, e) ↦
        rw (e, restore, get_branch_state)
          (restore_found-refused id state.branch_id _ m (rw (e, restore, get_branch_state) at q))
  ]
