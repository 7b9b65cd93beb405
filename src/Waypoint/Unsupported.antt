-- ===== src/Waypoint/Unsupported.antt =====
-- A Waypoint manager whose program cannot fork.
use state_fork.Forkable.Restore.{hooks}
use state_fork.Prelude.{refl, sym}
use state_fork.Waypoint.Attach.{attach, attach_captured}
use state_fork.Prelude.{sym, subst, ap, arith, true, ◌≡◌}
use state_fork.Exec.{PyError, Result, err, gets, ok, ◌>>=◌, ◌>>◌}
use state_fork.Manager.Copy.{finalizer}
use state_fork.Waypoint.State.{Tools, Waypoint, WaypointOp}
use state_fork.Waypoint.Process.{assert_supports_forking}
use state_fork.Waypoint.Snapshots.{core_snapshot}
use state_fork.Waypoint.Hooks.{waypoint}
use state_fork.Waypoint.Hydrate.{sync_snapshot_tree}
use state_fork.Waypoint.Attach.{current_base, supported}
use state_fork.Forkable.Listing.{list_branches}

module _ {W : Type 0} (t : Tools W) where
  -- What the constructor does after the test of the program.
  abbrev remaining : WaypointOp W Unit
  remaining = do
    sync_snapshot_tree t
    list_branches (waypoint t)
    parent ← gets current_base
    branch_id ← gets (λ m. m.current_branch_id)
    captured ← core_snapshot t branch_id
    attach_captured parent captured

  refused :
      (r : Result (Unit {0})) (exc : PyError) (m : Waypoint W)
      → r ≡ err exc
      → (supported r >> remaining) m ≡ (err exc, record m { is_cleaned_up = true })
  unfolding supported
  refused (ok done) exc m e = absurd (ground (arith, e))
  refused (err other) exc m e =
      let same : other ≡ exc = ground (arith, e) in
      subst
        (λ x. (supported (err other) >> remaining) m ≡ (err x, record m { is_cleaned_up = true }))
        same refl

  -- Where the program cannot fork or cannot be started, attaching raises that exception and leaves
  -- nothing to the finalizer of the manager, which then does nothing.
  pub finalizer-attach :
      (m : Waypoint W) (exc : PyError)
      → (assert_supports_forking t m).0 ≡ err exc
      → ((attach t m).0 ≡ err exc)
        × (finalizer (hooks (waypoint t)) (attach t m).1 ≡ (ok tt, (attach t m).1))
  unfolding attach finalizer
  finalizer-attach m exc e =
      let stopped = refused (assert_supports_forking t m).0 exc (assert_supports_forking t m).1 e in
      (
        ap (λ o. o.0) stopped,
        subst (λ n. finalizer (hooks (waypoint t)) n ≡ (ok tt, n)) (sym (ap (λ o. o.1) stopped))
            refl,
      )
