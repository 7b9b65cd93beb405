-- ===== src/Manager/Replay/Liveness.antt =====
-- When `restore` returns.
use state_fork.Prelude.{ℕ, ◌≡◌, String, true, some, List}
use state_fork.Exec.{ok}
use state_fork.Manager.State.{Manager, SnapshotNode, Command}
use state_fork.Manager.Branches.{get_branch_state}
use state_fork.Manager.Snapshot.{note}
use state_fork.Manager.Ancestry.Resolution.{resolve-iff-Resolves}
use state_fork.Manager.Restore.{
  restore, restore_found, restore_walked, restore_from, restore_entered,
}
use state_fork.Manager.Replay.{Outside, IsFaithful, sequential}
use state_fork.Manager.Replay.Executed.{replay-Executed}
use state_fork.Manager.Replay.Graph.{Denotes-Resolves}
use state_fork.Manager.Replay.Tracks.{Stands, Tracks}

-- The backend can reload whatever image is stored.
abbrev pub Reloads : {E S : Type 0} → Outside E S → Type 0
Reloads {E} {S} o =
    (id b : String) (e : E) (s : S)
    → o.image e id ≡ some s
    → (t : ℕ) × ((o.reload id b e).0 ≡ ok (true, t))

module _ {E S : Type 0} (o : Outside E S) (f : IsFaithful o) where
  restore_entered-true :
      (m : Manager E) (e' : E) (id : String) (ancestor : SnapshotNode) (path : List Command)
      (elapsed : ℕ) (t : Tracks o m)
      → (restore_entered
          (sequential o)
          id
          ancestor
          path
          (true, elapsed)
          (record m { extra = e' })).0
        ≡ ok true
  unfolding restore_entered note
  restore_entered-true m e' id ancestor path elapsed t =
      let m₁ : Manager E =
        note "restore" ancestor.snapshot_id elapsed m.current_branch_id (record m { extra = e' }) in
      let (done, x) = replay-Executed o f path m₁ t.state t.at t.active in
      rw (done, restore_entered)

  restore_from-true :
      (m : Manager E) (id b : String) (ancestor : SnapshotNode) (path : List Command) (elapsed : ℕ)
      → Tracks o m
      → (o.reload ancestor.snapshot_id b m.extra).0 ≡ ok (true, elapsed)
      → (restore_from (sequential o) id b ancestor path m).0 ≡ ok true
  unfolding restore_from sequential
  restore_from-true m id b ancestor path elapsed t h =
      rw (h, restore_from) (restore_entered-true m _ id ancestor path elapsed t)

  -- A restore of a snapshot that stands for a state succeeds, whatever the number of virtual
  -- snapshots between it and its physical ancestor, if the backend can reload stored images.
  pub restore-true :
      (m : Manager E) (id : String) (s : S)
      → Tracks o m
      → Reloads o
      → Stands o m id s
      → (restore (sequential o) id m).0 ≡ ok true
  unfolding restore get_branch_state restore_found restore_walked
  restore-true m id s t reloads d =
      let (node, ancestor, n, path, base, g, w, i, e) = Denotes-Resolves o t.keys d in
      let found = (resolve-iff-Resolves m.snapshot_graph id node ancestor path t.keys g).1 (n, w) in
      let (elapsed, h) = reloads ancestor.snapshot_id t.state.branch_id m.extra base i in
      rw (t.at, restore, get_branch_state)
        (rw (g, restore_found)
          (rw (found, restore_walked)
            (restore_from-true m id t.state.branch_id ancestor path elapsed t h)))
