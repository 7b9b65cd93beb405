-- ===== src/Manager/Replay/Attached.antt =====
-- Sequential managers from their construction on.
use state_fork.Prelude.{
  subst, ℕ, ◌≡◌, refl, ap, sym, ◌∙◌, String, true, false, Option, none, some, [], arith, eq_refl,
  eq_iff,
}
use state_fork.Exec.{Result, ok, err}
use state_fork.Dict.Laws.{get-update}
use state_fork.Dict.{get, has}
use state_fork.Decider.{Decider}
use state_fork.Manager.State.{
  Manager, BranchState, SnapshotNode, new_manager, new_branch, default_branch_id,
}
use state_fork.Manager.Branches.{update_branch, record_snapshot_node}
use state_fork.Manager.Snapshot.{physical_node}
use state_fork.Manager.Attach.{attach, attach_captured, stand_at}
use state_fork.Manager.Ancestry.Resolution.{KeysMatch}
use state_fork.Manager.Replay.{Outside, IsFaithful, sequential}
use state_fork.Manager.Replay.Graph.{
  stored, record_snapshot_node-KeysMatch, get-record_snapshot_node, has-record_snapshot_node,
}
use state_fork.Manager.Replay.Tracks.{Tracks}

has-empty : (i : String) → has {V = SnapshotNode} [] i ≡ false
unfolding get
has-empty i = refl

no-keys : KeysMatch []
unfolding get
no-keys key node g = absurd (ground arith)

module _ {E S : Type 0} (o : Outside E S) (f : IsFaithful o) where
  abbrev attached : String → Option Decider → E → Result (Unit {0}) × Manager E
  attached name decider e = attach (sequential o) (new_manager name decider e)

  -- The snapshot `id` of the state `s` is the root, and the current branch stands there.
  rooted-Tracks :
      (m : Manager E) (id : String) (st : BranchState)
      → m.snapshot_graph ≡ []
      → get m.branches m.current_branch_id ≡ some st
      → st.active ≡ true
      → st.command_log ≡ []
      → o.issued m.extra id ≡ true
      → o.image m.extra id ≡ some (o.live m.extra)
      → Tracks o (
          update_branch m.current_branch_id
            (stand_at id)
            (record_snapshot_node (physical_node id none) m))
  unfolding update_branch stand_at record_snapshot_node physical_node
  rooted-Tracks m id st empty at active log issued image = record {
    state = stand_at id st;
    at = ground (
      arith,
      get-update m.branches m.current_branch_id m.current_branch_id (stand_at id),
      eq_refl m.current_branch_id,
    );
    active = active;
    base = id;
    last = refl;
    start = o.live m.extra;
    stands = stored id _ (o.live m.extra) (get-record_snapshot_node node m).1 refl image;
    live = rw log;
    keys = record_snapshot_node-KeysMatch node m (subst KeysMatch (sym empty) no-keys);
    filed = λ i h. ground (
      arith,
      has-record_snapshot_node node m i,
      eq_iff id i,
      has-empty i,
      ap (λ g. has g i) empty,
    );
  }
    where
      node : SnapshotNode
      node = physical_node id none

  attach-by :
      (name : String) (decider : Option Decider) (e : E) (r : Result (Option String × ℕ))
      → (o.capture default_branch_id e).0 ≡ r
      → (attached name decider e).0 ≡ ok tt
      → Tracks o (attached name decider e).1
  unfolding attach attach_captured sequential new_manager get
  attach-by name decider e (err exc) h done = absurd (ground arith)
  attach-by name decider e (ok (none, elapsed)) h done = absurd (ground arith)
  attach-by name decider e (ok (some id, elapsed)) h done =
      let (new, issued, image) = f.capture_stores default_branch_id e id elapsed h in
      rw (h, attach)
        (rooted-Tracks _ id (new_branch default_branch_id none) refl refl refl refl issued
          (image ∙ ap some (sym (f.capture_live default_branch_id e))))

  -- A manager that attached to an application tracks its state: a first snapshot of it was taken,
  -- and the current branch stands there.
  pub attach-Tracks :
      (name : String) (decider : Option Decider) (e : E)
      → (attach (sequential o) (new_manager name decider e)).0 ≡ ok tt
      → Tracks o (attach (sequential o) (new_manager name decider e)).1
  attach-Tracks name decider e = attach-by name decider e _ refl
