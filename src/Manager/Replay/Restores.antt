-- ===== src/Manager/Replay/Restores.antt =====
-- `restore` on a sequential manager.
use state_fork.Prelude.{
  subst, ℕ, ◌≡◌, refl, sym, String, Bool, true, false, Option, none, some, List, arith, eq_refl,
}
use state_fork.Exec.{Result, ok, err}
use state_fork.Dict.{get, has}
use state_fork.Dict.Laws.{get-update}
use state_fork.Manager.State.{Manager, BranchState, SnapshotNode, Command}
use state_fork.Manager.Branches.{
  get_branch_state, update_branch, register_branch, set_branch_position, position,
}
use state_fork.Manager.Snapshot.{note}
use state_fork.Manager.Ancestry.{gave_up, Walk, arrived, resolve}
use state_fork.Manager.Ancestry.Resolution.{KeysMatch, Resolves, KeysMatch, resolve-iff-Resolves}
use state_fork.Manager.Restore.{
  replay, restore_entered, restore_from, restore_walked, restore_found, restore,
}
use state_fork.Manager.Replay.{Outside, IsFaithful, Kept, run_all, sequential}
use state_fork.Manager.Replay.Executed.{Executed, replay-Executed}
use state_fork.Manager.Replay.Graph.{Resolves-Denotes, Denotes}
use state_fork.Manager.Replay.Tracks.{
  Stands, Tracks, Moved, Moved-refl, Moved-outside, Stands-outside,
}

module _ {E S : Type 0} (o : Outside E S) where
  -- The current branch of a manager, put at a snapshot that stands for the present state.
  set_branch_position-Tracks :
      (m : Manager E) (st : BranchState) (id : String)
      → get m.branches m.current_branch_id ≡ some st
      → Stands o m id (o.live m.extra)
      → KeysMatch m.snapshot_graph
      → ((i : String) → has m.snapshot_graph i ≡ true → o.issued m.extra i ≡ true)
      → Tracks o (set_branch_position m.current_branch_id (some id) m)
  unfolding set_branch_position update_branch register_branch position
  set_branch_position-Tracks m st id at stands keys filed =
      rw (at, register_branch)
        (record {
          state = position (some id) st;
          at = ground (
            arith,
            get-update m.branches m.current_branch_id m.current_branch_id (position (some id)),
            eq_refl m.current_branch_id,
          );
          active = refl;
          base = id;
          last = refl;
          start = o.live m.extra;
          stands = stands;
          live = refl;
          keys = keys;
          filed = filed;
        })

  set_branch_position-rest :
      (branch id : String) (m : Manager E)
      → ((set_branch_position branch (some id) m).snapshot_graph ≡ m.snapshot_graph)
        × ((set_branch_position branch (some id) m).extra ≡ m.extra)
  unfolding set_branch_position update_branch register_branch
  set_branch_position-rest branch id m = ground arith

  Stands-positioned :
      (branch id : String) (m : Manager E) (i : String) (s : S)
      → Stands o m i s
      → Stands o (set_branch_position branch (some id) m) i s
  Stands-positioned branch id m i s d =
      let (g, e) = set_branch_position-rest branch id m in simp (g, e) d

  Stands-positioned_live :
      (branch id : String) (m : Manager E)
      → Stands o m id (o.live m.extra)
      → Stands o
          (set_branch_position branch (some id) m)
          id
          (o.live (set_branch_position branch (some id) m).extra)
  Stands-positioned_live branch id m d =
      let (g, e) = set_branch_position-rest branch id m in simp (g, e) d

  -- What a restore promises: when it succeeds the environment is in the state of the snapshot, and
  -- when it fails the environment is as it was.
  pub record Restored (m : Manager E) (id : String) (m' : Manager E) : Type 0 where
    pub moved : Moved o m m'
    pub stands : Stands o m' id (o.live m'.extra)

  pub record Refused (m m' : Manager E) : Type 0 where
    pub moved : Moved o m m'
    pub undisturbed : o.live m'.extra ≡ o.live m.extra

  abbrev pub Outcome : Manager E → String → Result Bool → Manager E → Type 0
  Outcome m id (ok true) m' = Restored m id m'
  Outcome m id (ok false) m' = Refused m m'
  Outcome m id (err e) m' = Refused m m'

  Refused-refl : (m : Manager E) → Tracks o m → Refused m m
  Refused-refl m t = record { moved = Moved-refl o m t; undisturbed = refl }

  -- Commands that were executed change what no snapshot stands for.
  pub Executed-persists :
      {m m' : Manager E} {st : BranchState} {cs : List Command}
      → ((i : String) → has m.snapshot_graph i ≡ true → o.issued m.extra i ≡ true)
      → Executed o m st cs m'
      → (i : String) (s : S) → Stands o m i s
      → Stands o m' i s
  Executed-persists {m} {m'} filed x i s d =
      subst (λ g. Denotes o g (o.image m'.extra) i s) (sym x.graph)
        (Stands-outside o m m'.extra filed x.kept i s d)

  pub Executed-filed :
      {m m' : Manager E} {st : BranchState} {cs : List Command}
      → ((i : String) → has m.snapshot_graph i ≡ true → o.issued m.extra i ≡ true)
      → Executed o m st cs m'
      → (i : String) → has m'.snapshot_graph i ≡ true
      → o.issued m'.extra i ≡ true
  Executed-filed filed x i h = x.kept.issued i (filed i (subst (λ g. has g i ≡ true) x.graph h))

  -- The last step of a restore, after a replay from `m` has led to `m'`.
  reposition :
      (m m' : Manager E) (st : BranchState) (cs : List Command) (id : String)
      → KeysMatch m.snapshot_graph
      → ((i : String) → has m.snapshot_graph i ≡ true → o.issued m.extra i ≡ true)
      → Executed o m st cs m'
      → Stands o m id (run_all o cs (o.live m.extra))
      → Tracks o (set_branch_position m.current_branch_id (some id) m')
  reposition m m' st cs id keys filed x d =
      subst (λ b. Tracks o (set_branch_position b (some id) m')) x.same_branch
        (set_branch_position-Tracks m' x.after id x.at
          (subst (λ v. Stands o m' id v) (sym x.ran) (Executed-persists filed x id _ d))
          (subst KeysMatch (sym x.graph) keys) (Executed-filed filed x))

  module _ (f : IsFaithful o) where
    -- The ancestor's state is back; the replay and the new position follow.
    restore_entered-Restored :
        (m : Manager E) (id : String) (ancestor : SnapshotNode) (path : List Command) (elapsed : ℕ)
        (t : Tracks o m) (e' : E)
        → Kept o m.extra e'
        → Stands o m id (run_all o path (o.live e'))
        → Outcome m id
            (restore_entered
              (sequential o)
              id
              ancestor
              path
              (true, elapsed)
              (record m { extra = e' })).0
            (restore_entered
              (sequential o)
              id
              ancestor
              path
              (true, elapsed)
              (record m { extra = e' })).1
    unfolding restore_entered note
    restore_entered-Restored m id ancestor path elapsed t e' kept d =
        let m₁ : Manager E =
          note "restore" ancestor.snapshot_id elapsed m.current_branch_id
            (record m { extra = e' }) in
        let (done, x) = replay-Executed o f path m₁ t.state t.at t.active in
        let m₂ : Manager E = (replay (sequential o) path m₁).1 in
        let filed : (i : String) → has m.snapshot_graph i ≡ true → o.issued e' i ≡ true =
          λ i h. kept.issued i (t.filed i h) in
        let d₁ = Stands-outside o m e' t.filed kept id _ d in
        rw (done, restore_entered)
          (record {
            moved = record {
              tracks = reposition m₁ _ t.state path id t.keys filed x d₁;
              persists = λ i s k.
                  Stands-positioned m.current_branch_id id _ i s
                    (Executed-persists filed x i s (Stands-outside o m e' t.filed kept i s k));
            };
            stands =
                Stands-positioned_live m.current_branch_id id _
                  (subst (λ v. Stands o m₂ id v) (sym x.ran) (Executed-persists filed x id _ d₁));
          })

    restore_from-Outcome :
        (m : Manager E) (id : String) (node ancestor : SnapshotNode) (n : ℕ) (path : List Command)
        (r : Result (Bool × ℕ))
        → Tracks o m
        → get m.snapshot_graph id ≡ some node
        → Resolves m.snapshot_graph n node ancestor path
        → (b : String) → (o.reload ancestor.snapshot_id b m.extra).0 ≡ r
        → Outcome m id
            (restore_from (sequential o) id b ancestor path m).0
            (restore_from (sequential o) id b ancestor path m).1
    unfolding restore_from restore_entered sequential
    restore_from-Outcome m id node ancestor n path (err e) t g w b h =
        rw (h, restore_from)
          (record {
            moved =
                Moved-outside o m _ t (f.reload_keeps ancestor.snapshot_id b m.extra)
                  (f.reload_raised ancestor.snapshot_id b m.extra e h);
            undisturbed = f.reload_raised ancestor.snapshot_id b m.extra e h;
          })
    restore_from-Outcome m id node ancestor n path (ok (false, elapsed)) t g w b h =
        rw (h, restore_from)
          (record {
            moved =
                Moved-outside o m _ t (f.reload_keeps ancestor.snapshot_id b m.extra)
                  (f.reload_refused ancestor.snapshot_id b m.extra elapsed h);
            undisturbed = f.reload_refused ancestor.snapshot_id b m.extra elapsed h;
          })
    restore_from-Outcome m id node ancestor n path (ok (true, elapsed)) t g w b h =
        rw (h, restore_from)
          (restore_entered-Restored m id ancestor path elapsed t _
            (f.reload_keeps ancestor.snapshot_id b m.extra)
            (Resolves-Denotes o id _ t.keys g w
              (f.reload_done ancestor.snapshot_id b m.extra elapsed h)))

    restore_node-Outcome :
        (m : Manager E) (id b : String) (node : SnapshotNode) (w : Option Walk)
        → Tracks o m
        → get m.snapshot_graph id ≡ some node
        → resolve m.snapshot_graph node ≡ w
        → Outcome m id
            (restore_walked (sequential o) id b w m).0
            (restore_walked (sequential o) id b w m).1
    unfolding restore_walked
    restore_node-Outcome m id b node none t g h = Refused-refl m t
    restore_node-Outcome m id b node (some (gave_up reason)) t g h = Refused-refl m t
    restore_node-Outcome m id b node (some (arrived ancestor path)) t g h =
        let (n, w) = (resolve-iff-Resolves m.snapshot_graph id node ancestor path t.keys g).0 h in
        restore_from-Outcome m id node ancestor n path _ t g w b refl

    restore_found-Outcome :
        (m : Manager E) (id b : String) (node : Option SnapshotNode)
        → Tracks o m
        → get m.snapshot_graph id ≡ node
        → Outcome m id
            (restore_found (sequential o) id b node m).0
            (restore_found (sequential o) id b node m).1
    unfolding restore_found
    restore_found-Outcome m id b none t g = Refused-refl m t
    restore_found-Outcome m id b (some node) t g = restore_node-Outcome m id b node _ t g refl

    pub restore-Outcome :
        (m : Manager E) (id : String)
        → Tracks o m
        → Outcome m id (restore (sequential o) id m).0 (restore (sequential o) id m).1
    unfolding restore get_branch_state
    restore-Outcome m id t =
        rw (t.at, restore, get_branch_state) (restore_found-Outcome m id t.state.branch_id _ t refl)
