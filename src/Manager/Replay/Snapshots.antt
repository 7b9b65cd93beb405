-- ===== src/Manager/Replay/Snapshots.antt =====
-- `snapshot` on a sequential manager, whichever way the decider decides.
use state_fork.Prelude.{
  if◌then◌else◌, subst, ℕ, ◌≡◌, refl, ap, sym, ◌∙◌, String, Bool, true, false, Option, none, some,
  ◌<>◌, arith, eq_iff, eq_refl,
}
use state_fork.Exec.{Result, ok, err}
use state_fork.Dict.{put, get}
use state_fork.Dict.Laws.{get-update}
use state_fork.Benchmark.{add_entry}
use state_fork.Decider.{Decider, random}
use state_fork.Manager.State.{Op, Manager, BranchState, SnapshotNode}
use state_fork.Manager.Branches.{get_branch_state, update_branch, record_snapshot_node}
use state_fork.Manager.Snapshot.{
  ask, note, consult, take_physical, commit_snapshot, after_capture, physical_node, virtual_node,
  snapshot_captured, snapshot_physical, snapshot_virtual, snapshot_active, snapshot_branch,
  snapshot,
}
use state_fork.Manager.Replay.{Outside, IsFaithful, Kept, Kept-refl, sequential}
use state_fork.Manager.Replay.Graph.{
  Denotes, stored, derived, Denotes-extends, record_snapshot_node-Extends, get-record_snapshot_node,
  has-record_snapshot_node, record_snapshot_node-KeysMatch,
}
use state_fork.Manager.Replay.Tracks.{
  get_unissued, Moved-books, Stands, Tracks, Moved, Moved-trans, Moved-outside,
}

module _ {E S : Type 0} (o : Outside E S) where
  -- What a snapshot promises: its id stands for the present state, which it does not disturb.
  pub record Captured (m : Manager E) (id : String) (m' : Manager E) : Type 0 where
    pub moved : Moved o m m'
    pub stands : Stands o m' id (o.live m.extra)
    pub undisturbed : o.live m'.extra ≡ o.live m.extra

  abbrev pub Snapped : Manager E → Result (Option String) → Manager E → Type 0
  Snapped m (ok (some id)) m' = Captured m id m'
  Snapped m (ok none) m' = Moved o m m'
  Snapped m (err e) m' = Moved o m m'

  -- A promise made after the present state was left undisturbed.
  Captured-before :
      {m m₁ m' : Manager E} {id : String}
      → Moved o m m₁
      → o.live m₁.extra ≡ o.live m.extra
      → Captured m₁ id m'
      → Captured m id m'
  Captured-before {m} {m₁} {m'} {id} moved live c = record {
    moved = Moved-trans o moved c.moved;
    stands = subst (λ s. Stands o m' id s) live c.stands;
    undisturbed = c.undisturbed ∙ live;
  }

  commit_snapshot-Captured :
      (node : SnapshotNode) (physical : Bool) (m : Manager E)
      → (t : Tracks o m) → get m.snapshot_graph node.snapshot_id ≡ none
      → o.issued m.extra node.snapshot_id ≡ true
      → Denotes o
          (record_snapshot_node node m).snapshot_graph
          (o.image m.extra)
          node.snapshot_id
          (o.live m.extra)
      → Captured m node.snapshot_id
          (commit_snapshot (sequential o) m.current_branch_id node physical m)
  unfolding commit_snapshot sequential update_branch after_capture record_snapshot_node
  commit_snapshot-Captured node physical m t new issued stands = record {
    moved = record {
      tracks = record {
        state = after_capture node.snapshot_id physical t.state;
        at = ground (
          arith,
          get-update m.branches m.current_branch_id m.current_branch_id
              (after_capture node.snapshot_id physical),
          eq_refl m.current_branch_id,
        );
        active = t.active;
        base = node.snapshot_id;
        last = refl;
        start = o.live m.extra;
        stands = stands;
        live = refl;
        keys = record_snapshot_node-KeysMatch node m t.keys;
        filed = λ id h.
            ground
              (arith, has-record_snapshot_node node m id, t.filed id, eq_iff node.snapshot_id id);
      };
      persists =
          λ id s d. Denotes-extends o (record_snapshot_node-Extends node m new) (λ i h. refl) d;
    };
    stands = stands;
    undisturbed = refl;
  }

  module _ (f : IsFaithful o) where
    -- The decider may draw a coin; it changes nothing else.
    consult-outside :
        (d : Decider) (elapsed : ℕ) (m : Manager E)
        → (physical : Bool) × (e' : E) × (consult (sequential o) d elapsed m
            ≡ (ok physical, record m { extra = e' }))
          × (o.live e' ≡ o.live m.extra)
          × Kept o m.extra e'
    unfolding consult ask sequential
    consult-outside random elapsed m =
        ((o.coin m.extra).0, (o.coin m.extra).1, refl, f.coin_live m.extra, f.coin_keeps m.extra)
    consult-outside _ elapsed m = (_, m.extra, refl, refl, Kept-refl o m.extra)

    snapshot_virtual-Captured :
        (m : Manager E) (t : Tracks o m)
        → (id : String) × ((snapshot_virtual
              (sequential o)
              m.current_branch_id
              t.state.last_snapshot_id
              t.state.command_log
              m).0
            ≡ ok (some id))
          × Captured m id
              (snapshot_virtual
                (sequential o)
                m.current_branch_id
                t.state.last_snapshot_id
                t.state.command_log
                m).1
    unfolding snapshot_virtual ask sequential virtual_node
    snapshot_virtual-Captured m t = (
      id,
      refl,
      Captured-before out (f.uuid_live m.extra) (
          commit_snapshot-Captured node false m₁ out.tracks
            (get_unissued o id t (f.uuid_new m.extra)) (f.uuid_issued m.extra)
            (derived id (record node { children = (get-record_snapshot_node node m₁).0 }) t.base
              t.start (o.live m₁.extra) (get-record_snapshot_node node m₁).1 refl t.last
              (Denotes-extends o
                (record_snapshot_node-Extends node m₁ (get_unissued o id t (f.uuid_new m.extra)))
                (λ i h. refl) (out.persists t.base t.start t.stands))
              (f.uuid_live m.extra ∙ t.live))),
    )
      where
        id : String
        id = "v" <> (o.uuid_hex m.extra).0

        node : SnapshotNode
        node = virtual_node id t.state.last_snapshot_id t.state.command_log

        m₁ : Manager E
        m₁ = record m { extra = (o.uuid_hex m.extra).1 }

        out : Moved o m m₁
        out = Moved-outside o m _ t (f.uuid_keeps m.extra) (f.uuid_live m.extra)

    -- A capture that stored the present state under a new id.
    capture-Captured :
        (m : Manager E) (parent : Option String) (id : String) (elapsed : ℕ)
        → Tracks o m
        → (o.capture m.current_branch_id m.extra).0 ≡ ok (some id, elapsed)
        → Captured m id
            (snapshot_captured
              (sequential o)
              m.current_branch_id
              parent
              (some id, elapsed)
              (record m {
                snapshots = put m.snapshots id id;
                extra = (o.capture m.current_branch_id m.extra).1;
              })).1
    unfolding snapshot_captured note sequential physical_node
    capture-Captured m parent id elapsed t h =
        let (new, issued, image) = f.capture_stores m.current_branch_id m.extra id elapsed h in
        let live = f.capture_live m.current_branch_id m.extra in
        let out = Moved-outside o m _ t (f.capture_keeps m.current_branch_id m.extra) live in
        let booked =
          Moved-books o m₁ (put m.snapshots id id)
            (add_entry "snapshot" id elapsed m.current_branch_id m.stats) out.tracks in
        Captured-before (Moved-trans o out booked) live (
          commit_snapshot-Captured (physical_node id parent) true m₂ booked.tracks
            (get_unissued o id t new) issued
            (stored id _ (o.live m₁.extra) (get-record_snapshot_node (physical_node id parent) m₂).1
              refl (image ∙ ap some (sym live))))
      where
        m₁ : Manager E
        m₁ = record m { extra = (o.capture m.current_branch_id m.extra).1 }

        m₂ : Manager E
        m₂ = record m₁ {
          snapshots = put m.snapshots id id;
          stats = add_entry "snapshot" id elapsed m.current_branch_id m.stats;
        }

    snapshot_physical-Snapped :
        (m : Manager E) (parent : Option String) (r : Result (Option String × ℕ))
        → Tracks o m
        → (o.capture m.current_branch_id m.extra).0 ≡ r
        → Snapped m
            (snapshot_physical (sequential o) m.current_branch_id parent m).0
            (snapshot_physical (sequential o) m.current_branch_id parent m).1
    unfolding snapshot_physical snapshot_captured sequential
    snapshot_physical-Snapped m parent (err e) t h =
        rw (h, snapshot_physical)
          (Moved-outside o m _ t (f.capture_keeps m.current_branch_id m.extra)
            (f.capture_live m.current_branch_id m.extra))
    snapshot_physical-Snapped m parent (ok (none, elapsed)) t h =
        rw (h, snapshot_physical)
          (Moved-outside o m _ t (f.capture_keeps m.current_branch_id m.extra)
            (f.capture_live m.current_branch_id m.extra))
    snapshot_physical-Snapped m parent (ok (some id, elapsed)) t h =
        rw (h, snapshot_physical) (capture-Captured m parent id elapsed t h)

    Snapped-before :
        {m m₁ : Manager E} (m' : Manager E) (r : Result (Option String))
        → Moved o m m₁
        → o.live m₁.extra ≡ o.live m.extra
        → Snapped m₁ r m'
        → Snapped m r m'
    Snapped-before m' (ok (some id)) moved live x = Captured-before moved live x
    Snapped-before m' (ok none) moved live x = Moved-trans o moved x
    Snapped-before m' (err e) moved live x = Moved-trans o moved x

    snapshot_by :
        (physical : Bool) (m : Manager E) (t : Tracks o m) (st : BranchState)
        → st ≡ t.state
        → let run : Op E (Option String) =
            if physical
            then snapshot_physical (sequential o) m.current_branch_id st.last_snapshot_id
            else snapshot_virtual
                (sequential o)
                m.current_branch_id
                st.last_snapshot_id
                st.command_log in
          Snapped m (run m).0 (run m).1
    snapshot_by true m t st e = snapshot_physical-Snapped m _ _ t refl
    snapshot_by false m t st e =
        rw e (let (id, done, captured) = snapshot_virtual-Captured m t in rw done captured)

    snapshot_active-Snapped :
        (m : Manager E) (t : Tracks o m)
        → Snapped m
            (snapshot_active (sequential o) m.current_branch_id false t.state m).0
            (snapshot_active (sequential o) m.current_branch_id false t.state m).1
    unfolding snapshot_active take_physical
    snapshot_active-Snapped m t =
        let (physical, e', asked, live, kept) =
          consult-outside m.decider t.state.cumulative_exec_time m in
        let out = Moved-outside o m e' t kept live in
        let same : t.state ≡ out.tracks.state = cc (t.at, out.tracks.at) in
        rw (asked, snapshot_active)
          (Snapped-before _ _ out live
            (snapshot_by physical (record m { extra = e' }) out.tracks t.state same))

    -- Whatever the decider decides, a snapshot that succeeds stands for the present state, and no
    -- snapshot disturbs the environment, its record or the older snapshots.
    pub snapshot-Snapped :
        (m : Manager E)
        → Tracks o m
        → Snapped m (snapshot (sequential o) m).0 (snapshot (sequential o) m).1
    unfolding snapshot snapshot_branch get_branch_state
    snapshot-Snapped m t =
        rw (t.at, snapshot, snapshot_branch, get_branch_state)
          (simp t.active (snapshot_active-Snapped m t))
