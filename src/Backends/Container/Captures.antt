-- ===== src/Backends/Container/Captures.antt =====
-- What a snapshot of a container stores.
use state_fork.Decider.{Decider}
use state_fork.Prelude.{false}
use state_fork.Decider.{always_true, decide}
use state_fork.Manager.State.{BranchState}
use state_fork.Manager.Branches.{record_snapshot_node, update_branch}
use state_fork.Manager.Snapshot.{
  commit_snapshot, consult, note, physical_node, snapshot, snapshot_active, snapshot_branch,
  snapshot_captured, snapshot_physical, take_physical,
}
use state_fork.Backends.Container.{container, core_snapshot}
use state_fork.Prelude.{Option, arith, eq_refl, some, subst, sym, true, ℕ, ◌-◌, ◌<>◌, ◌∙◌, ◌≢◌}
use state_fork.Exec.{modify}
use state_fork.Dict.{get}
use state_fork.Dict.Laws.{get-put}
use state_fork.Manager.Branches.{register_snapshot_resource}
use state_fork.Prelude.{String, none, refl, ◌≡◌}
use state_fork.Exec.{ok}
use state_fork.Manager.State.{Manager}
use state_fork.Exec.Ensures.{
  Ensures-weaken, Ensures-gets, Ensures-if, Ensures, Ensures-bind, Ensures-then, Ensures-pure,
  Ensures-modify,
}
use state_fork.Backends.Platform.{Platform}
use state_fork.Backends.Host.{Host, read, check_call}
use state_fork.Backends.Container.{Container, image_name, commit_args, commit}
use state_fork.Backends.Container.Engine.{Engine, IsEngine}
use state_fork.Backends.Host.Calls.{
  Ensures-read, Ensures-check_call, Ensures-config, Ensures-get_branch_state,
}
use state_fork.Backends.Container.Stored.{Stored, link-Physical, put_self-Physical}

module _ {W S : Type 0} (g : Engine W S) (p : Platform W) (c : Container) (l : IsEngine g p c)
    (kept : Option S) where
  -- The container holds what the snapshot is to keep.
  pub record Before (m : Manager (Host Container W)) : Type 0 where
    pub config : m.extra.config ≡ c
    pub live : g.live m.extra.world ≡ kept

  -- An id was drawn for it.
  record Ready (id : String) (m : Manager (Host Container W)) : Type 0 where
    pub config : m.extra.config ≡ c
    pub live : g.live m.extra.world ≡ kept
    pub issued : g.issued m.extra.world id ≡ true
    pub hex : (w : W) → "v" <> (p.uuid_hex w).0 ≢ id

  -- The image holds it.
  pub record Imaged (id : String) (m : Manager (Host Container W)) : Type 0 where
    pub config : m.extra.config ≡ c
    pub held : g.image m.extra.world (image_name c id) ≡ kept
    pub issued : g.issued m.extra.world id ≡ true
    pub hex : (w : W) → "v" <> (p.uuid_hex w).0 ≢ id

  pub record Registered (id : String) (m : Manager (Host Container W)) : Type 0 where
    pub imaged : Imaged id m
    pub registered : get m.snapshots id ≡ some (image_name c id)

  abbrev Captured : Option String × ℕ → Manager (Host Container W) → Type 0
  Captured r m = (id : String) → r.0 ≡ some id → Registered id m

  commit-Ensures : Ensures Before (commit p c) Captured
  unfolding commit register_snapshot_resource
  commit-Ensures =
      Ensures-bind Ready (read p.uuid8) _
        (Ensures-read p.uuid8 λ m b. record {
          config = b.config;
          live = l.uuid8_live m.extra.world ∙ b.live;
          issued = l.uuid8_issued m.extra.world;
          hex = λ w. l.uuid8_hex m.extra.world w;
        })
        λ id.
          Ensures-bind (λ start. Ready id) (read p.time) _
            (Ensures-read p.time λ m b. record {
              config = b.config;
              live = l.time_live m.extra.world ∙ b.live;
              issued = (l.time_keeps m.extra.world).issued id b.issued;
              hex = b.hex;
            })
            λ start.
              Ensures-then (Imaged id) (check_call p (commit_args c (image_name c id))) _
                (Ensures-check_call p (commit_args c (image_name c id)) λ m b done e zero. record {
                  config = b.config;
                  held = l.commit_done (image_name c id) m.extra.world done e zero ∙ b.live;
                  issued = l.commit_issued (image_name c id) id m.extra.world b.issued;
                  hex = b.hex;
                })
                (Ensures-bind (λ stop. Imaged id) (read p.time) _
                  (Ensures-read p.time λ m b. record {
                    config = b.config;
                    held = (l.time_keeps m.extra.world).images (image_name c id) ∙ b.held;
                    issued = (l.time_keeps m.extra.world).issued id b.issued;
                    hex = b.hex;
                  })
                  λ stop.
                    Ensures-then (Registered id)
                      (modify (register_snapshot_resource id (image_name c id))) _
                      (Ensures-modify _ λ m b. record {
                        imaged = record {
                          config = b.config;
                          held = b.held;
                          issued = b.issued;
                          hex = b.hex;
                        };
                        registered = rw get-put (rw eq_refl refl);
                      })
                      (Ensures-pure (some id, stop - start)
                        λ m b other e. subst (λ i. Registered i m) (ground (arith, e)) b))

  core_snapshot-Ensures : (branch : String) → Ensures Before (core_snapshot p branch) Captured
  unfolding core_snapshot
  core_snapshot-Ensures branch = Ensures-config c (commit p) (λ m b. b.config) commit-Ensures

  -- What a snapshot that returns an id leaves.
  abbrev pub Taken : Option String → Manager (Host Container W) → Type 0
  Taken r m =
      (id : String) → r ≡ some id → Stored g c id kept m × ((w : W) → "v" <> (p.uuid_hex w).0 ≢ id)

  commit_snapshot-Stored :
      (branch id : String) (parent : Option String) (m : Manager (Host Container W))
      → Registered id m
      → Stored g c id kept (commit_snapshot (container p) branch (physical_node id parent) true m)
  unfolding commit_snapshot container record_snapshot_node update_branch
  commit_snapshot-Stored branch id parent m b = record {
    config = b.imaged.config;
    registered = b.registered;
    recorded =
        unfold physical_node in
        link-Physical parent id _ id (put_self-Physical m.snapshot_graph id parent);
    held = b.imaged.held;
    issued = b.imaged.issued;
  }

  note-Registered :
      (operation target : String) (elapsed : ℕ) (branch id : String)
      (m : Manager (Host Container W))
      → Registered id m
      → Registered id (note operation target elapsed branch m)
  unfolding note
  note-Registered operation target elapsed branch id m b = record {
    imaged = record {
      config = b.imaged.config;
      held = b.imaged.held;
      issued = b.imaged.issued;
      hex = b.imaged.hex;
    };
    registered = b.registered;
  }

  snapshot_captured-Ensures :
      (branch : String) (parent : Option String) (r : Option String × ℕ)
      → Ensures (Captured r) (snapshot_captured (container p) branch parent r) Taken
  unfolding snapshot_captured
  snapshot_captured-Ensures branch parent (none, elapsed) =
      Ensures-pure none λ m b id e. absurd (ground arith)
  snapshot_captured-Ensures branch parent (some id, elapsed) =
      Ensures-then (Registered id) (modify (note "snapshot" id elapsed branch)) _
        (Ensures-modify _ λ m b. note-Registered "snapshot" id elapsed branch id m (b id refl))
        (Ensures-then (λ m. Stored g c id kept m × ((w : W) → "v" <> (p.uuid_hex w).0 ≢ id))
          (modify (commit_snapshot (container p) branch (physical_node id parent) true)) _
          (Ensures-modify _ λ m b. (commit_snapshot-Stored branch id parent m b, b.imaged.hex))
          (Ensures-pure (some id) λ m b other e.
            subst (λ i. Stored g c i kept m × ((w : W) → "v" <> (p.uuid_hex w).0 ≢ i))
              (ground (arith, e)) b))

  snapshot_physical-Ensures :
      (branch : String) (parent : Option String)
      → Ensures Before (snapshot_physical (container p) branch parent) Taken
  unfolding snapshot_physical container
  snapshot_physical-Ensures branch parent =
      Ensures-bind Captured _ _ (core_snapshot-Ensures branch)
        λ r. snapshot_captured-Ensures branch parent r

  -- With the policy `always_true`, a snapshot is physical.
  pub record Physically (m : Manager (Host Container W)) : Type 0 where
    pub before : Before m
    pub decider : m.decider ≡ always_true

  consult-always_true :
      (d : Decider) (elapsed : ℕ) (m : Manager (Host Container W))
      → d ≡ always_true
      → consult (container p) d elapsed m ≡ (ok true, m)
  unfolding consult decide
  consult-always_true d elapsed m e =
      subst (λ d. consult (container p) d elapsed m ≡ (ok true, m)) (sym e) refl

  take_physical-Ensures :
      (elapsed : ℕ)
      → Ensures Physically
          (take_physical (container p) false elapsed)
          (λ v m. (v ≡ true) × Before m)
  unfolding take_physical
  take_physical-Ensures elapsed = record {
    at = λ m b v e.
        let same = consult-always_true m.decider elapsed m b.decider in
        (cc (same, e), subst (λ r. Before r.1) (sym same) b.before);
  }

  snapshot_active-Ensures :
      (branch : String) (state : BranchState)
      → Ensures Physically (snapshot_active (container p) branch false state) Taken
  unfolding snapshot_active
  snapshot_active-Ensures branch state =
      Ensures-bind (λ v m. (v ≡ true) × Before m) _ _
        (take_physical-Ensures state.cumulative_exec_time)
        λ physical.
          Ensures-if physical _ _
            (λ yes.
              Ensures-weaken _ (snapshot_physical-Ensures branch state.last_snapshot_id) λ m b. b.1)
            (λ no. record { at = λ m b. absurd (ground (arith, b.0)) })

  snapshot_branch-Ensures :
      (branch : String) → Ensures Physically (snapshot_branch (container p) branch false) Taken
  unfolding snapshot_branch
  snapshot_branch-Ensures branch =
      Ensures-bind (λ state. Physically) _ _ (Ensures-get_branch_state branch)
        λ state.
          Ensures-if state.active _ _ (λ on. snapshot_active-Ensures branch state)
            (λ off. Ensures-pure none λ m b id e. absurd (ground arith))

  pub snapshot-Ensures : Ensures Physically (snapshot (container p)) Taken
  unfolding snapshot
  snapshot-Ensures =
      Ensures-bind (λ branch. Physically) _ _ (Ensures-gets _ λ m b. b)
        λ branch. snapshot_branch-Ensures branch
