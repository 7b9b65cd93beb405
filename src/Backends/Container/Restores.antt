-- ===== src/Backends/Container/Restores.antt =====
-- What a restore of a container brings back.
use state_fork.Prelude.{
  nonempty, Bool, Option, String, [], arith, false, none, refl, some, subst, sym, true, ℕ, ◌-◌, ◌∙◌,
  ◌≡◌,
}
use state_fork.Exec.{modify, ok, ◌>>=◌}
use state_fork.Dict.{Dict, get}
use state_fork.Manager.State.{Manager, SnapshotNode}
use state_fork.Manager.Branches.{set_branch_position, snapshot_resource}
use state_fork.Manager.Snapshot.{note}
use state_fork.Manager.Ancestry.{arrived, resolve, walk}
use state_fork.Manager.Restore.{
  replay, restore, restore_entered, restore_found, restore_from, restore_walked,
}
use state_fork.Manager.Sound.{extra-set_branch_position}
use state_fork.Exec.Ensures.{
  Ensures, Ensures-bind, Ensures-then, Ensures-if, Ensures-pure, Ensures-gets, Ensures-modify,
}
use state_fork.Backends.Platform.{Platform}
use state_fork.Backends.Host.{Host, read, config, call, check_call}
use state_fork.Backends.Host.Calls.{
  Ensures-read, Ensures-check_call, Ensures-call, Ensures-config, Ensures-get_branch_state,
}
use state_fork.Backends.Container.{
  Container, image_name, remove_args, run_args, core_restore, relaunch, restore_image, container,
}
use state_fork.Backends.Container.Engine.{Engine, IsEngine}
use state_fork.Backends.Container.Stored.{Stored}

-- The walk from a physical snapshot ends there.
resolve-physical :
    (graph : Dict SnapshotNode) (node : SnapshotNode)
    → node.is_virtual ≡ false
    → resolve graph node ≡ some (arrived node [])
unfolding resolve walk
resolve-physical graph node e = rw e refl

module _ {W S : Type 0} (g : Engine W S) (p : Platform W) (c : Container) (l : IsEngine g p c)
    (id : String) (kept : Option S) where
  -- The image of the snapshot is there.
  record Held (m : Manager (Host Container W)) : Type 0 where
    config : m.extra.config ≡ c
    held : g.image m.extra.world (image_name c id) ≡ kept

  abbrev Live : Manager (Host Container W) → Type 0
  Live m = g.live m.extra.world ≡ kept

  -- A restore that went through brought it back.
  abbrev Back : Bool → Manager (Host Container W) → Type 0
  Back done m = done ≡ true → Live m

  relaunch-Ensures : Ensures Held (relaunch p (image_name c id) c) (λ r. Back r.0)
  unfolding relaunch
  relaunch-Ensures =
      Ensures-then Held (call p (remove_args c)) _
        (Ensures-call p (remove_args c) λ m b. record {
          config = b.config;
          held = (l.remove_keeps m.extra.world).images (image_name c id) ∙ b.held;
        })
        (Ensures-bind (λ start. Held) (read p.time) _
          (Ensures-read p.time λ m b. record {
            config = b.config;
            held = (l.time_keeps m.extra.world).images (image_name c id) ∙ b.held;
          })
          λ start.
            Ensures-then Live (check_call p (run_args c (image_name c id))) _
              (Ensures-check_call p (run_args c (image_name c id))
                λ m b done e zero. l.run_done (image_name c id) m.extra.world done e zero ∙ b.held)
              (Ensures-bind (λ stop. Live) (read p.time) _
                (Ensures-read p.time λ m b. l.time_live m.extra.world ∙ b)
                λ stop. Ensures-pure (true, stop - start) λ m b done. b))

  restore_image-Ensures :
      (image : Option String)
      → Ensures
          (λ m. (image ≡ some (image_name c id)) × Held m)
          (restore_image p image)
          (λ r. Back r.0)
  unfolding restore_image
  restore_image-Ensures none = Ensures-pure (false, 0) λ m b done. absurd (ground arith)
  restore_image-Ensures (some image) =
      Ensures-if _ _ _
        (λ (e : nonempty image ≡ true). record {
          at = λ m b v.
              let same : image_name c id ≡ image = ground (arith, b.0) in
              subst
                (λ i.
                  ((config >>= relaunch p i) m).0 ≡ ok v → Back v.0 ((config >>= relaunch p i) m).1)
                same
                ((Ensures-config c (relaunch p (image_name c id)) (λ m b. b.config)
                    relaunch-Ensures).at
                  m b.1 v);
        })
        (λ (e : nonempty image ≡ false). Ensures-pure (false, 0) λ m b done. absurd (ground arith))

  core_restore-Ensures :
      (sid branch : String)
      → Ensures (λ m. (sid ≡ id) × Stored g c id kept m) (core_restore p sid branch) (λ r. Back r.0)
  unfolding core_restore snapshot_resource
  core_restore-Ensures sid branch =
      Ensures-bind (λ image m. (image ≡ some (image_name c id)) × Held m) _ _
        (Ensures-gets _ λ m b. (
          subst (λ i. get m.snapshots i ≡ some (image_name c id)) (sym b.0) b.1.registered,
          record { config = b.1.config; held = b.1.held },
        ))
        λ image. restore_image-Ensures image

  restore_entered-Ensures :
      (sid : String) (ancestor : SnapshotNode) (r : Bool × ℕ)
      → Ensures (Back r.0) (restore_entered (container p) sid ancestor [] r) Back
  unfolding restore_entered
  restore_entered-Ensures sid ancestor (false, elapsed) =
      Ensures-pure false λ m b done. absurd (ground arith)
  restore_entered-Ensures sid ancestor (true, elapsed) =
      Ensures-bind (λ active. Live) _ _ (Ensures-gets _ λ m b. b refl)
        λ active.
          Ensures-then Live (modify (note "restore" ancestor.snapshot_id elapsed active)) _
            (Ensures-modify _ λ m b. unfold note in b)
            (Ensures-then Live (replay (container p) []) _
              (unfold replay in Ensures-pure tt λ m b. b)
              (Ensures-then Live (modify (set_branch_position active (some sid))) _
                (Ensures-modify _ λ m b.
                  subst (λ (e : Host Container W). g.live e.world ≡ kept)
                    (sym (extra-set_branch_position active (some sid) m)) b)
                (Ensures-pure true λ m b done. b)))

  restore_from-Ensures :
      (sid departing : String) (ancestor : SnapshotNode)
      → Ensures
          (λ m. (ancestor.snapshot_id ≡ id) × Stored g c id kept m)
          (restore_from (container p) sid departing ancestor [])
          Back
  unfolding restore_from container
  restore_from-Ensures sid departing ancestor =
      Ensures-bind (λ r. Back r.0) _ _ (core_restore-Ensures ancestor.snapshot_id departing)
        λ r. restore_entered-Ensures sid ancestor r

  -- The node that a restore of the snapshot finds.
  record Found (node : SnapshotNode) (m : Manager (Host Container W)) : Type 0 where
    physical : node.is_virtual ≡ false
    own : node.snapshot_id ≡ id
    stored : Stored g c id kept m

  restore_node-Ensures :
      (sid departing : String) (node : SnapshotNode) (graph : Dict SnapshotNode)
      → Ensures (Found node) (restore_walked (container p) sid departing (resolve graph node)) Back
  unfolding restore_walked
  restore_node-Ensures sid departing node graph = record {
    at = λ m b v.
        subst
          (λ w.
            (restore_walked (container p) sid departing w m).0 ≡ ok v
            → Back v (restore_walked (container p) sid departing w m).1)
          (sym (resolve-physical graph node b.physical))
          ((restore_from-Ensures sid departing node).at m (b.own, b.stored) v);
  }

  restore_found-Ensures :
      (sid departing : String) (found : Option SnapshotNode)
      → Ensures
          (λ m. ((node : SnapshotNode) → found ≡ some node → Found node m))
          (restore_found (container p) sid departing found)
          Back
  unfolding restore_found
  restore_found-Ensures sid departing none = Ensures-pure false λ m b done. absurd (ground arith)
  restore_found-Ensures sid departing (some node) =
      Ensures-bind (λ graph. Found node) _ _ (Ensures-gets _ λ m b. b node refl)
        λ graph. restore_node-Ensures sid departing node graph

  stored-Found :
      (m : Manager (Host Container W))
      → Stored g c id kept m
      → (node : SnapshotNode) → get m.snapshot_graph id ≡ some node
      → Found node m
  stored-Found m s node e =
      let same : s.recorded.node ≡ node = cc (s.recorded.found, e) in
      record {
        physical = subst (λ n. n.is_virtual ≡ false) same s.recorded.physical;
        own = subst (λ n. n.snapshot_id ≡ id) same s.recorded.own;
        stored = s;
      }

  pub restore-Ensures : Ensures (Stored g c id kept) (restore (container p) id) Back
  unfolding restore
  restore-Ensures =
      Ensures-bind (λ current. Stored g c id kept) _ _ (Ensures-gets _ λ m b. b)
        λ current.
          Ensures-bind (λ departing. Stored g c id kept) _ _ (Ensures-get_branch_state current)
            λ departing.
              Ensures-bind (λ found m. ((node : SnapshotNode) → found ≡ some node → Found node m)) _
                _ (Ensures-gets _ λ m b. stored-Found m b)
                λ found. restore_found-Ensures id departing.branch_id found
