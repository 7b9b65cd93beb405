-- ===== src/Backends/Firecracker/Running.antt =====
-- The snapshots of a virtual machine that succeed.
use state_fork.Backends.Firecracker.Monitor.{
  At, Changed, IsMonitor, Same, reach-Same, read-Same, set_state-Changed, status_of-Ensures,
}
use state_fork.Backends.Firecracker.{capture}
use state_fork.Backends.Firecracker.{create_snapshot}
use state_fork.Prelude.{
  Bool, Option, String, arith, eq_refl, false, none, refl, some, subst, true, ℕ, ◌-◌, ◌∙◌, ◌≡◌,
}
use state_fork.Exec.{ok}
use state_fork.Dict.{get}
use state_fork.Dict.Laws.{get-put}
use state_fork.Text.{path_join}
use state_fork.Manager.State.{Manager}
use state_fork.Manager.Branches.{register_snapshot_resource}
use state_fork.Backends.Platform.{Platform, Processes}
use state_fork.Backends.Host.{Host}
use state_fork.Exec.Ensures.{
  Ensures, Ensures-bind, Ensures-if, Ensures-modify, Ensures-pure, Ensures-then, Ensures-weaken,
}
use state_fork.Backends.Firecracker.{
  Fire, Machine, core_snapshot, create_args, snapshot_created, snapshot_paused, snapshot_resumed,
  start,
}
use state_fork.Backends.Host.Calls.{Ensures-config, Ensures-read}

module _ {W : Type 0} (p : Platform W) (s : Processes W) (v : Machine W) (c : Fire)
    (running : W → Bool) (l : IsMonitor p s v c running) where
  -- A captured snapshot is registered, and the machine runs.
  abbrev Captured : Option String × ℕ → Manager (Host Fire W) → Type 0
  Captured r m =
      (id : String)
      → r.0 ≡ some id
      → (running m.extra.world ≡ true) × (get m.snapshots id ≡ some id)

  nothing-Captured : (m : Manager (Host Fire W)) → Captured (none, 0) m
  nothing-Captured m id e = absurd (ground (arith, e))

  snapshot_resumed-Captured :
      (id : String) (start : ℕ) (obeyed : Bool)
      → Ensures (Changed c running true obeyed) (snapshot_resumed p s v id start obeyed) Captured
  unfolding snapshot_resumed register_snapshot_resource
  snapshot_resumed-Captured id start false = Ensures-pure (none, 0) λ m changed. nothing-Captured m
  snapshot_resumed-Captured id start true =
      Ensures-bind (λ stop. At c running true) _ _
        (Ensures-read p.time λ m changed. record {
          same = changed.same;
          state = l.times m.extra.world ∙ changed.state refl;
        })
        λ stop.
          Ensures-then (λ m. (running m.extra.world ≡ true) × (get m.snapshots id ≡ some id)) _ _
            (Ensures-modify _ λ m at. (at.state, rw get-put (rw eq_refl refl)))
            (Ensures-pure (some id, stop - start)
              λ m done other e.
                subst (λ i. (running m.extra.world ≡ true) × (get m.snapshots i ≡ some i))
                  (ground (arith, e)) done)

  snapshot_created-Captured :
      (id : String) (start : ℕ) (code : String)
      → Ensures (Same c) (snapshot_created p s v id start code) Captured
  unfolding snapshot_created
  snapshot_created-Captured id start code =
      Ensures-if _ _ _ (λ refused. Ensures-pure (none, 0) λ m same. nothing-Captured m)
        (λ taken.
          Ensures-bind (Changed c running true) _ _
            (set_state-Changed p s v c running "Resumed" true l.resumes)
            (snapshot_resumed-Captured id start))

  create_snapshot-Captured :
      (id : String) (start : ℕ) → Ensures (Same c) (create_snapshot p s v id start c) Captured
  unfolding create_snapshot
  create_snapshot-Captured id start =
      Ensures-bind (λ path. Same c) _ _
        (read-Same c (v.resolve (path_join (path_join c.checkpoint_dir id) "snap")))
        λ snapshot_path.
          Ensures-bind (λ path. Same c) _ _
            (read-Same c (v.resolve (path_join (path_join c.checkpoint_dir id) "mem")))
            λ mem_file_path.
              Ensures-bind (λ code. Same c) _ _
                (status_of-Ensures p s v (create_args p s v c snapshot_path mem_file_path)
                  λ m done same e. same)
                (snapshot_created-Captured id start)

  snapshot_paused-Captured :
      (id : String) (start : ℕ) (obeyed : Bool)
      → Ensures (Changed c running false obeyed) (snapshot_paused p s v id start obeyed) Captured
  unfolding snapshot_paused
  snapshot_paused-Captured id start false = Ensures-pure (none, 0) λ m changed. nothing-Captured m
  snapshot_paused-Captured id start true =
      Ensures-config c (create_snapshot p s v id start) (λ m changed. changed.same)
        (Ensures-weaken _ (create_snapshot-Captured id start) λ m changed. changed.same)

  capture-Captured : (id : String) → Ensures (Same c) (capture p s v id c) Captured
  unfolding capture
  capture-Captured id =
      Ensures-then (Same c) _ _ (reach-Same c (p.makedirs (path_join c.checkpoint_dir id))) (
        Ensures-bind (λ start. Same c) _ _ (read-Same c p.time)
          λ start.
            Ensures-bind (Changed c running false) _ _
              (set_state-Changed p s v c running "Paused" false l.pauses)
              (snapshot_paused-Captured id start))

  core_snapshot-Captured :
      (branch : String) → Ensures (Same c) (core_snapshot p s v branch) Captured
  unfolding core_snapshot
  core_snapshot-Captured branch =
      Ensures-bind (λ id. Same c) _ _ (read-Same c p.uuid8)
        λ id. Ensures-config c (capture p s v id) (λ m same. same) (capture-Captured id)

-- On a monitor that changes the state of the machine as documented, a snapshot of the Firecracker
-- backend that returns an id registers it and leaves the machine running.
pub core_snapshot-running :
    {W : Type 0} (p : Platform W) (s : Processes W) (v : Machine W) (c : Fire) (running : W → Bool)
    → IsMonitor p s v c running
    → (branch : String) (m : Manager (Host Fire W)) (id : String) (elapsed : ℕ) → m.extra.config ≡ c
    → (core_snapshot p s v branch m).0 ≡ ok (some id, elapsed)
    → (running (core_snapshot p s v branch m).1.extra.world ≡ true)
      × (get (core_snapshot p s v branch m).1.snapshots id ≡ some id)
core_snapshot-running p s v c running l branch m id elapsed same e =
    (core_snapshot-Captured p s v c running l branch).at m same (some id, elapsed) e id refl
