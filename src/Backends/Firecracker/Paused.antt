-- ===== src/Backends/Firecracker/Paused.antt =====
-- The snapshots of a virtual machine that its monitor refuses to write.
use state_fork.Backends.Firecracker.Monitor.{
  At, IsMonitor, Refuses, Same, reach-Same, read-At, read-Same, status_of-Ensures,
}
use state_fork.Backends.Firecracker.{capture, change_state}
use state_fork.Backends.Firecracker.{create_snapshot}
use state_fork.Prelude.{
  Bool, Option, String, arith, eq_iff, false, none, refl, subst, sym, true, ℕ, ◌==◌, ◌∙◌, ◌≡◌,
}
use state_fork.Exec.{ok, ◌>>=◌}
use state_fork.Text.{path_join, strip}
use state_fork.Manager.State.{Manager}
use state_fork.Backends.Platform.{Platform, Processes}
use state_fork.Backends.Host.{Host}
use state_fork.Exec.Ensures.{Ensures, Ensures-bind, Ensures-if, Ensures-pure, Ensures-then}
use state_fork.Backends.Firecracker.{
  Fire, Machine, core_snapshot, create_args, set_state, snapshot_created, snapshot_paused, start,
  state_args,
}
use state_fork.Backends.Host.Calls.{Ensures-config}

module _ {W : Type 0} (p : Platform W) (s : Processes W) (v : Machine W) (c : Fire)
    (running : W → Bool) (l : IsMonitor p s v c running) (f : Refuses p s v c) where
  -- The snapshot failed, and the machine is paused.
  abbrev Stuck : Option String × ℕ → Manager (Host Fire W) → Type 0
  Stuck r m = (r.0 ≡ none) × (running m.extra.world ≡ false)

  snapshot_created-Stuck :
      (id : String) (start : ℕ) (code : String)
      → Ensures
          (λ m. (code ≡ "400") × At c running false m)
          (snapshot_created p s v id start code)
          Stuck
  unfolding snapshot_created
  snapshot_created-Stuck id start code =
      Ensures-if _ _ _ (λ refused. Ensures-pure (none, 0) λ m pre. (refl, pre.1.state))
        (λ (taken : (code == "400") ≡ false). record {
          at = λ m pre r e. absurd (ground (arith, taken, pre.0, eq_iff code "400"));
        })

  create_snapshot-Stuck :
      (id : String) (start : ℕ)
      → Ensures (At c running false) (create_snapshot p s v id start c) Stuck
  unfolding create_snapshot
  create_snapshot-Stuck id start =
      Ensures-bind (λ path. At c running false) _ _
        (read-At c running false (v.resolve (path_join (path_join c.checkpoint_dir id) "snap"))
          (l.resolves _))
        λ snapshot_path.
          Ensures-bind (λ path. At c running false) _ _
            (read-At c running false (v.resolve (path_join (path_join c.checkpoint_dir id) "mem"))
              (l.resolves _))
            λ mem_file_path.
              Ensures-bind (λ code m. (code ≡ "400") × At c running false m) _ _
                (status_of-Ensures p s v (create_args p s v c snapshot_path mem_file_path)
                  λ m done at e.
                    let (other, same, refused) =
                      f.refused snapshot_path mem_file_path m.extra.world in
                    let equal : other ≡ done = ground (arith, same, e) in
                    (
                      subst (λ d. strip d.stdout ≡ "400") equal refused,
                      record {
                        same = at.same;
                        state = l.creates snapshot_path mem_file_path m.extra.world ∙ at.state;
                      },
                    ))
                (snapshot_created-Stuck id start)

  snapshot_paused-Stuck :
      (id : String) (start : ℕ)
      → Ensures (At c running false) (snapshot_paused p s v id start true) Stuck
  unfolding snapshot_paused
  snapshot_paused-Stuck id start =
      Ensures-config c (create_snapshot p s v id start) (λ m at. at.same)
        (create_snapshot-Stuck id start)

  paused_state :
      Ensures
        (Same c)
        (set_state p s v "Paused")
        (λ obeyed m. (obeyed ≡ true) × At c running false m)
  unfolding set_state change_state
  paused_state =
      Ensures-config c (change_state p s v "Paused") (λ m same. same)
        (Ensures-bind (λ code m. ((code == "204") ≡ true) × At c running false m) _ _
          (status_of-Ensures p s v (state_args c "Paused") λ m done same e.
            let (other, ran, obeyed) = f.paused m.extra.world in
            let equal : other ≡ done = ground (arith, ran, e) in
            let written : strip done.stdout ≡ "204" =
              subst (λ d. strip d.stdout ≡ "204") equal obeyed in
            (
              (eq_iff (strip done.stdout) "204").1 written,
              record { same = same; state = l.pauses m.extra.world done e written },
            ))
          λ code. Ensures-pure (code == "204") λ m pre. pre)

  pausing-Stuck :
      (id : String) (start : ℕ)
      → Ensures (Same c) (set_state p s v "Paused" >>= snapshot_paused p s v id start) Stuck
  pausing-Stuck id start =
      Ensures-bind (λ obeyed m. (obeyed ≡ true) × At c running false m) _ _ (paused_state)
        λ obeyed. record {
          at = λ m pre.
              subst
                (λ o.
                  (r : Option String × ℕ)
                  → (snapshot_paused p s v id start o m).0 ≡ ok r
                  → Stuck r (snapshot_paused p s v id start o m).1)
                (sym pre.0) ((snapshot_paused-Stuck id start).at m pre.1);
        }

  capture-Stuck : (id : String) → Ensures (Same c) (capture p s v id c) Stuck
  unfolding capture
  capture-Stuck id =
      Ensures-then (Same c) _ _ (reach-Same c (p.makedirs (path_join c.checkpoint_dir id)))
        (Ensures-bind (λ start. Same c) _ _ (read-Same c p.time) (pausing-Stuck id))

  core_snapshot-Stuck : (branch : String) → Ensures (Same c) (core_snapshot p s v branch) Stuck
  unfolding core_snapshot
  core_snapshot-Stuck branch =
      Ensures-bind (λ id. Same c) _ _ (read-Same c p.uuid8)
        λ id. Ensures-config c (capture p s v id) (λ m same. same) (capture-Stuck id)

-- On a monitor that changes the state of the machine as documented, but pauses it and then refuses to
-- write a snapshot, a snapshot of the Firecracker backend that returns gives no id and leaves the
-- machine paused.
pub core_snapshot-paused :
    {W : Type 0} (p : Platform W) (s : Processes W) (v : Machine W) (c : Fire) (running : W → Bool)
    → IsMonitor p s v c running
    → Refuses p s v c
    → (branch : String) (m : Manager (Host Fire W)) (r : Option String × ℕ) → m.extra.config ≡ c
    → (core_snapshot p s v branch m).0 ≡ ok r
    → (r.0 ≡ none) × (running (core_snapshot p s v branch m).1.extra.world ≡ false)
core_snapshot-paused p s v c running l f branch m r same e =
    (core_snapshot-Stuck p s v c running l f branch).at m same r e
