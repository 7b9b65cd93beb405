-- ===== src/Waypoint/Attached.antt =====
-- The invariant of a forkable manager and the attachment to a Waypoint session.
use state_fork.Waypoint.Kept.{spawn-Keeps}
use state_fork.Prelude.{
  ℕ, String, Option, none, some, arith, eq_iff, inl, inr, Bool-cases, subst, sym,
}
use state_fork.Exec.{Result, ok, err}
use state_fork.Exec.Keeps.{Keeps, Keeps-bind, Keeps-pure, Keeps-raise, Keeps-attempt, Keeps-gets}
use state_fork.Benchmark.Sequence.{IsNumbered}
use state_fork.Dict.{has}
use state_fork.Dict.Laws.{has-put, get-put}
use state_fork.Manager.Snapshot.{physical_node}
use state_fork.Forkable.State.{is_live}
use state_fork.Forkable.Sound.{
  IsForkSound, record_snapshot_node-IsForkSound, set_branch_position-IsForkSound,
}
use state_fork.Forkable.Sound.Listing.{list_branches-IsForkSound}
use state_fork.Waypoint.State.{Tools, Waypoint, Listing, Ran, completed, expired}
use state_fork.Waypoint.Process.{
  assert_supports_forking, probe, probed, set_forking_supported, names_fork,
}
use state_fork.Waypoint.Hooks.{waypoint}
use state_fork.Waypoint.Hydrate.{sync_snapshot_tree, hydrate_listed}
use state_fork.Waypoint.Synced.{hydrate-Hydrated, Joined}
use state_fork.Waypoint.Kept.{spawn-Keeps}
use state_fork.Waypoint.Contract.{
  waypoint-Contract, core_snapshot-IsForkSound, query-Keeps, IsInner-IsForkSound,
}
use state_fork.Waypoint.Attach.{
  attach, attach_captured, supported, record_initial, stand_current, keep_record, minimal_fork,
  current_base,
}

module _ {W : Type 0} where
  record_initial-IsForkSound :
      (sid : String) (parent : Option String) (m : Waypoint W)
      → IsForkSound m
      → IsForkSound (record_initial sid parent m)
  unfolding record_initial
  record_initial-IsForkSound sid parent m s = elim (Bool-cases (has m.snapshot_graph sid)) [
    | inl e ↦ simp e s
    | inr e ↦ simp e (record_snapshot_node-IsForkSound (physical_node sid parent) m s)
  ]

  keep_record-IsForkSound :
      (sid : String) (m : Waypoint W) → IsForkSound m → IsForkSound (keep_record sid m)
  unfolding keep_record minimal_fork
  keep_record-IsForkSound sid m s = elim (Bool-cases (is_live m m.current_branch_id)) [
    | inl e ↦ simp e s
    | inr e ↦ simp e (record {
      base = record { main = s.base.main; current = s.base.current; numbered = s.base.numbered };
      live = λ id h. ground (
        arith,
        has-put m.extra.live_branches m.current_branch_id id (minimal_fork m.current_branch_id sid),
        eq_iff m.current_branch_id id,
        s.live id,
        s.base.current,
      );
      filed = λ id b h. ground (
        arith,
        get-put m.extra.live_branches m.current_branch_id id (minimal_fork m.current_branch_id sid),
        eq_iff m.current_branch_id id,
        s.filed id b,
      );
    })
  ]

  attach_captured-IsForkSound :
      (parent : Option String) (captured : Option String × ℕ)
      → Keeps IsForkSound (attach_captured {W = W} parent captured)
  unfolding attach_captured stand_current
  attach_captured-IsForkSound parent (none, elapsed) = Keeps-raise _
  attach_captured-IsForkSound parent (some sid, elapsed) = record {
    at = λ m s. keep_record-IsForkSound sid _ (
        set_branch_position-IsForkSound _ (some sid) _ (record_initial-IsForkSound sid parent m s));
  }

  supported-IsForkSound : (r : Result (Unit {0})) → Keeps IsForkSound (supported {W = W} r)
  unfolding supported
  supported-IsForkSound (ok u) = Keeps-pure tt
  supported-IsForkSound (err e) = record {
    at = λ m s. record {
      base = record { main = s.base.main; current = s.base.current; numbered = s.base.numbered };
      live = s.live;
      filed = s.filed;
    };
  }

  Joined-IsForkSound : {m m' : Waypoint W} → Joined m m' → IsForkSound m → IsForkSound m'
  Joined-IsForkSound j s = record {
    base = record {
      main = simp j.branches s.base.main;
      current = simp (j.branches, j.current) s.base.current;
      numbered = subst IsNumbered (sym j.stats) s.base.numbered;
    };
    live = λ id h. simp j.branches (s.live id (simp j.extra at h));
    filed = λ id b h. s.filed id b (simp j.extra at h);
  }

  hydrate_listed-IsForkSound : (o : Option Listing) → Keeps IsForkSound (hydrate_listed {W = W} o)
  unfolding hydrate_listed
  hydrate_listed-IsForkSound none = record { at = λ m s. s }
  hydrate_listed-IsForkSound (some listing) = record {
    at = λ m s. Joined-IsForkSound (hydrate-Hydrated _ m).joined s;
  }

module _ {W : Type 0} (t : Tools W) where
  set_forking_supported-IsForkSound :
      (m : Waypoint W) → IsForkSound m → IsForkSound (set_forking_supported t m)
  unfolding set_forking_supported
  set_forking_supported-IsForkSound m s = record {
    base = record { main = s.base.main; current = s.base.current; numbered = s.base.numbered };
    live = s.live;
    filed = s.filed;
  }

  probed-IsForkSound : (ran : Ran) → Keeps IsForkSound (probed t ran)
  unfolding probed
  probed-IsForkSound (expired stdout stderr) = Keeps-raise _
  probed-IsForkSound (completed c) = record {
    at = λ m s. elim (Bool-cases (names_fork t c.stdout)) [
      | inl e ↦ simp e (set_forking_supported-IsForkSound m s)
      | inr e ↦ simp e s
    ];
  }

  pub assert_supports_forking-IsForkSound : Keeps IsForkSound (assert_supports_forking t)
  unfolding assert_supports_forking probe
  assert_supports_forking-IsForkSound = record {
    at = λ m s. elim (Bool-cases m.extra.backend.forking_supported) [
      | inl e ↦ simp e s
      | inr e ↦ elim (Bool-cases (t.executable m.extra.backend.world)) [
        | inl x ↦
            simp (e, x)
              ((Keeps-bind _ _ (spawn-Keeps t IsInner-IsForkSound _ none) probed-IsForkSound).at m
                s)
        | inr x ↦ simp (e, x) s
      ]
    ];
  }

  sync_snapshot_tree-IsForkSound : Keeps IsForkSound (sync_snapshot_tree t)
  unfolding sync_snapshot_tree
  sync_snapshot_tree-IsForkSound =
      Keeps-bind _ _ (query-Keeps t IsInner-IsForkSound) hydrate_listed-IsForkSound

  -- Attaching to a session keeps the invariant of a forkable manager, whether it succeeds or raises
  -- and whatever the `waypoint` program answers: `main` and the current branch stay registered, and
  -- every live branch has a state and is filed under its own id.
  pub attach-IsForkSound : Keeps IsForkSound (attach t)
  unfolding attach
  attach-IsForkSound =
      Keeps-bind _ _ (Keeps-attempt _ assert_supports_forking-IsForkSound) λ outcome.
        Keeps-bind _ _ (supported-IsForkSound outcome) λ _.
          Keeps-bind _ _ sync_snapshot_tree-IsForkSound λ _.
            Keeps-bind _ _ (list_branches-IsForkSound (waypoint t) (waypoint-Contract t)) λ _.
              Keeps-bind _ _ (Keeps-gets current_base) λ parent.
                Keeps-bind _ _ (Keeps-gets (λ m. m.current_branch_id)) λ branch_id.
                  Keeps-bind _ _ (core_snapshot-IsForkSound t branch_id)
                    (attach_captured-IsForkSound parent)
