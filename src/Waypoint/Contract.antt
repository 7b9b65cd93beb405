-- ===== src/Waypoint/Contract.antt =====
-- The Waypoint backend and the contract of a forkable backend.
use state_fork.Prelude.{
  ℕ, ◌-◌, String, Bool, true, false, Option, some, none, List, [], ◌∷◌, inl, inr, Bool-cases,
  nonempty,
}
use state_fork.Exec.{pure, ◌>>=◌}
use state_fork.Exec.Keeps.{
  Keeps, Keeps-bind, Keeps-then, Keeps-pure, Keeps-attempt, Keeps-gets, Keeps-modify,
}
use state_fork.Manager.State.{Command}
use state_fork.Manager.Branches.{register_snapshot_resource}
use state_fork.Forkable.Sound.{IsForkSound, Untouched, Contract}
use state_fork.Forkable.Sound.Listing.{list_refreshed-IsForkSound}
use state_fork.Forkable.Behaviour.Discard.{Untouched-refl}
use state_fork.Waypoint.State.{Tools, Session, Waypoint, ForkDetails}
use state_fork.Backends.Platform.{Completed}
use state_fork.Waypoint.Process.{on_listing_error, run_checked}
use state_fork.Exec.Recover.{on_process_error}
use state_fork.Waypoint.Hooks.{
  fork_args, succeeds, cleanup_forced, core_cleanup, core_exec, core_copy, core_discard_branch,
  fork_ran, materialize, core_fork, waypoint,
}
use state_fork.Waypoint.Snapshots.{
  session_id, try_run, list_json, forks_of, snapshot_args, snapshot_ran, snapshot_waypoint, decoded,
  query, core_list_branches, refresh, core_snapshot, core_park_branch,
}
use state_fork.Waypoint.Kept.{
  IsInner, with_session, library-Keeps, run_waypoint-Keeps, run_checked-Keeps,
}
use state_fork.Exec.Recover.Rules.{recover-Keeps}

module _ {W : Type 0} (t : Tools W) {P : Waypoint W → Type 0} (i : IsInner P) where
  session_id-Keeps : Keeps P (session_id t)
  unfolding session_id
  session_id-Keeps = record { at = λ m p. p }

  try_run-Keeps : (args : List String) → Keeps P (try_run t args)
  unfolding try_run
  try_run-Keeps args =
      recover-Keeps (on_process_error none) (run_checked t args >>= λ c. pure (some c)) (
        Keeps-bind (run_checked t args) (λ c. pure (some c)) (run_checked-Keeps t i args)
          λ c. Keeps-pure (some c))

  snapshot_ran-Keeps :
      (id : String) (start : ℕ) (ran : Option Completed) → Keeps P (snapshot_ran t id start ran)
  unfolding snapshot_ran
  snapshot_ran-Keeps id start none = Keeps-pure _
  snapshot_ran-Keeps id start (some c) = Keeps-bind _ _ (library-Keeps t i t.time) λ stop.
      Keeps-then _ _ (Keeps-modify _ (i.resource id id)) (Keeps-pure (some id, stop - start))

  pub snapshot_waypoint-Keeps : (b : String) (park : Bool) → Keeps P (snapshot_waypoint t b park)
  unfolding snapshot_waypoint
  snapshot_waypoint-Keeps b park = Keeps-bind _ _ (library-Keeps t i t.uuid8) λ id.
      Keeps-bind _ _ session_id-Keeps λ session. Keeps-bind _ _ (library-Keeps t i t.time) λ start.
        Keeps-bind _ _ (try_run-Keeps (snapshot_args t session b id park))
          λ ran. snapshot_ran-Keeps id start ran

  succeeds-Keeps : (args : List String) → Keeps P (succeeds t args)
  unfolding succeeds
  succeeds-Keeps args =
      recover-Keeps (on_process_error false) (run_checked t args >>= λ c. pure true) (
        Keeps-bind (run_checked t args) (λ c. pure true) (run_checked-Keeps t i args)
          λ c. Keeps-pure true)

  decoded-Keeps : (c : Completed) → Keeps P (decoded t c)
  unfolding decoded
  decoded-Keeps c = record { at = λ m p. p }

  list_json-Keeps : (session : String) → Keeps P (list_json t session)
  unfolding list_json
  list_json-Keeps session =
      Keeps-bind _ _ (run_checked-Keeps t i ("list" ∷ session ∷ "--json" ∷ [])) decoded-Keeps

  pub query-Keeps : Keeps P (query t)
  unfolding query
  query-Keeps = Keeps-bind _ _ session_id-Keeps λ session.
      recover-Keeps (on_listing_error none) (list_json t session >>= λ listing. pure (some listing))
        (Keeps-bind (list_json t session) (λ listing. pure (some listing)) (list_json-Keeps session)
          λ listing. Keeps-pure (some listing))

  core_list_branches-Keeps : Keeps P (core_list_branches t)
  unfolding core_list_branches
  core_list_branches-Keeps = Keeps-bind _ _ query-Keeps λ listing. Keeps-gets (forks_of t listing)

  cleanup_forced-Keeps : (session : String) (b : Bool) → Keeps P (cleanup_forced t session b)
  unfolding cleanup_forced
  cleanup_forced-Keeps session true = Keeps-pure true
  cleanup_forced-Keeps session false = succeeds-Keeps _

  core_cleanup-Keeps : Keeps P (core_cleanup t)
  unfolding core_cleanup
  core_cleanup-Keeps = Keeps-bind _ _ session_id-Keeps λ session.
      Keeps-bind _ _ (succeeds-Keeps _) λ first.
        Keeps-bind _ _ (cleanup_forced-Keeps session first) λ cleaned. Keeps-pure (some cleaned)

  core_exec-Keeps : (c : Command) (s : Option ℕ) (id : String) → Keeps P (core_exec t c s id)
  unfolding core_exec
  core_exec-Keeps c s id = record {
    at = λ m p. elim (Bool-cases (nonempty m.extra.backend.session_id)) [
      | inl e ↦ simp e ((Keeps-attempt _ (run_waypoint-Keeps t i _ s)).at m p)
      | inr e ↦ simp e p
    ];
  }

  core_copy-Keeps : (id host env : String) (into : Bool) → Keeps P (core_copy t id host env into)
  unfolding core_copy
  core_copy-Keeps id host env into = record {
    at = λ m p. elim (Bool-cases (nonempty m.extra.backend.session_id)) [
      | inl e ↦ simp e ((Keeps-attempt _ (run_checked-Keeps t i _)).at m p)
      | inr e ↦ simp e p
    ];
  }

  core_discard_branch-Keeps : (id : String) → Keeps P (core_discard_branch t id)
  unfolding core_discard_branch
  core_discard_branch-Keeps id = Keeps-bind _ _ session_id-Keeps λ session. succeeds-Keeps _

  fork_ran-Keeps :
      (id : String) (start : ℕ) (ran : Option Completed) → Keeps P (fork_ran t id start ran)
  unfolding fork_ran
  fork_ran-Keeps id start none = Keeps-pure _
  fork_ran-Keeps id start (some c) = Keeps-bind _ _ (library-Keeps t i t.time) λ stop. Keeps-pure _

  materialize-Keeps : (id : String) (o : Option String) → Keeps P (materialize t id o)
  unfolding materialize
  materialize-Keeps id o = Keeps-bind _ _ session_id-Keeps λ session.
      Keeps-bind _ _ (library-Keeps t i t.time) λ start.
        Keeps-bind _ _ (try_run-Keeps (fork_args t session id o)) λ ran. fork_ran-Keeps id start ran

  core_fork-Keeps : (id : String) (os : List (Option String)) → Keeps P (core_fork t id os)
  unfolding core_fork
  core_fork-Keeps id [] = Keeps-pure _
  core_fork-Keeps id (o ∷ os) =
      Keeps-bind _ _ (materialize-Keeps id o)
        λ outcome. Keeps-bind _ _ (core_fork-Keeps id os) λ results. Keeps-pure _

module _ {W : Type 0} where
  pub IsInner-IsForkSound : IsInner (IsForkSound {D = ForkDetails} {B = Session W})
  unfolding with_session register_snapshot_resource
  IsInner-IsForkSound = record {
    session = λ b m s. record {
      base = record { main = s.base.main; current = s.base.current; numbered = s.base.numbered };
      live = s.live;
      filed = s.filed;
    };
    resource = λ k v m s. record {
      base = record { main = s.base.main; current = s.base.current; numbered = s.base.numbered };
      live = s.live;
      filed = s.filed;
    };
  }

  IsInner-Untouched : (m : Waypoint W) → IsInner (Untouched m)
  unfolding with_session register_snapshot_resource
  IsInner-Untouched m = record {
    session = λ b m' u. record {
      branches = u.branches;
      current = u.current;
      stats = u.stats;
      graph = u.graph;
      live_branches = u.live_branches;
    };
    resource = λ k v m' u. record {
      branches = u.branches;
      current = u.current;
      stats = u.stats;
      graph = u.graph;
      live_branches = u.live_branches;
    };
  }

module _ {W : Type 0} (t : Tools W) where
  refresh-IsForkSound : (id : Option String) → Keeps IsForkSound (refresh t id)
  unfolding refresh
  refresh-IsForkSound none = Keeps-pure tt
  refresh-IsForkSound (some id) =
      Keeps-bind _ _ (core_list_branches-Keeps t IsInner-IsForkSound)
        λ listing. Keeps-then _ _ (list_refreshed-IsForkSound listing) (Keeps-pure tt)

  pub core_snapshot-IsForkSound : (id : String) → Keeps IsForkSound (core_snapshot t id)
  unfolding core_snapshot
  core_snapshot-IsForkSound id =
      Keeps-bind _ _ (snapshot_waypoint-Keeps t IsInner-IsForkSound id false)
        λ captured. Keeps-then _ _ (refresh-IsForkSound captured.0) (Keeps-pure captured)

  -- Whatever the `waypoint` program answers, the Waypoint backend keeps the contract of a forkable
  -- backend: fork, discard, park and list leave the controller's branch states, current branch, log,
  -- graph and live branches alone, and the other hooks, of which a snapshot reads the live branches
  -- again, keep the invariant.
  pub waypoint-Contract : Contract (waypoint t)
  unfolding waypoint core_park_branch
  waypoint-Contract = record {
    core_fork = λ id os m. (core_fork-Keeps t (IsInner-Untouched m) id os).at m (Untouched-refl m);
    core_discard_branch =
        λ id m. (core_discard_branch-Keeps t (IsInner-Untouched m) id).at m (Untouched-refl m);
    core_park_branch =
        λ id m. (snapshot_waypoint-Keeps t (IsInner-Untouched m) id true).at m (Untouched-refl m);
    core_list_branches =
        λ m. (core_list_branches-Keeps t (IsInner-Untouched m)).at m (Untouched-refl m);
    core_snapshot = core_snapshot-IsForkSound;
    core_cleanup = core_cleanup-Keeps t IsInner-IsForkSound;
    core_exec = core_exec-Keeps t IsInner-IsForkSound;
    core_copy = core_copy-Keeps t IsInner-IsForkSound;
  }
