-- ===== src/Manager/Replay/History.antt =====
-- Any history of a sequential manager.
use state_fork.Prelude.{
  subst, ℕ, ◌≡◌, refl, ap, sym, ◌∙◌, String, Bool, true, false, Option, none, some, List, [], ◌∷◌,
}
use state_fork.Exec.{Result, ok, err}
use state_fork.Manager.State.{Manager, Command, Hooks}
use state_fork.Manager.Snapshot.{snapshot}
use state_fork.Manager.Exec.{exec_command}
use state_fork.Manager.Ancestry.Resolution.{KeysMatch}
use state_fork.Manager.Restore.{restore}
use state_fork.Manager.Replay.{Outside, IsFaithful, run_all, run_all-append, sequential}
use state_fork.Manager.Replay.Executed.{Executed, exec_command-Executed}
use state_fork.Manager.Replay.Graph.{Denotes-unique}
use state_fork.Manager.Replay.Tracks.{Tracks, Moved, Moved-refl, Moved-trans}
use state_fork.Manager.Replay.Snapshots.{Captured, Snapped, snapshot-Snapped}
use state_fork.Manager.Replay.Restores.{
  Restored, Outcome, restore-Outcome, Executed-persists, Executed-filed,
}

-- The calls of a client that change the environment or its position. Copies into the environment
-- are not among them: the log does not tell of them.
pub data Call : Type 0 where
  executes : Command → Option ℕ → Call
  snapshots : Call
  restores : String → Call

pub step : {E : Type 0} → Hooks E → Call → Manager E → Manager E
step h (executes c t) m = (exec_command h c t m).1
step h snapshots m = (snapshot h m).1
step h (restores id) m = (restore h id m).1

unfoldable pub run : {E : Type 0} → Hooks E → List Call → Manager E → Manager E
unfolding step
run h [] m = m
run h (c ∷ cs) m = run h cs (step h c m)

module _ {E S : Type 0} (o : Outside E S) (f : IsFaithful o) where
  Executed-Moved :
      (m m' : Manager E) (t : Tracks o m) (cs : List Command)
      → Executed o m t.state cs m'
      → Moved o m m'
  Executed-Moved m m' t cs x = record {
    tracks = record {
      state = x.after;
      at = x.at;
      active = x.active;
      base = t.base;
      last = x.last ∙ t.last;
      start = t.start;
      stands = Executed-persists o t.filed x t.base t.start t.stands;
      live =
          x.ran
          ∙ ap (run_all o cs) t.live
          ∙ sym (
              ap (λ l. run_all o l t.start) x.log
              ∙ run_all-append o t.state.command_log cs t.start);
      keys = subst KeysMatch (sym x.graph) t.keys;
      filed = Executed-filed o t.filed x;
    };
    persists = Executed-persists o t.filed x;
  }

  snapshot-Moved : (m m' : Manager E) (r : Result (Option String)) → Snapped o m r m' → Moved o m m'
  snapshot-Moved m m' (ok (some id)) x = x.moved
  snapshot-Moved m m' (ok none) x = x
  snapshot-Moved m m' (err e) x = x

  restore-Moved :
      (m m' : Manager E) (id : String) (r : Result Bool) → Outcome o m id r m' → Moved o m m'
  restore-Moved m m' id (ok true) x = x.moved
  restore-Moved m m' id (ok false) x = x.moved
  restore-Moved m m' id (err e) x = x.moved

  step-Moved : (c : Call) (m : Manager E) → Tracks o m → Moved o m (step (sequential o) c m)
  unfolding step
  step-Moved (executes c t) m k =
      Executed-Moved m _ k (c ∷ []) (exec_command-Executed o f c t m k.state k.at k.active).2
  step-Moved snapshots m k = snapshot-Moved m _ _ (snapshot-Snapped o f m k)
  step-Moved (restores id) m k = restore-Moved m _ id _ (restore-Outcome o f m id k)

  -- After any calls, failed ones included, the record of the manager tells the state of the
  -- environment, and each snapshot stands for the state that it stood for.
  pub run-Moved :
      (cs : List Call) (m : Manager E) → Tracks o m → Moved o m (run (sequential o) cs m)
  unfolding run
  run-Moved [] m t = Moved-refl o m t
  run-Moved (c ∷ cs) m t =
      let first = step-Moved c m t in Moved-trans o first (run-Moved cs _ first.tracks)

  Snapped-Captured :
      (m m' : Manager E) (id : String) (r : Result (Option String))
      → r ≡ ok (some id)
      → Snapped o m r m'
      → Captured o m id m'
  Snapped-Captured m m' id r h x = subst (λ q. Snapped o m q m') h x

  Outcome-Restored :
      (m m' : Manager E) (id : String) (r : Result Bool)
      → r ≡ ok true
      → Outcome o m id r m'
      → Restored o m id m'
  Outcome-Restored m m' id r h x = subst (λ q. Outcome o m id q m') h x

  -- A snapshot, virtual or physical, can be gone back to after any calls: a restore of it that
  -- succeeds brings the environment to the state in which the snapshot was taken.
  pub restore-snapshot :
      (m : Manager E) (cs : List Call) (id : String)
      → Tracks o m
      → (snapshot (sequential o) m).0 ≡ ok (some id)
      → (restore (sequential o) id (run (sequential o) cs (snapshot (sequential o) m).1)).0
        ≡ ok true
      → o.live
          (restore (sequential o) id (run (sequential o) cs (snapshot (sequential o) m).1)).1.extra
        ≡ o.live m.extra
  restore-snapshot m cs id t taken restored =
      let c = Snapped-Captured m _ id _ taken (snapshot-Snapped o f m t) in
      let past = run-Moved cs _ c.moved.tracks in
      let back = Outcome-Restored _ _ id _ restored (restore-Outcome o f _ id past.tracks) in
      Denotes-unique o back.stands (back.moved.persists id _ (past.persists id _ c.stands)) refl
