-- ===== src/Backends/Registry/Criu.antt =====
-- The CRIU backend registers what it dumps.
use state_fork.Exec.Keeps.{Keeps-pure, Keeps-then}
use state_fork.Prelude.{
  List, Option, String, arith, none, nonempty, refl, some, true, ℕ, ℤ, ◌-◌, ◌≡◌,
}
use state_fork.Exec.{modify}
use state_fork.Exec.Keeps.{Keeps, Keeps-bind, Keeps-gets, keeps_rules}
use state_fork.Text.{path_join}
use state_fork.Manager.Branches.{register_snapshot_resource}
use state_fork.Manager.Snapshot.{physical_node, virtual_node}
use state_fork.Manager.Stable.{HooksKeep}
use state_fork.Backends.Platform.{Platform, Processes}
use state_fork.Backends.Host.{config, check_call, on_world, reach, read}
use state_fork.Backends.Criu.{
  dump_args, kill_and_wait, kill_original_process, dumped, core_snapshot, spawn, reload,
  restore_path, core_restore, criu,
}
use state_fork.Exec.Recover.Rules.{recover-Keeps, recover-Ensures}
use state_fork.Exec.Recover.{on_process_error}
use state_fork.Exec.Ensures.{Ensures, Ensures-after, Ensures-then}
use state_fork.Backends.Registry.{Stocked, HasResource, path_join-nonempty}
use state_fork.Backends.Registry.Calls.{
  failed-Registers, check_call-Stocked, reach-Stocked, read-Stocked, Has, Registers, register-Has,
  pure-Registers, register-Keeps, stocked_calls, ask-Stocked, copy_not_implemented-Stocked,
  exec_not_implemented-Stocked, uuid8-Stocked, uuid8-Registers,
}

module _ {W : Type 0} (p : Platform W) (procs : Processes W)
    (drawn : (w : W) → nonempty (p.uuid8 w).0 ≡ true) where
  dumped-Keeps :
      (id path : String) (start : ℕ)
      → nonempty path ≡ true
      → Keeps Stocked (dumped p procs id path start)
  unfolding dumped
  dumped-Keeps id path start full =
      Keeps-bind _ _ (read-Stocked p.time)
        λ stop. Keeps-then _ _ (register-Keeps id path full) (Keeps-pure (some id, stop - start))

  core_snapshot-Keeps : (branch : String) → Keeps Stocked (core_snapshot p procs branch)
  unfolding core_snapshot
  core_snapshot-Keeps branch = uuid8-Stocked p drawn _ λ id full.
      Keeps-bind _ _ (Keeps-gets λ m. m.extra.config) λ c.
        Keeps-then _ _ (reach-Stocked (p.makedirs (path_join c.work_dir id))) (
          Keeps-bind _ _ (read-Stocked p.time) λ start. recover-Keeps _ _ (
            Keeps-then _ _
              (check_call-Stocked p (dump_args p procs c.app_pid (path_join c.work_dir id)))
              (dumped-Keeps id (path_join c.work_dir id) start
                (path_join-nonempty c.work_dir id full))))

  dumped-Registers :
      (id path : String) (start : ℕ)
      → nonempty path ≡ true
      → Ensures (λ m. Unit) (dumped p procs id path start) Registers
  unfolding dumped
  dumped-Registers id path start full = Ensures-after (read p.time) _ λ stop.
      Ensures-then (Has id) (modify (register_snapshot_resource id path)) _
        (register-Has id path full) (pure-Registers id (stop - start))

  core_snapshot-Registers :
      (branch : String) → Ensures (λ m. Unit) (core_snapshot p procs branch) Registers
  unfolding core_snapshot
  core_snapshot-Registers branch = uuid8-Registers p drawn _ λ id full. Ensures-after config _ λ c.
      Ensures-after (reach (p.makedirs (path_join c.work_dir id))) _ λ made.
        Ensures-after (read p.time) _ λ start.
          recover-Ensures (on_process_error (none, 0)) _
            (Ensures-after (check_call p (dump_args p procs c.app_pid (path_join c.work_dir id))) _
              λ done.
                dumped-Registers id (path_join c.work_dir id) start
                  (path_join-nonempty c.work_dir id full))
            failed-Registers

  kill-Keeps : (pid : ℤ) (hard_timeout : ℕ) → Keeps Stocked (kill_and_wait p procs pid hard_timeout)
  unfolding kill_and_wait
  kill-Keeps pid hard_timeout = search stocked_calls

  kill_original_process-Keeps :
      (soft_timeout hard_timeout : ℕ)
      → Keeps Stocked (kill_original_process p procs true soft_timeout hard_timeout)
  unfolding kill_original_process
  kill_original_process-Keeps soft_timeout hard_timeout = search (stocked_calls, kill-Keeps)

  spawn-Keeps : (words : List String) (start : ℕ) → Keeps Stocked (spawn p procs words start)
  unfolding spawn
  spawn-Keeps words start = search stocked_calls depth 12

  reload-Keeps : (path : String) → Keeps Stocked (reload p procs path)
  unfolding reload
  reload-Keeps path = search (stocked_calls, kill_original_process-Keeps, spawn-Keeps) depth 12

  restore_path-Keeps : (path : Option String) → Keeps Stocked (restore_path p procs path)
  unfolding restore_path
  restore_path-Keeps none = search keeps_rules
  restore_path-Keeps (some path) = search (stocked_calls, reload-Keeps)

  -- Every hook keeps the resources, and a captured snapshot gets one.
  pub criu-Stocked : HooksKeep Stocked HasResource (criu p procs)
  unfolding criu core_restore physical_node virtual_node on_world
  criu-Stocked = record {
    core_snapshot = core_snapshot-Keeps;
    core_restore = λ id branch. search (stocked_calls, restore_path-Keeps);
    core_exec = exec_not_implemented-Stocked;
    core_copy = copy_not_implemented-Stocked;
    after_snapshot = λ branch id m s. s;
    coin = ask-Stocked p.coin;
    uuid_hex = ask-Stocked p.uuid_hex;
    time = ask-Stocked p.time;
    fit_captured = λ branch m s id elapsed e parent physical.
        (core_snapshot-Registers branch).at m tt (some id, elapsed) e id refl;
    fit_drawn = λ m s parent commands physical. absurd (ground (arith, physical));
  }
