-- ===== src/Backends/Criu.antt =====
-- controller/criu_env_manager.py: environments that are processes of the system, with images of
-- CRIU.
pub mod Ending
use state_fork.Prelude.{
  Bool, List, Option, String, [], false, if◌then◌else◌, ltb, none, nonempty, or_else, pos, some,
  suc, true, zero, ℕ, ℤ, ◌-◌, ◌<>◌, ◌∷◌,
}
use state_fork.Exec.{
  PyError, gets, modify, no_such_process, ok, pure, raise, runtime_error, value_error, ◌>>=◌, ◌>>◌,
}
use state_fork.Exec.Recover.{on_process_error, recover}
use state_fork.Text.{path_join}
use state_fork.Decider.{Decider}
use state_fork.Manager.State.{Hooks, Manager, new_manager}
use state_fork.Manager.Branches.{register_snapshot_resource, snapshot_resource}
use state_fork.Manager.Attach.{attach}
use state_fork.Backends.Platform.{Platform, Processes}
use state_fork.Backends.Host.{
  Host, HostOp, reach, read, on_world, config, check_call, attach_calculator, set_config,
  copy_not_implemented, exec_not_implemented,
}

-- `process` is the pid of the program that the manager started last.
pub record Criu : Type 0 where
  pub work_dir : String
  pub app_pid : ℤ
  pub process : Option ℤ

-- How the wait for the end of a process comes out. `out_of_fuel` stands for a wait without an end.
pub data Wait : Type 0 where
  ended overdue out_of_fuel : Wait

abbrev runtime : String → PyError
runtime message = record { kind = runtime_error; message = message }

-- except psutil.NoSuchProcess
unfoldable pub on_no_such_process : {A : Type 0} → A → PyError → Option A
on_no_such_process a exc = elim exc.kind [ no_such_process ↦ some a | _ ↦ none ]

module _ {W : Type 0} (p : Platform W) (s : Processes W) where
  unfoldable pub dump_args : ℤ → String → List String
  dump_args pid snapshot_path =
      "criu"
      ∷ "dump"
      ∷ "-t"
      ∷ s.show_pid pid
      ∷ "--images-dir"
      ∷ snapshot_path
      ∷ "--tcp-established"
      ∷ "--shell-job"
      ∷ "--leave-running"
      ∷ []

  unfoldable pub restore_args : String → List String
  restore_args snapshot_path =
      "criu" ∷ "restore" ∷ "--images-dir" ∷ snapshot_path ∷ "--tcp-established" ∷ "--shell-job" ∷ []

  unfoldable pub kill_and_wait : ℤ → ℕ → HostOp Criu W Unit
  kill_and_wait pid hard_timeout = do reach (s.kill pid); reach (s.wait pid hard_timeout)

  -- The loop of `__kill_original_process`, which reads the clock again and again.
  unfoldable pub await_end : ℕ → ℤ → ℕ → ℕ → HostOp Criu W Wait
  await_end zero pid start soft_timeout = pure out_of_fuel
  await_end (suc fuel) pid start soft_timeout = do
    let again = await_end fuel pid start soft_timeout
    running ← read (s.is_running pid)
    elim running [
      | false ↦ pure ended
      | true ↦ (do
        now ← read p.time
        elim (ltb soft_timeout (now - start)) [ true ↦ pure overdue | false ↦ again ])
    ]

  unfoldable pub awaited : ℤ → ℕ → Wait → HostOp Criu W Unit
  awaited pid hard_timeout overdue = kill_and_wait pid hard_timeout
  awaited pid hard_timeout _ = pure tt

  -- The process that was asked to end, or nothing where there is none.
  unfoldable pub end_softly : ℤ → ℕ → ℕ → Bool → HostOp Criu W Unit
  end_softly pid soft_timeout hard_timeout false = pure tt
  end_softly pid soft_timeout hard_timeout true = do
    start ← read p.time
    wait ← await_end (suc (suc soft_timeout)) pid start soft_timeout
    awaited pid hard_timeout wait

  unfoldable pub kill_original_process : Bool → ℕ → ℕ → HostOp Criu W Unit
  kill_original_process true soft_timeout hard_timeout = do
    c ← config
    reach (s.open_process c.app_pid)
    kill_and_wait c.app_pid hard_timeout
  kill_original_process false soft_timeout hard_timeout = do
    c ← config
    asked ←
        recover (on_no_such_process false)
          (do reach (s.open_process c.app_pid); reach (s.terminate c.app_pid); pure true)
    end_softly c.app_pid soft_timeout hard_timeout asked

  unfoldable pub dumped : String → String → ℕ → HostOp Criu W (Option String × ℕ)
  dumped snapshot_id snapshot_path start = do
    stop ← read p.time
    modify (register_snapshot_resource snapshot_id snapshot_path)
    pure (some snapshot_id, stop - start)

  unfoldable pub core_snapshot : String → HostOp Criu W (Option String × ℕ)
  core_snapshot branch_id = do
    snapshot_id ← read p.uuid8
    c ← config
    let snapshot_path = path_join c.work_dir snapshot_id
    reach (p.makedirs snapshot_path)
    start ← read p.time
    recover (on_process_error (none, 0))
        (check_call p (dump_args c.app_pid snapshot_path) >> dumped snapshot_id snapshot_path start)

  unfoldable pub spawn : List String → ℕ → HostOp Criu W (Bool × ℕ)
  spawn words start = do
    pid ← reach (s.popen words)
    c ← config
    modify (set_config (record c { process = some pid }))
    stop ← read p.time
    pure (true, stop - start)

  unfoldable pub reload : String → HostOp Criu W (Bool × ℕ)
  reload snapshot_path = do
    kill_original_process true 100000 10000
    start ← read p.time
    recover (on_process_error (false, 0)) (spawn (restore_args snapshot_path) start)

  -- `if not snapshot_path`
  unfoldable pub restore_path : Option String → HostOp Criu W (Bool × ℕ)
  restore_path none = pure (false, 0)
  restore_path (some path) = if nonempty path then reload path else pure (false, 0)

  unfoldable pub core_restore : String → String → HostOp Criu W (Bool × ℕ)
  core_restore snapshot_id branch_id = do
    path ← gets (snapshot_resource snapshot_id)
    restore_path path

  unfoldable pub core_cleanup : HostOp Criu W (Option Bool)
  core_cleanup = do
    kill_original_process false 2000000 2000000
    c ← config
    reach (λ w. (ok tt, p.rmtree c.work_dir w))
    pure none

  unfoldable pub criu : Hooks (Host Criu W)
  criu = record {
    core_snapshot = core_snapshot;
    core_restore = core_restore;
    core_cleanup = core_cleanup;
    core_exec = exec_not_implemented;
    core_copy = copy_not_implemented;
    after_snapshot = λ branch_id snapshot_id m. m;
    coin = on_world p.coin;
    uuid_hex = on_world p.uuid_hex;
    time = on_world p.time;
  }

  unfoldable pub require_pid : Bool → ℤ → HostOp Criu W Unit
  require_pid true target_pid = pure tt
  require_pid false target_pid = raise (record {
    kind = value_error;
    message = "Target PID " <> s.show_pid target_pid <> " does not exist or is not running.";
  })

  -- The rest of `CRIUAttachManager.__init__`, after the constructor of the base class.
  unfoldable pub start : ℤ → HostOp Criu W Unit
  start target_pid = do
    c ← config
    reach (p.makedirs c.work_dir)
    exists ← read (s.pid_exists target_pid)
    require_pid exists target_pid
    modify (set_config (record c { app_pid = target_pid }))
    attach criu
    attach_calculator p "FileSizeCalculator" "FileSizeCalculator"

  unfoldable pub new_criu : String → Option Decider → W → Manager (Host Criu W)
  new_criu work_dir decider w = new_manager "CRIU" decider (record {
    config = record { work_dir = work_dir; app_pid = pos 0; process = none };
    world = w;
  })

  abbrev pub default_command : List String
  default_command =
      "uvicorn" ∷ "app.api_server:app" ∷ "--host" ∷ "127.0.0.1" ∷ "--port" ∷ "8000"
      ∷ "--no-access-log" ∷ []

  -- `if process.poll() is not None`
  unfoldable pub still_running : Option ℤ → HostOp Criu W Unit
  still_running none = pure tt
  still_running (some code) = raise (runtime "Failed to start the APP.")

  -- `CRIUBuildManager.__init__`: the program is started before the constructor of the parent class
  -- runs.
  unfoldable pub build : Option (List String) → HostOp Criu W Unit
  build command = do
    pid ← reach (s.popen (or_else command default_command))
    code ← read (s.poll pid)
    still_running code
    start pid
    c ← config
    modify (set_config (record c { process = some pid }))
