-- ===== src/Backends/Hybrid.antt =====
-- controller/hybrid_env_manager.py: environments that are podman containers, with checkpoints of
-- CRIU.
use state_fork.Prelude.{
  Bool, List, Option, String, [], false, if◌then◌else◌, none, nonempty, or_else, some, true, ℕ,
  ◌++◌, ◌-◌, ◌<>◌, ◌∷◌,
}
use state_fork.Exec.{PyError, gets, modify, ok, pure, raise, runtime_error, ◌>>=◌, ◌>>◌}
use state_fork.Text.{path_join, strip}
use state_fork.Decider.{Decider}
use state_fork.Manager.State.{Command, ExecResult, Hooks, Manager, new_manager}
use state_fork.Manager.Branches.{register_snapshot_resource, snapshot_resource}
use state_fork.Manager.Attach.{attach}
use state_fork.Backends.Platform.{Platform}
use state_fork.Backends.Host.{
  Host, HostOp, reach, read, on_world, config, call, check_call, attach_calculator, exec_args,
  exec_result, copy_not_implemented,
}

pub record Hybrid : Type 0 where
  pub container_name : String
  pub export_dir : String

abbrev runtime : String → PyError
runtime message = record { kind = runtime_error; message = message }

unfoldable pub checkpoint_args : Hybrid → String → List String
checkpoint_args c export_path =
    "podman" ∷ "container" ∷ "checkpoint" ∷ c.container_name ∷ "-e" ∷ export_path
    ∷ "--leave-running" ∷ []

unfoldable pub remove_args : Hybrid → List String
remove_args c = "podman" ∷ "rm" ∷ "-f" ∷ c.container_name ∷ []

unfoldable pub restore_args : Hybrid → String → List String
restore_args c export_path =
    "podman" ∷ "container" ∷ "restore" ∷ "-i" ∷ export_path ∷ "-n" ∷ c.container_name ∷ []

unfoldable pub export_path : Hybrid → String → String
export_path c snapshot_id = path_join c.export_dir (snapshot_id <> ".tar.zstd")

module _ {W : Type 0} (p : Platform W) where
  unfoldable pub core_snapshot : String → HostOp Hybrid W (Option String × ℕ)
  core_snapshot branch_id = do
    c ← config
    sid ← read p.uuid8
    start ← read p.time
    check_call p (checkpoint_args c (export_path c sid))
    stop ← read p.time
    modify (register_snapshot_resource sid (export_path c sid))
    pure (some sid, stop - start)

  unfoldable pub reload : String → HostOp Hybrid W (Bool × ℕ)
  reload path = do
    c ← config
    call p (remove_args c)
    start ← read p.time
    check_call p (restore_args c path)
    stop ← read p.time
    pure (true, stop - start)

  -- `if not export_path`
  unfoldable pub restore_export : Option String → HostOp Hybrid W (Bool × ℕ)
  restore_export none = pure (false, 0)
  restore_export (some path) = if nonempty path then reload path else pure (false, 0)

  unfoldable pub core_restore : String → String → HostOp Hybrid W (Bool × ℕ)
  core_restore snapshot_id branch_id = do
    path ← gets (snapshot_resource snapshot_id)
    restore_export path

  unfoldable pub core_cleanup : HostOp Hybrid W (Option Bool)
  core_cleanup = do
    c ← config
    call p (remove_args c)
    reach (λ w. (ok tt, p.rmtree c.export_dir w))
    pure none

  unfoldable pub core_exec : Command → Option ℕ → String → HostOp Hybrid W ExecResult
  core_exec command timeout branch_id = do
    c ← config
    done ← reach (p.subprocess_run (exec_args "podman" c.container_name command) timeout)
    pure (exec_result done)

  unfoldable pub hybrid : Hooks (Host Hybrid W)
  hybrid = record {
    core_snapshot = core_snapshot;
    core_restore = core_restore;
    core_cleanup = core_cleanup;
    core_exec = core_exec;
    core_copy = copy_not_implemented;
    after_snapshot = λ branch_id snapshot_id m. m;
    coin = on_world p.coin;
    uuid_hex = on_world p.uuid_hex;
    time = on_world p.time;
  }

  -- `__ensure_container_running`
  unfoldable pub ensure_container_running : HostOp Hybrid W Unit
  ensure_container_running = do
    c ← config
    listed ← call p ("podman" ∷ "ps" ∷ "-q" ∷ "-f" ∷ ("name=" <> c.container_name) ∷ [])
    if nonempty (strip listed.stdout)
        then pure tt
        else raise (
            runtime (
              "Container '" <> c.container_name
              <> "' is not running. Please start it before using this manager."))

  -- The rest of `HybridAttachManager.__init__`, after the constructor of the base class.
  unfoldable pub start : HostOp Hybrid W Unit
  start = do
    c ← config
    reach (p.makedirs c.export_dir)
    ensure_container_running
    attach hybrid
    attach_calculator p "FileSizeCalculator" "FileSizeCalculator"

  unfoldable pub new_hybrid : String → String → Option Decider → W → Manager (Host Hybrid W)
  new_hybrid container_name export_dir decider w = new_manager "Podman+CRIU" decider (record {
    config = record { container_name = container_name; export_dir = export_dir };
    world = w;
  })

  -- `HybridBuildManager.__init__`: the image is built and launched before the constructor of the
  -- parent class runs.
  unfoldable pub build : String → Option (List String) → HostOp Hybrid W Unit
  build dockerfile_dir extra_args = do
    c ← config
    check_call p ("podman" ∷ "build" ∷ "-t" ∷ "init_image" ∷ dockerfile_dir ∷ [])
    check_call p (
        "podman"
        ∷ "run"
        ∷ "-d"
        ∷ "--rm"
        ∷ "--name"
        ∷ c.container_name
        ∷ (or_else extra_args ("-p" ∷ "8000:8000" ∷ "-v" ∷ "/tmp:/tmp" ∷ []) ++ "init_image" ∷ []))
    start
