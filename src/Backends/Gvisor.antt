-- ===== src/Backends/Gvisor.antt =====
-- controller/gvisor_env_manager.py: environments that are docker containers under gVisor.
use state_fork.Backends.Host.{image_or_fresh}
use state_fork.Prelude.{
  Bool, List, Option, String, [], false, if◌then◌else◌, none, nonempty, or_else, some, true, ℕ,
  ◌++◌, ◌-◌, ◌∷◌,
}
use state_fork.Exec.{
  PyError, Result, attempt, called_process_error, err, gets, modify, ok, pure, raise, runtime_error,
  ◌>>=◌, ◌>>◌,
}
use state_fork.Exec.Recover.{answered}
use state_fork.Decider.{Decider}
use state_fork.Manager.State.{Command, ExecResult, Hooks, Manager, new_manager}
use state_fork.Manager.Branches.{
  get_branch_state, register_snapshot_resource, snapshot_resource, update_branch,
}
use state_fork.Manager.Attach.{attach}
use state_fork.Backends.Host.{check_returncode}
use state_fork.Backends.Platform.{Platform}
use state_fork.Exec.Recover.{recover, on_process_error}
use state_fork.Backends.Host.{
  Host, HostOp, reach, read, on_world, config, call, check_call, attach_calculator, exec_args,
  exec_result, copy_not_implemented,
}

pub record Gvisor : Type 0 where
  pub container_name : String
  pub extra_args : List String
  pub base_image : String

abbrev runtime : String → PyError
runtime message = record { kind = runtime_error; message = message }

unfoldable pub checkpoint_args : Gvisor → String → List String
checkpoint_args c snapshot_id =
    "docker" ∷ "checkpoint" ∷ "create" ∷ "--leave-running" ∷ c.container_name ∷ snapshot_id ∷ []

unfoldable pub start_args : Gvisor → String → List String
start_args c snapshot_id = "docker" ∷ "start" ∷ "--checkpoint" ∷ snapshot_id ∷ c.container_name ∷ []

module _ {W : Type 0} (p : Platform W) where
  -- What follows the checkpoint that was created.
  unfoldable pub checkpointed : String → ℕ → HostOp Gvisor W (Option String × ℕ)
  checkpointed snapshot_id start = do
    stop ← read p.time
    modify (register_snapshot_resource snapshot_id snapshot_id)
    branch_id ← gets (λ m. m.current_branch_id)
    get_branch_state branch_id
    modify
        (update_branch branch_id (λ state. record state { current_snapshot_id = some snapshot_id }))
    pure (some snapshot_id, stop - start)

  unfoldable pub core_snapshot : String → HostOp Gvisor W (Option String × ℕ)
  core_snapshot branch_id = do
    c ← config
    snapshot_id ← read p.uuid8
    start ← read p.time
    recover (on_process_error (none, 0))
        (check_call p (checkpoint_args c snapshot_id) >> checkpointed snapshot_id start)

  unfoldable pub started : String → ℕ → HostOp Gvisor W (Bool × ℕ)
  started snapshot_id start = do stop ← read p.time; pure (true, stop - start)

  unfoldable pub restart : String → HostOp Gvisor W (Bool × ℕ)
  restart snapshot_id = do
    c ← config
    call p ("docker" ∷ "stop" ∷ c.container_name ∷ [])
    start ← read p.time
    recover (on_process_error (false, 0))
        (check_call p (start_args c snapshot_id) >> started snapshot_id start)

  -- `if not snapshot_id`
  unfoldable pub restore_checkpoint : Option String → HostOp Gvisor W (Bool × ℕ)
  restore_checkpoint none = pure (false, 0)
  restore_checkpoint (some snapshot_id) =
      if nonempty snapshot_id then restart snapshot_id else pure (false, 0)

  unfoldable pub core_restore : String → String → HostOp Gvisor W (Bool × ℕ)
  core_restore snapshot_id branch_id = do
    checkpoint ← gets (snapshot_resource snapshot_id)
    restore_checkpoint checkpoint

  unfoldable pub remove_all : HostOp Gvisor W (Option Bool)
  remove_all = do
    c ← config
    call p ("docker" ∷ "rm" ∷ "-f" ∷ c.container_name ∷ [])
    call p ("docker" ∷ "rmi" ∷ "-f" ∷ c.base_image ∷ [])
    pure none

  unfoldable pub core_cleanup : HostOp Gvisor W (Option Bool)
  core_cleanup = recover (on_process_error none) remove_all

  unfoldable pub core_exec : Command → Option ℕ → String → HostOp Gvisor W ExecResult
  core_exec command timeout branch_id = do
    c ← config
    done ← reach (p.subprocess_run (exec_args "docker" c.container_name command) timeout)
    pure (exec_result done)

  unfoldable pub gvisor : Hooks (Host Gvisor W)
  gvisor = record {
    core_snapshot = core_snapshot;
    core_restore = core_restore;
    core_cleanup = core_cleanup;
    core_exec = core_exec;
    core_copy = copy_not_implemented;
    after_snapshot = λ branch_id snapshot_id m. m;
    coin = on_world p.coin;
    uuid_hex = on_world p.uuid_hex;
    time = on_world p.time;
  }

  -- `subprocess.check_output(argv, text=True)`
  unfoldable pub check_output : List String → HostOp Gvisor W String
  check_output words = do
    done ← call p words
    check_returncode p words done done.returncode
    pure done.stdout

  unfoldable pub docker_answers : HostOp Gvisor W Unit
  docker_answers = do
    c ← config
    check_output ("docker" ∷ "info" ∷ "--format" ∷ "{{.DockerRootDir}}" ∷ [])
    check_output ("docker" ∷ "inspect" ∷ c.container_name ∷ "--format" ∷ "{{.Id}}" ∷ [])
    pure tt

  -- A `CalledProcessError` becomes a `RuntimeError`.
  unfoldable pub as_runtime_error : String → Result (Unit {0}) → HostOp Gvisor W Unit
  as_runtime_error message (ok done) = pure tt
  as_runtime_error message (err exc) = elim exc.kind [
    | called_process_error ↦ raise (runtime message)
    | _ ↦ raise exc
  ]

  -- `GvisorCalculator.__init__`
  unfoldable pub attach_gvisor_calculator : HostOp Gvisor W Unit
  attach_gvisor_calculator = do
    answered ← attempt docker_answers
    as_runtime_error "Failed to initialize GvisorCalculator due to Docker command failure." answered
    attach_calculator p "GvisorCalculator" "FileSizeCalculator"

  -- The rest of `GvisorAttachManager.__init__`, after the constructor of the base class.
  unfoldable pub start : HostOp Gvisor W Unit
  start = do attach gvisor; attach_gvisor_calculator

  unfoldable pub new_gvisor :
      String → String → Option (List String) → Option Decider → W → Manager (Host Gvisor W)
  new_gvisor container_name base_image extra_args decider w = new_manager "gVisor" decider (record {
    config = record {
      container_name = container_name;
      extra_args = or_else extra_args [];
      base_image = base_image;
    };
    world = w;
  })

  unfoldable pub launch_args : Gvisor → List String → List String
  launch_args c extra_args =
      "docker"
      ∷ "run"
      ∷ "-d"
      ∷ "--runtime"
      ∷ "runsc"
      ∷ "--network"
      ∷ "host"
      ∷ "--name"
      ∷ c.container_name
      ∷ (extra_args ++ c.base_image ∷ [])

  -- `GvisorBuildManager.__init__` on the manager that it builds, whose base image is known: the
  -- image is built and launched before the constructor of the parent class runs.
  unfoldable pub build : String → HostOp Gvisor W Unit
  build dockerfile_dir = do
    c ← config
    check_call p ("docker" ∷ "build" ∷ "-t" ∷ c.base_image ∷ dockerfile_dir ∷ [])
    launched ← attempt (check_call p (launch_args c c.extra_args))
    as_runtime_error "Failed to create initial environment from base image." launched
    start

  unfoldable pub built_gvisor :
      Option String → Option (List String) → Option Decider → W → Manager (Host Gvisor W)
  built_gvisor base_image extra_args decider w =
      let (image, w') = image_or_fresh p base_image w in
      new_gvisor "statefork_active" image (some (or_else extra_args ("-v" ∷ "/tmp:/tmp" ∷ [])))
        decider w'
