-- ===== src/Backends/Container.antt =====
-- controller/container_env_manager.py: environments that are containers of docker or podman.
pub mod Engine
pub mod Stored
pub mod Kept
pub mod Captures
pub mod Restores
pub mod Roundtrip
use state_fork.Backends.Host.{image_or_fresh}
use state_fork.Prelude.{
  Bool, List, Option, String, [], false, if◌then◌else◌, none, nonempty, or_else, some, true, ℕ,
  ◌++◌, ◌-◌, ◌<>◌, ◌==◌, ◌∷◌,
}
use state_fork.Exec.{
  PyError, Result, err, gets, modify, ok, pure, raise, runtime_error, value_error, ◌>>=◌, ◌>>◌,
}
use state_fork.Dict.{Dict}
use state_fork.Text.{partition}
use state_fork.Decider.{Decider}
use state_fork.Manager.State.{Command, ExecResult, Hooks, Manager, new_manager}
use state_fork.Manager.Branches.{
  register_snapshot_resource, remove_snapshot_resource, snapshot_resource,
}
use state_fork.Backends.Host.{set_config}
use state_fork.Backends.Platform.{Platform}
use state_fork.Backends.Host.{
  Host, HostOp, reach, read, on_world, config, call, check_call, attach_calculator, init_tree,
  exec_args, exec_result, copy_not_implemented,
}

pub record Container : Type 0 where
  pub backend_cmd : String
  pub backend_name : String
  pub container_name : String
  pub extra_args : List String
  pub image_prefix : String

abbrev pub value_error_of : String → PyError
value_error_of message = record { kind = value_error; message = message }

-- (BACKEND_CMD, BACKEND_NAME)
unfoldable pub get_backend_tool : String → Result (String × String)
get_backend_tool backend =
    if backend == "Docker"
    then ok ("docker", "Docker")
    else if backend == "Podman"
    then ok ("podman", "Podman")
    else err (value_error_of ("Unsupported backend: " <> backend))

unfoldable pub image_name : Container → String → String
image_name c snapshot_id = c.image_prefix <> ":" <> snapshot_id

unfoldable pub commit_args : Container → String → List String
commit_args c image = c.backend_cmd ∷ "commit" ∷ c.container_name ∷ image ∷ []

unfoldable pub remove_args : Container → List String
remove_args c = c.backend_cmd ∷ "rm" ∷ "-f" ∷ c.container_name ∷ []

unfoldable pub run_args : Container → String → List String
run_args c image =
    c.backend_cmd
    ∷ "run"
    ∷ "-d"
    ∷ "--rm"
    ∷ "--name"
    ∷ c.container_name
    ∷ (c.extra_args ++ image ∷ [])

unfoldable pub remove_image_args : Container → String → List String
remove_image_args c image = c.backend_cmd ∷ "rmi" ∷ image ∷ []

module _ {W : Type 0} (p : Platform W) where
  unfoldable pub commit : Container → HostOp Container W (Option String × ℕ)
  commit c = do
    snapshot_id ← read p.uuid8
    start ← read p.time
    check_call p (commit_args c (image_name c snapshot_id))
    stop ← read p.time
    modify (register_snapshot_resource snapshot_id (image_name c snapshot_id))
    pure (some snapshot_id, stop - start)

  unfoldable pub core_snapshot : String → HostOp Container W (Option String × ℕ)
  core_snapshot branch_id = do c ← config; commit c

  unfoldable pub relaunch : String → Container → HostOp Container W (Bool × ℕ)
  relaunch image c = do
    call p (remove_args c)
    start ← read p.time
    check_call p (run_args c image)
    stop ← read p.time
    pure (true, stop - start)

  -- `if not image_name`
  unfoldable pub restore_image : Option String → HostOp Container W (Bool × ℕ)
  restore_image none = pure (false, 0)
  restore_image (some image) = if nonempty image then config >>= relaunch image else pure (false, 0)

  unfoldable pub core_restore : String → String → HostOp Container W (Bool × ℕ)
  core_restore snapshot_id branch_id = do
    image ← gets (snapshot_resource snapshot_id)
    restore_image image

  -- The loop over `_snapshot_items()`, a copy of the registry.
  unfoldable pub remove_images : Dict String → HostOp Container W Unit
  remove_images [] = pure tt
  remove_images ((snapshot_id, image) ∷ items) = do
    c ← config
    call p (remove_image_args c image)
    modify (remove_snapshot_resource snapshot_id)
    remove_images items

  unfoldable pub core_cleanup : HostOp Container W (Option Bool)
  core_cleanup = do
    c ← config
    call p (remove_args c)
    items ← gets (λ m. m.snapshots)
    remove_images items
    pure none

  unfoldable pub exec_in : Command → Option ℕ → Container → HostOp Container W ExecResult
  exec_in command timeout c = do
    done ← reach (p.subprocess_run (exec_args c.backend_cmd c.container_name command) timeout)
    pure (exec_result done)

  unfoldable pub core_exec : Command → Option ℕ → String → HostOp Container W ExecResult
  core_exec command timeout branch_id = do c ← config; exec_in command timeout c

  unfoldable pub container : Hooks (Host Container W)
  container = record {
    core_snapshot = core_snapshot;
    core_restore = core_restore;
    core_cleanup = core_cleanup;
    core_exec = core_exec;
    core_copy = copy_not_implemented;
    after_snapshot = λ branch_id snapshot_id m. m;
    coin = on_world p.coin;
    uuid_hex = on_world p.uuid_hex;
    time = on_world p.time;
  }

  -- `self.image_prefix, _ = base_image.split(":", 1)`
  unfoldable pub set_prefix : Option (String × String) → HostOp Container W Unit
  set_prefix none = raise (value_error_of "not enough values to unpack (expected 2, got 1)")
  set_prefix (some (prefix, tag)) = do
    c ← config
    modify (set_config (record c { image_prefix = prefix }))

  -- The rest of `ContainerAttachManager.__init__`, after the constructor of the base class.
  unfoldable pub attach : String → HostOp Container W Unit
  attach base_image = do
    set_prefix (partition b':' base_image)
    modify (register_snapshot_resource "base" base_image)
    init_tree "base"
    attach_calculator p "ImageCalculator" "ImageCalculator"

  -- A manager as the constructor of the base class leaves it.
  unfoldable pub new_container :
      String × String
      → String
      → Option (List String)
      → Option Decider
      → W
      → Manager (Host Container W)
  new_container (cmd, name) container_name extra_args decider w = new_manager name decider (record {
    config = record {
      backend_cmd = cmd;
      backend_name = name;
      container_name = container_name;
      extra_args = or_else extra_args [];
      image_prefix = "";
    };
    world = w;
  })

  abbrev pub default_args : List String
  default_args = "-p" ∷ "8000:8000" ∷ "-v" ∷ "/tmp:/tmp" ∷ []

  unfoldable pub built_container :
      String × String → Option (List String) → Option Decider → W → Manager (Host Container W)
  built_container tool extra_args decider w =
      new_container tool "statefork_active" (some (or_else extra_args default_args)) decider w

  unfoldable pub initial_environment : Bool × ℕ → HostOp Container W Unit
  initial_environment (true, elapsed) = pure tt
  initial_environment (false, elapsed) = raise (record {
    kind = runtime_error;
    message = "Failed to create initial environment from base image.";
  })

  -- `ContainerBuildManager.__init__`, on the manager that it builds. The image is built before the
  -- constructor of the parent class runs.
  unfoldable pub build : String → Option String → HostOp Container W Unit
  build dockerfile_dir base_image = do
    c ← config
    image ← read (image_or_fresh p base_image)
    check_call p (c.backend_cmd ∷ "build" ∷ "-t" ∷ image ∷ dockerfile_dir ∷ [])
    attach image
    branch_id ← gets (λ m. m.current_branch_id)
    restored ← core_restore "base" branch_id
    initial_environment restored
