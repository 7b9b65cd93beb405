-- ===== src/Factory.antt =====
-- controller/__init__.py: the factory `create_env_manager`.
pub mod Launch
use state_fork.Prelude.{
  Bool, List, Option, String, if◌then◌else◌, none, or_else, some, true, ℤ, ◌<>◌, ◌==◌, ◌||◌,
}
use state_fork.Exec.{Result, err, key_error, ok, value_error, ◌>>◌}
use state_fork.Decider.{Decider}

-- `**kwargs`. A field is `none` where the key is missing; the values that are there are of the type
-- that the constructors ask for.
pub record Kwargs : Type 0 where
  pub work_dir : Option String
  pub command : Option (List String)
  pub decider : Option Decider
  pub target_pid : Option ℤ
  pub base_image : Option String
  pub dockerfile_dir : Option String
  pub extra_args : Option (List String)
  pub container_name : Option String
  pub export_dir : Option String
  pub build : Option Bool
  pub session_id : Option String
  pub firecracker_dir : Option String
  pub inject_dir : Option String
  pub pid : Option ℤ
  pub microvm_ip : Option String
  pub tap_dev : Option String
  pub key : Option String
  pub checkpoint_dir : Option String
  pub vm_dir : Option String
  pub fire_binary : Option String
  pub api_socket : Option String

-- Which constructor the factory calls, with its arguments.
pub data Construction : Type 0 where
  criu_build_manager : String → Option (List String) → Construction
  criu_attach_manager : ℤ → String → Construction
  container_build_manager : String → Option String → String → Option (List String) → Construction
  container_attach_manager : String → String → String → Option (List String) → Construction
  hybrid_build_manager : String → String → String → Option (List String) → Construction
  hybrid_attach_manager : String → String → Construction
  waypoint_build_manager : Option String → Bool → Construction
  waypoint_attach_manager : String → Option ℤ → Construction
  gvisor_build_manager : Option String → String → Option (List String) → Construction
  gvisor_attach_manager : String → String → Option (List String) → Construction
  fire_build_manager : String → String → Construction
  fire_attach_manager :
      ℤ → String → String → String → String → String → String → String → Construction

-- The construction, and the policy that is passed on to it.
abbrev pub Created : Type 0
Created = Construction × Option Decider

infixl 5 ◌>>=◌
abbrev pub ◌>>=◌ : {A B : Type 0} → Result A → (A → Result B) → Result B
◌>>=◌ (ok a) next = next a
◌>>=◌ (err exc) next = err exc

-- kwargs[key], and a dict's d[key] where the value looked up is given
abbrev pub required : {A : Type 0} → String → Option A → Result A
required key none = err (record { kind = key_error; message = "'" <> key <> "'" })
required key (some value) = ok value

abbrev default_image : String
default_image = "statefork-app:base"

-- `open_process` is `psutil.Process`, which raises where the process does not exist.
unfoldable pub create : (ℤ → Result (Unit {0})) → String → Kwargs → Result Construction
create open_process method kw =
    if method == "criu_build"
    then ok (criu_build_manager (or_else kw.work_dir "/tmp/statefork_criu") kw.command)
    else if method == "criu_attach"
    then (do
      target_pid ← required "target_pid" kw.target_pid
      ok (criu_attach_manager target_pid (or_else kw.work_dir "/tmp/statefork_criu")))
    else if method == "docker_build"
    then ok (
        container_build_manager "Docker" kw.base_image (or_else kw.dockerfile_dir ".")
          kw.extra_args)
    else if method == "docker_attach"
    then (do
      name ← required "container_name" kw.container_name
      ok (
          container_attach_manager "Docker" name (or_else kw.base_image default_image)
            kw.extra_args))
    else if method == "podman_build"
    then ok (
        container_build_manager "Podman" kw.base_image (or_else kw.dockerfile_dir ".")
          kw.extra_args)
    else if method == "podman_attach"
    then (do
      name ← required "container_name" kw.container_name
      ok (
          container_attach_manager "Podman" name (or_else kw.base_image default_image)
            kw.extra_args))
    else if method == "hybrid_build"
    then ok (
        hybrid_build_manager (or_else kw.container_name "podman-build")
          (or_else kw.dockerfile_dir ".") (or_else kw.export_dir "/tmp/statefork_podman")
          kw.extra_args)
    else if method == "hybrid_attach"
    then (do
      name ← required "container_name" kw.container_name
      ok (hybrid_attach_manager name (or_else kw.export_dir "/tmp/statefork_podman")))
    else if method == "waypoint_build" || method == "ckpt_build"
    then ok (waypoint_build_manager kw.dockerfile_dir (or_else kw.build true))
    else if method == "waypoint_attach" || method == "ckpt_attach"
    then (do
      session_id ← required "session_id" kw.session_id
      ok (waypoint_attach_manager session_id kw.target_pid))
    else if method == "gvisor_build"
    then ok (gvisor_build_manager kw.base_image (or_else kw.dockerfile_dir ".") kw.extra_args)
    else if method == "gvisor_attach"
    then (do
      name ← required "container_name" kw.container_name
      ok (gvisor_attach_manager name (or_else kw.base_image default_image) kw.extra_args))
    else if method == "firecracker_build"
    then ok (fire_build_manager (or_else kw.firecracker_dir "/tmp") (or_else kw.inject_dir "app"))
    else if method == "firecracker_attach"
    then (do
      fire_pid ← required "pid" kw.pid
      opened ← open_process fire_pid
      key ← required "key" kw.key
      ok (
          fire_attach_manager fire_pid (or_else kw.microvm_ip "172.16.0.2")
            (or_else kw.tap_dev "tap0") key (or_else kw.checkpoint_dir "/tmp/fire_ckpts")
            (or_else kw.vm_dir "/tmp/fire_vm") (or_else kw.fire_binary "/tmp/fire_vm/firecracker")
            (or_else kw.api_socket "/tmp/firecracker.socket")))
    else err (record { kind = value_error; message = "Unknown method: " <> method })

unfoldable pub create_env_manager : (ℤ → Result (Unit {0})) → String → Kwargs → Result Created
create_env_manager open_process method kw = do
  construction ← create open_process method kw
  ok (construction, kw.decider)
