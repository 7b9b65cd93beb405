-- ===== src/Factory/Launch.antt =====
-- interface/shell.py: `build_manager`.
use state_fork.Prelude.{String, [], if◌then◌else◌, none, some, ℕ, ℤ, ◌==◌, ◌∷◌, ◌≡◌, ◌⊎◌}
use state_fork.Exec.{Result, ok}
use state_fork.Dict.{Dict, get}
use state_fork.Decider.{Decider, always_false, always_true, default_threshold, random, threshold}
use state_fork.Factory.{create, ◌>>=◌, required, Construction, Kwargs, Created, create_env_manager}

-- kwargs without any key but the policy
abbrev pub only_decider : Decider → Kwargs
only_decider decider = record {
  work_dir = none;
  command = none;
  decider = some decider;
  target_pid = none;
  base_image = none;
  dockerfile_dir = none;
  extra_args = none;
  container_name = none;
  export_dir = none;
  build = none;
  session_id = none;
  firecracker_dir = none;
  inject_dir = none;
  pid = none;
  microvm_ip = none;
  tap_dev = none;
  key = none;
  checkpoint_dir = none;
  vm_dir = none;
  fire_binary = none;
  api_socket = none;
}

abbrev pub backend_map : Dict String
backend_map =
    ("docker", "docker_build")
    ∷ ("podman", "podman_build")
    ∷ ("criu", "criu_build")
    ∷ ("hybrid", "hybrid_build")
    ∷ ("waypoint", "waypoint_build")
    ∷ ("ckpt", "waypoint_build")
    ∷ ("gvisor", "gvisor_build")
    ∷ ("firecracker", "firecracker_build")
    ∷ []

-- A class is called without arguments.
abbrev pub decider_map : Dict Decider
decider_map =
    ("random", random)
    ∷ ("always_true", always_true)
    ∷ ("always_false", always_false)
    ∷ ("threshold", threshold default_threshold)
    ∷ []

unfoldable pub chosen_decider : String → ℕ → Result Decider
chosen_decider decider_name limit =
    if decider_name == "threshold"
    then ok (threshold limit)
    else required decider_name (get decider_map decider_name)

unfoldable pub build_manager : (ℤ → Result (Unit {0})) → String → String → ℕ → Result Created
build_manager open_process method decider_name limit = do
  method_key ← required method (get backend_map method)
  decider ← chosen_decider decider_name limit
  create_env_manager open_process method_key (only_decider decider)

-- The policy that a name of the command line stands for.
abbrev pub Names : String → ℕ → Decider → Type 0
Names name limit decider =
    ((name ≡ "random") × (decider ≡ random))
    ⊎ ((name ≡ "always_true") × (decider ≡ always_true))
    ⊎ ((name ≡ "always_false") × (decider ≡ always_false))
    ⊎ ((name ≡ "threshold") × (decider ≡ threshold limit))

-- The constructions that build an environment, by the name of the command line.
abbrev Builds : (ℤ → Result (Unit {0})) → Decider → String → Type 0
Builds open_process decider method =
    (key : String) × (c : Construction) × (get backend_map method ≡ some key)
    × (create open_process key (only_decider decider) ≡ ok c)

abbrev Chooses : ℕ → String → Type 0
Chooses limit name =
    (decider : Decider) × (chosen_decider name limit ≡ ok decider) × Names name limit decider
