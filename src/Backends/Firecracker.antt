-- ===== src/Backends/Firecracker.antt =====
-- controller/firecracker_env_manager.py: environments that are virtual machines of Firecracker.
pub mod Monitor
pub mod Running
pub mod Paused
use state_fork.Text.{at_code}
use state_fork.Prelude.{
  Bool, List, Option, String, [], false, if◌then◌else◌, none, nonempty, not, pos, some, true, ℕ, ℤ,
  ◌&&◌, ◌-◌, ◌<>◌, ◌==◌, ◌∷◌,
}
use state_fork.Exec.{
  Result, attempt, err, gets, modify, ok, other_error, pure, raise, runtime_error, ◌>>=◌, ◌>>◌,
}
use state_fork.Exec.Recover.{recover}
use state_fork.Text.{ends_in, path_join, strip}
use state_fork.Decider.{Decider}
use state_fork.Manager.State.{Command, ExecResult, Hooks, Manager, argv, line, new_manager}
use state_fork.Manager.Branches.{register_snapshot_resource, snapshot_resource}
use state_fork.Manager.Attach.{attach}
use state_fork.Backends.Platform.{Completed, Platform, Processes}
use state_fork.Backends.Host.{
  config, Host, HostOp, attach_calculator, call, check_call, copy_not_implemented, exec_result,
  on_world, reach, read, set_config,
}

-- What the backend calls beside `Platform` and `Processes`. `ssh_active` is whether there is an open
-- connection, `connect` opens one to a host, `ssh_run` is `exec_command` and gives a channel, and
-- `ssh_output` waits for the end of the command of a channel and reads what it wrote. `wait_for`
-- waits for the end of a process. `make_dir` is `mkdir(parents=True)`, which raises where the directory
-- exists, `load_key` reads a key, `resolve` makes a path absolute, and `json_text` is `json.dumps` of a
-- text.
pub record Machine (W : Type 0) : Type 0 where
  pub ssh_active : W → Bool × W
  pub connect : String → W → Result (Unit {0}) × W
  pub ssh_run : String → Option ℕ → W → Result ℕ × W
  pub ssh_output : ℕ → W → Result Completed × W
  pub ssh_close : W → W
  pub wait_for : ℤ → W → Result (Unit {0}) × W
  pub make_dir : String → W → Result (Unit {0}) × W
  pub load_key : String → W → Result (Unit {0}) × W
  pub resolve : String → W → String × W
  pub json_text : String → String

pub record Fire : Type 0 where
  pub api_socket : String
  pub tap_dev : String
  pub microvm_ip : String
  pub fire_binary : String
  pub fire_process : ℤ
  pub checkpoint_dir : String
  pub vm_dir : String

-- A call of the API, whose output is the HTTP status.
unfoldable pub curl_args : Fire → String → String → String → List String
curl_args c method url body =
    "sudo" ∷ "curl" ∷ "-s" ∷ "-o" ∷ "/dev/null" ∷ "-w" ∷ "%{http_code}" ∷ "--unix-socket"
    ∷ c.api_socket ∷ "-X" ∷ method ∷ url ∷ "-H" ∷ "Accept: application/json" ∷ "-H"
    ∷ "Content-Type: application/json" ∷ "-d" ∷ body ∷ []

unfoldable pub state_args : Fire → String → List String
state_args c state = curl_args c "PATCH" "http://localhost/vm" ("{\"state\": \"" <> state <> "\"}")

-- s.rstrip("&")
unfoldable pub without_ampersands : String → String
without_ampersands String.[] = String.[]
without_ampersands (String.◌∷◌ c s) =
    let rest = without_ampersands s in
    if at_code c b'&' && not (nonempty rest) then String.[] else String.◌∷◌ c rest

module _ {W : Type 0} (p : Platform W) (s : Processes W) (v : Machine W) where
  unfoldable pub status_of : List String → HostOp Fire W String
  status_of words = do done ← call p words; pure (strip done.stdout)

  unfoldable pub change_state : String → Fire → HostOp Fire W Bool
  change_state state c = do code ← status_of (state_args c state); pure (code == "204")

  -- `__pause_vm` and `__resume_vm`
  unfoldable pub set_state : String → HostOp Fire W Bool
  set_state state = do c ← config; change_state state c

  unfoldable pub create_args : Fire → String → String → List String
  create_args c snapshot_path mem_file_path = curl_args c "PUT" "http://localhost/snapshot/create" (
      "{\"snapshot_type\": \"Full\", \"snapshot_path\": "
      <> v.json_text snapshot_path
      <> ", \"mem_file_path\": "
      <> v.json_text mem_file_path
      <> "}")

  unfoldable pub load_args : Fire → String → String → List String
  load_args c snapshot_path mem_path = curl_args c "PUT" "http://localhost/snapshot/load" (
      "{\"snapshot_path\": "
      <> v.json_text snapshot_path
      <> ", \"mem_file_path\": "
      <> v.json_text mem_path
      <> ", \"resume_vm\": true}")

  -- The elapsed time of a failure is `None` in the source, and 0 here.
  unfoldable pub snapshot_resumed : String → ℕ → Bool → HostOp Fire W (Option String × ℕ)
  snapshot_resumed snapshot_id start false = pure (none, 0)
  snapshot_resumed snapshot_id start true = do
    stop ← read p.time
    modify (register_snapshot_resource snapshot_id snapshot_id)
    pure (some snapshot_id, stop - start)

  unfoldable pub snapshot_created : String → ℕ → String → HostOp Fire W (Option String × ℕ)
  snapshot_created snapshot_id start code =
      if code == "400"
      then pure (none, 0)
      else (set_state "Resumed" >>= snapshot_resumed snapshot_id start)

  unfoldable pub create_snapshot : String → ℕ → Fire → HostOp Fire W (Option String × ℕ)
  create_snapshot snapshot_id start c = do
    let snapshot_dir = path_join c.checkpoint_dir snapshot_id
    snapshot_path ← read (v.resolve (path_join snapshot_dir "snap"))
    mem_file_path ← read (v.resolve (path_join snapshot_dir "mem"))
    code ← status_of (create_args c snapshot_path mem_file_path)
    snapshot_created snapshot_id start code

  unfoldable pub snapshot_paused : String → ℕ → Bool → HostOp Fire W (Option String × ℕ)
  snapshot_paused snapshot_id start false = pure (none, 0)
  snapshot_paused snapshot_id start true = do c ← config; create_snapshot snapshot_id start c

  unfoldable pub capture : String → Fire → HostOp Fire W (Option String × ℕ)
  capture snapshot_id c = do
    reach (p.makedirs (path_join c.checkpoint_dir snapshot_id))
    start ← read p.time
    paused ← set_state "Paused"
    snapshot_paused snapshot_id start paused

  unfoldable pub core_snapshot : String → HostOp Fire W (Option String × ℕ)
  core_snapshot branch_id = do snapshot_id ← read p.uuid8; c ← config; capture snapshot_id c

  unfoldable pub connect_unless : Bool → HostOp Fire W Unit
  connect_unless true = pure tt
  connect_unless false = do c ← config; reach (v.connect c.microvm_ip)

  unfoldable pub open_ssh : HostOp Fire W Unit
  open_ssh = do active ← read v.ssh_active; connect_unless active

  unfoldable pub reboot : HostOp Fire W Unit
  reboot = do
    reach (v.ssh_run "reboot" none)
    reach (λ w. (ok tt, v.ssh_close w))
    c ← config
    reach (v.wait_for c.fire_process)

  unfoldable pub launch : HostOp Fire W Unit
  launch = do
    c ← config
    call p ("sudo" ∷ "rm" ∷ "-f" ∷ c.api_socket ∷ [])
    pid ← reach (s.popen ("sudo" ∷ c.fire_binary ∷ "--api-sock" ∷ c.api_socket ∷ []))
    modify (set_config (record c { fire_process = pid }))

  -- `except Exception: raise RuntimeError(…)`
  unfoldable pub launched : Result (Unit {0}) → HostOp Fire W Unit
  launched (ok done) = pure tt
  launched (err exc) = do
    c ← config
    raise (record {
      kind = runtime_error;
      message = "Failed to start firecracker process on socket " <> c.api_socket;
    })

  unfoldable pub loaded : ℕ → String → HostOp Fire W (Bool × ℕ)
  loaded start code =
      if code == "400" then pure (false, 0) else (read p.time >>= λ stop. pure (true, stop - start))

  unfoldable pub reload : String → HostOp Fire W (Bool × ℕ)
  reload snapshot_id = do
    open_ssh
    start ← read p.time
    reboot
    outcome ← attempt launch
    launched outcome
    c ← config
    let snapshot_dir = path_join c.checkpoint_dir snapshot_id
    snapshot_path ← read (v.resolve (path_join snapshot_dir "snap"))
    mem_path ← read (v.resolve (path_join snapshot_dir "mem"))
    code ← status_of (load_args c snapshot_path mem_path)
    loaded start code

  -- `if not snapshot_name`
  unfoldable pub restore_named : String → Option String → HostOp Fire W (Bool × ℕ)
  restore_named snapshot_id none = pure (false, 0)
  restore_named snapshot_id (some snapshot_name) =
      if nonempty snapshot_name then reload snapshot_id else pure (false, 0)

  unfoldable pub core_restore : String → String → HostOp Fire W (Bool × ℕ)
  core_restore snapshot_id branch_id = do
    snapshot_name ← gets (snapshot_resource snapshot_id)
    restore_named snapshot_id snapshot_name

  unfoldable pub remove_all : HostOp Fire W (Option Bool)
  remove_all = do
    open_ssh
    reboot
    c ← config
    check_call p ("sudo" ∷ "rm" ∷ "-f" ∷ c.api_socket ∷ [])
    check_call p ("sudo" ∷ "ip" ∷ "link" ∷ "del" ∷ c.tap_dev ∷ [])
    check_call p ("sudo" ∷ "rm" ∷ "-rf" ∷ c.checkpoint_dir ∷ [])
    check_call p ("sudo" ∷ "rm" ∷ "-rf" ∷ c.vm_dir ∷ [])
    pure none

  -- Every exception is logged.
  unfoldable pub core_cleanup : HostOp Fire W (Option Bool)
  core_cleanup = recover (λ exc. some none) remove_all

  unfoldable pub run_background : String → HostOp Fire W ExecResult
  run_background cmd = do
    reach (v.ssh_run ("bash -c 'nohup " <> cmd <> " > /dev/null 2>&1 & disown'") none)
    pure (record { returncode = pos 0; stdout = ""; stderr = "" })

  unfoldable pub run_foreground : String → Option ℕ → HostOp Fire W ExecResult
  run_foreground command timeout = do
    channel ← reach (v.ssh_run command timeout)
    done ← reach (v.ssh_output channel)
    pure (exec_result done)

  unfoldable pub run_line : String → Option ℕ → HostOp Fire W ExecResult
  run_line command timeout =
      if ends_in b'&' (strip command)
      then run_background (strip (without_ampersands (strip command)))
      else run_foreground command timeout

  unfoldable pub run_command : Command → Option ℕ → HostOp Fire W ExecResult
  run_command (line command) timeout = run_line command timeout
  run_command (argv words) timeout =
      raise (record { kind = other_error; message = "'list' object has no attribute 'strip'" })

  unfoldable pub core_exec : Command → Option ℕ → String → HostOp Fire W ExecResult
  core_exec command timeout branch_id = do open_ssh; run_command command timeout

  unfoldable pub firecracker : Hooks (Host Fire W)
  firecracker = record {
    core_snapshot = core_snapshot;
    core_restore = core_restore;
    core_cleanup = core_cleanup;
    core_exec = core_exec;
    core_copy = copy_not_implemented;
    after_snapshot = λ branch_id snapshot_id m. m;
    coin = on_world p.coin;
    uuid_hex = on_world p.uuid_hex;
    time = on_world p.time;
  }

  -- The rest of `FireAttachManager.__init__`, after the constructor of the base class.
  unfoldable pub start : String → HostOp Fire W Unit
  start key = do
    c ← config
    call p ("sudo" ∷ "rm" ∷ "-rf" ∷ c.checkpoint_dir ∷ [])
    reach (v.make_dir c.checkpoint_dir)
    attach firecracker
    attach_calculator p "FileSizeCalculator" "FileSizeCalculator"
    reach (v.load_key key)
    reach (v.connect c.microvm_ip)

  unfoldable pub new_fire : Fire → Option Decider → W → Manager (Host Fire W)
  new_fire c decider w = new_manager "Firecracker" decider (record { config = c; world = w })
