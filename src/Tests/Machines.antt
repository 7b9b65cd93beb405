-- ===== src/Tests/Machines.antt =====
-- A virtual machine in memory, and its snapshots.
use state_fork.Prelude.{Option}
use state_fork.Prelude.{
  Bool, List, String, [], false, if◌then◌else◌, none, pos, refl, some, true, ◌==◌, ◌∷◌, ◌≡◌,
}
use state_fork.Exec.{ok}
use state_fork.Dict.{get}
use state_fork.Text.{is_space, lstrip, rstrip, strip}
use state_fork.Manager.State.{Manager, new_manager}
use state_fork.Backends.Platform.{Completed, Platform, Processes}
use state_fork.Backends.Host.{Host}
use state_fork.Backends.Firecracker.{
  Fire, Machine, capture, change_state, core_snapshot, create_args, create_snapshot, curl_args,
  new_fire, set_state, snapshot_created, snapshot_paused, snapshot_resumed, state_args, status_of,
}
use state_fork.Backends.Firecracker.Paused.{core_snapshot-paused}
use state_fork.Backends.Firecracker.Running.{core_snapshot-running}
use state_fork.Backends.Firecracker.Monitor.{IsMonitor, Refuses}
use state_fork.Tests.Unfold.{backends, managers}

-- The world is whether the machine runs. A creation of a snapshot is answered with `status`.
abbrev answers : String → List String → Bool → Completed × Bool
answers status
      (sudo ∷ curl ∷ s ∷ o ∷ null ∷ w ∷ code ∷ unix ∷ socket ∷ x ∷ method ∷ url ∷ h ∷ accept ∷ g
        ∷ type ∷ d ∷ body ∷ [])
      running =
    if method == "PATCH"
    then (
      record { returncode = pos 0; stdout = "204"; stderr = "" },
      body == "{\"state\": \"Resumed\"}",
    )
    else (record { returncode = pos 0; stdout = status; stderr = "" }, running)
answers status words running = (record { returncode = pos 0; stdout = ""; stderr = "" }, running)

abbrev host : String → Platform Bool
host status = record {
  subprocess_run = λ words timeout w. let (done, w') = answers status words w in (ok done, w');
  process_error = λ words code. "failed";
  makedirs = λ path w. (ok tt, w);
  rmtree = λ path w. w;
  abspath = λ path w. path;
  uuid8 = λ w. ("ab", w);
  uuid4 = λ w. ("ab", w);
  uuid_hex = λ w. ("ab", w);
  coin = λ w. (true, w);
  time = λ w. (0, w);
  counted = λ cls w. (1, w);
}

abbrev processes : Processes Bool
processes = record {
  show_pid = λ pid. "7";
  popen = λ words w. (ok (pos 7), w);
  poll = λ pid w. (none, w);
  pid_exists = λ pid w. (true, w);
  open_process = λ pid w. (ok tt, w);
  terminate = λ pid w. (ok tt, w);
  is_running = λ pid w. (true, w);
  kill = λ pid w. (ok tt, w);
  wait = λ pid timeout w. (ok tt, w);
}

abbrev machine : Machine Bool
machine = record {
  ssh_active = λ w. (true, w);
  connect = λ address w. (ok tt, w);
  ssh_run = λ command timeout w. (ok 0, w);
  ssh_output = λ channel w. (ok (record { returncode = pos 0; stdout = ""; stderr = "" }), w);
  ssh_close = λ w. w;
  wait_for = λ pid w. (ok tt, w);
  make_dir = λ path w. (ok tt, w);
  load_key = λ path w. (ok tt, w);
  resolve = λ path w. (path, w);
  json_text = λ text. text;
}

abbrev fire : Fire
fire = record {
  api_socket = "/tmp/firecracker.socket";
  tap_dev = "tap0";
  microvm_ip = "172.16.0.2";
  fire_binary = "/tmp/fire_vm/firecracker";
  fire_process = pos 7;
  checkpoint_dir = "/tmp/fire_ckpts";
  vm_dir = "/tmp/fire_vm";
}

host-IsMonitor : (status : String) → IsMonitor (host status) processes machine fire (λ w. w)
unfolding state_args curl_args create_args
host-IsMonitor status = record {
  pauses = λ w done e obeyed. refl;
  resumes = λ w done e obeyed. refl;
  creates = λ snapshot_path mem_file_path w. refl;
  resolves = λ path w. refl;
  times = λ w. refl;
}

host-Refuses : Refuses (host "400") processes machine fire
unfolding state_args curl_args create_args strip lstrip rstrip is_space
host-Refuses = record {
  paused = λ w. (record { returncode = pos 0; stdout = "204"; stderr = "" }, refl, refl);
  refused = λ snapshot_path mem_file_path w.
      (record { returncode = pos 0; stdout = "400"; stderr = "" }, refl, refl);
}

abbrev booted : String → Manager (Host Fire Bool)
booted status = new_fire (host status) processes machine fire none true

taken : (core_snapshot (host "204") processes machine "main" (booted "204")).0 ≡ ok (some "ab", 0)
unfolding managers backends new_fire core_snapshot capture set_state change_state status_of
    snapshot_paused create_snapshot snapshot_created snapshot_resumed state_args curl_args
    create_args strip lstrip rstrip is_space
taken = refl

failed : (core_snapshot (host "400") processes machine "main" (booted "400")).0 ≡ ok (none, 0)
unfolding managers backends new_fire core_snapshot capture set_state change_state status_of
    snapshot_paused create_snapshot snapshot_created snapshot_resumed state_args curl_args
    create_args strip lstrip rstrip is_space
failed = refl

core_snapshot-running_example :
    ((core_snapshot (host "204") processes machine "main" (booted "204")).1.extra.world ≡ true)
    × (get (core_snapshot (host "204") processes machine "main" (booted "204")).1.snapshots "ab"
        ≡ some "ab")
unfolding new_fire new_manager
core_snapshot-running_example =
    core_snapshot-running (host "204") processes machine fire (λ w. w) (host-IsMonitor "204") "main"
      (booted "204") "ab" 0 refl taken

core_snapshot-paused_example :
    (◌≡◌ {A = Option String} none none)
    × ((core_snapshot (host "400") processes machine "main" (booted "400")).1.extra.world ≡ false)
unfolding new_fire new_manager
core_snapshot-paused_example =
    core_snapshot-paused (host "400") processes machine fire (λ w. w) (host-IsMonitor "400")
      host-Refuses "main" (booted "400") (none, 0) refl failed
