-- ===== src/Tests/Backends.antt =====
-- Processes in memory, and what is known of managers of the sequential backends at them.
use state_fork.Prelude.{none, nonempty, pos, some, suc, true, ℕ, ℤ, ◌≡◌}
use state_fork.Exec.{Result, err, no_such_process, ok}
use state_fork.Decider.{Decider, always_true}
use state_fork.Manager.State.{Manager}
use state_fork.Backends.Platform.{Platform, Processes}
use state_fork.Backends.Host.{Host}
use state_fork.Backends.Registry.Starts.{started-Stocked}
use state_fork.Backends.Criu.{Criu, new_criu}
use state_fork.Backends.Container.{Container, container, new_container}
use state_fork.Manager.Stable.Calls.{run}
use state_fork.Tests.Box.{name}
use Prim.Native.String.append
use text.Mathlib.TextLemmas.{cons-ne-nil}
use state_fork.Backends.Registry.{nonempty_iff}
use state_fork.Backends.Container as C
use state_fork.Backends.Hybrid as H
use state_fork.Backends.Hybrid.{Hybrid}
use state_fork.Tests.Docker.{Docker, docker, history, running}
use state_fork.Backends.Registry.{Stocked}

abbrev processes : Processes Docker
processes = record {
  show_pid = λ pid. "7";
  popen = λ words w. (ok (pos 7), w);
  poll = λ pid w. (none, w);
  pid_exists = λ pid w. (true, w);
  open_process = λ pid w. (ok tt, w);
  terminate = λ pid w. (ok tt, w);
  is_running = λ pid w. (true, w);
  kill = λ pid w. (ok tt, w);
  wait = λ pid timeout w. (ok tt, w);
}

drawn : (w : Docker) → nonempty (docker.uuid8 w).0 ≡ true
unfolding name
drawn w = rw append.cons ((nonempty_iff _).1 (cons-ne-nil _ _))

abbrev attached : Manager (Host Container Docker)
attached =
    (C.attach docker "app:base"
      (C.new_container docker ("docker", "Docker") "app" none (some always_true) running)).1

started-Stocked_example : Stocked (run (container docker) history attached)
started-Stocked_example =
    (started-Stocked docker drawn processes history (some always_true) running).0
      ("docker", "Docker") "app" "app:base" none

abbrev joined : Manager (Host Hybrid Docker)
joined = (H.start docker (H.new_hybrid docker "app" "/tmp" none running)).1

-- A clock that goes on by one with every reading.
abbrev ticking : Platform ℕ
ticking = record {
  subprocess_run =
      λ words timeout w. (ok (record { returncode = pos 0; stdout = ""; stderr = "" }), w);
  process_error = λ words code. "failed";
  makedirs = λ path w. (ok tt, w);
  rmtree = λ path w. w;
  abspath = λ path w. path;
  uuid8 = λ w. ("a", w);
  uuid4 = λ w. ("a", w);
  uuid_hex = λ w. ("a", w);
  coin = λ w. (true, w);
  time = λ w. (w, suc w);
  counted = λ cls w. (1, w);
}

-- A process that does not end.
abbrev stubborn : Processes ℕ
stubborn = record {
  show_pid = λ pid. "7";
  popen = λ words w. (ok (pos 7), w);
  poll = λ pid w. (none, w);
  pid_exists = λ pid w. (true, w);
  open_process = λ pid w. (ok tt, w);
  terminate = λ pid w. (ok tt, w);
  is_running = λ pid w. (true, w);
  kill = λ pid w. (ok tt, w);
  wait = λ pid timeout w. (ok tt, w);
}

abbrev waiting : Manager (Host Criu ℕ)
waiting = new_criu ticking stubborn "/tmp/statefork_criu" none 0

abbrev no_process : ℤ → Result (Unit {0})
no_process pid = err (record { kind = no_such_process; message = "" })
