-- ===== src/Tests/Docker.antt =====
-- A container engine in memory, and a snapshot of a container that is restored.
use state_fork.Manager.Snapshot.{snapshot}
use state_fork.Manager.Restore.{restore}
use state_fork.Prelude.{
  List, Option, String, [], ap, arith, eq_iff, eq_refl, if◌then◌else◌, ltb, none, pos, refl, some,
  suc, true, ℕ, ◌<>◌, ◌==◌, ◌∷◌, ◌≡◌, ◌≢◌,
}
use state_fork.Exec.{ok}
use state_fork.Dict.{Dict, get, put}
use state_fork.Dict.Laws.{get-put}
use state_fork.Decider.{always_true}
use state_fork.Manager.State.{Command, Manager, argv, line, new_manager}
use state_fork.Tests.Unfold.{managers, backends}
use state_fork.Tests.Box.{size, name, size-name}
use state_fork.Manager.Stable.Calls.{Call, snapshots, executes, restores, run}
use state_fork.Backends.Platform.{Platform}
use state_fork.Backends.Host.{Host, exec_args}
use state_fork.Backends.Container.{Container, commit_args, remove_args, run_args, container}
use state_fork.Backends.Container.Engine.{Engine, Kept, IsEngine, Kept-refl}
use state_fork.Backends.Container.Roundtrip.{restore-run-snapshot}

-- What a container holds is the number of the commands that it has run.
pub record Docker : Type 0 where
  pub live : Option ℕ
  pub images : Dict (Option ℕ)
  pub next : ℕ

abbrev flat : Option (Option ℕ) → Option ℕ
flat none = none
flat (some o) = o

abbrev one_more : Option ℕ → Option ℕ
one_more none = none
one_more (some n) = some (suc n)

-- docker commit NAME IMAGE
abbrev commits : List String → Docker → Docker
commits (box ∷ image ∷ []) w = record w { images = put w.images image w.live }
commits _ w = w

-- docker run -d --rm --name NAME IMAGE
abbrev runs : List String → Docker → Docker
runs (d ∷ rm ∷ flag ∷ box ∷ image ∷ []) w = record w { live = flat (get w.images image) }
runs _ w = w

abbrev obeys : List String → Docker → Docker
obeys (cmd ∷ verb ∷ words) w =
    if verb == "commit"
    then commits words w
    else if verb == "run"
    then runs words w
    else if verb == "rm"
    then record w { live = none }
    else if verb == "exec"
    then record w { live = one_more w.live }
    else w
obeys _ w = w

abbrev pub docker : Platform Docker
docker = record {
  subprocess_run = λ words timeout w.
      (ok (record { returncode = pos 0; stdout = "ok"; stderr = "" }), obeys words w);
  process_error = λ words code. "failed";
  makedirs = λ path w. (ok tt, w);
  rmtree = λ path w. w;
  abspath = λ path w. path;
  uuid8 = λ w. (name (suc (suc w.next)), record w { next = suc w.next });
  uuid4 = λ w. ("", w);
  uuid_hex = λ w. ("", w);
  coin = λ w. (true, w);
  time = λ w. (0, w);
  counted = λ cls w. (1, w);
}

abbrev engine : Engine Docker ℕ
engine = record {
  live = λ w. w.live;
  image = λ w i. flat (get w.images i);
  issued = λ w id. ltb (size id) (suc (suc w.next));
}

abbrev pub active : Container
active = record {
  backend_cmd = "docker";
  backend_name = "Docker";
  container_name = "app";
  extra_args = [];
  image_prefix = "app";
}

-- Programs that leave the images and the ids alone.
live-Kept : (w : Docker) (o : Option ℕ) → Kept engine w (record w { live = o })
live-Kept w o = record { images = λ i. refl; issued = λ id h. h }

exec-Kept :
    (command : Command) (timeout : Option ℕ) (w : Docker)
    → Kept engine w (docker.subprocess_run (exec_args "docker" "app" command) timeout w).1
unfolding exec_args
exec-Kept (argv words) timeout w = live-Kept w (one_more w.live)
exec-Kept (line text) timeout w = live-Kept w (one_more w.live)

hex-other : (w w' : Docker) → "v" <> "" ≢ name (suc (suc w.next))
unfolding size
hex-other w w' e = ground (arith, ap size e, size-name (suc (suc w.next)))

docker-IsEngine : IsEngine engine docker active
unfolding commit_args run_args remove_args
docker-IsEngine = record {
  commit_done = λ image w done e zero. rw get-put (rw eq_refl refl);
  commit_others = λ image other w different. ground (
    arith,
    get-put w.images image other w.live,
    eq_iff image other,
    λ (e : other ≡ image). different e,
  );
  commit_issued = λ image id w h. h;
  run_done = λ image w done e zero. refl;
  run_keeps = λ image w. live-Kept w _;
  remove_keeps = λ w. live-Kept w none;
  exec_keeps = exec-Kept;
  uuid8_new = λ w. ground (arith, size-name (suc (suc w.next)));
  uuid8_issued = λ w. ground (arith, size-name (suc (suc w.next)));
  uuid8_keeps = λ w. record { images = λ i. refl; issued = λ id h. ground arith };
  uuid8_live = λ w. refl;
  uuid8_hex = λ w w'. hex-other w w';
  uuid_hex_keeps = λ w. Kept-refl engine w;
  coin_keeps = λ w. Kept-refl engine w;
  time_keeps = λ w. Kept-refl engine w;
  time_live = λ w. refl;
}

abbrev pub running : Docker
running = record { live = some 5; images = []; next = 0 }

abbrev fresh : Manager (Host Container Docker)
fresh = new_manager "Docker" (some always_true) (record { config = active; world = running })

abbrev pub history : List Call
history =
    executes (line "make") none ∷ snapshots ∷ restores "missing" ∷ executes (line "rm") none ∷ []

taken : (snapshot (container docker) fresh).0 ≡ ok (some "aa")
unfolding managers backends name
taken = refl

restored :
    (restore
      (container docker)
      "aa"
      (run (container docker) history (snapshot (container docker) fresh).1)).0
    ≡ ok true
unfolding managers backends name run
restored = refl

restore-run-snapshot_example :
    engine.live
      (restore
        (container docker)
        "aa"
        (run (container docker) history (snapshot (container docker) fresh).1)).1.extra.world
    ≡ some 5
unfolding new_manager
restore-run-snapshot_example =
    restore-run-snapshot engine docker active docker-IsEngine fresh "aa" history refl refl taken
      restored
