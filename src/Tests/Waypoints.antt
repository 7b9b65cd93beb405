-- ===== src/Tests/Waypoints.antt =====
-- A Waypoint session whose program always succeeds.
use state_fork.Exec.{err}
use state_fork.Manager.Copy.{finalizer}
use state_fork.Waypoint.Process.{assert_supports_forking, binary_not_found}
use state_fork.Waypoint.Unsupported.{finalizer-attach}
use state_fork.Forkable.Restore.{hooks}
use state_fork.Prelude.{
  ℕ, suc, pos, String, List, Option, ◌≡◌, refl, some, none, [], ◌∷◌, true, false, ◌≤◌, ◌*◌,
}
use state_fork.Exec.{ok}
use state_fork.Exec.Done.{Done}
use state_fork.Exec.Keeps.{Keeps}
use state_fork.Benchmark.{BenchmarkStats, new_stats, add_entry}
use state_fork.Benchmark.Statistics.{time_statistics, statistics_of}
use state_fork.Benchmark.Summary.{summary, times_of, time_statistics-summary, mean-bounds}
use state_fork.Dict.{get}
use state_fork.Manager.State.{new_manager}
use state_fork.Forkable.Listing.{new_forkable, validate_decider}
use state_fork.Forkable.Sound.{IsForkSound, Contract}
use state_fork.Forkable.Sound.Calls.{snapshots, parks, run}
use state_fork.Waypoint.State.{Tools, Session, Waypoint, completed}
use state_fork.Waypoint.Hooks.{waypoint}
use state_fork.Waypoint.Attach.{attach}
use state_fork.Waypoint.Attached.{attach-IsForkSound}
use state_fork.Waypoint.Contract.{waypoint-Contract}
use state_fork.Waypoint.Standing.{Standing, attach-Standing}
use state_fork.Waypoint.Sessions.{attach-run}
use state_fork.Tests.Box.{name}

abbrev program : Tools ℕ
program = record {
  waypoint_bin = "waypoint";
  executable = λ w. true;
  prefix = λ w. [];
  subprocess_run = λ words timeout w. (
    ok (
        completed (record {
          returncode = pos 0;
          stdout = "f1 pid=42 socket=/s duration=312ms fork <session>";
          stderr = "";
        })),
    w,
  );
  decode = λ text. ok (record { checkpoints = none; forks = none });
  process_error = λ words code. "failed";
  seconds = λ timeout. "1";
  abspath = λ w path. path;
  getcwd = λ w. "/";
  counted = λ cls w. (1, w);
  coin = λ w. (true, w);
  uuid8 = λ w. (name w, suc w);
  uuid_hex = λ w. (name w, suc w);
  time = λ w. (w, w);
}

abbrev closed_session : Session ℕ
closed_session = record { session_id = "session"; forking_supported = false; world = 0 }

abbrev fresh : Waypoint ℕ
fresh = new_manager "Waypoint" none (record { live_branches = []; backend = closed_session })

constructed : new_forkable "Waypoint" none closed_session ≡ ok fresh
unfolding new_forkable validate_decider
constructed = refl

waypoint-Contract_example : Contract (waypoint program)
waypoint-Contract_example = waypoint-Contract program

attach-IsForkSound_example : Keeps IsForkSound (attach program)
attach-IsForkSound_example = attach-IsForkSound program

attach-Standing_example : Done Standing (attach program)
attach-Standing_example = attach-Standing program

attach-run_example :
    IsForkSound (run (waypoint program) (snapshots ∷ parks "f1" ∷ []) (attach program fresh).1)
attach-run_example =
    attach-run program none closed_session fresh (snapshots ∷ parks "f1" ∷ []) constructed

-- A program that cannot fork.
abbrev unforked : Tools ℕ
unforked = record program { executable = λ w. false }

unstarted : (assert_supports_forking unforked fresh).0 ≡ err (binary_not_found "waypoint")
unfolding assert_supports_forking new_manager
unstarted = refl

finalizer-attach_example :
    ((attach unforked fresh).0 ≡ err (binary_not_found "waypoint"))
    × (finalizer (hooks (waypoint unforked)) (attach unforked fresh).1
        ≡ (ok tt, (attach unforked fresh).1))
finalizer-attach_example = finalizer-attach unforked fresh (binary_not_found "waypoint") unstarted

-- A child that is listed before its parent.
abbrev listing : List (String × Option String)
listing = ("b", some "a") ∷ ("a", none) ∷ []

abbrev measured : BenchmarkStats
measured = add_entry "fork" "b" 3 "main" (add_entry "exec" "a" 5 "main" new_stats)

time_statistics-summary_example :
    get (time_statistics measured) "exec" ≡ summary (times_of "exec" measured.log)
time_statistics-summary_example = time_statistics-summary measured "exec"

mean-bounds_example :
    ((statistics_of "seconds" 3 (5 ∷ [])).min
        * (statistics_of "seconds" 3 (5 ∷ [])).mean.denominator
      ≤ (statistics_of "seconds" 3 (5 ∷ [])).mean.numerator)
    × ((statistics_of "seconds" 3 (5 ∷ [])).mean.numerator
        ≤ (statistics_of "seconds" 3 (5 ∷ [])).max
          * (statistics_of "seconds" 3 (5 ∷ [])).mean.denominator)
mean-bounds_example = mean-bounds "seconds" 3 (5 ∷ [])
