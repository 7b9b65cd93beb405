-- ===== src/Tests/Shells.antt =====
-- The shell on the forkable backend in memory.
use state_fork.Prelude.{ℕ}
use state_fork.Exec.{ok}
use state_fork.Text.{after_space}
use state_fork.Shell.Main.{end_of_input, exit_with, main, shell_until}
use state_fork.Shell.Main.Codes.{main-CleanedUp}
use state_fork.Shell.Loop.{exit_round, going_on, round, run_verb, set_round, then_on}
use state_fork.Shell.Api.{sequential_api}
use state_fork.Forkable.State.{Forkable}
use state_fork.Prelude.{pos, String, List, ◌≡◌, refl, some, none, [], ◌∷◌, true}
use state_fork.Exec.Done.{Done}
use state_fork.Text.{
  is_space, is_break, pieces, only, split, lstrip, rstrip, strip, written_lines, partition, digits,
  positive, parse_int, starts_with,
}
use state_fork.Dict.{get, put}
use state_fork.Shell.Api.{forkable_api}
use state_fork.Shell.Loop.{
  interactive_shell, verb_of, exact_verb, forks_verb, fork_verb, other_verb,
}
use state_fork.Shell.Exits.{CleanedUp, interactive_shell-CleanedUp}
use state_fork.Waypoint.State.{WaypointFork}
use state_fork.Waypoint.Parse.{
  parse_fork_line, last, add_field, read_fields, read_pid, fork_of, read_line,
}
use state_fork.Tests.Memory.{memory}
use state_fork.Tests.Forks.{start}
use state_fork.Tests.Unfold.{managers}

abbrev typed : List String
typed = "snapshot" ∷ "fork s 2" ∷ "forks" ∷ "exit" ∷ []

interactive_shell-CleanedUp_example :
    Done (CleanedUp (forkable_api memory)) (interactive_shell (forkable_api memory) true typed)
interactive_shell-CleanedUp_example = interactive_shell-CleanedUp (forkable_api memory) true typed

abbrev watched : List String
watched = "stats" ∷ "set cmd off" ∷ []

left_at_end : (main (forkable_api memory) (ok start) end_of_input watched).code ≡ 0
unfolding managers main shell_until exit_with interactive_shell round run_verb verb_of exact_verb
    starts_with strip lstrip rstrip is_space going_on then_on set_round exit_round forkable_api
    sequential_api after_space partition
left_at_end = refl

main-CleanedUp_example :
    (left : Forkable (Unit {0}) ℕ) × ((main
        (forkable_api memory)
        (ok start)
        end_of_input
        watched).manager
      ≡ some left)
    × CleanedUp (forkable_api memory) left
main-CleanedUp_example =
    main-CleanedUp (forkable_api memory) (ok start) end_of_input watched left_at_end

-- The order of the tests matters: `forks` begins with `fork`.
forks_word : verb_of "forks" ≡ forks_verb
unfolding verb_of starts_with exact_verb
forks_word = refl

fork_word : verb_of "fork s1 3" ≡ fork_verb
unfolding verb_of starts_with exact_verb
fork_word = refl

snapshots_word : verb_of "snapshots" ≡ other_verb
unfolding verb_of starts_with exact_verb
snapshots_word = refl

-- A line of `waypoint fork`, in which the first `duration` counts.
abbrev forked : WaypointFork
forked = record {
  id = "f1";
  base_snapshot_id = "s1";
  status = "running";
  details = record { pid = pos 42; socket = "/s"; restore_duration = some "312ms" };
}

parsed : parse_fork_line "\nf1 pid=42 socket=/s duration=312ms duration=1ms\n" "s1" ≡ some forked
unfolding parse_fork_line last add_field read_fields read_pid fork_of read_line is_space is_break
    pieces only split lstrip rstrip strip written_lines partition digits positive parse_int get put
parsed = refl

no_line : parse_fork_line " \n " "s1" ≡ none
unfolding parse_fork_line last is_space is_break pieces only lstrip rstrip strip written_lines
no_line = refl
