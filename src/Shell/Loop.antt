-- ===== src/Shell/Loop.antt =====
-- interface/shell.py: the loop of `interactive_shell`.
use state_fork.Prelude.{
  ◌++◌, String, Bool, true, false, List, [], ◌∷◌, ◌<>◌, ◌||◌, ◌==◌, if◌then◌else◌, nonempty,
}
use state_fork.Exec.{Exec, pure, ◌>>=◌, ◌>>◌}
use state_fork.Text.{strip, split, starts_with, after_space, before_space}
use state_fork.Shell.Api.{Api}
use state_fork.Shell.Commands.{
  tail, Printed, text, stats_report, history_report, storage_report, tree_report, Round, say,
  with_fork_api, execute_command, snapshot_command, restore_command, cmd_command, forks_command,
  fork_parts, fexec_command, destroy_command,
}

-- The branches of the chain of tests, in its order.
pub data Verb : Type 0 where
  snapshot_verb restore_verb cmd_verb forks_verb fork_verb fexec_verb destroy_verb : Verb
  tree_verb stats_verb history_verb storage_verb exit_verb set_verb other_verb : Verb

unfoldable pub exact_verb : String → Verb
exact_verb cmd =
    if cmd == "tree"
    then tree_verb
    else if cmd == "stats"
    then stats_verb
    else if cmd == "history"
    then history_verb
    else if cmd == "storage"
    then storage_verb
    else if cmd == "exit"
    then exit_verb
    else if starts_with "set" cmd
    then set_verb
    else other_verb

unfoldable pub verb_of : String → Verb
verb_of cmd =
    if cmd == "snapshot" || starts_with "snapshot " cmd
    then snapshot_verb
    else if starts_with "restore" cmd
    then restore_verb
    else if starts_with "cmd" cmd
    then cmd_verb
    else if cmd == "forks"
    then forks_verb
    else if starts_with "fork" cmd
    then fork_verb
    else if starts_with "fexec" cmd
    then fexec_verb
    else if starts_with "destroy" cmd
    then destroy_verb
    else exact_verb cmd

-- `set cmd off` and `set cmd on`
unfoldable pub set_round : Bool → String → Round
set_round heading config =
    if nonempty config
    then if config == "cmd off"
      then record {
        printed = say ("Command input heading turned OFF." ∷ []);
        heading = false;
        goes_on = true;
      }
      else if config == "cmd on"
      then record {
        printed = say ("Command input heading turned ON." ∷ []);
        heading = true;
        goes_on = true;
      }
      else record {
        printed = say (("Unknown config: " <> config) ∷ []);
        heading = heading;
        goes_on = true;
      }
    else record { printed = say ("Usage: set <config>" ∷ []); heading = heading; goes_on = true }

abbrev available : String
available =
    "Available commands: snapshot [fork] [--park], restore <id>, cmd <command>, fork <id> [n], forks, fexec <fork> <cmd>, destroy <fork>, tree, stats, history, storage, exit, set"

module _ {S : Type 0} (api : Api S) where
  -- A round that prints and goes on.
  unfoldable pub going_on : Bool → Exec S (List Printed) → Exec S Round
  going_on heading command = do
    printed ← command
    pure (record { printed = printed; heading = heading; goes_on = true })

  unfoldable pub exit_round : Bool → Exec S Round
  exit_round heading = do
    api.cleanup
    pure (record {
      printed = stats_report ∷ text "Cleaning up resources..." ∷ [];
      heading = heading;
      goes_on = false;
    })

  -- An unknown command is told of, or run in the environment where the heading is turned off.
  unfoldable pub other_command : Bool → String → Exec S (List Printed)
  other_command true cmd = pure (say (("Unknown command: " <> cmd) ∷ available ∷ []))
  other_command false cmd = execute_command api cmd

  unfoldable pub run_verb : Bool → String → Verb → Exec S Round
  run_verb heading cmd snapshot_verb = going_on heading (snapshot_command api cmd)
  run_verb heading cmd restore_verb = going_on heading (restore_command api (after_space cmd))
  run_verb heading cmd cmd_verb = going_on heading (cmd_command api (after_space cmd))
  run_verb heading cmd forks_verb = going_on heading (forks_command api)
  run_verb heading cmd fork_verb =
      going_on heading (with_fork_api api (fork_parts api (tail (split cmd))))
  run_verb heading cmd fexec_verb =
      let rest = strip (after_space cmd) in
      going_on heading
        (with_fork_api api (fexec_command api (before_space rest) (after_space rest)))
  run_verb heading cmd destroy_verb =
      going_on heading (with_fork_api api (destroy_command api (strip (after_space cmd))))
  run_verb heading cmd tree_verb = going_on heading (pure (tree_report ∷ []))
  run_verb heading cmd stats_verb = going_on heading (pure (stats_report ∷ []))
  run_verb heading cmd history_verb = going_on heading (pure (history_report ∷ []))
  run_verb heading cmd storage_verb = going_on heading (pure (storage_report ∷ []))
  run_verb heading cmd exit_verb = exit_round heading
  run_verb heading cmd set_verb = pure (set_round heading (after_space cmd))
  run_verb heading cmd other_verb = going_on heading (other_command heading cmd)

  -- One line of input, stripped.
  unfoldable pub round : Bool → String → Exec S Round
  round heading input = let cmd = strip input in run_verb heading cmd (verb_of cmd)

  -- What a round printed, and what the rest of the loop prints where the loop goes on.
  unfoldable pub then_on : Bool → List Printed → Exec S (List Printed) → Exec S (List Printed)
  then_on false printed rest = pure printed
  then_on true printed rest = rest >>= λ later. pure (printed ++ later)

  -- The loop. At the end of the input a line is printed and the command is `exit`.
  unfoldable pub interactive_shell : Bool → List String → Exec S (List Printed)
  interactive_shell heading [] = do last ← round heading "exit"; pure (text "" ∷ last.printed)
  interactive_shell heading (input ∷ inputs) = do
    now ← round heading input
    then_on now.goes_on now.printed (interactive_shell now.heading inputs)
