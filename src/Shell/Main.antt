-- ===== src/Shell/Main.antt =====
-- interface/shell.py: `main`, after the command line is parsed.
pub mod Codes
use state_fork.Prelude.{Bool, List, Option, String, [], false, none, some, true, ℕ, ◌++◌, ◌∷◌}
use state_fork.Exec.{Exec, Result, err, ok, pure, ◌>>=◌, ◌>>◌}
use state_fork.Manager.Copy.{cleanup}
use state_fork.Shell.Api.{Api}
use state_fork.Shell.Commands.{Printed}
use state_fork.Shell.Loop.{interactive_shell, round}

-- How the input goes on after the last line: it ends, or Ctrl-C comes while the shell waits.
pub data Ending : Type 0 where
  end_of_input interrupt : Ending

-- The exit code of the process, and the manager as it was left, if one was built.
pub record Exited (S : Type 0) : Type 0 where
  pub code : ℕ
  pub manager : Option S

module _ {S : Type 0} (api : Api S) where
  unfoldable pub prepend : List Printed → Option (List Printed) → Option (List Printed)
  prepend printed none = none
  prepend printed (some later) = some (printed ++ later)

  unfoldable pub session_on :
      Bool → List Printed → Exec S (Option (List Printed)) → Exec S (Option (List Printed))
  session_on false printed rest = pure (some printed)
  session_on true printed rest = rest >>= λ later. pure (prepend printed later)

  -- The loop of the shell where a Ctrl-C comes after the lines: `none` is a `KeyboardInterrupt`.
  unfoldable pub session : Bool → List String → Exec S (Option (List Printed))
  session heading [] = pure none
  session heading (input ∷ inputs) = do
    now ← round api heading input
    session_on now.goes_on now.printed (session now.heading inputs)

  unfoldable pub shell_until : Ending → List String → Exec S (Option (List Printed))
  shell_until end_of_input inputs =
      interactive_shell api true inputs >>= λ printed. pure (some printed)
  shell_until interrupt inputs = session true inputs

  -- The handlers of `main`: a failed cleanup after an interrupt is logged.
  unfoldable pub exit_with : Result (Option (List Printed)) → S → Exited S
  exit_with (ok (some printed)) m = record { code = 0; manager = some m }
  exit_with (ok none) m = record { code = 1; manager = some (api.cleanup m).1 }
  exit_with (err exc) m = record { code = 1; manager = some m }

  unfoldable pub main : Result S → Ending → List String → Exited S
  main (err exc) ending inputs = record { code = 2; manager = none }
  main (ok m) ending inputs =
      let (outcome, later) = shell_until ending inputs m in exit_with outcome later
