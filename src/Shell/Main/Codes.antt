-- ===== src/Shell/Main/Codes.antt =====
-- The exit codes of the shell.
use state_fork.Shell.Main.{exit_with}
use state_fork.Prelude.{
  Bool, List, Option, String, [], arith, false, none, refl, some, subst, sym, true, ◌∷◌, ◌≡◌,
}
use state_fork.Exec.{Exec, Result, continue, err, ok, pure}
use state_fork.Text.{strip}
use state_fork.Exec.Done.{returned_by, same_self}
use state_fork.Shell.Api.{Api}
use state_fork.Shell.Commands.{Printed, Round}
use state_fork.Shell.Loop.{interactive_shell, round, verb_of}
use state_fork.Shell.Exits.{CleanedUp, Stops, interactive_shell-CleanedUp, run_verb-Stops}
use state_fork.Shell.Main.{
  Ending, end_of_input, interrupt, main, prepend, session, session_on, shell_until,
}

module _ {S : Type 0} (api : Api S) where
  -- A session that came to its end, and was not interrupted, has cleaned up.
  abbrev Cleans : Exec S (Option (List Printed)) → Type 0
  Cleans method =
      (m : S) (printed : List Printed)
      → (method m).0 ≡ ok (some printed)
      → CleanedUp api (method m).1

  prepended :
      (printed : List Printed) (r : Result (Option (List Printed))) (m : S) (all : List Printed)
      → (continue {W = Option (List Printed)} r (λ later. pure (prepend api printed later)) m).0
        ≡ ok (some all)
      → (later : List Printed) × (r ≡ ok (some later))
        × ((continue {W = Option (List Printed)} r (λ later. pure (prepend api printed later)) m).1
            ≡ m)
  unfolding prepend
  prepended printed (ok (some later)) m all e = (later, refl, refl)
  prepended printed (ok none) m all e = absurd (ground (arith, e))
  prepended printed (err exc) m all e = absurd (ground (arith, e))

  session_on-Cleans :
      (on : Bool) (printed : List Printed) (rest : Exec S (Option (List Printed))) (m : S)
      → (on ≡ false → CleanedUp api m)
      → Cleans rest
      → (all : List Printed) → (session_on api on printed rest m).0 ≡ ok (some all)
      → CleanedUp api (session_on api on printed rest m).1
  unfolding session_on
  session_on-Cleans false printed rest m stopped cleans all e = stopped refl
  session_on-Cleans true printed rest m stopped cleans all e =
      let (later, returned, same) = prepended printed (rest m).0 (rest m).1 all e in
      subst (CleanedUp api) (sym same) (cleans m later returned)

  abbrev session_rest : List String → Round → Exec S (Option (List Printed))
  session_rest inputs now = session_on api now.goes_on now.printed (session api now.heading inputs)

  ended :
      (inputs : List String) (r : Result Round) (m : S)
      → Stops api r m
      → ((heading : Bool) → Cleans (session api heading inputs))
      → (printed : List Printed) → (continue r (session_rest inputs) m).0 ≡ ok (some printed)
      → CleanedUp api (continue r (session_rest inputs) m).1
  ended inputs (err exc) m stops later printed e = absurd (ground (arith, e))
  ended inputs (ok now) m stops later printed e =
      session_on-Cleans now.goes_on now.printed (session api now.heading inputs) m
        (stops.cleaned now refl) (later now.heading) printed e

  session-Cleans : (heading : Bool) (inputs : List String) → Cleans (session api heading inputs)
  unfolding session round
  session-Cleans heading [] m printed e = absurd (ground (arith, e))
  session-Cleans heading (input ∷ inputs) m printed e =
      ended inputs (round api heading input m).0 (round api heading input m).1
        (run_verb-Stops api heading (strip input) (verb_of (strip input)) m)
        (λ next. session-Cleans next inputs) printed e

  shell_until-Cleans :
      (ending : Ending) (inputs : List String) → Cleans (shell_until api ending inputs)
  unfolding shell_until
  shell_until-Cleans interrupt inputs m printed e = session-Cleans true inputs m printed e
  shell_until-Cleans end_of_input inputs m printed e =
      let (all, returned) =
        returned_by some (interactive_shell api true inputs m).0
          (interactive_shell api true inputs m).1 (some printed) e in
      subst (CleanedUp api)
        (sym (
          same_self some (interactive_shell api true inputs m).0
            (interactive_shell api true inputs m).1))
        ((interactive_shell-CleanedUp api true inputs).at m all returned)

  exit_with-CleanedUp :
      (r : Result (Option (List Printed))) (m : S)
      → ((printed : List Printed) → r ≡ ok (some printed) → CleanedUp api m)
      → (exit_with api r m).code ≡ 0
      → (left : S) × ((exit_with api r m).manager ≡ some left) × CleanedUp api left
  unfolding exit_with
  exit_with-CleanedUp (ok (some printed)) m cleaned e = (m, refl, cleaned printed refl)
  exit_with-CleanedUp (ok none) m cleaned e = absurd (ground (arith, e))
  exit_with-CleanedUp (err exc) m cleaned e = absurd (ground (arith, e))

  -- When the process ends with the exit code 0, a manager was built, and the last thing that was done
  -- to it is a cleanup, whatever was typed.
  pub main-CleanedUp :
      (built : Result S) (ending : Ending) (inputs : List String)
      → (main api built ending inputs).code ≡ 0
      → (left : S) × ((main api built ending inputs).manager ≡ some left) × CleanedUp api left
  unfolding main
  main-CleanedUp (err exc) ending inputs e = absurd (ground (arith, e))
  main-CleanedUp (ok m) ending inputs e =
      exit_with-CleanedUp (shell_until api ending inputs m).0 (shell_until api ending inputs m).1
        (λ printed returned. shell_until-Cleans ending inputs m printed returned) e
