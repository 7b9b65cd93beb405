-- ===== src/Shell/Exits.antt =====
-- How the shell ends.
use state_fork.Prelude.{String, Bool, true, false, List, [], ◌∷◌, ◌++◌, ◌≡◌, refl, arith}
use state_fork.Exec.{Exec, Result, ok, err, continue}
use state_fork.Exec.Ends.{Ends, Ends-bind}
use state_fork.Exec.Done.{Done, Done-map}
use state_fork.Text.{strip, lstrip, rstrip, is_space, starts_with, after_space}
use state_fork.Shell.Api.{Api}
use state_fork.Shell.Commands.{Printed, Round, text, stats_report}
use state_fork.Shell.Loop.{
  Verb, snapshot_verb, restore_verb, cmd_verb, forks_verb, fork_verb, fexec_verb, destroy_verb,
  tree_verb, stats_verb, history_verb, storage_verb, exit_verb, set_verb, other_verb, going_on,
  then_on, exit_round, run_verb, round, interactive_shell, verb_of, exact_verb, set_round,
}

module _ {S : Type 0} (api : Api S) where
  -- The manager as a cleanup left it.
  abbrev pub CleanedUp : S → Type 0
  CleanedUp s = (before : S) × (s ≡ (api.cleanup before).1)

  -- A round that ends the loop has cleaned up.
  pub record Stops (outcome : Result Round) (s : S) : Type 0 where
    pub cleaned : (now : Round) → outcome ≡ ok now → now.goes_on ≡ false → CleanedUp s

  abbrev GoesOn : Result Round → Type 0
  GoesOn outcome = (now : Round) → outcome ≡ ok now → now.goes_on ≡ true

  going_on-GoesOn :
      (heading : Bool) (command : Exec S (List Printed))
      → Ends GoesOn (going_on api heading command)
  unfolding going_on
  going_on-GoesOn heading command =
      Ends-bind command _ (λ e now h. absurd (ground arith))
        λ printed. record { at = λ s now h. ground arith }

  GoesOn-Stops : (r : Result Round) (s : S) → GoesOn r → Stops r s
  GoesOn-Stops r s g = record { cleaned = λ now h n. absurd (ground (arith, g now)) }

  set_round-goes_on : (heading : Bool) (config : String) → (set_round heading config).goes_on ≡ true
  unfolding set_round
  set_round-goes_on heading config = ground arith

  exit_round-CleanedUp : (heading : Bool) (s : S) → CleanedUp (exit_round api heading s).1
  unfolding exit_round
  exit_round-CleanedUp heading s = (s, kept (api.cleanup s).0 (api.cleanup s).1)
    where
      kept :
          (r : Result Bool) (s : S)
          → (continue {W = Round} r
              (λ ignored self. (
                ok (record {
                  printed = stats_report ∷ text "Cleaning up resources..." ∷ [];
                  heading = heading;
                  goes_on = false;
                }),
                self,
              ))
              s).1
            ≡ s
      kept (ok b) s = refl
      kept (err e) s = refl

  pub run_verb-Stops :
      (heading : Bool) (cmd : String) (verb : Verb) (s : S)
      → Stops (run_verb api heading cmd verb s).0 (run_verb api heading cmd verb s).1
  unfolding run_verb
  run_verb-Stops heading cmd exit_verb s = record {
    cleaned = λ now h n. exit_round-CleanedUp heading s;
  }
  run_verb-Stops heading cmd set_verb s =
      GoesOn-Stops _ _ λ now h. ground (arith, set_round-goes_on heading (after_space cmd))
  run_verb-Stops heading cmd snapshot_verb s = GoesOn-Stops _ _ ((going_on-GoesOn heading _).at s)
  run_verb-Stops heading cmd restore_verb s = GoesOn-Stops _ _ ((going_on-GoesOn heading _).at s)
  run_verb-Stops heading cmd cmd_verb s = GoesOn-Stops _ _ ((going_on-GoesOn heading _).at s)
  run_verb-Stops heading cmd forks_verb s = GoesOn-Stops _ _ ((going_on-GoesOn heading _).at s)
  run_verb-Stops heading cmd fork_verb s = GoesOn-Stops _ _ ((going_on-GoesOn heading _).at s)
  run_verb-Stops heading cmd fexec_verb s = GoesOn-Stops _ _ ((going_on-GoesOn heading _).at s)
  run_verb-Stops heading cmd destroy_verb s = GoesOn-Stops _ _ ((going_on-GoesOn heading _).at s)
  run_verb-Stops heading cmd tree_verb s = GoesOn-Stops _ _ ((going_on-GoesOn heading _).at s)
  run_verb-Stops heading cmd stats_verb s = GoesOn-Stops _ _ ((going_on-GoesOn heading _).at s)
  run_verb-Stops heading cmd history_verb s = GoesOn-Stops _ _ ((going_on-GoesOn heading _).at s)
  run_verb-Stops heading cmd storage_verb s = GoesOn-Stops _ _ ((going_on-GoesOn heading _).at s)
  run_verb-Stops heading cmd other_verb s = GoesOn-Stops _ _ ((going_on-GoesOn heading _).at s)

  then_on-CleanedUp :
      (on : Bool) (printed : List Printed) (rest : Exec S (List Printed)) (s : S)
      → (on ≡ false → CleanedUp s)
      → Done CleanedUp rest
      → (all : List Printed) → (then_on api on printed rest s).0 ≡ ok all
      → CleanedUp (then_on api on printed rest s).1
  unfolding then_on
  then_on-CleanedUp false printed rest s stopped d all h = stopped refl
  then_on-CleanedUp true printed rest s stopped d all h =
      (Done-map rest (λ later. printed ++ later) d).at s all h

  -- The rest of the loop, after a round.
  abbrev rest_of : List String → Round → Exec S (List Printed)
  rest_of inputs now =
      then_on api now.goes_on now.printed (interactive_shell api now.heading inputs)

  finished :
      (inputs : List String) (r : Result Round) (s : S)
      → Stops r s
      → ((heading : Bool) → Done CleanedUp (interactive_shell api heading inputs))
      → (printed : List Printed) → (continue r (rest_of inputs) s).0 ≡ ok printed
      → CleanedUp (continue r (rest_of inputs) s).1
  finished inputs (err e) s stops later printed h = absurd (ground arith)
  finished inputs (ok now) s stops later printed h =
      then_on-CleanedUp now.goes_on now.printed (interactive_shell api now.heading inputs) s
        (stops.cleaned now refl) (later now.heading) printed h

  -- The word `exit` stops the loop.
  exit_round_lem : (heading : Bool) (s : S) → CleanedUp (round api heading "exit" s).1
  unfolding round run_verb verb_of exact_verb strip starts_with lstrip rstrip is_space exit_round
  exit_round_lem heading s = exit_round-CleanedUp heading s

  -- Whenever the shell returns, by `exit` or at the end of the input and whatever was typed before,
  -- the last thing that was done to the manager is a cleanup.
  pub interactive_shell-CleanedUp :
      (heading : Bool) (inputs : List String)
      → Done CleanedUp (interactive_shell api heading inputs)
  unfolding interactive_shell round
  interactive_shell-CleanedUp heading [] =
      Done-map (round api heading "exit") (λ last. text "" ∷ last.printed)
        (record { at = λ s now h. exit_round_lem heading s })
  interactive_shell-CleanedUp heading (input ∷ inputs) = record {
    at = λ s printed h.
        finished inputs (round api heading input s).0 (round api heading input s).1
          (run_verb-Stops heading (strip input) (verb_of (strip input)) s)
          (λ next. interactive_shell-CleanedUp next inputs) printed h;
  }
