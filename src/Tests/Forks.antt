-- ===== src/Tests/Forks.antt =====
-- A search over forks on the backend in memory.
use state_fork.Prelude.{refl}
use state_fork.Exec.{ok}
use state_fork.Tests.Unfold.{managers}
use state_fork.Dict.{get}
use state_fork.Prelude.{false, true, ◌≡◌, arith, ℕ, List, some, none, [], ◌∷◌}
use state_fork.Manager.State.{line, new_manager}
use state_fork.Manager.Sound.{IsSound-new_manager}
use state_fork.Forkable.State.{Forkable}
use state_fork.Forkable.Sound.{IsForkSound}
use state_fork.Forkable.Sound.Calls.{
  Call, snapshots, forks, executes_on, discards, restores, run, run-IsForkSound,
}
use state_fork.Decider.{always_true}
use state_fork.Manager.Restore.{restore}
use state_fork.Forkable.Branches.{discard_branch, fork}
use state_fork.Forkable.Park.{park_branch}
use state_fork.Forkable.Restore.{hooks}
use state_fork.Forkable.Sound.{Untouched}
use state_fork.Forkable.Behaviour.Discard.{DiscardOutcome, discard_branch-outcome}
use state_fork.Forkable.Behaviour.Park.{ParkOutcome, park_branch-outcome}
use state_fork.Forkable.Behaviour.Fork.{ForkOutcome, fork-outcome}
use state_fork.Forkable.Behaviour.Refused.{restore-refused}
use state_fork.Forkable.Sound.Calls.{step}
use state_fork.Tests.Box.{name}
use state_fork.Tests.Memory.{memory, memory-Contract}

abbrev pub start : Forkable (Unit {0}) ℕ
start = new_manager "Memory" (some always_true) (record { live_branches = []; backend = 0 })

start-IsForkSound : IsForkSound start
unfolding new_manager get
start-IsForkSound = record {
  base = IsSound-new_manager "Memory" (some always_true) _;
  live = λ id h. absurd (ground arith);
  filed = λ id b h. absurd (ground arith);
}

abbrev search_calls : List Call
search_calls =
    snapshots
    ∷ forks "s" 2 (some ("x" ∷ "y" ∷ []))
    ∷ executes_on "x" (line "probe") none
    ∷ discards "x"
    ∷ restores "s"
    ∷ []

run-IsForkSound_example : IsForkSound (run memory search_calls start)
run-IsForkSound_example =
    run-IsForkSound memory memory-Contract search_calls start start-IsForkSound

-- After a snapshot and a fork, `x` is a live branch beside `main`.
abbrev forked : Forkable (Unit {0}) ℕ
forked = run memory (snapshots ∷ forks "s" 2 (some ("x" ∷ "y" ∷ [])) ∷ []) start

forked-IsForkSound : IsForkSound forked
forked-IsForkSound =
    run-IsForkSound memory memory-Contract (snapshots ∷ forks "s" 2 (some ("x" ∷ "y" ∷ [])) ∷ [])
      start start-IsForkSound

discard_branch-outcome_example :
    DiscardOutcome "x" forked
      (discard_branch memory "x" forked).0
      (discard_branch memory "x" forked).1
discard_branch-outcome_example = discard_branch-outcome memory memory-Contract "x" forked

discarded : (discard_branch memory "x" forked).0 ≡ ok true
unfolding managers run step name
discarded = refl

park_branch-outcome_example :
    ParkOutcome "x" forked (park_branch memory "x" forked).0 (park_branch memory "x" forked).1
park_branch-outcome_example =
    park_branch-outcome memory memory-Contract "x" forked forked-IsForkSound

parked : (park_branch memory "x" forked).0 ≡ ok (some "saaa")
unfolding managers run step name
parked = refl

fork-outcome_example :
    ForkOutcome forked (fork memory "s" 3 none forked).0 (fork memory "s" 3 none forked).1
fork-outcome_example = fork-outcome memory memory-Contract "s" 3 none forked

refused : (restore (hooks memory) "unknown" forked).0 ≡ ok false
unfolding managers run step name
refused = refl

restore-refused_example : Untouched forked (restore (hooks memory) "unknown" forked).1
restore-refused_example = restore-refused memory memory-Contract "unknown" forked refused
