-- ===== src/Tests/Searches.antt =====
-- Searches with numbers.
use state_fork.Prelude.{[], arith, pos, refl, some, ℕ, ◌-◌, ◌∷◌, ◌≡◌, ◌≤◌}
use state_fork.Search.{
  advance, all_answered, better, distance, expected, expected_winner, insert, moves, moves_from,
  remaining, scored, search_from, sorted, step_of, value_at, winner,
}
use state_fork.Search.Choice.{winner-expected}
use state_fork.Search.Progress.{advance-past, search_from-reaches}

winner-expected_example :
    winner (pos 10) (all_answered ((1, 8) ∷ (2, 12) ∷ (3, 16) ∷ []))
    ≡ expected_winner (pos 10) ((1, 8) ∷ (2, 12) ∷ (3, 16) ∷ [])
winner-expected_example = winner-expected (pos 10) ((1, 8) ∷ (2, 12) ∷ (3, 16) ∷ [])

search_from-reaches_example : (n : ℕ) × (n ≤ 1000 - 0) × (search_from 4 (pos 1000) n 0 ≡ 1000)
search_from-reaches_example = search_from-reaches 4 1000 0 (omega arith) (omega arith)

advance-past_example : advance 4 (pos 1000) 1000 ≡ some 1001
advance-past_example = advance-past 4 1000 1000 (omega arith) (omega arith)

-- The search of the default arguments.
default_search : search_from 4 (pos 1000) 3 0 ≡ 984
unfolding search_from advance distance remaining step_of moves moves_from expected better winner
    scored insert sorted value_at
default_search = refl
