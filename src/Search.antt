-- ===== src/Search.antt =====
-- scripts/search_workflow_demo.py: the moves and the choice of `run_generation`, and the loop of `main`
-- over the generations. A candidate is its index in `ids`.
pub mod Choice
pub mod Least
pub mod Progress
use state_fork.Prelude.{
  Bool, List, Option, [], if◌then◌else◌, leb, ltb, map, negsuc, none, pos, some, suc, zero, ℕ, ℤ,
  ◌&&◌, ◌*◌, ◌+◌, ◌-◌, ◌/◌, ◌||◌, ◌∷◌,
}
use state_fork.Dict.{values}

-- abs(target - value)
unfoldable pub distance : ℤ → ℕ → ℕ
distance (pos target) value = (target - value) + (value - target)
distance (negsuc n) value = suc n + value

-- max(0, target - current_value)
unfoldable pub remaining : ℤ → ℕ → ℕ
remaining (pos target) value = target - value
remaining (negsuc n) value = 0

abbrev pub at_least_one : ℕ → ℕ
at_least_one zero = 1
at_least_one (suc n) = suc n

unfoldable pub step_of : ℕ → ℤ → ℕ → ℕ
step_of fanout target value = at_least_one (remaining target value / fanout)

-- The moves of the candidates from an index on, and of all: the first one fails deliberately.
unfoldable pub moves_from : ℕ → ℕ → ℕ → List (ℕ × Option ℕ)
moves_from step index zero = []
moves_from step index (suc n) = (index, some (index * step)) ∷ moves_from step (suc index) n

unfoldable pub moves : ℕ → ℕ → List (ℕ × Option ℕ)
moves zero step = (0, none) ∷ []
moves (suc others) step = (0, none) ∷ moves_from step 1 others

unfoldable pub expected : ℕ → List (ℕ × Option ℕ) → List (ℕ × ℕ)
expected value [] = []
expected value ((index, none) ∷ ms) = expected value ms
expected value ((index, some move) ∷ ms) = (index, value + move) ∷ expected value ms

-- (abs(target - v), ids.index(c)), in the order of tuples
pub record Score : Type 0 where
  pub away : ℕ
  pub index : ℕ

abbrev pub score : ℤ → ℕ × ℕ → Score
score target (index, value) = record { away = distance target value; index = index }

unfoldable pub better : Score → Score → Bool
better s t = ltb s.away t.away || (leb s.away t.away && ltb s.index t.index)

abbrev pub better_of : Score → Score → Score
better_of s best = if better s best then s else best

-- min(expected, key=…), which keeps the first of equals
unfoldable pub min_score : Score → List Score → Score
min_score best [] = best
min_score best (s ∷ ss) = min_score (better_of s best) ss

unfoldable pub expected_winner : ℤ → List (ℕ × ℕ) → Option ℕ
expected_winner target [] = none
expected_winner target (item ∷ items) =
    some (min_score (score target item) (map (score target) items)).index

-- The scores of the candidates that gave a value.
unfoldable pub scored : ℤ → List (ℕ × Option ℕ) → List Score
scored target [] = []
scored target ((index, none) ∷ values) = scored target values
scored target ((index, some value) ∷ values) = score target (index, value) ∷ scored target values

-- sorted(…)
unfoldable pub insert : Score → List Score → List Score
insert s [] = s ∷ []
insert s (t ∷ ts) = let rest = insert s ts in if better t s then t ∷ rest else s ∷ t ∷ ts

unfoldable pub sorted : List Score → List Score
sorted [] = []
sorted (s ∷ ss) = insert s (sorted ss)

abbrev pub first_index : List Score → Option ℕ
first_index [] = none
first_index (s ∷ ss) = some s.index

unfoldable pub winner : ℤ → List (ℕ × Option ℕ) → Option ℕ
winner target values = first_index (sorted (scored target values))

-- gen.values[gen.winner]
unfoldable pub value_at : List (ℕ × ℕ) → ℕ → Option ℕ
value_at [] index = none
value_at ((i, value) ∷ items) index =
    let rest = value_at items index in if leb i index && leb index i then some value else rest

-- Every candidate gives the value that its move makes.
abbrev pub all_answered : List (ℕ × ℕ) → List (ℕ × Option ℕ)
all_answered [] = []
all_answered ((index, value) ∷ items) = (index, some value) ∷ all_answered items

abbrev pub winner_value : List (ℕ × ℕ) → Option ℕ → Option ℕ
winner_value items none = none
winner_value items (some index) = value_at items index

-- The value of the winner of a generation whose candidates all do their moves, but the first one.
unfoldable pub advance : ℕ → ℤ → ℕ → Option ℕ
advance fanout target value =
    let items = expected value (moves fanout (step_of fanout target value)) in
    winner_value items (winner target (all_answered items))

abbrev pub or_stop : ℕ → (ℕ → ℕ) → Option ℕ → ℕ
or_stop value later none = value
or_stop value later (some next) = later next

-- The loop over the generations, where each winner is sealed: it stops where there is no winner.
unfoldable pub search_from : ℕ → ℤ → ℕ → ℕ → ℕ
search_from fanout target zero value = value
search_from fanout target (suc generations) value =
    or_stop value (search_from fanout target generations) (advance fanout target value)
