-- ===== src/Search/Progress.antt =====
-- How far a search comes.
use state_fork.Prelude.{
  All, Bool-cases, Option, ap, arith, inl, inr, ltb, pos, refl, some, subst, suc, sym, zero, ℕ, ℤ,
  ◌*◌, ◌+◌, ◌-◌, ◌/◌, ◌<◌, ◌∙◌, ◌≡◌, ◌≤◌, ◌⊎◌,
}
use state_fork.Search.{
  advance, at_least_one, distance, expected, expected_winner, min_score, moves, moves_from, or_stop,
  remaining, score, search_from, step_of, winner_value,
}
use state_fork.Search.Choice.{winner-expected}
use state_fork.Search.Least.{
  Fits, min_score-All, min_score-away, min_score-others, scores, scores-Fits, scores-away,
  value_at-expected,
}
use Prim.Native.Nat.{◌%◌}
use native.Mathlib.Nat.{div-add-mod, mod-lt}

-- The winner of a generation is one of the candidates that move, and none comes closer.
record Won (fanout : ℕ) (target : ℤ) (value step : ℕ) (next : Option ℕ) : Type 0 where
  index : ℕ
  moved : 1 ≤ index
  listed : index < fanout
  value_of : next ≡ some (value + index * step)
  closest :
      (i : ℕ)
      → 1 ≤ i
      → i < fanout
      → distance target (value + index * step) ≤ distance target (value + i * step)

advance-Won :
    (f : ℕ) (target : ℤ) (value : ℕ)
    → Won
        (suc (suc f))
        target
        value
        (step_of (suc (suc f)) target value)
        (advance (suc (suc f)) target value)
unfolding advance moves expected moves_from expected_winner
advance-Won f target value =
    let step = step_of (suc (suc f)) target value in
    let items = expected value (moves (suc (suc f)) step) in
    let others = scores target value step 2 f in
    let opening = score target (1, value + 1 * step) in
    let best = min_score opening others in
    let fits =
      min_score-All (Fits target value step 1 (suc (suc f))) opening others
        (record { away = refl; above = omega arith; below = omega arith })
        (scores-Fits target value step 1 (suc (suc f)) 2 f (omega arith) (omega arith)) in
    let each : All (λ t. best.away ≤ t.away) (scores target value step 1 (suc f)) =
      (min_score-away opening others, min_score-others opening others best refl) in
    record {
      index = best.index;
      moved = fits.above;
      listed = fits.below;
      value_of =
          ap (winner_value items) (winner-expected target items)
          ∙ value_at-expected target value step 1 (suc f) best.index fits.above
              (omega (arith, fits.below));
      closest = λ i above below.
          subst (λ d. d ≤ distance target (value + i * step)) fits.away
            (scores-away target value step 1 (suc f) i best.away above (omega (arith, below)) each);
    }

-- The quotient that the step is made of.
step-cases :
    (fanout r : ℕ)
    → 0 < fanout
    → ((r < fanout) × (at_least_one (r / fanout) ≡ 1))
      ⊎ ((fanout * at_least_one (r / fanout) ≤ r) × (1 ≤ at_least_one (r / fanout)))
step-cases fanout r some_fanout = cases (r / fanout) refl
  where
    cases :
        (q : ℕ)
        → r / fanout ≡ q
        → ((r < fanout) × (at_least_one q ≡ 1))
          ⊎ ((fanout * at_least_one q ≤ r) × (1 ≤ at_least_one q))
    cases zero e =
        let fact = subst (λ q. fanout * q + r % fanout ≡ r) e (div-add-mod r fanout) in
        inl (omega (arith, fact, mod-lt r some_fanout), refl)
    cases (suc q) e =
        let fact = subst (λ q. fanout * q + r % fanout ≡ r) e (div-add-mod r fanout) in
        inr (omega (arith, fact), omega arith)

up_small :
    (target value index step : ℕ)
    → step ≡ 1
    → 1 ≤ index
    → value < target
    → distance (pos target) (value + index * step)
      ≤ distance (pos target) (value + (target - value) * step)
    → (value < value + index * step) × (value + index * step ≤ target)
unfolding distance
up_small target value index step one moved below closest =
    let closer =
      subst
        (λ s.
          distance (pos target) (value + index * s)
          ≤ distance (pos target) (value + (target - value) * s))
        one closest in
    subst (λ s. (value < value + index * s) × (value + index * s ≤ target)) (sym one)
      (omega (arith, moved), omega (arith, closer, below))

up_large :
    (fanout target value index step : ℕ)
    → 1 ≤ step
    → 1 ≤ index
    → index < fanout
    → value < target
    → fanout * step ≤ target - value
    → (value < value + index * step) × (value + index * step ≤ target)
up_large fanout target value index step some_step moved listed below large =
    (grind arith, grind arith)

-- A generation below the target goes up, and not past it.
advance-up :
    (f target value : ℕ)
    → value < target
    → (next : ℕ) × (advance (suc (suc f)) (pos target) value ≡ some next)
      × (value < next)
      × (next ≤ target)
unfolding remaining step_of
advance-up f target value below =
    let w = advance-Won f (pos target) value in
    let step = step_of (suc (suc f)) (pos target) value in
    let (up, bound) : (value < value + w.index * step) × (value + w.index * step ≤ target) =
      elim (step-cases (suc (suc f)) (target - value) (omega arith)) [
        | inl (small, one) ↦
            up_small target value w.index step one w.moved below
              (w.closest (target - value) (omega (arith, below)) small)
        | inr (large, some_step) ↦
            up_large (suc (suc f)) target value w.index step some_step w.moved w.listed below large
      ] in
    (value + w.index * step, w.value_of, up, bound)

search_from-suc :
    (fanout : ℕ) (target : ℤ) (n value next : ℕ)
    → advance fanout target value ≡ some next
    → search_from fanout target (suc n) value ≡ search_from fanout target n next
unfolding search_from
search_from-suc fanout target n value next step =
    ap (or_stop value (search_from fanout target n)) step

reaches :
    (f target fuel value : ℕ)
    → value ≤ target
    → target - value ≤ fuel
    → (n : ℕ) × (n ≤ fuel) × (search_from (suc (suc f)) (pos target) n value ≡ target)
unfolding search_from
reaches f target zero value below enough = (0, omega arith, omega (arith, below, enough))
reaches f target (suc fuel) value below enough = elim (Bool-cases (ltb value target)) [
  | inr e ↦ (0, omega arith, ground (arith, e, below))
  | inl e ↦
      let (next, step, up, bound) = advance-up f target value (ground (arith, e)) in
      let (n, within, there) = reaches f target fuel next bound (omega (arith, up, enough)) in
      (
        suc n,
        omega (arith, within),
        search_from-suc (suc (suc f)) (pos target) n value next step ∙ there,
      )
]

-- With at least two candidates in each generation, all of which but the first do their moves, a search
-- from a value that is not above the target is at the target after some number of generations, at most
-- as many as the target is away.
pub search_from-reaches :
    (fanout target value : ℕ)
    → 2 ≤ fanout
    → value ≤ target
    → (n : ℕ) × (n ≤ target - value) × (search_from fanout (pos target) n value ≡ target)
search_from-reaches zero target value two below = absurd (omega (arith, two))
search_from-reaches (suc zero) target value two below = absurd (omega (arith, two))
search_from-reaches (suc (suc f)) target value two below =
    reaches f target (target - value) value below (omega arith)

past_one :
    (fanout target value step : ℕ) (next : Option ℕ)
    → 2 ≤ fanout
    → target ≤ value
    → step ≡ 1
    → Won fanout (pos target) value step next
    → next ≡ some (suc value)
unfolding distance
past_one fanout target value step next two past one w =
    let closest =
      subst
        (λ s. distance (pos target) (value + w.index * s) ≤ distance (pos target) (value + 1 * s))
        one (w.closest 1 (omega arith) (omega (arith, two))) in
    let first : w.index ≡ 1 = omega (arith, closest, w.moved, past) in
    w.value_of ∙ ap some (omega (arith, ap (λ s. w.index * s) one, first))

-- From the target on, every generation goes one further away from it.
pub advance-past :
    (fanout target value : ℕ)
    → 2 ≤ fanout
    → target ≤ value
    → advance fanout (pos target) value ≡ some (suc value)
unfolding remaining step_of
advance-past zero target value two past = absurd (omega (arith, two))
advance-past (suc zero) target value two past = absurd (omega (arith, two))
advance-past (suc (suc f)) target value two past =
    past_one (suc (suc f)) target value (step_of (suc (suc f)) (pos target) value) _ two past
      (one (step-cases (suc (suc f)) (target - value) (omega arith)))
      (advance-Won f (pos target) value)
  where
    one :
        ((target - value < suc (suc f)) × (at_least_one ((target - value) / suc (suc f)) ≡ 1))
          ⊎ ((suc (suc f) * at_least_one ((target - value) / suc (suc f)) ≤ target - value)
              × (1 ≤ at_least_one ((target - value) / suc (suc f))))
        → at_least_one ((target - value) / suc (suc f)) ≡ 1
    one (inl (small, e)) = e
    one (inr (large, some_step)) = absurd (omega (arith, past, large, some_step))
