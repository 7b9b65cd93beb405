-- ===== src/Search/Least.antt =====
-- The least score, and the scores of the candidates that move.
use state_fork.Prelude.{
  All, Bool-cases, List, [], ap, arith, inl, inr, leb, map, refl, some, subst, suc, zero, ℕ, ℤ,
  ◌&&◌, ◌*◌, ◌+◌, ◌<◌, ◌∷◌, ◌≡◌, ◌≤◌,
}
use state_fork.Search.{
  Score, better, better_of, distance, expected, min_score, moves_from, score, value_at,
}

-- The least score has what all have.
pub min_score-All :
    (P : Score → Type 0) (s : Score) (ss : List Score) → P s → All P ss → P (min_score s ss)
unfolding min_score
min_score-All P s [] p ps = p
min_score-All P s (t ∷ ts) p (q, qs) = elim (Bool-cases (better t s)) [
  | inl e ↦ simp e (min_score-All P t ts q qs)
  | inr e ↦ simp e (min_score-All P s ts p qs)
]

-- The least score is at most as far away as the first one, and as the others.
pub min_score-away : (s : Score) (ss : List Score) → (min_score s ss).away ≤ s.away
unfolding min_score better
min_score-away s [] = omega arith
min_score-away s (t ∷ ts) = elim (Bool-cases (better t s)) [
  | inl e ↦ simp e (ground (arith, e, min_score-away t ts))
  | inr e ↦ simp e (min_score-away s ts)
]

better_of-away : (t s : Score) → (better_of t s).away ≤ t.away
unfolding better
better_of-away t s = ground arith

pub min_score-others :
    (s : Score) (ss : List Score) (best : Score)
    → min_score s ss ≡ best
    → All (λ t. best.away ≤ t.away) ss
unfolding min_score
min_score-others s [] best e = tt
min_score-others s (t ∷ ts) best e = (
  omega (arith, ap (λ b. b.away) e, min_score-away (better_of t s) ts, better_of-away t s),
  min_score-others (better_of t s) ts best e,
)

module _ (target : ℤ) (value step : ℕ) where
  abbrev pub scores : ℕ → ℕ → List Score
  scores index n = map (score target) (expected value (moves_from step index n))

  pub record Fits (low high : ℕ) (s : Score) : Type 0 where
    pub away : s.away ≡ distance target (value + s.index * step)
    pub above : low ≤ s.index
    pub below : s.index < high

  pub scores-Fits :
      (low high index n : ℕ) → low ≤ index → index + n ≤ high → All (Fits low high) (scores index n)
  unfolding expected moves_from
  scores-Fits low high index zero above below = tt
  scores-Fits low high index (suc n) above below = (
    record { away = refl; above = above; below = omega (arith, below) },
    scores-Fits low high (suc index) n (omega (arith, above)) (omega (arith, below)),
  )

  pub value_at-expected :
      (index n i : ℕ)
      → index ≤ i
      → i < index + n
      → value_at (expected value (moves_from step index n)) i ≡ some (value + i * step)
  unfolding value_at expected moves_from
  value_at-expected index zero i above below = absurd (omega (arith, above, below))
  value_at-expected index (suc n) i above below = elim (Bool-cases (leb index i && leb i index)) [
    | inl e ↦
        let same : index ≡ i = ground (arith, e) in rw e (ap (λ j. some (value + j * step)) same)
    | inr e ↦
        rw e (value_at-expected (suc index) n i (ground (arith, e, above)) (omega (arith, below)))
  ]

  pub scores-away :
      (index n i bound : ℕ)
      → index ≤ i
      → i < index + n
      → All (λ t. bound ≤ t.away) (scores index n)
      → bound ≤ distance target (value + i * step)
  unfolding expected moves_from
  scores-away index zero i bound above below each = absurd (omega (arith, above, below))
  scores-away index (suc n) i bound above below (first, rest) = elim (Bool-cases (leb i index)) [
    | inl e ↦
        let same : index ≡ i = ground (arith, e, above) in
        subst (λ j. bound ≤ distance target (value + j * step)) same first
    | inr e ↦
        scores-away (suc index) n i bound (ground (arith, e, above)) (omega (arith, below)) rest
  ]
