-- ===== src/Search/Choice.antt =====
-- The two ways of choosing a winner.
use state_fork.Search.{all_answered}
use state_fork.Prelude.{
  Bool-cases, List, Option, [], ap, arith, inl, inr, map, none, refl, some, sym, ℕ, ℤ, ◌∙◌, ◌∷◌,
  ◌≡◌,
}
use state_fork.Search.{
  Score, better, better_of, expected_winner, first_index, insert, min_score, score, scored, sorted,
  winner,
}

abbrev first : List Score → Option Score
first [] = none
first (s ∷ ss) = some s

abbrev pick : Score → Option Score → Option Score
pick s none = some s
pick s (some t) = some (better_of t s)

first-insert : (s : Score) (ss : List Score) → first (insert s ss) ≡ pick s (first ss)
unfolding insert
first-insert s [] = refl
first-insert s (t ∷ ts) = elim (Bool-cases (better t s)) [ inl e ↦ rw e refl | inr e ↦ rw e refl ]

-- Three scores, compared from the left and from the right.
better_of-better_of : (x y s : Score) → better_of y (better_of x s) ≡ better_of (better_of y x) s
unfolding better
better_of-better_of x y s = ground arith

min_score-better_of :
    (s x : Score) (xs : List Score) → min_score (better_of x s) xs ≡ better_of (min_score x xs) s
unfolding min_score
min_score-better_of s x [] = refl
min_score-better_of s x (y ∷ ys) =
    ap (λ b. min_score b ys) (better_of-better_of x y s) ∙ min_score-better_of s (better_of y x) ys

first-sorted : (s : Score) (ss : List Score) → first (sorted (s ∷ ss)) ≡ some (min_score s ss)
unfolding sorted min_score
first-sorted s [] = first-insert s []
first-sorted s (x ∷ xs) =
    first-insert s (sorted (x ∷ xs))
    ∙ ap (pick s) (first-sorted x xs)
    ∙ ap some (sym (min_score-better_of s x xs))

scored-all_answered :
    (target : ℤ) (items : List (ℕ × ℕ))
    → scored target (all_answered items) ≡ map (score target) items
unfolding scored
scored-all_answered target [] = refl
scored-all_answered target (item ∷ items) =
    ap (λ ss. score target item ∷ ss) (scored-all_answered target items)

index_of : Option Score → Option ℕ
index_of none = none
index_of (some s) = some s.index

first_index-first : (ss : List Score) → first_index ss ≡ index_of (first ss)
unfolding index_of
first_index-first [] = refl
first_index-first (s ∷ ss) = refl

winner-expected_scores :
    (target : ℤ) (items : List (ℕ × ℕ))
    → first_index (sorted (map (score target) items)) ≡ expected_winner target items
unfolding expected_winner sorted index_of
winner-expected_scores target [] = refl
winner-expected_scores target (item ∷ items) =
    first_index-first (sorted (map (score target) (item ∷ items)))
    ∙ ap index_of (first-sorted (score target item) (map (score target) items))

-- Where every candidate gives the value that was expected of it, the first of the sorted scores is
-- the winner that was expected, with ties between candidates resolved alike.
pub winner-expected :
    (target : ℤ) (items : List (ℕ × ℕ))
    → winner target (all_answered items) ≡ expected_winner target items
unfolding winner
winner-expected target items =
    ap (λ ss. first_index (sorted ss)) (scored-all_answered target items)
    ∙ winner-expected_scores target items
