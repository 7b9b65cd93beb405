-- ===== src/Benchmark/Summary.antt =====
-- The statistics of an operation and its entries in the log.
use state_fork.Prelude.{
  append-nil, ℕ, suc, ◌+◌, ◌*◌, ◌≤◌, ◌≡◌, refl, ap, ◌∙◌, sym, String, Option, none, some, List, [],
  ◌∷◌, ◌++◌, ◌==◌, if◌then◌else◌, length, leb, arith, eq_iff, inl, inr, Bool-cases, append_assoc,
}
use state_fork.Dict.{Dict, get}
use state_fork.Dict.Laws.{get-put}
use state_fork.Benchmark.{BenchmarkEntry, BenchmarkStats}
use state_fork.Benchmark.Statistics.{
  Times, joined, Statistics, sum, minimum, maximum, statistics_of, append_time, group_times,
  summarize, time_statistics,
}

-- The times of an operation, in the order of the log.
unfoldable pub times_of : String → List BenchmarkEntry → List ℕ
times_of op [] = []
times_of op (e ∷ log) =
    let rest = times_of op log in if e.operation == op then e.elapsed_time ∷ rest else rest

-- The statistics of a list of times, if there are any.
abbrev pub summary : List ℕ → Option Statistics
summary [] = none
summary (x ∷ xs) = some (statistics_of "seconds" x xs)

-- A group as a list.
abbrev flat : Option Times → List ℕ
flat none = []
flat (some (first, later)) = first ∷ later

flat-joined : (t : ℕ) (o : Option Times) → flat (some (joined t o)) ≡ flat o ++ t ∷ []
unfolding joined
flat-joined t none = refl
flat-joined t (some (first, later)) = refl

flat-append_time :
    (e : BenchmarkEntry) (d : Dict Times) (op : String)
    → flat (get (append_time e d) op)
      ≡ (if e.operation == op then flat (get d op) ++ e.elapsed_time ∷ [] else flat (get d op))
unfolding append_time
flat-append_time e d op = rw get-put (elim (Bool-cases (e.operation == op)) [
  | inr h ↦ simp h refl
  | inl h ↦
      let same : e.operation ≡ op = (eq_iff e.operation op).0 h in
      simp h (
        flat-joined e.elapsed_time (get d e.operation)
        ∙ ap (λ o. flat (get d o) ++ e.elapsed_time ∷ []) same)
])

flat-group_times :
    (d : Dict Times) (log : List BenchmarkEntry) (op : String)
    → flat (get (group_times d log) op) ≡ flat (get d op) ++ times_of op log
unfolding group_times times_of
flat-group_times d [] op = sym (append-nil (flat (get d op)))
flat-group_times d (e ∷ log) op =
    flat-group_times (append_time e d) log op
    ∙ ap (λ xs. xs ++ times_of op log) (flat-append_time e d op)
    ∙ elim (Bool-cases (e.operation == op)) [
      | inl h ↦ simp h (append_assoc (flat (get d op)) (e.elapsed_time ∷ []) (times_of op log))
      | inr h ↦ simp h refl
    ]

get-summarize : (d : Dict Times) (op : String) → get (summarize d) op ≡ summary (flat (get d op))
unfolding summarize get
get-summarize [] op = refl
get-summarize ((o, (first, later)) ∷ d) op = elim (Bool-cases (o == op)) [
  | inl h ↦ simp h refl
  | inr h ↦ simp h (get-summarize d op)
]

minimum-le : (x : ℕ) (xs : List ℕ) → minimum x xs ≤ x
unfolding minimum
minimum-le x [] = omega arith
minimum-le x (y ∷ ys) = ground (arith, minimum-le x ys, minimum-le y ys)

one_more : (m n x s : ℕ) → m * suc n ≤ s → m ≤ x → m * suc (suc n) ≤ x + s
one_more m n x s h k = omega arith

one_less : (m n x s : ℕ) → s ≤ m * suc n → x ≤ m → x + s ≤ m * suc (suc n)
one_less m n x s h k = omega arith

minimum-sum : (x : ℕ) (xs : List ℕ) → minimum x xs * suc (length xs) ≤ x + sum xs
unfolding minimum sum
minimum-sum x [] = omega arith
minimum-sum x (y ∷ ys) = elim (Bool-cases (leb x y)) [
  | inl h ↦ simp h (
      omega (
        arith,
        one_more (minimum x ys) (length ys) y (x + sum ys) (minimum-sum x ys)
            (ground (arith, minimum-le x ys)),
      ))
  | inr h ↦ simp h (
      one_more (minimum y ys) (length ys) x (y + sum ys) (minimum-sum y ys)
        (ground (arith, minimum-le y ys)))
]

le-maximum : (x : ℕ) (xs : List ℕ) → x ≤ maximum x xs
unfolding maximum
le-maximum x [] = omega arith
le-maximum x (y ∷ ys) = ground (arith, le-maximum x ys, le-maximum y ys)

sum-maximum : (x : ℕ) (xs : List ℕ) → x + sum xs ≤ maximum x xs * suc (length xs)
unfolding maximum sum
sum-maximum x [] = omega arith
sum-maximum x (y ∷ ys) = elim (Bool-cases (leb y x)) [
  | inl h ↦ simp h (
      omega (
        arith,
        one_less (maximum x ys) (length ys) y (x + sum ys) (sum-maximum x ys)
            (ground (arith, le-maximum x ys)),
      ))
  | inr h ↦ simp h (
      one_less (maximum y ys) (length ys) x (y + sum ys) (sum-maximum y ys)
        (ground (arith, le-maximum y ys)))
]

-- The statistics that the result has for an operation are those of the times of its entries in the
-- log, in order, and there are none for an operation that the log does not have.
pub time_statistics-summary :
    (s : BenchmarkStats) (op : String) → get (time_statistics s) op ≡ summary (times_of op s.log)
unfolding time_statistics get
time_statistics-summary s op =
    get-summarize (group_times [] s.log) op ∙ ap summary (flat-group_times [] s.log op)

-- The mean of statistics lies between their minimum and their maximum.
pub mean-bounds :
    (unit : String) (x : ℕ) (xs : List ℕ)
    → ((statistics_of unit x xs).min * (statistics_of unit x xs).mean.denominator
        ≤ (statistics_of unit x xs).mean.numerator)
      × ((statistics_of unit x xs).mean.numerator
          ≤ (statistics_of unit x xs).max * (statistics_of unit x xs).mean.denominator)
unfolding statistics_of sum
mean-bounds unit x xs = (minimum-sum x xs, sum-maximum x xs)
