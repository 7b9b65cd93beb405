-- ===== src/Benchmark/Statistics.antt =====
-- controller/benchmark.py: the statistics of the log, `BenchmarkStats.get_all_statistics`, and of a
-- size calculator, `Calculator.statistics`.
use state_fork.Prelude.{
  none, some, some, Option, ℕ, zero, suc, ◌+◌, ◌-◌, String, Bool, false, not, List, [], ◌∷◌, ◌++◌,
  if◌then◌else◌, length, leb,
}
use state_fork.Dict.{Dict, get, put}
use state_fork.Benchmark.{BenchmarkEntry, BenchmarkStats}

-- A quotient that the source computes with floats.
pub record Quotient : Type 0 where
  pub numerator : ℕ
  pub denominator : ℕ

pub record Statistics : Type 0 where
  pub count : ℕ
  pub total : ℕ
  pub mean : Quotient
  pub median : Quotient
  pub min : ℕ
  pub max : ℕ
  pub unit : String

unfoldable pub sum : List ℕ → ℕ
sum [] = 0
sum (x ∷ xs) = x + sum xs

-- min(…) and max(…) of a list with the given first element
unfoldable pub minimum : ℕ → List ℕ → ℕ
minimum x [] = x
minimum x (y ∷ ys) = minimum (if leb x y then x else y) ys

unfoldable pub maximum : ℕ → List ℕ → ℕ
maximum x [] = x
maximum x (y ∷ ys) = maximum (if leb y x then x else y) ys

unfoldable pub insert : ℕ → List ℕ → List ℕ
insert x [] = x ∷ []
insert x (y ∷ ys) = let rest = insert x ys in if leb x y then x ∷ y ∷ ys else y ∷ rest

unfoldable pub sorted : List ℕ → List ℕ
sorted [] = []
sorted (x ∷ xs) = insert x (sorted xs)

unfoldable pub half : ℕ → ℕ
half zero = zero
half (suc zero) = zero
half (suc (suc n)) = suc (half n)

unfoldable pub is_odd : ℕ → Bool
is_odd zero = false
is_odd (suc n) = not (is_odd n)

unfoldable pub element : List ℕ → ℕ → ℕ
element [] n = 0
element (x ∷ xs) zero = x
element (x ∷ xs) (suc n) = element xs n

-- statistics.median: the middle element, or the mean of the two middle ones
unfoldable pub median_of : List ℕ → Quotient
median_of xs =
    let ys = sorted xs in
    let middle = half (length xs) in
    if is_odd (length xs)
    then record { numerator = element ys middle; denominator = 1 }
    else record { numerator = element ys (middle - 1) + element ys middle; denominator = 2 }

unfoldable pub statistics_of : String → ℕ → List ℕ → Statistics
statistics_of unit x xs = record {
  count = length (x ∷ xs);
  total = sum (x ∷ xs);
  mean = record { numerator = sum (x ∷ xs); denominator = length (x ∷ xs) };
  median = median_of (x ∷ xs);
  min = minimum x xs;
  max = maximum x xs;
  unit = unit;
}

-- A group of times is not empty: it has a first one.
abbrev pub Times : Type 0
Times = ℕ × List ℕ

unfoldable pub joined : ℕ → Option Times → Times
joined t none = (t, [])
joined t (some (first, later)) = (first, later ++ t ∷ [])

-- `op_stats[entry.operation].append(entry.elapsed_time)` on a `defaultdict(list)`
unfoldable pub append_time : BenchmarkEntry → Dict Times → Dict Times
append_time entry d = put d entry.operation (joined entry.elapsed_time (get d entry.operation))

unfoldable pub group_times : Dict Times → List BenchmarkEntry → Dict Times
group_times d [] = d
group_times d (entry ∷ log) = group_times (append_time entry d) log

-- The statistics of each group.
unfoldable pub summarize : Dict Times → Dict Statistics
summarize [] = []
summarize ((op, (first, later)) ∷ d) = (op, statistics_of "seconds" first later) ∷ summarize d

-- The `time` part of the result.
unfoldable pub time_statistics : BenchmarkStats → Dict Statistics
time_statistics s = summarize (group_times [] s.log)

abbrev no_sizes : Statistics
no_sizes = record {
  count = 0;
  total = 0;
  mean = record { numerator = 0; denominator = 1 };
  median = record { numerator = 0; denominator = 1 };
  min = 0;
  max = 0;
  unit = "bytes";
}

-- `Calculator.statistics`, for the sizes that `_collect` gives
unfoldable pub size_statistics : List (String × ℕ) → Statistics
size_statistics collected = elim (sizes collected) [
  | [] ↦ no_sizes
  | x ∷ xs ↦ statistics_of "bytes" x xs
]
  where
    sizes : List (String × ℕ) → List ℕ
    sizes [] = []
    sizes ((name, size) ∷ rest) = size ∷ sizes rest
