-- ===== src/Decider.antt =====
-- decider/decider.py: the policies that choose between a physical and a virtual snapshot.
-- Seconds are counted in whole clock ticks of a microsecond. `random.choice` is the argument `coin`.
use state_fork.Prelude.{ℕ, Bool, true, false, Option, or_else, leb}

pub record DecisionContext : Type 0 where
  pub cumulative_exec_time : ℕ

-- One constructor for each subclass of `Decider`.
pub data Decider : Type 0 where
  random always_true always_false : Decider
  threshold : ℕ → Decider

abbrev pub default_threshold : ℕ
default_threshold = 5_000_000

-- `ThresholdDecider(threshold)`
pub threshold_decider : Option ℕ → Decider
threshold_decider t = threshold (or_else t default_threshold)

unfoldable pub decide : Bool → Decider → DecisionContext → Bool
decide coin random context = coin
decide coin always_true context = true
decide coin always_false context = false
decide coin (threshold t) context = leb t context.cumulative_exec_time
