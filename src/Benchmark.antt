-- ===== src/Benchmark.antt =====
-- controller/benchmark.py: the log of timed operations.
pub mod Sequence
pub mod Statistics
pub mod Summary
use state_fork.Prelude.{ℕ, suc, String, List, [], ◌∷◌, ◌++◌}

-- A size calculator is known by its class name and instance number; what it measures is outside.
pub record Calculator : Type 0 where
  pub name : String
  pub instance_id : ℕ

pub record BenchmarkEntry : Type 0 where
  pub sequence : ℕ
  pub operation : String
  pub target_id : String
  pub elapsed_time : ℕ
  pub branch_id : String

pub record BenchmarkStats : Type 0 where
  pub sequence_counter : ℕ
  pub log : List BenchmarkEntry
  pub size_calculators : List Calculator

abbrev pub new_stats : BenchmarkStats
new_stats = record { sequence_counter = 0; log = []; size_calculators = [] }

unfoldable pub add_entry : String → String → ℕ → String → BenchmarkStats → BenchmarkStats
add_entry operation target_id elapsed_time branch_id s =
    let n = suc s.sequence_counter in
    record s {
      sequence_counter = n;
      log =
          s.log
          ++ record {
            sequence = n;
            operation = operation;
            target_id = target_id;
            elapsed_time = elapsed_time;
            branch_id = branch_id;
          }
            ∷ [];
    }

unfoldable pub attach_size_calculator : Calculator → BenchmarkStats → BenchmarkStats
attach_size_calculator c s = record s { size_calculators = s.size_calculators ++ c ∷ [] }
