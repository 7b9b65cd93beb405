-- ===== src/Benchmark/Sequence.antt =====
-- The numbers of the entries of the log.
use state_fork.Prelude.{
  ℕ, suc, ◌+◌, ◌≡◌, refl, String, List, [], ◌∷◌, ◌++◌, arith, length, length-append,
}
use state_fork.Benchmark.{BenchmarkEntry, BenchmarkStats, new_stats, add_entry}

-- `NumberedFrom n log`: the entries carry the numbers n + 1, n + 2, … in order.
abbrev pub NumberedFrom : ℕ → List BenchmarkEntry → Type 0
NumberedFrom n [] = Unit
NumberedFrom n (e ∷ log) = (e.sequence ≡ suc n) × NumberedFrom (suc n) log

pub record IsNumbered (s : BenchmarkStats) : Type 0 where
  pub in_order : NumberedFrom 0 s.log
  pub counted : s.sequence_counter ≡ length s.log

NumberedFrom-concat :
    (n : ℕ) (log : List BenchmarkEntry) (e : BenchmarkEntry)
    → NumberedFrom n log
    → e.sequence ≡ suc (n + length log)
    → NumberedFrom n (log ++ e ∷ [])
NumberedFrom-concat n [] e h k = (omega arith, tt)
NumberedFrom-concat n (x ∷ log) e h k = (h.0, NumberedFrom-concat (suc n) log e h.1 (omega arith))

pub IsNumbered-new : IsNumbered new_stats
IsNumbered-new = record { in_order = tt; counted = refl }

pub add_entry-IsNumbered :
    (operation target_id : String) (elapsed : ℕ) (branch_id : String) {s : BenchmarkStats}
    → IsNumbered s
    → IsNumbered (add_entry operation target_id elapsed branch_id s)
unfolding add_entry
add_entry-IsNumbered operation target_id elapsed branch_id {s} h = record {
  in_order = NumberedFrom-concat 0 s.log _ h.in_order (omega (arith, h.counted));
  counted = omega (arith, h.counted, length-append {0} s.log);
}
