-- ===== src/Manager/Copy.antt =====
-- controller/base_env_manager.py: `copy_in`, `copy_out`, their template `_copy_branch`, and
-- `cleanup`.
use state_fork.Prelude.{ℕ, ◌-◌, String, Bool, true, false, Option, some, if◌then◌else◌}
use state_fork.Exec.{Result, ok, err, attempt, pure, gets, modify, ◌>>=◌, ◌>>◌}
use state_fork.Manager.State.{Op, Hooks, BranchState}
use state_fork.Manager.Branches.{get_branch_state}
use state_fork.Manager.Snapshot.{ask, note}
use state_fork.Manager.Exec.{snapshot_label}

-- `ok is not False`
unfoldable pub is_not_false : Option Bool → Bool
is_not_false (some false) = false
is_not_false _ = true

module _ {E : Type 0} (h : Hooks E) where
  -- What follows `_core_copy`. Where it raised, nothing is recorded.
  unfoldable pub copy_finished : String → BranchState → ℕ → Result (Bool × String) → Op E Bool
  copy_finished branch_id state start (err exc) = pure false
  copy_finished branch_id state start (ok (done, detail)) = do
    stop ← ask h.time
    modify (note "copy" (snapshot_label state.current_snapshot_id) (stop - start) branch_id)
    pure done

  unfoldable pub copy_active : String → String → String → Bool → BranchState → Op E Bool
  copy_active branch_id host_path env_path into state = do
    start ← ask h.time
    outcome ← attempt (h.core_copy branch_id host_path env_path into)
    copy_finished branch_id state start outcome

  unfoldable pub copy_branch : String → String → String → Bool → Op E Bool
  copy_branch branch_id host_path env_path into = do
    state ← get_branch_state branch_id
    if state.active then copy_active branch_id host_path env_path into state else pure false

  unfoldable pub copy_in : String → String → Op E Bool
  copy_in host_src path = do
    branch_id ← gets (λ m. m.current_branch_id)
    copy_branch branch_id host_src path true

  unfoldable pub copy_out : String → String → Op E Bool
  copy_out path host_dst = do
    branch_id ← gets (λ m. m.current_branch_id)
    copy_branch branch_id host_dst path false

  unfoldable pub cleanup : Op E Bool
  cleanup = do
    done ← h.core_cleanup
    modify (λ m. record m { is_cleaned_up = true })
    pure (is_not_false done)

  -- `__del__` of a manager that was constructed
  unfoldable pub finalizer : Op E Unit
  finalizer m = if m.is_cleaned_up then (ok tt, m) else (cleanup >> pure tt) m
