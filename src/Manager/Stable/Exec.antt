-- ===== src/Manager/Stable/Exec.antt =====
-- Invariants of `exec_command`, `copy_in`, `copy_out` and `cleanup`.
use state_fork.Manager.State.{SnapshotNode}
use state_fork.Exec.Keeps.{Keeps-bind, Keeps-attempt, Keeps, keeps_rules}
use state_fork.Exec.{Result, ok, err}
use state_fork.Prelude.{◌-◌, ℕ, String, Bool, Option}
use state_fork.Manager.State.{Manager, Hooks, BranchState, Command, ExecResult}
use state_fork.Manager.Stable.{IsStable, HooksKeep, Keeps-get_branch_state}
use state_fork.Manager.Exec.{exec_finished, exec_active, exec_branch, exec_command}
use state_fork.Manager.Copy.{copy_finished, copy_active, copy_branch, copy_in, copy_out, cleanup}

module _ {E : Type 0} {P : Manager E → Type 0} {Fit : SnapshotNode → Manager E → Type 0}
    (h : Hooks E) (k : HooksKeep P Fit h) (st : IsStable P Fit) where
  exec_finished-Keeps :
      (branch : String) (command : Command) (state : BranchState) (elapsed : ℕ)
      (r : Result ExecResult)
      → Keeps P (exec_finished branch command state elapsed r)
  unfolding exec_finished
  exec_finished-Keeps branch command state elapsed (err e) =
      search (keeps_rules, st.noted, st.updated)
  exec_finished-Keeps branch command state elapsed (ok r) =
      search (keeps_rules, st.noted, st.updated)

  exec_active-Keeps :
      (branch : String) (command : Command) (timeout : Option ℕ) (state : BranchState)
      → Keeps P (exec_active h branch command timeout state)
  unfolding exec_active
  exec_active-Keeps branch command timeout state = Keeps-bind _ _ k.time λ start.
      Keeps-bind _ _ (Keeps-attempt _ (k.core_exec command timeout branch)) λ outcome.
        Keeps-bind _ _ k.time
          λ stop. exec_finished-Keeps branch command state (stop - start) outcome

  pub exec_branch-Keeps :
      (branch : String) (command : Command) (timeout : Option ℕ)
      → Keeps P (exec_branch h branch command timeout)
  unfolding exec_branch
  exec_branch-Keeps branch command timeout =
      search (keeps_rules, Keeps-get_branch_state, exec_active-Keeps)

  pub exec_command-Keeps :
      (command : Command) (timeout : Option ℕ) → Keeps P (exec_command h command timeout)
  unfolding exec_command
  exec_command-Keeps command timeout = search (keeps_rules, exec_branch-Keeps)

  copy_finished-Keeps :
      (branch : String) (state : BranchState) (start : ℕ) (r : Result (Bool × String))
      → Keeps P (copy_finished h branch state start r)
  unfolding copy_finished
  copy_finished-Keeps branch state start (err e) = search keeps_rules
  copy_finished-Keeps branch state start (ok (done, detail)) =
      search (keeps_rules, k.time, st.noted)

  copy_active-Keeps :
      (branch host env : String) (into : Bool) (state : BranchState)
      → Keeps P (copy_active h branch host env into state)
  unfolding copy_active
  copy_active-Keeps branch host env into state = Keeps-bind _ _ k.time λ start.
      Keeps-bind _ _ (Keeps-attempt _ (k.core_copy branch host env into))
        λ outcome. copy_finished-Keeps branch state start outcome

  pub copy_branch-Keeps :
      (branch host env : String) (into : Bool) → Keeps P (copy_branch h branch host env into)
  unfolding copy_branch
  copy_branch-Keeps branch host env into =
      search (keeps_rules, Keeps-get_branch_state, copy_active-Keeps)

  pub copy_in-Keeps : (host env : String) → Keeps P (copy_in h host env)
  unfolding copy_in
  copy_in-Keeps host env = search (keeps_rules, copy_branch-Keeps)

  pub copy_out-Keeps : (env host : String) → Keeps P (copy_out h env host)
  unfolding copy_out
  copy_out-Keeps env host = search (keeps_rules, copy_branch-Keeps)

  pub cleanup-Keeps : Keeps P h.core_cleanup → Keeps P (cleanup h)
  unfolding cleanup
  cleanup-Keeps kept = search (keeps_rules, kept, st.flagged)
