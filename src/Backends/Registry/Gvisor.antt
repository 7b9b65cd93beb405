-- ===== src/Backends/Registry/Gvisor.antt =====
-- The gVisor backend registers its checkpoints.
use state_fork.Exec.{gets}
use state_fork.Exec.Keeps.{Keeps-pure, Keeps-then}
use state_fork.Prelude.{
  Option, String, arith, none, nonempty, refl, some, subst, sym, true, ℕ, ◌-◌, ◌≡◌,
}
use state_fork.Exec.{modify}
use state_fork.Exec.Keeps.{Keeps, Keeps-bind, Keeps-gets, Keeps-modify, keeps_rules}
use state_fork.Manager.State.{BranchState}
use state_fork.Manager.Branches.{get_branch_state, register_snapshot_resource, update_branch}
use state_fork.Manager.Snapshot.{physical_node, virtual_node}
use state_fork.Manager.Stable.{HooksKeep, Keeps-get_branch_state, get_branch_state-state}
use state_fork.Backends.Platform.{Platform}
use state_fork.Backends.Host.{config, Host, check_call, on_world, read}
use state_fork.Backends.Gvisor.{
  start, Gvisor, checkpoint_args, checkpointed, core_snapshot, started, restart, restore_checkpoint,
  core_restore, core_exec, gvisor,
}
use state_fork.Exec.Recover.Rules.{recover-Keeps, recover-Ensures}
use state_fork.Exec.Recover.{on_process_error}
use state_fork.Exec.Ensures.{
  Ensures, Ensures-after, Ensures-bind, Ensures-then, Ensures-gets, Ensures-modify,
}
use state_fork.Backends.Registry.{Stocked, HasResource}
use state_fork.Backends.Registry.Calls.{
  failed-Registers, check_call-Stocked, read-Stocked, Has, Registers, register-Has, pure-Registers,
  register-Keeps, stocked_calls, ask-Stocked, copy_not_implemented-Stocked, uuid8-Stocked,
  uuid8-Registers,
}

module _ {W : Type 0} (p : Platform W) (drawn : (w : W) → nonempty (p.uuid8 w).0 ≡ true) where
  update-Stocked :
      (branch : String) (f : BranchState → BranchState)
      → Keeps (Stocked {E = Host Gvisor W}) (modify (update_branch branch f))
  unfolding update_branch
  update-Stocked branch f = Keeps-modify _ λ m s. record { resources = s.resources }

  checkpointed-Keeps :
      (id : String) (start : ℕ) → nonempty id ≡ true → Keeps Stocked (checkpointed p id start)
  unfolding checkpointed
  checkpointed-Keeps id start full = Keeps-bind _ _ (read-Stocked p.time) λ stop.
      Keeps-then _ _ (register-Keeps id id full) (
        Keeps-bind _ _ (Keeps-gets λ m. m.current_branch_id) λ branch.
          Keeps-then _ _ (Keeps-get_branch_state branch) (
            Keeps-then _ _
              (update-Stocked branch (λ state. record state { current_snapshot_id = some id }))
              (Keeps-pure (some id, stop - start))))

  core_snapshot-Keeps : (branch : String) → Keeps Stocked (core_snapshot p branch)
  unfolding core_snapshot
  core_snapshot-Keeps branch = Keeps-bind _ _ (Keeps-gets λ m. m.extra.config) λ c.
      uuid8-Stocked p drawn _ λ id full. Keeps-bind _ _ (read-Stocked p.time) λ start.
        recover-Keeps _ _ (
          Keeps-then _ _ (check_call-Stocked p (checkpoint_args c id))
            (checkpointed-Keeps id start full))

  checkpointed-Registers :
      (id : String) (start : ℕ)
      → nonempty id ≡ true
      → Ensures (λ m. Unit) (checkpointed p id start) Registers
  unfolding checkpointed
  checkpointed-Registers id start full = Ensures-after (read p.time) _ λ stop.
      Ensures-then (Has id) (modify (register_snapshot_resource id id)) _ (register-Has id id full)
        (Ensures-bind (λ branch. Has id) (gets λ m. m.current_branch_id) _
          (Ensures-gets (λ m. m.current_branch_id) λ m has. has)
          λ branch.
            Ensures-then (Has id) (get_branch_state branch) _
              (record {
                at = λ m has v e. subst (Has id) (sym (get_branch_state-state branch m)) has;
              })
              (Ensures-then (Has id)
                (modify
                  (update_branch branch (λ state. record state { current_snapshot_id = some id })))
                _ (Ensures-modify _ λ m has. unfold update_branch in has)
                (pure-Registers id (stop - start))))

  core_snapshot-Registers :
      (branch : String) → Ensures (λ m. Unit) (core_snapshot p branch) Registers
  unfolding core_snapshot on_process_error
  core_snapshot-Registers branch = Ensures-after config _ λ c. uuid8-Registers p drawn _ λ id full.
      Ensures-after (read p.time) _ λ start.
        recover-Ensures (on_process_error (none, 0)) _
          (Ensures-after (check_call p (checkpoint_args c id)) _
            λ done. checkpointed-Registers id start full)
          failed-Registers

  restore_checkpoint-Keeps : (id : Option String) → Keeps Stocked (restore_checkpoint p id)
  unfolding restore_checkpoint restart started
  restore_checkpoint-Keeps none = search keeps_rules
  restore_checkpoint-Keeps (some id) = search stocked_calls depth 14

  -- Every hook keeps the resources, and a captured snapshot gets one.
  pub gvisor-Stocked : HooksKeep Stocked HasResource (gvisor p)
  unfolding gvisor core_restore core_exec physical_node virtual_node on_world
  gvisor-Stocked = record {
    core_snapshot = core_snapshot-Keeps;
    core_restore = λ id branch. search (stocked_calls, restore_checkpoint-Keeps);
    core_exec = λ command timeout branch. search stocked_calls;
    core_copy = copy_not_implemented-Stocked;
    after_snapshot = λ branch id m s. s;
    coin = ask-Stocked p.coin;
    uuid_hex = ask-Stocked p.uuid_hex;
    time = ask-Stocked p.time;
    fit_captured = λ branch m s id elapsed e parent physical.
        (core_snapshot-Registers branch).at m tt (some id, elapsed) e id refl;
    fit_drawn = λ m s parent commands physical. absurd (ground (arith, physical));
  }
