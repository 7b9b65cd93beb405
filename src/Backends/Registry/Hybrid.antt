-- ===== src/Backends/Registry/Hybrid.antt =====
-- The hybrid backend registers what it checkpoints.
use state_fork.Prelude.{Option, String, arith, none, nonempty, refl, some, true, ◌-◌, ◌<>◌, ◌≡◌}
use state_fork.Exec.{modify}
use state_fork.Exec.Keeps.{Keeps, keeps_rules}
use state_fork.Manager.Branches.{register_snapshot_resource}
use state_fork.Manager.Snapshot.{physical_node, virtual_node}
use state_fork.Manager.Stable.{HooksKeep}
use state_fork.Backends.Platform.{Platform}
use state_fork.Backends.Host.{config, Host, check_call, on_world, read}
use state_fork.Backends.Hybrid.{
  Hybrid, export_path, checkpoint_args, core_snapshot, reload, restore_export, core_restore,
  core_exec, hybrid,
}
use state_fork.Exec.Ensures.{Ensures, Ensures-after, Ensures-then}
use state_fork.Backends.Registry.{Stocked, HasResource, nonempty-append, path_join-nonempty}
use state_fork.Backends.Registry.Calls.{
  Has, Registers, register-Has, pure-Registers, register-Keeps, stocked_calls, ask-Stocked,
  copy_not_implemented-Stocked,
}

export_path-nonempty : (c : Hybrid) (id : String) → nonempty (export_path c id) ≡ true
unfolding export_path
export_path-nonempty c id =
    path_join-nonempty c.export_dir (id <> ".tar.zstd") (nonempty-append id ".tar.zstd" refl)

module _ {W : Type 0} (p : Platform W) where
  register-export :
      (c : Hybrid) (id : String)
      → Keeps
          (Stocked {E = Host Hybrid W})
          (modify (register_snapshot_resource id (export_path c id)))
  register-export c id = register-Keeps id (export_path c id) (export_path-nonempty c id)

  core_snapshot-Keeps : (branch : String) → Keeps Stocked (core_snapshot p branch)
  unfolding core_snapshot
  core_snapshot-Keeps branch = search (stocked_calls, register-export) depth 14

  core_snapshot-Registers :
      (branch : String) → Ensures (λ m. Unit) (core_snapshot p branch) Registers
  unfolding core_snapshot
  core_snapshot-Registers branch = Ensures-after config _ λ c. Ensures-after (read p.uuid8) _ λ id.
      Ensures-after (read p.time) _ λ start.
        Ensures-after (check_call p (checkpoint_args c (export_path c id))) _ λ done.
          Ensures-after (read p.time) _ λ stop.
            Ensures-then (Has id) (modify (register_snapshot_resource id (export_path c id))) _
              (register-Has id (export_path c id) (export_path-nonempty c id))
              (pure-Registers id (stop - start))

  restore_export-Keeps : (path : Option String) → Keeps Stocked (restore_export p path)
  unfolding restore_export reload
  restore_export-Keeps none = search keeps_rules
  restore_export-Keeps (some path) = search stocked_calls depth 14

  -- Every hook keeps the resources, and a captured snapshot gets one.
  pub hybrid-Stocked : HooksKeep Stocked HasResource (hybrid p)
  unfolding hybrid core_restore core_exec physical_node virtual_node on_world
  hybrid-Stocked = record {
    core_snapshot = core_snapshot-Keeps;
    core_restore = λ id branch. search (stocked_calls, restore_export-Keeps);
    core_exec = λ command timeout branch. search stocked_calls;
    core_copy = copy_not_implemented-Stocked;
    after_snapshot = λ branch id m s. s;
    coin = ask-Stocked p.coin;
    uuid_hex = ask-Stocked p.uuid_hex;
    time = ask-Stocked p.time;
    fit_captured = λ branch m s id elapsed e parent physical.
        (core_snapshot-Registers branch).at m tt (some id, elapsed) e id refl;
    fit_drawn = λ m s parent commands physical. absurd (ground (arith, physical));
  }
