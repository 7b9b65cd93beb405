-- ===== src/Backends/Registry/Container.antt =====
-- The container backend registers what it commits.
use state_fork.Backends.Host.{config, check_call, read}
use state_fork.Exec.{modify}
use state_fork.Manager.Branches.{register_snapshot_resource}
use state_fork.Backends.Host.{Host}
use state_fork.Prelude.{Option, String, arith, none, nonempty, refl, some, true, ◌-◌, ◌<>◌, ◌≡◌}
use state_fork.Exec.Keeps.{Keeps, keeps_rules}
use state_fork.Manager.Snapshot.{physical_node, virtual_node}
use state_fork.Manager.Stable.{HooksKeep}
use state_fork.Backends.Platform.{Platform}
use state_fork.Backends.Host.{on_world}
use state_fork.Backends.Container.{
  Container, image_name, commit_args, commit, core_snapshot, relaunch, restore_image, core_restore,
  exec_in, core_exec, container,
}
use state_fork.Exec.Ensures.{Ensures, Ensures-after, Ensures-then}
use state_fork.Backends.Registry.{Stocked, HasResource, nonempty-append, nonempty-append_left}
use state_fork.Backends.Registry.Calls.{
  Has, Registers, register-Has, pure-Registers, register-Keeps, stocked_calls, ask-Stocked,
  copy_not_implemented-Stocked,
}

image_name-nonempty : (c : Container) (id : String) → nonempty (image_name c id) ≡ true
unfolding image_name
image_name-nonempty c id =
    nonempty-append c.image_prefix (":" <> id) (nonempty-append_left ":" id refl)

module _ {W : Type 0} (p : Platform W) where
  register-image :
      (c : Container) (id : String)
      → Keeps
          (Stocked {E = Host Container W})
          (modify (register_snapshot_resource id (image_name c id)))
  register-image c id = register-Keeps id (image_name c id) (image_name-nonempty c id)

  commit-Keeps : (c : Container) → Keeps Stocked (commit p c)
  unfolding commit
  commit-Keeps c = search (stocked_calls, register-image c) depth 12

  commit-Registers : (c : Container) → Ensures (λ m. Unit) (commit p c) Registers
  unfolding commit
  commit-Registers c = Ensures-after (read p.uuid8) _ λ id. Ensures-after (read p.time) _ λ start.
      Ensures-after (check_call p (commit_args c (image_name c id))) _ λ done.
        Ensures-after (read p.time) _ λ stop.
          Ensures-then (Has id) (modify (register_snapshot_resource id (image_name c id))) _
            (register-Has id (image_name c id) (image_name-nonempty c id))
            (pure-Registers id (stop - start))

  core_snapshot-Registers :
      (branch : String) → Ensures (λ m. Unit) (core_snapshot p branch) Registers
  unfolding core_snapshot
  core_snapshot-Registers branch = Ensures-after config _ commit-Registers

  restore_image-Keeps : (image : Option String) → Keeps Stocked (restore_image p image)
  unfolding restore_image relaunch
  restore_image-Keeps none = search keeps_rules
  restore_image-Keeps (some image) = search stocked_calls depth 14

  -- Every hook but the cleanup keeps the resources, and a captured snapshot gets one.
  pub container-Stocked : HooksKeep Stocked HasResource (container p)
  unfolding container core_snapshot core_restore core_exec exec_in physical_node virtual_node
      on_world
  container-Stocked = record {
    core_snapshot = λ branch. search (stocked_calls, commit-Keeps);
    core_restore = λ id branch. search (stocked_calls, restore_image-Keeps);
    core_exec = λ command timeout branch. search stocked_calls;
    core_copy = copy_not_implemented-Stocked;
    after_snapshot = λ branch id m s. s;
    coin = ask-Stocked p.coin;
    uuid_hex = ask-Stocked p.uuid_hex;
    time = ask-Stocked p.time;
    fit_captured = λ branch m s id elapsed e parent physical.
        (core_snapshot-Registers branch).at m tt (some id, elapsed) e id refl;
    fit_drawn = λ m s parent commands physical. absurd (ground (arith, physical));
  }
