-- ===== src/Backends/Registry/Attached.antt =====
-- The constructors of managers that attach to an environment, and the resources of their snapshots.
use state_fork.Prelude.{refl}
use state_fork.Prelude.{List, some, subst, sym}
use state_fork.Exec.{Result, modify}
use state_fork.Exec.Keeps.{Keeps-attempt, Keeps-pure, Keeps-raise}
use state_fork.Text.{partition}
use state_fork.Prelude.{Option, String, arith, none, nonempty, true, ◌≡◌}
use state_fork.Exec.{◌>>◌}
use state_fork.Exec.Keeps.{Keeps, Keeps-bind, Keeps-gets, Keeps-modify, Keeps-then}
use state_fork.Dict.{get}
use state_fork.Dict.Laws.{get-put}
use state_fork.Decider.{Decider}
use state_fork.Manager.State.{Manager, new_manager}
use state_fork.Manager.Branches.{register_snapshot_resource}
use state_fork.Manager.Snapshot.{physical_node}
use state_fork.Backends.Platform.{Platform}
use state_fork.Backends.Host.{Host, attach_calculator, init_tree}
use state_fork.Manager.Stable.Attach.{attach-Keeps}
use state_fork.Backends.Registry.{Stocked, HasResource, Stocked-IsStable, register-Stocked}
use state_fork.Backends.Registry.Calls.{
  check_returncode-Stocked, reach-Stocked, read-Stocked, call-Stocked, set_config-Stocked,
  stocked_calls,
}
use state_fork.Backends.Registry.Hybrid.{hybrid-Stocked}
use state_fork.Backends.Container as C
use state_fork.Backends.Container.{Container, container}
use state_fork.Backends.Hybrid as H
use state_fork.Backends.Hybrid.{Hybrid, hybrid}
use state_fork.Backends.Gvisor as G
use state_fork.Backends.Gvisor.{Gvisor, gvisor}
use text.Mathlib.TextLemmas.{cons-ne-nil}
use state_fork.Backends.Registry.{nonempty_iff}

partition-nonempty :
    (text : String) (parts : String × String)
    → partition b':' text ≡ some parts
    → nonempty text ≡ true
unfolding partition
partition-nonempty String.[] parts h = absurd (ground (arith, h))
partition-nonempty (String.◌∷◌ c s) parts h = (nonempty_iff (String.◌∷◌ c s)).1 (cons-ne-nil c s)

-- A new manager has no snapshots.
pub new_manager-Stocked :
    {E : Type 0} (name : String) (decider : Option Decider) (extra : E)
    → Stocked (new_manager name decider extra)
unfolding new_manager get
new_manager-Stocked name decider extra = record {
  resources = λ id node e physical. absurd (ground (arith, e));
}

module _ {C W : Type 0} (p : Platform W) where
  pub attach_calculator-Stocked :
      (cls name : String) → Keeps Stocked (attach_calculator {C = C} p cls name)
  unfolding attach_calculator
  attach_calculator-Stocked cls name =
      Keeps-bind _ _ (read-Stocked (p.counted cls))
        λ n. Keeps-modify _ λ m s. record { resources = s.resources }

module _ {W : Type 0} (p : Platform W) where
  ensure-Stocked : Keeps Stocked (H.ensure_container_running p)
  unfolding H.ensure_container_running
  ensure-Stocked = search stocked_calls depth 12

  pub hybrid_start-Stocked : Keeps Stocked (H.start p)
  unfolding H.start
  hybrid_start-Stocked = Keeps-bind _ _ (Keeps-gets λ m. m.extra.config) λ c.
      Keeps-then _ _ (reach-Stocked (p.makedirs c.export_dir)) (
        Keeps-then _ _ ensure-Stocked (
          Keeps-then _ _ (attach-Keeps (hybrid p) (hybrid-Stocked p) Stocked-IsStable)
            (attach_calculator-Stocked p "FileSizeCalculator" "FileSizeCalculator")))

  check_output-Stocked : (words : List String) → Keeps Stocked (G.check_output p words)
  unfolding G.check_output
  check_output-Stocked words = Keeps-bind _ _ (call-Stocked p words) λ done.
      Keeps-then _ _ (check_returncode-Stocked p words done done.returncode)
        (Keeps-pure done.stdout)

  docker_answers-Stocked : Keeps Stocked (G.docker_answers p)
  unfolding G.docker_answers
  docker_answers-Stocked = Keeps-bind _ _ (Keeps-gets λ m. m.extra.config) λ c.
      Keeps-then _ _ (check_output-Stocked _)
        (Keeps-then _ _ (check_output-Stocked _) (Keeps-pure tt))

  as_runtime_error-state :
      (message : String) (r : Result (Unit {0})) (m : Manager (Host Gvisor W))
      → (G.as_runtime_error p message r m).1 ≡ m
  unfolding G.as_runtime_error
  as_runtime_error-state message r m = ground arith

  as_runtime_error-Stocked :
      (message : String) (r : Result (Unit {0})) → Keeps Stocked (G.as_runtime_error p message r)
  as_runtime_error-Stocked message r = record {
    at = λ m s. subst Stocked (sym (as_runtime_error-state message r m)) s;
  }

  pub attach_gvisor_calculator-Stocked : Keeps Stocked (G.attach_gvisor_calculator p)
  unfolding G.attach_gvisor_calculator
  attach_gvisor_calculator-Stocked =
      Keeps-bind _ _ (Keeps-attempt _ docker_answers-Stocked) λ answered.
        Keeps-then _ _
          (as_runtime_error-Stocked
            "Failed to initialize GvisorCalculator due to Docker command failure." answered)
          (attach_calculator-Stocked p "GvisorCalculator" "FileSizeCalculator")

  -- The base image is the resource of the root.
  root-HasResource :
      (base_image : String) (m : Manager (Host Container W))
      → nonempty base_image ≡ true
      → HasResource (physical_node "base" none) (register_snapshot_resource "base" base_image m)
  unfolding register_snapshot_resource physical_node
  root-HasResource base_image m full physical = rw get-put full

  root-Stocked :
      (base_image : String) (m : Manager (Host Container W))
      → nonempty base_image ≡ true
      → Stocked m
      → Stocked (init_tree "base" (register_snapshot_resource "base" base_image m)).1
  unfolding init_tree
  root-Stocked base_image m full s = Stocked-IsStable.updated _ _ _ (
      Stocked-IsStable.recorded (physical_node "base" none)
        (register_snapshot_resource "base" base_image m) (root-HasResource base_image m full)
        (register-Stocked "base" base_image m full s))

  set_prefix-Stocked : (parts : Option (String × String)) → Keeps Stocked (C.set_prefix p parts)
  unfolding C.set_prefix
  set_prefix-Stocked none = Keeps-raise _
  set_prefix-Stocked (some (prefix, tag)) =
      Keeps-bind _ _ (Keeps-gets λ m. m.extra.config) λ c. set_config-Stocked _

  rooted-Stocked :
      (base_image : String)
      → nonempty base_image ≡ true
      → Keeps Stocked (
          modify (register_snapshot_resource "base" base_image)
          >> (init_tree {C = Container} "base"
              >> attach_calculator p "ImageCalculator" "ImageCalculator"))
  unfolding init_tree
  rooted-Stocked base_image full = record {
    at = λ m s.
        (attach_calculator-Stocked p "ImageCalculator" "ImageCalculator").at _
          (root-Stocked base_image m full s);
  }

  prefixed-Stocked :
      (base_image : String) (parts : Option (String × String))
      → ((found : String × String) → parts ≡ some found → nonempty base_image ≡ true)
      → Keeps Stocked (
          C.set_prefix p parts
          >> (modify (register_snapshot_resource "base" base_image)
              >> (init_tree {C = Container} "base"
                  >> attach_calculator p "ImageCalculator" "ImageCalculator")))
  unfolding C.set_prefix
  prefixed-Stocked base_image none full = record { at = λ m s. s }
  prefixed-Stocked base_image (some parts) full =
      Keeps-then _ _ (set_prefix-Stocked (some parts)) (rooted-Stocked base_image (full parts refl))

  pub container_attach-Stocked : (base_image : String) → Keeps Stocked (C.attach p base_image)
  unfolding C.attach
  container_attach-Stocked base_image =
      prefixed-Stocked base_image (partition b':' base_image) (partition-nonempty base_image)
