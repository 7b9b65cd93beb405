-- ===== src/Backends/Registry/Starts.antt =====
-- The resources of managers from their construction on.
use state_fork.Prelude.{Bool, List, false}
use state_fork.Exec.Keeps.{Keeps-pure, Keeps-raise}
use state_fork.Prelude.{Option, String, nonempty, true, ℤ, ◌≡◌}
use state_fork.Exec.Keeps.{Keeps, Keeps-bind, Keeps-gets, Keeps-then}
use state_fork.Decider.{Decider}
use state_fork.Backends.Platform.{Platform, Processes}
use state_fork.Manager.Stable.Attach.{attach-Keeps}
use state_fork.Manager.Stable.Calls.{Call, run, run-Keeps}
use state_fork.Backends.Registry.{Stocked, Stocked-IsStable}
use state_fork.Backends.Registry.Calls.{reach-Stocked, read-Stocked, set_config-Stocked}
use state_fork.Backends.Registry.Container.{container-Stocked}
use state_fork.Backends.Registry.Hybrid.{hybrid-Stocked}
use state_fork.Backends.Registry.Gvisor.{gvisor-Stocked}
use state_fork.Backends.Registry.Criu.{criu-Stocked}
use state_fork.Backends.Container as C
use state_fork.Backends.Container.{Container, container}
use state_fork.Backends.Hybrid as H
use state_fork.Backends.Hybrid.{Hybrid, hybrid}
use state_fork.Backends.Gvisor as G
use state_fork.Backends.Gvisor.{Gvisor, gvisor}
use state_fork.Backends.Criu as R
use state_fork.Backends.Criu.{Criu, criu}
use state_fork.Backends.Registry.Attached.{
  new_manager-Stocked, attach_calculator-Stocked, hybrid_start-Stocked,
  attach_gvisor_calculator-Stocked, container_attach-Stocked,
}

module _ {W : Type 0} (p : Platform W) (drawn : (w : W) → nonempty (p.uuid8 w).0 ≡ true) where
  gvisor_start-Stocked : Keeps Stocked (G.start p)
  unfolding G.start
  gvisor_start-Stocked =
      Keeps-then _ _ (attach-Keeps (gvisor p) (gvisor-Stocked p drawn) Stocked-IsStable)
        (attach_gvisor_calculator-Stocked p)

  require_pid-Stocked :
      (s : Processes W) (exists : Bool) (pid : ℤ) → Keeps Stocked (R.require_pid p s exists pid)
  unfolding R.require_pid
  require_pid-Stocked s true pid = Keeps-pure tt
  require_pid-Stocked s false pid = Keeps-raise _

  criu_start-Stocked : (s : Processes W) (pid : ℤ) → Keeps Stocked (R.start p s pid)
  unfolding R.start
  criu_start-Stocked s pid = Keeps-bind _ _ (Keeps-gets λ m. m.extra.config) λ c.
      Keeps-then _ _ (reach-Stocked (p.makedirs c.work_dir)) (
        Keeps-bind _ _ (read-Stocked (s.pid_exists pid)) λ exists.
          Keeps-then _ _ (require_pid-Stocked s exists pid) (
            Keeps-then _ _ (set_config-Stocked _) (
              Keeps-then _ _ (attach-Keeps (criu p s) (criu-Stocked p s drawn) Stocked-IsStable)
                (attach_calculator-Stocked p "FileSizeCalculator" "FileSizeCalculator"))))

  -- For each sequential backend: after the constructor of a manager that attaches to an environment,
  -- whether it returns or raises, and any calls of the public operations but the cleanup, failed ones
  -- included, every physical snapshot of the graph has a resource with a name that is not empty.
  -- `uuid.uuid4` gives texts that are not empty.
  pub started-Stocked :
      (s : Processes W) (calls : List Call) (decider : Option Decider) (w : W)
      → ((tool : String × String) (name base_image : String) (extra_args : Option (List String))
          → Stocked (
              run
                (container p)
                calls
                (C.attach p base_image (C.new_container p tool name extra_args decider w)).1))
        × ((name export_dir : String)
            → Stocked
                (run (hybrid p) calls (H.start p (H.new_hybrid p name export_dir decider w)).1))
        × ((name base_image : String) (extra_args : Option (List String))
            → Stocked (
                run
                  (gvisor p)
                  calls
                  (G.start p (G.new_gvisor p name base_image extra_args decider w)).1))
        × ((work_dir : String) (pid : ℤ)
            → Stocked
                (run (criu p s) calls (R.start p s pid (R.new_criu p s work_dir decider w)).1))
  unfolding C.new_container H.new_hybrid G.new_gvisor R.new_criu
  started-Stocked s calls decider w = (
    λ tool name base_image extra_args.
        run-Keeps (container p) (container-Stocked p) Stocked-IsStable calls _
          ((container_attach-Stocked p base_image).at _ (new_manager-Stocked _ decider _)),
    λ name export_dir.
        run-Keeps (hybrid p) (hybrid-Stocked p) Stocked-IsStable calls _
          ((hybrid_start-Stocked p).at _ (new_manager-Stocked "Podman+CRIU" decider _)),
    λ name base_image extra_args.
        run-Keeps (gvisor p) (gvisor-Stocked p drawn) Stocked-IsStable calls _
          (gvisor_start-Stocked.at _ (new_manager-Stocked "gVisor" decider _)),
    λ work_dir pid.
        run-Keeps (criu p s) (criu-Stocked p s drawn) Stocked-IsStable calls _
          ((criu_start-Stocked s pid).at _ (new_manager-Stocked "CRIU" decider _)),
  )
