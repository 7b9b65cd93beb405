-- ===== src/Backends/Container/Engine.antt =====
-- The container engine, docker or podman, as its documentation has it.
use state_fork.Prelude.{Bool, Option, String, false, none, pos, refl, true, ℕ, ◌<>◌, ◌≡◌, ◌≢◌}
use state_fork.Exec.{ok}
use state_fork.Manager.State.{Command}
use state_fork.Backends.Platform.{Platform, Completed}
use state_fork.Backends.Host.{exec_args}
use state_fork.Backends.Container.{Container, commit_args, remove_args, run_args}

-- `live` is what the container of the manager holds, `image` what an image holds, and `issued` tells
-- which ids `uuid.uuid4` has given.
pub record Engine (W S : Type 0) : Type 0 where
  pub live : W → Option S
  pub image : W → String → Option S
  pub issued : W → String → Bool

module _ {W S : Type 0} (g : Engine W S) where
  -- The images stay, and so do the issued ids.
  pub record Kept (w w' : W) : Type 0 where
    pub images : (image : String) → g.image w' image ≡ g.image w image
    pub issued : (id : String) → g.issued w id ≡ true → g.issued w' id ≡ true

  -- What the commands of the manager and the library functions do. `commit` stores what the
  -- container holds, and `run` starts a container with what the image holds. A command that fails
  -- may do anything else, except to images of another name.
  pub record IsEngine (p : Platform W) (c : Container) : Type 0 where
    pub commit_done :
        (image : String) (w : W) (done : Completed)
        → (p.subprocess_run (commit_args c image) none w).0 ≡ ok done
        → done.returncode ≡ pos 0
        → g.image (p.subprocess_run (commit_args c image) none w).1 image ≡ g.live w
    pub commit_others :
        (image other : String) (w : W)
        → other ≢ image
        → g.image (p.subprocess_run (commit_args c image) none w).1 other ≡ g.image w other
    pub commit_issued :
        (image id : String) (w : W)
        → g.issued w id ≡ true
        → g.issued (p.subprocess_run (commit_args c image) none w).1 id ≡ true
    pub run_done :
        (image : String) (w : W) (done : Completed)
        → (p.subprocess_run (run_args c image) none w).0 ≡ ok done
        → done.returncode ≡ pos 0
        → g.live (p.subprocess_run (run_args c image) none w).1 ≡ g.image w image
    pub run_keeps : (image : String) (w : W) → Kept w (p.subprocess_run (run_args c image) none w).1
    pub remove_keeps : (w : W) → Kept w (p.subprocess_run (remove_args c) none w).1
    pub exec_keeps :
        (command : Command) (timeout : Option ℕ) (w : W)
        → Kept w (p.subprocess_run (exec_args c.backend_cmd c.container_name command) timeout w).1
    pub uuid8_new : (w : W) → g.issued w (p.uuid8 w).0 ≡ false
    pub uuid8_issued : (w : W) → g.issued (p.uuid8 w).1 (p.uuid8 w).0 ≡ true
    pub uuid8_keeps : (w : W) → Kept w (p.uuid8 w).1
    pub uuid8_live : (w : W) → g.live (p.uuid8 w).1 ≡ g.live w
    pub uuid8_hex : (w w' : W) → "v" <> (p.uuid_hex w').0 ≢ (p.uuid8 w).0
    pub uuid_hex_keeps : (w : W) → Kept w (p.uuid_hex w).1
    pub coin_keeps : (w : W) → Kept w (p.coin w).1
    pub time_keeps : (w : W) → Kept w (p.time w).1
    pub time_live : (w : W) → g.live (p.time w).1 ≡ g.live w

  pub Kept-refl : (w : W) → Kept w w
  Kept-refl w = record { images = λ i. refl; issued = λ id h. h }
