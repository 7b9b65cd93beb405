-- ===== src/Backends/Host.antt =====
-- The fields of a sequential backend beside the world outside, and what its hooks call there.
-- The defaults that controller/base_env_manager.py has for the hooks are here too.
pub mod Calls
use state_fork.Prelude.{some, ◌<>◌}
use state_fork.Prelude.{ℕ, ℤ, pos, zero, String, Bool, false, Option, none, List, [], ◌∷◌}
use state_fork.Exec.{Result, ok, pure, raise, gets, modify, called_process_error, ◌>>=◌, ◌>>◌}
use state_fork.Benchmark.{attach_size_calculator}
use state_fork.Manager.State.{Manager, Op, Command, argv, line, ExecResult, backend_failed}
use state_fork.Manager.Attach.{stand_at}
use state_fork.Manager.Branches.{record_snapshot_node, update_branch}
use state_fork.Manager.Snapshot.{physical_node}
use state_fork.Backends.Platform.{Platform, Completed}

-- `C` has the backend's own fields.
pub record Host (C W : Type 0) : Type 0 where
  pub config : C
  pub world : W

abbrev pub HostOp : Type 0 → Type 0 → Type 0 → Type 0
HostOp C W A = Op (Host C W) A

-- [cli, "exec", container] and the words of the command, or a line for bash
unfoldable pub exec_args : String → String → Command → List String
exec_args cli container (argv words) = cli ∷ "exec" ∷ container ∷ words
exec_args cli container (line text) = cli ∷ "exec" ∷ container ∷ "bash" ∷ "-c" ∷ text ∷ []

unfoldable pub exec_result : Completed → ExecResult
exec_result c = record { returncode = c.returncode; stdout = c.stdout; stderr = c.stderr }

module _ {C W : Type 0} where
  -- A call that reaches the world alone, and may raise.
  unfoldable pub reach : {A : Type 0} → (W → Result A × W) → HostOp C W A
  reach f m = let (r, w) = f m.extra.world in (r, record m { extra = record m.extra { world = w } })

  unfoldable pub read : {A : Type 0} → (W → A × W) → HostOp C W A
  read f m =
      let (a, w) = f m.extra.world in (ok a, record m { extra = record m.extra { world = w } })

  unfoldable pub on_world : {A : Type 0} → (W → A × W) → Host C W → A × Host C W
  on_world f e = let (a, w) = f e.world in (a, record e { world = w })

  abbrev pub config : HostOp C W C
  config = gets (λ m. m.extra.config)

  unfoldable pub set_config : C → Manager (Host C W) → Manager (Host C W)
  set_config c m = record m { extra = record m.extra { config = c } }

  -- `_core_exec` and `_core_copy` of the base class
  unfoldable pub exec_not_implemented : Command → Option ℕ → String → HostOp C W ExecResult
  exec_not_implemented command timeout branch_id =
      pure (record { returncode = backend_failed; stdout = ""; stderr = "Not implemented." })

  unfoldable pub copy_not_implemented : String → String → String → Bool → HostOp C W (Bool × String)
  copy_not_implemented branch_id host_path env_path into = pure (false, "Not implemented.")

  -- The root of the tree, at which the branch stands.
  unfoldable pub init_tree : String → HostOp C W (Unit {0})
  init_tree snapshot_id = do
    modify (record_snapshot_node (physical_node snapshot_id none))
    modify (λ m. update_branch m.current_branch_id (stand_at snapshot_id) m)

  module _ (p : Platform W) where
    -- subprocess.run(argv)
    unfoldable pub call : List String → HostOp C W Completed
    call words = reach (p.subprocess_run words none)

    unfoldable pub check_returncode : List String → Completed → ℤ → HostOp C W (Unit {0})
    check_returncode words c (pos zero) = pure tt
    check_returncode words c code =
        raise (record { kind = called_process_error; message = p.process_error words code })

    -- subprocess.run(argv, check=True)
    unfoldable pub check_call : List String → HostOp C W (Unit {0})
    check_call words = do c ← call words; check_returncode words c c.returncode

    -- `self._stats.attach_size_calculator(cls(…))`
    unfoldable pub attach_calculator : String → String → HostOp C W (Unit {0})
    attach_calculator cls name = do
      n ← read (p.counted cls)
      modify (λ m. record m {
        stats = attach_size_calculator (record { name = name; instance_id = n }) m.stats;
      })

-- `base_image`, or the name of a fresh image
unfoldable pub image_or_fresh : {W : Type 0} → Platform W → Option String → W → String × W
image_or_fresh p (some image) w = (image, w)
image_or_fresh p none w = let (prefix, w') = p.uuid4 w in ("statefork_" <> prefix <> ":base", w')
