-- ===== src/Waypoint/Process.antt =====
-- controller/waypoint_env_manager.py: running the `waypoint` program.
use state_fork.Prelude.{
  zero, ℤ, pos, ℕ, String, Bool, true, Option, none, some, List, [], ◌∷◌, ◌++◌, ◌<>◌, ◌||◌,
  if◌then◌else◌, is_some, pos, nonempty,
}
use state_fork.Exec.{
  ok, err, PyError, called_process_error, json_error, runtime_error, other_error, pure, raise,
  modify, ◌>>=◌,
}
use state_fork.Text.{strip}
use state_fork.Waypoint.State.{Tools, Session, Waypoint, WaypointOp, Ran, completed, expired}
use state_fork.Backends.Platform.{Completed}
use text.Mathlib.Text.{find?}

-- except subprocess.CalledProcessError, json.JSONDecodeError
unfoldable pub on_listing_error : {A : Type 0} → A → PyError → Option A
on_listing_error a e = elim e.kind [
  | called_process_error ↦ some a
  | json_error ↦ some a
  | _ ↦ none
]

-- The advice on installing that the source adds to this message and to `no_forking` is left out.
pub binary_not_found : String → PyError
binary_not_found bin = record {
  kind = other_error;
  message = "Waypoint binary not found or not executable: " <> bin;
}

-- `_cpe_detail`
unfoldable pub cpe_detail : String → Completed → String
cpe_detail text c =
    let detail = strip (c.stderr <> c.stdout) in
    if nonempty detail then text <> (" :: " <> detail) else text

module _ {W : Type 0} (t : Tools W) where
  -- A function of the world, lifted to a session.
  abbrev pub in_world : {A : Type 0} → (W → A × W) → Session W → A × Session W
  in_world f s = let (a, w) = f s.world in (a, record s { world = w })

  unfoldable pub spawn : List String → Option ℕ → WaypointOp W Ran
  spawn words timeout m =
      let (ran, w) = t.subprocess_run words timeout m.extra.backend.world in
      (ran, record m { extra = record m.extra { backend = record m.extra.backend { world = w } } })

  -- `_run_waypoint`
  unfoldable pub run_waypoint : List String → Option ℕ → WaypointOp W Ran
  run_waypoint args timeout m =
      let w = m.extra.backend.world in
      if t.executable w
      then spawn (t.prefix w ++ t.waypoint_bin ∷ args) timeout m
      else (err (binary_not_found t.waypoint_bin), m)

  -- `check=True`. The message of the exception is the one that its handlers show, `_cpe_detail`.
  unfoldable pub check_code : List String → Completed → ℤ → WaypointOp W Completed
  check_code args c (pos zero) = pure c
  check_code args c code =
      raise
        (record { kind = called_process_error; message = cpe_detail (t.process_error args code) c })

  unfoldable pub check : List String → Ran → WaypointOp W Completed
  check args (completed c) = check_code args c c.returncode
  check args (expired stdout stderr) =
      raise (record { kind = other_error; message = t.seconds none })

  unfoldable pub run_checked : List String → WaypointOp W Completed
  run_checked args = do ran ← run_waypoint args none; check args ran

  abbrev pub no_forking : PyError
  no_forking = record {
    kind = runtime_error;
    message = "The Waypoint binary does not support concurrent forking.";
  }

  -- The output of the binary without arguments names the fork command.
  unfoldable pub names_fork : String → Bool
  names_fork usage =
      is_some (find? usage "Materialize live fork") || is_some (find? usage "fork <session>")

  unfoldable pub set_forking_supported : Waypoint W → Waypoint W
  set_forking_supported m = record m {
    extra = record m.extra { backend = record m.extra.backend { forking_supported = true } };
  }

  unfoldable pub probed : Ran → WaypointOp W Unit
  probed (completed c) =
      if names_fork c.stdout then modify set_forking_supported else raise no_forking
  probed (expired stdout stderr) = raise (record { kind = other_error; message = t.seconds none })

  unfoldable pub probe : WaypointOp W Unit
  probe = do ran ← spawn (t.waypoint_bin ∷ []) none; probed ran

  -- `_assert_supports_forking`
  unfoldable pub assert_supports_forking : WaypointOp W Unit
  assert_supports_forking m =
      if m.extra.backend.forking_supported
      then (ok tt, m)
      else if t.executable m.extra.backend.world
      then probe m
      else (err (binary_not_found t.waypoint_bin), m)
