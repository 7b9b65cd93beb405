-- ===== src/Backends/Registry/Calls.antt =====
-- What the calls of the backends leave of the registry.
use state_fork.Exec.{PyError}
use state_fork.Exec.Recover.{on_process_error}
use state_fork.Exec.{◌>>=◌}
use state_fork.Backends.Host.{HostOp}
use state_fork.Prelude.{arith, eq_refl, nonempty, some, subst, true, truthy, ◌≡◌}
use state_fork.Exec.{pure}
use state_fork.Dict.{get}
use state_fork.Dict.Laws.{get-put}
use state_fork.Manager.Branches.{register_snapshot_resource}
use state_fork.Prelude.{Bool, List, Option, String, none, pos, zero, ℕ, ℤ}
use state_fork.Exec.{Result, modify}
use state_fork.Exec.Keeps.{
  Keeps, Keeps-bind, Keeps-gets, Keeps-if, Keeps-modify, Keeps-pure, Keeps-raise, Keeps-then,
  keeps_rules,
}
use state_fork.Manager.State.{Command, Manager}
use state_fork.Manager.Snapshot.{ask}
use state_fork.Backends.Platform.{Completed, Platform}
use state_fork.Backends.Host.{
  Host, call, check_call, check_returncode, copy_not_implemented, exec_not_implemented, on_world,
  reach, read, set_config,
}
use state_fork.Exec.Ensures.{Ensures, Ensures-modify, Ensures-pure}
use state_fork.Exec.Recover.Rules.{recover-Keeps, on_process_error-value}
use state_fork.Backends.Registry.{register-Stocked, Stocked}

module _ {C W : Type 0} where
  -- A predicate of the registry and the graph does not read the fields of the backend.
  Stocked-extra :
      (m : Manager (Host C W)) (e : Host C W) → Stocked m → Stocked (record m { extra = e })
  Stocked-extra m e s = record { resources = s.resources }

  pub reach-Stocked : {A : Type 0} (f : W → Result A × W) → Keeps Stocked (reach {C = C} f)
  unfolding reach
  reach-Stocked f = record { at = λ m s. Stocked-extra m _ s }

  pub read-Stocked : {A : Type 0} (f : W → A × W) → Keeps Stocked (read {C = C} f)
  unfolding read
  read-Stocked f = record { at = λ m s. Stocked-extra m _ s }

  pub ask-Stocked : {A : Type 0} (f : W → A × W) → Keeps Stocked (ask (on_world {C = C} f))
  unfolding ask on_world
  ask-Stocked f = record { at = λ m s. Stocked-extra m _ s }

  pub set_config-Stocked : (c : C) → Keeps Stocked (modify (set_config {W = W} c))
  unfolding set_config
  set_config-Stocked c = Keeps-modify _ λ m s. Stocked-extra m _ s

  pub call-Stocked : (p : Platform W) (words : List String) → Keeps Stocked (call {C = C} p words)
  unfolding call
  call-Stocked p words = reach-Stocked (p.subprocess_run words none)

  pub check_returncode-Stocked :
      (p : Platform W) (words : List String) (done : Completed) (code : ℤ)
      → Keeps Stocked (check_returncode {C = C} p words done code)
  unfolding check_returncode
  check_returncode-Stocked p words done (pos zero) = search keeps_rules
  check_returncode-Stocked p words done _ = search keeps_rules

  pub check_call-Stocked :
      (p : Platform W) (words : List String) → Keeps Stocked (check_call {C = C} p words)
  unfolding check_call
  check_call-Stocked p words =
      Keeps-bind _ _ (call-Stocked p words) λ done. check_returncode-Stocked p words done _

  pub exec_not_implemented-Stocked :
      (command : Command) (timeout : Option ℕ) (branch : String)
      → Keeps Stocked (exec_not_implemented {C = C} {W = W} command timeout branch)
  unfolding exec_not_implemented
  exec_not_implemented-Stocked command timeout branch = search keeps_rules

  pub copy_not_implemented-Stocked :
      (branch host env : String) (into : Bool)
      → Keeps Stocked (copy_not_implemented {C = C} {W = W} branch host env into)
  unfolding copy_not_implemented
  copy_not_implemented-Stocked branch host env into = search keeps_rules

-- The id has a resource.
abbrev pub Has : {E : Type 0} → String → Manager E → Type 0
Has id m = truthy (get m.snapshots id) ≡ true

-- The snapshot that a hook captured has a resource.
abbrev pub Registers : {E : Type 0} → Option String × ℕ → Manager E → Type 0
Registers r m = (id : String) → r.0 ≡ some id → Has id m

module _ {E : Type 0} where
  pub register-Has :
      {Pre : Manager E → Type 0} (id resource : String)
      → nonempty resource ≡ true
      → Ensures Pre (modify (register_snapshot_resource id resource)) (λ v. Has id)
  unfolding register_snapshot_resource
  register-Has id resource full = Ensures-modify _ λ m pre. rw get-put (rw eq_refl full)

  pub pure-Registers :
      (id : String) (elapsed : ℕ) → Ensures (Has {E = E} id) (pure (some id, elapsed)) Registers
  pure-Registers id elapsed =
      Ensures-pure (some id, elapsed) λ m has other e. subst (λ i. Has i m) (ground (arith, e)) has

  pub none-Registers : (elapsed : ℕ) (m : Manager E) → Registers (none, elapsed) m
  none-Registers elapsed m id e = absurd (ground (arith, e))

  -- A command that failed gives no id.
  pub failed-Registers :
      (e : PyError) (a : Option String × ℕ)
      → on_process_error (none, 0) e ≡ some a
      → (m : Manager E) → Registers a m
  failed-Registers e a h m =
      subst (λ r. Registers r m) (on_process_error-value (none, 0) e a h) (none-Registers 0 m)

  pub register-Keeps :
      (id resource : String)
      → nonempty resource ≡ true
      → Keeps (Stocked {E = E}) (modify (register_snapshot_resource id resource))
  register-Keeps id resource full = Keeps-modify _ λ m s. register-Stocked id resource m full s

module _ {C W : Type 0} (p : Platform W) (drawn : (w : W) → nonempty (p.uuid8 w).0 ≡ true) where
  -- The ids of `uuid.uuid4` are not empty.
  pub uuid8-Stocked :
      {A : Type 0} (next : String → HostOp C W A)
      → ((id : String) → nonempty id ≡ true → Keeps Stocked (next id))
      → Keeps Stocked (read p.uuid8 >>= next)
  unfolding read
  uuid8-Stocked next k = record {
    at = λ m s. (k (p.uuid8 m.extra.world).0 (drawn m.extra.world)).at _ (Stocked-extra m _ s);
  }

  pub uuid8-Registers :
      (next : String → HostOp C W (Option String × ℕ))
      → ((id : String) → nonempty id ≡ true → Ensures (λ m. Unit) (next id) Registers)
      → Ensures (λ m. Unit) (read p.uuid8 >>= next) Registers
  unfolding read
  uuid8-Registers next x = record {
    at = λ m pre v. (x (p.uuid8 m.extra.world).0 (drawn m.extra.world)).at _ tt v;
  }

pub ruleset stocked_calls = (
  Keeps-bind, Keeps-then, Keeps-if, Keeps-gets, Keeps-raise, Keeps-pure, recover-Keeps,
  reach-Stocked, read-Stocked, set_config-Stocked, call-Stocked, check_call-Stocked,
)
