-- ===== src/Backends/Host/Calls.antt =====
-- What the calls of a backend ensure.
use state_fork.Prelude.{negsuc, subst, suc, sym, zero, ℤ}
use state_fork.Manager.Branches.{get_branch_state}
use state_fork.Manager.Stable.{get_branch_state-state}
use state_fork.Prelude.{List, String, none, pos, refl, ◌≡◌}
use state_fork.Exec.{ok, ◌>>=◌}
use state_fork.Manager.State.{Manager}
use state_fork.Exec.Ensures.{Ensures, Ensures-bind, Ensures-total, Ensures-pure, Ensures-raise}
use state_fork.Backends.Platform.{Platform, Completed}
use state_fork.Backends.Host.{Host, HostOp, reach, read, config, call, check_call, check_returncode}

module _ {C W : Type 0} where
  pub Ensures-read :
      {A : Type 0} {Pre : Manager (Host C W) → Type 0} {Post : A → Manager (Host C W) → Type 0}
      (f : W → A × W)
      → ((m : Manager (Host C W))
          → Pre m
          → Post
              (f m.extra.world).0
              (record m { extra = record m.extra { world = (f m.extra.world).1 } }))
      → Ensures Pre (read f) Post
  unfolding read
  Ensures-read f h =
      Ensures-total (read f) (λ m. (f m.extra.world).0)
        (λ m. record m { extra = record m.extra { world = (f m.extra.world).1 } }) (λ m. refl) h

  check_returncode-Ensures :
      {Post : Manager (Host C W) → Type 0} (p : Platform W) (words : List String) (done : Completed)
      (code : ℤ)
      → Ensures (λ m. code ≡ pos 0 → Post m) (check_returncode p words done code) (λ v. Post)
  unfolding check_returncode
  check_returncode-Ensures p words done (pos zero) = Ensures-pure tt (λ m f. f refl)
  check_returncode-Ensures p words done (pos (suc n)) = Ensures-raise _
  check_returncode-Ensures p words done (negsuc n) = Ensures-raise _

  -- `subprocess.run(argv, check=True)` returns where the program ended with 0.
  pub Ensures-check_call :
      {Pre : Manager (Host C W) → Type 0} {Post : Manager (Host C W) → Type 0} (p : Platform W)
      (words : List String)
      → ((m : Manager (Host C W))
          → Pre m
          → (done : Completed) → (p.subprocess_run words none m.extra.world).0 ≡ ok done
          → done.returncode ≡ pos 0
          → Post (record m {
            extra = record m.extra { world = (p.subprocess_run words none m.extra.world).1 };
          }))
      → Ensures Pre (check_call p words) (λ v. Post)
  unfolding check_call call reach
  Ensures-check_call {Post} p words h =
      Ensures-bind (λ done m. done.returncode ≡ pos 0 → Post m) _ _
        (record { at = λ m pre done e zero. h m pre done e zero })
        λ done. check_returncode-Ensures p words done done.returncode

  pub Ensures-call :
      {Pre : Manager (Host C W) → Type 0} {Post : Manager (Host C W) → Type 0} (p : Platform W)
      (words : List String)
      → ((m : Manager (Host C W))
          → Pre m
          → Post (record m {
            extra = record m.extra { world = (p.subprocess_run words none m.extra.world).1 };
          }))
      → Ensures Pre (call p words) (λ v. Post)
  unfolding call reach
  Ensures-call p words h = record { at = λ m pre done e. h m pre }

  pub Ensures-config :
      {A : Type 0} {Pre : Manager (Host C W) → Type 0} {Post : A → Manager (Host C W) → Type 0}
      (c : C) (next : C → HostOp C W A)
      → ((m : Manager (Host C W)) → Pre m → m.extra.config ≡ c)
      → Ensures Pre (next c) Post
      → Ensures Pre (config >>= next) Post
  Ensures-config {Post} c next same x = record {
    at = λ m pre v.
        subst (λ d. (next d m).0 ≡ ok v → Post v (next d m).1) (sym (same m pre)) (x.at m pre v);
  }

  pub Ensures-get_branch_state :
      {Pre : Manager (Host C W) → Type 0} (branch : String)
      → Ensures Pre (get_branch_state branch) (λ v. Pre)
  Ensures-get_branch_state {Pre} branch = record {
    at = λ m pre v e. subst Pre (sym (get_branch_state-state branch m)) pre;
  }
