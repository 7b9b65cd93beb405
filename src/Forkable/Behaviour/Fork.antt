-- ===== src/Forkable/Behaviour/Fork.antt =====
-- controller/forkable_env_manager.py: what `fork` does to the controller's records.
use state_fork.Prelude.{
  String, ℕ, true, Option, none, some, List, [], ◌∷◌, ◌≡◌, refl, inl, inr, Bool-cases, arith, ◌||◌,
  not, eq_iff, eq_refl, ◌∙◌, All, map, replicate,
}
use state_fork.Exec.{Result, ok, err, continue, modify, pure, ◌>>◌}
use state_fork.Dict.{get, has}
use state_fork.Dict.Laws.{get-update, get-put, has-put}
use state_fork.Manager.State.{new_branch}
use state_fork.Manager.Branches.{register_branch, update_branch}
use state_fork.Manager.Snapshot.{note}
use state_fork.Forkable.State.{Forkable, ForkHooks, EnvironmentBranch, is_live}
use state_fork.Forkable.Branches.{
  register_live, register_all, materialize_branches, fork_requested, fork_ids, fork, is_active,
  set_active, distinct, conflicting, known_virtual,
}
use state_fork.Forkable.Sound.{Contract, Untouched}

module _ {D B : Type 0} where
  -- A branch that can be used: live, registered and active.
  pub record Ready (m : Forkable D B) (id : String) : Type 0 where
    pub live : is_live m id ≡ true
    pub active : is_active (get m.branches id) ≡ true

  -- What a fork leaves of the other records.
  pub record Grown (m m' : Forkable D B) : Type 0 where
    pub current : m'.current_branch_id ≡ m.current_branch_id
    pub graph : m'.snapshot_graph ≡ m.snapshot_graph
    pub ready : (id : String) → Ready m id → Ready m' id

  active-register_branch :
      (id : String) (base : Option String) (m : Forkable D B) (other : String)
      → is_active (get m.branches other) ≡ true
      → is_active (get (register_branch id base m).branches other) ≡ true
  unfolding register_branch is_active
  active-register_branch id base m other a =
      ground (arith, get-put m.branches id other (new_branch id base), eq_iff id other)

  registered-register_branch :
      (id : String) (base : Option String) (m : Forkable D B)
      → has (register_branch id base m).branches id ≡ true
  unfolding register_branch
  registered-register_branch id base m =
      ground (arith, get-put m.branches id id (new_branch id base), eq_refl id)

  register_live-Ready_self :
      (branch : EnvironmentBranch D) (elapsed : ℕ) (m : Forkable D B)
      → Ready (register_live true (branch, elapsed) m) branch.id
  unfolding register_live note update_branch set_active is_active
  register_live-Ready_self branch elapsed m = record {
    live = rw has-put (ground (arith, eq_refl branch.id));
    active = rw get-update (
        ground (
          arith,
          eq_refl branch.id,
          registered-register_branch branch.id (some branch.base_snapshot_id) m,
        ));
  }

  register_branch-extra :
      (id : String) (base : Option String) (m : Forkable D B)
      → (register_branch id base m).extra ≡ m.extra
  unfolding register_branch
  register_branch-extra id base m = ground arith

  register_live-Ready :
      (branch : EnvironmentBranch D) (elapsed : ℕ) (m : Forkable D B) (id : String)
      → Ready m id
      → Ready (register_live true (branch, elapsed) m) id
  unfolding register_live note update_branch set_active is_active
  register_live-Ready branch elapsed m id r = record {
    live = rw has-put (rw register_branch-extra (ground (arith, r.live)));
    active = rw get-update (
        ground
          (arith, active-register_branch branch.id (some branch.base_snapshot_id) m id r.active));
  }

  register_branch-same :
      (id : String) (base : Option String) (m : Forkable D B)
      → ((register_branch id base m).current_branch_id ≡ m.current_branch_id)
        × ((register_branch id base m).snapshot_graph ≡ m.snapshot_graph)
  unfolding register_branch
  register_branch-same id base m = (ground arith, ground arith)

  register_live-Grown :
      (branch : EnvironmentBranch D) (elapsed : ℕ) (m : Forkable D B)
      → Grown m (register_live true (branch, elapsed) m)
  unfolding register_live note update_branch
  register_live-Grown branch elapsed m =
      let (c, g) = register_branch-same branch.id (some branch.base_snapshot_id) m in
      record { current = c; graph = g; ready = register_live-Ready branch elapsed m }

  Grown-refl : (m : Forkable D B) → Grown m m
  Grown-refl m = record { current = refl; graph = refl; ready = λ id r. r }

  Grown-trans : {a b c : Forkable D B} → Grown a b → Grown b c → Grown a c
  Grown-trans p q = record {
    current = q.current ∙ p.current;
    graph = q.graph ∙ p.graph;
    ready = λ id r. q.ready id (p.ready id r);
  }

  register_all-Grown :
      (outcomes : List (EnvironmentBranch D × ℕ)) (m : Forkable D B)
      → Grown m (register_all true outcomes m)
        × All (λ b. Ready (register_all true outcomes m) b.id) (map (λ outcome. outcome.0) outcomes)
  unfolding register_all
  register_all-Grown [] m = (Grown-refl m, tt)
  register_all-Grown ((branch, elapsed) ∷ outcomes) m =
      let (rest, ready) = register_all-Grown outcomes (register_live true (branch, elapsed) m) in
      (
        Grown-trans (register_live-Grown branch elapsed m) rest,
        (rest.ready branch.id (register_live-Ready_self branch elapsed m), ready),
      )

  -- What a fork leaves behind: the branches that it returns can be used, and so can those that
  -- could before.
  abbrev pub ForkOutcome :
      Forkable D B → Result (List (EnvironmentBranch D)) → Forkable D B → Type 0
  ForkOutcome m (ok branches) m' = Grown m m' × All (λ b. Ready m' b.id) branches
  ForkOutcome m (err e) m' = Grown m m'

  Untouched-Grown : {m m' : Forkable D B} → Untouched m m' → Grown m m'
  Untouched-Grown u = record {
    current = u.current;
    graph = u.graph;
    ready =
        λ id r. record { live = simp u.live_branches r.live; active = simp u.branches r.active };
  }

  register_outcomes :
      (r : Result (List (EnvironmentBranch D × ℕ))) (m m₁ : Forkable D B)
      → Grown m m₁
      → ForkOutcome m
          (continue r
            (λ outcomes. do
              modify (register_all true outcomes)
              pure (map (λ outcome. outcome.0) outcomes))
            m₁).0
          (continue r
            (λ outcomes. do
              modify (register_all true outcomes)
              pure (map (λ outcome. outcome.0) outcomes))
            m₁).1
  register_outcomes (err e) m m₁ g = g
  register_outcomes (ok outcomes) m m₁ g =
      let (rest, ready) = register_all-Grown outcomes m₁ in (Grown-trans g rest, ready)

module _ {D B : Type 0} (h : ForkHooks D B) (k : Contract h) where
  fork_requested-outcome :
      (id : String) (requested : List (Option String)) (m : Forkable D B)
      → ForkOutcome m (fork_requested h id requested m).0 (fork_requested h id requested m).1
  unfolding fork_requested materialize_branches
  fork_requested-outcome id [] m = (Grown-refl m, tt)
  fork_requested-outcome id (r ∷ rs) m =
      let u = k.core_fork id (r ∷ rs) m in register_outcomes _ m _ (Untouched-Grown u)

  fork_ids-outcome :
      (id : String) (n : ℕ) (ids : Option (List String)) (m : Forkable D B)
      → ForkOutcome m (fork_ids h id n ids m).0 (fork_ids h id n ids m).1
  unfolding fork_ids
  fork_ids-outcome id n none m = fork_requested-outcome id (replicate n none) m
  fork_ids-outcome id n (some ids) m = elim (Bool-cases (not (distinct ids) || conflicting m ids)) [
    | inl e ↦ simp e (Grown-refl m, tt)
    | inr e ↦ simp e (fork_requested-outcome id (map some ids) m)
  ]

  -- Every branch that `fork` returns is live, registered and active afterwards, every branch that
  -- was so before still is, and the current branch and the graph are unchanged. So they are if the
  -- fork is refused or raises.
  pub fork-outcome :
      (id : String) (n : ℕ) (ids : Option (List String)) (m : Forkable D B)
      → ForkOutcome m (fork h id n ids m).0 (fork h id n ids m).1
  unfolding fork
  fork-outcome id n ids m =
      elim (Bool-cases (known_virtual (get m.snapshot_graph id) || not (has m.snapshots id))) [
        | inl e ↦ simp e (Grown-refl m, tt)
        | inr e ↦ simp e (fork_ids-outcome id n ids m)
      ]
