-- ===== src/Forkable/Sound/Branches.antt =====
-- The invariant and the operations that materialize, forget and discard branches.
use state_fork.Exec.{modify, pure, ◌>>◌, continue}
use state_fork.Exec.Keeps.{Keeps-bind}
use state_fork.Forkable.Branches.{distinct, conflicting, known_virtual, is_active}
use state_fork.Manager.Sound.{has-register_branch_self, has-update_branch}
use state_fork.Prelude.{
  not, map, ℕ, String, Option, some, none, List, [], ◌∷◌, Bool, true, false, ◌≡◌, arith, ◌==◌, ◌||◌,
  ◌&&◌, eq_iff, inl, inr, Bool-cases,
}
use state_fork.Exec.{Result, ok, err}
use state_fork.Exec.Keeps.{Keeps, keeps_rules}
use state_fork.Dict.{get, has, put}
use state_fork.Dict.Laws.{has-put, has-pop, has-update, get-put, get-pop}
use state_fork.Manager.State.{default_branch_id}
use state_fork.Manager.Branches.{register_branch, update_branch, remove_branch}
use state_fork.Forkable.State.{Forkable, ForkHooks, EnvironmentBranch, is_live, set_live}
use state_fork.Forkable.Branches.{
  set_active, register_live, register_all, materialize_branches, fork_requested, fork_ids, fork,
  forget_branch, discard_finished, discard_active, discard_branch,
}
use state_fork.Forkable.Sound.{
  IsForkSound, Contract, Untouched-IsForkSound, register_branch-IsForkSound,
  update_branch-IsForkSound, note-IsForkSound,
}

module _ {D B : Type 0} where
  -- A registered branch may enter the live ones.
  set_live-put-IsForkSound :
      (branch : EnvironmentBranch D) (m : Forkable D B)
      → has m.branches branch.id ≡ true
      → IsForkSound m
      → IsForkSound (set_live (put m.extra.live_branches branch.id branch) m)
  set_live-put-IsForkSound branch m registered s = record {
    base = record { main = s.base.main; current = s.base.current; numbered = s.base.numbered };
    live = λ id h.
        ground (
          arith,
          has-put m.extra.live_branches branch.id id branch,
          eq_iff branch.id id,
          s.live id,
        );
    filed = λ id b h. ground (
      arith,
      get-put m.extra.live_branches branch.id id branch,
      eq_iff branch.id id,
      s.filed id b,
    );
  }

  register_live-IsForkSound :
      (activate : Bool) (outcome : EnvironmentBranch D × ℕ) (m : Forkable D B)
      → IsForkSound m
      → IsForkSound (register_live activate outcome m)
  unfolding register_live
  register_live-IsForkSound activate (branch, elapsed) m s =
      let m₁ : Forkable D B = register_branch branch.id (some branch.base_snapshot_id) m in
      let m₂ : Forkable D B = update_branch branch.id (set_active activate) m₁ in
      note-IsForkSound "fork" branch.id elapsed branch.id _ (
        set_live-put-IsForkSound branch m₂
          (rw has-update_branch
            (has-register_branch_self branch.id (some branch.base_snapshot_id) m))
          (update_branch-IsForkSound branch.id (set_active activate) m₁
            (register_branch-IsForkSound branch.id (some branch.base_snapshot_id) m s)))

  pub register_all-IsForkSound :
      (activate : Bool) (outcomes : List (EnvironmentBranch D × ℕ)) (m : Forkable D B)
      → IsForkSound m
      → IsForkSound (register_all activate outcomes m)
  unfolding register_all
  register_all-IsForkSound activate [] m s = s
  register_all-IsForkSound activate (o ∷ os) m s =
      register_all-IsForkSound activate os _ (register_live-IsForkSound activate o m s)

  -- A branch that is neither `main` nor the current one may be forgotten.
  pub forget_branch-IsForkSound :
      (id : String) (m : Forkable D B)
      → (id == default_branch_id) ≡ false
      → (id == m.current_branch_id) ≡ false
      → IsForkSound m
      → IsForkSound (forget_branch id m)
  unfolding forget_branch remove_branch
  forget_branch-IsForkSound id m n c s = record {
    base = record {
      main = rw has-pop (rw has-update (ground (arith, s.base.main)));
      current = rw has-pop (rw has-update (ground (arith, s.base.current)));
      numbered = s.base.numbered;
    };
    live = λ i h.
        rw has-pop (rw has-update (ground (arith, has-pop m.extra.live_branches id i, s.live i)));
    filed = λ i b h. ground (arith, get-pop m.extra.live_branches id i, s.filed i b);
  }

module _ {D B : Type 0} (h : ForkHooks D B) (k : Contract h) where
  pub materialize_branches-IsForkSound :
      (id : String) (requested : List (Option String)) (activate : Bool)
      → Keeps IsForkSound (materialize_branches h id requested activate)
  unfolding materialize_branches
  materialize_branches-IsForkSound id requested activate =
      Keeps-bind (h.core_fork id requested)
        (λ outcomes. do
          modify (register_all activate outcomes)
          pure (map (λ outcome. outcome.0) outcomes))
        (record { at = λ m s. Untouched-IsForkSound (k.core_fork id requested m) s })
        (λ outcomes. search (keeps_rules, register_all-IsForkSound))

  fork_requested-IsForkSound :
      (id : String) (requested : List (Option String))
      → Keeps IsForkSound (fork_requested h id requested)
  unfolding fork_requested
  fork_requested-IsForkSound id [] = search keeps_rules
  fork_requested-IsForkSound id (r ∷ rs) = materialize_branches-IsForkSound id (r ∷ rs) true

  fork_ids-IsForkSound :
      (id : String) (n : ℕ) (ids : Option (List String)) → Keeps IsForkSound (fork_ids h id n ids)
  unfolding fork_ids
  fork_ids-IsForkSound id n none = record { at = (fork_requested-IsForkSound id _).at }
  fork_ids-IsForkSound id n (some ids) = record {
    at = λ m s. elim (Bool-cases (not (distinct ids) || conflicting m ids)) [
      | inl e ↦ simp e s
      | inr e ↦ simp e ((fork_requested-IsForkSound id (map some ids)).at m s)
    ];
  }

  pub fork-IsForkSound :
      (id : String) (n : ℕ) (ids : Option (List String)) → Keeps IsForkSound (fork h id n ids)
  unfolding fork
  fork-IsForkSound id n ids = record {
    at = λ m s.
        elim (Bool-cases (known_virtual (get m.snapshot_graph id) || not (has m.snapshots id))) [
          | inl e ↦ simp e s
          | inr e ↦ simp e ((fork_ids-IsForkSound id n ids).at m s)
        ];
  }

  discard_finished-IsForkSound :
      (id : String) (r : Result Bool) (m : Forkable D B)
      → (id == default_branch_id) ≡ false
      → (id == m.current_branch_id) ≡ false
      → IsForkSound m
      → IsForkSound (continue r (discard_finished id) m).1
  unfolding discard_finished
  discard_finished-IsForkSound id (err e) m n c s = s
  discard_finished-IsForkSound id (ok false) m n c s = s
  discard_finished-IsForkSound id (ok true) m n c s = forget_branch-IsForkSound id m n c s

  discard_active-IsForkSound :
      (id : String) (m : Forkable D B)
      → (id == default_branch_id) ≡ false
      → (id == m.current_branch_id) ≡ false
      → IsForkSound m
      → IsForkSound (discard_active h id m).1
  unfolding discard_active
  discard_active-IsForkSound id m n c s =
      let u = k.core_discard_branch id m in
      discard_finished-IsForkSound id _ _ n (simp u.current c) (Untouched-IsForkSound u s)

  pub discard_branch-IsForkSound : (id : String) → Keeps IsForkSound (discard_branch h id)
  unfolding discard_branch
  discard_branch-IsForkSound id = record {
    at = λ m s. elim (Bool-cases (id == default_branch_id || id == m.current_branch_id)) [
      | inl e ↦ simp e s
      | inr e ↦ elim (Bool-cases (is_live m id && is_active (get m.branches id))) [
        | inl l ↦ simp (e, l) (discard_active-IsForkSound id m (ground arith) (ground arith) s)
        | inr l ↦ simp (e, l) s
      ]
    ];
  }
