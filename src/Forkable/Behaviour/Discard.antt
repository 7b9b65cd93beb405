-- ===== src/Forkable/Behaviour/Discard.antt =====
-- controller/forkable_env_manager.py: what `discard_branch` does to the controller's records.
use state_fork.Prelude.{
  String, Bool, true, false, none, ◌≡◌, refl, inl, inr, Bool-cases, arith, ◌==◌, ◌||◌, ◌&&◌,
  if◌then◌else◌, eq_iff, ◌∙◌,
}
use state_fork.Exec.{Result, ok, err, continue}
use state_fork.Dict.{get, has}
use state_fork.Dict.Laws.{get-pop, get-update, has-pop}
use state_fork.Manager.State.{default_branch_id}
use state_fork.Manager.Branches.{remove_branch}
use state_fork.Forkable.State.{Forkable, ForkHooks, is_live}
use state_fork.Forkable.Branches.{
  forget_branch, discard_finished, discard_active, discard_branch, is_active,
}
use state_fork.Forkable.Sound.{Contract, Untouched}

module _ {D B : Type 0} where
  -- A live, active branch other than `main` and the current one is gone, and nothing else changed.
  pub record Discarded (id : String) (m m' : Forkable D B) : Type 0 where
    pub was_live : is_live m id ≡ true
    pub was_active : is_active (get m.branches id) ≡ true
    pub not_main : (id == default_branch_id) ≡ false
    pub not_current : (id == m.current_branch_id) ≡ false
    pub not_live : is_live m' id ≡ false
    pub not_registered : has m'.branches id ≡ false
    pub others_live :
        (other : String)
        → (id == other) ≡ false
        → get m'.extra.live_branches other ≡ get m.extra.live_branches other
    pub others_registered :
        (other : String) → (id == other) ≡ false → get m'.branches other ≡ get m.branches other
    pub same_current : m'.current_branch_id ≡ m.current_branch_id
    pub same_graph : m'.snapshot_graph ≡ m.snapshot_graph

  -- By the result: the branch is discarded, or the controller's records are as they were.
  abbrev pub DiscardOutcome : String → Forkable D B → Result Bool → Forkable D B → Type 0
  DiscardOutcome id m (ok true) m' = Discarded id m m'
  DiscardOutcome id m (ok false) m' = Untouched m m'
  DiscardOutcome id m (err e) m' = Untouched m m'

  pub Untouched-refl : (m : Forkable D B) → Untouched m m
  Untouched-refl m = record {
    branches = refl;
    current = refl;
    stats = refl;
    graph = refl;
    live_branches = refl;
  }

  get-remove_branch :
      (id other : String) (m : Forkable D B)
      → get (remove_branch id m).branches other
        ≡ (if id == other then none else get m.branches other)
  unfolding remove_branch
  get-remove_branch id other m = rw get-pop (rw get-update (ground arith))

  get-forget_branch :
      (id other : String) (m : Forkable D B)
      → (id == other) ≡ false
      → get (forget_branch id m).branches other ≡ get m.branches other
  unfolding forget_branch
  get-forget_branch id other m n = get-remove_branch id other _ ∙ ground arith

  forget_branch-Discarded :
      (id : String) (m m₁ : Forkable D B)
      → is_live m id ≡ true
      → is_active (get m.branches id) ≡ true
      → (id == default_branch_id) ≡ false
      → (id == m.current_branch_id) ≡ false
      → Untouched m m₁
      → Discarded id m (forget_branch id m₁)
  unfolding forget_branch remove_branch
  forget_branch-Discarded id m m₁ l a n c u = record {
    was_live = l;
    was_active = a;
    not_main = n;
    not_current = c;
    not_live = rw has-pop (ground (arith, eq_iff id id));
    not_registered = rw has-pop (ground (arith, eq_iff id id));
    others_live = λ other ne. rw get-pop (ground (arith, u.live_branches));
    others_registered = λ other ne. get-forget_branch id other m₁ ne ∙ ground (arith, u.branches);
    same_current = u.current;
    same_graph = u.graph;
  }

  discard_finished-outcome :
      (id : String) (m : Forkable D B) (r : Result Bool) (m₁ : Forkable D B)
      → is_live m id ≡ true
      → is_active (get m.branches id) ≡ true
      → (id == default_branch_id) ≡ false
      → (id == m.current_branch_id) ≡ false
      → Untouched m m₁
      → DiscardOutcome id m
          (continue r (discard_finished id) m₁).0
          (continue r (discard_finished id) m₁).1
  unfolding discard_finished
  discard_finished-outcome id m (err e) m₁ l a n c u = u
  discard_finished-outcome id m (ok false) m₁ l a n c u = u
  discard_finished-outcome id m (ok true) m₁ l a n c u = forget_branch-Discarded id m m₁ l a n c u

module _ {D B : Type 0} (h : ForkHooks D B) (k : Contract h) where
  -- If `discard_branch` returns `True`, the branch was live and active, neither `main` nor current,
  -- it is neither live nor registered any more, and no other branch, the current branch or the graph
  -- changed. If it returns `False` or raises, the controller's records are as they were.
  pub discard_branch-outcome :
      (id : String) (m : Forkable D B)
      → DiscardOutcome id m (discard_branch h id m).0 (discard_branch h id m).1
  unfolding discard_branch discard_active
  discard_branch-outcome id m =
      elim (Bool-cases (id == default_branch_id || id == m.current_branch_id)) [
        | inl e ↦ simp e (Untouched-refl m)
        | inr e ↦ elim (Bool-cases (is_live m id && is_active (get m.branches id))) [
          | inl l ↦
              simp (e, l)
                (discard_finished-outcome id m _ _ (ground arith) (ground arith) (ground arith)
                  (ground arith) (k.core_discard_branch id m))
          | inr l ↦ simp (e, l) (Untouched-refl m)
        ]
      ]
