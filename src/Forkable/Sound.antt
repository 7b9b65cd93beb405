-- ===== src/Forkable/Sound.antt =====
-- The invariant of a forkable manager, and the contract of its backends.
pub mod Branches
pub mod Listing
pub mod Hooks
pub mod Park
pub mod Calls
use state_fork.Manager.Stable.{AnyNode}
use state_fork.Benchmark.Sequence.{IsNumbered}
use state_fork.Dict.Laws.{has-update}
use state_fork.Prelude.{
  sym, subst, some, inl, inr, Bool-cases, ℕ, String, Option, List, Bool, true, false, ◌≡◌, refl,
  arith, ◌==◌,
}
use state_fork.Exec.Keeps.{Keeps}
use state_fork.Dict.{Dict, get, has}
use state_fork.Manager.State.{Manager, Command, SnapshotNode, BranchState, default_branch_id}
use state_fork.Manager.Branches.{
  register_branch, update_branch, set_branch_position, set_current_branch, record_snapshot_node,
}
use state_fork.Manager.Snapshot.{note}
use state_fork.Manager.Stable.{IsStable}
use state_fork.Manager.Sound.{
  extra-register_branch, IsSound, has-register_branch, has-update_branch, register_branch-IsSound,
  update_branch-IsSound, set_branch_position-IsSound, note-IsSound, record_snapshot_node-IsSound,
}
use state_fork.Forkable.State.{Forkable, ForkOp, ForkHooks, EnvironmentBranch, is_live}

module _ {D B : Type 0} where
  -- The manager is sound, every live branch has a state, and is filed under its own id.
  pub record IsForkSound (m : Forkable D B) : Type 0 where
    pub base : IsSound m
    pub live : (id : String) → is_live m id ≡ true → has m.branches id ≡ true
    pub filed :
        (id : String) (branch : EnvironmentBranch D)
        → get m.extra.live_branches id ≡ some branch
        → branch.id ≡ id

  -- The controller's own records are as they were.
  pub record Untouched (m m' : Forkable D B) : Type 0 where
    pub branches : m'.branches ≡ m.branches
    pub current : m'.current_branch_id ≡ m.current_branch_id
    pub stats : m'.stats ≡ m.stats
    pub graph : m'.snapshot_graph ≡ m.snapshot_graph
    pub live_branches : m'.extra.live_branches ≡ m.extra.live_branches

  -- What the primitives document: four of them leave the controller's records alone. The others
  -- may refresh the registry, and keep the invariant.
  pub record Contract (h : ForkHooks D B) : Type 0 where
    pub core_fork :
        (id : String) (requested : List (Option String)) (m : Forkable D B)
        → Untouched m (h.core_fork id requested m).1
    pub core_discard_branch :
        (id : String) (m : Forkable D B) → Untouched m (h.core_discard_branch id m).1
    pub core_park_branch :
        (id : String) (m : Forkable D B) → Untouched m (h.core_park_branch id m).1
    pub core_list_branches : (m : Forkable D B) → Untouched m (h.core_list_branches m).1
    pub core_snapshot : (id : String) → Keeps IsForkSound (h.core_snapshot id)
    pub core_cleanup : Keeps IsForkSound h.core_cleanup
    pub core_exec :
        (c : Command) (t : Option ℕ) (id : String) → Keeps IsForkSound (h.core_exec c t id)
    pub core_copy :
        (id host env : String) (into : Bool) → Keeps IsForkSound (h.core_copy id host env into)

  pub Untouched-IsForkSound :
      {m m' : Forkable D B} → Untouched m m' → IsForkSound m → IsForkSound m'
  Untouched-IsForkSound u s = record {
    base = record {
      main = simp u.branches s.base.main;
      current = simp (u.branches, u.current) s.base.current;
      numbered = subst IsNumbered (sym u.stats) s.base.numbered;
    };
    live = λ id h. simp u.branches (s.live id (simp u.live_branches at h));
    filed = λ id b h. s.filed id b (simp u.live_branches at h);
  }

  pub register_branch-IsForkSound :
      (id : String) (base : Option String) (m : Forkable D B)
      → IsForkSound m
      → IsForkSound (register_branch id base m)
  register_branch-IsForkSound id base m s = record {
    base = register_branch-IsSound id base m s.base;
    live = λ i h. has-register_branch id base m i (s.live i (simp extra-register_branch at h));
    filed = λ i b h. s.filed i b (simp extra-register_branch at h);
  }

  pub update_branch-IsForkSound :
      (id : String) (f : BranchState → BranchState) (m : Forkable D B)
      → IsForkSound m
      → IsForkSound (update_branch id f m)
  unfolding update_branch
  update_branch-IsForkSound id f m s = record {
    base = update_branch-IsSound id f m s.base;
    live = λ i h. rw has-update (s.live i h);
    filed = s.filed;
  }

  pub set_branch_position-IsForkSound :
      (id : String) (at : Option String) (m : Forkable D B)
      → IsForkSound m
      → IsForkSound (set_branch_position id at m)
  unfolding set_branch_position
  set_branch_position-IsForkSound id at m s =
      update_branch-IsForkSound id _ _ (register_branch-IsForkSound id at m s)

  pub note-IsForkSound :
      (operation target : String) (elapsed : ℕ) (id : String) (m : Forkable D B)
      → IsForkSound m
      → IsForkSound (note operation target elapsed id m)
  unfolding note
  note-IsForkSound operation target elapsed id m s = record {
    base = note-IsSound operation target elapsed id m s.base;
    live = s.live;
    filed = s.filed;
  }

  pub record_snapshot_node-IsForkSound :
      (node : SnapshotNode) (m : Forkable D B)
      → IsForkSound m
      → IsForkSound (record_snapshot_node node m)
  unfolding record_snapshot_node
  record_snapshot_node-IsForkSound node m s = record {
    base = record_snapshot_node-IsSound node m s.base;
    live = s.live;
    filed = s.filed;
  }

  pub set_current_branch-IsForkSound : (id : String) → Keeps IsForkSound (set_current_branch id)
  unfolding set_current_branch
  set_current_branch-IsForkSound id = record {
    at = λ m s. elim (Bool-cases (has m.branches id)) [
      | inl e ↦ simp e (record {
        base = record { main = s.base.main; current = e; numbered = s.base.numbered };
        live = s.live;
        filed = s.filed;
      })
      | inr e ↦ simp e s
    ];
  }

  pub IsStable-IsForkSound : IsStable IsForkSound AnyNode
  IsStable-IsForkSound = record {
    noted = note-IsForkSound;
    updated = update_branch-IsForkSound;
    positioned = set_branch_position-IsForkSound;
    recorded = λ node m fit s. record_snapshot_node-IsForkSound node m s;
    fit_noted = λ node operation target elapsed branch m fit. tt;
    flagged = λ b m s. record {
      base = record { main = s.base.main; current = s.base.current; numbered = s.base.numbered };
      live = s.live;
      filed = s.filed;
    };
  }
