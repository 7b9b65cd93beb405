-- ===== src/Manager/Sound.antt =====
-- The invariant of a manager: `main` and the current branch are registered, and the benchmark log
-- is numbered without a gap.
use state_fork.Manager.Stable.{AnyNode}
use state_fork.Prelude.{eq_refl, ℕ, String, Option, true, ◌≡◌, refl, arith}
use state_fork.Dict.{get, has}
use state_fork.Decider.{Decider}
use state_fork.Manager.State.{
  Manager, SnapshotNode, BranchState, new_branch, new_manager, default_branch_id,
}
use state_fork.Manager.Branches.{
  position, register_branch, update_branch, set_branch_position, record_snapshot_node,
}
use state_fork.Manager.Snapshot.{note}
use state_fork.Manager.Stable.{IsStable}
use state_fork.Benchmark.Sequence.{IsNumbered, IsNumbered-new, add_entry-IsNumbered}
use state_fork.Dict.Laws.{has-update, has-put}

pub record IsSound {E : Type 0} (m : Manager E) : Type 0 where
  pub main : has m.branches default_branch_id ≡ true
  pub current : has m.branches m.current_branch_id ≡ true
  pub numbered : IsNumbered m.stats

module _ {E : Type 0} where
  -- Registering, updating and positioning a branch unregister none.
  pub has-register_branch :
      (branch : String) (base : Option String) (m : Manager E) (id : String)
      → has m.branches id ≡ true
      → has (register_branch branch base m).branches id ≡ true
  unfolding register_branch
  has-register_branch branch base m id h =
      ground (arith, has-put m.branches branch id (new_branch branch base))

  pub has-update_branch :
      (branch : String) (f : BranchState → BranchState) (m : Manager E) (id : String)
      → has (update_branch branch f m).branches id ≡ has m.branches id
  unfolding update_branch
  has-update_branch branch f m id = has-update m.branches branch id f

  pub current-register_branch :
      (branch : String) (base : Option String) (m : Manager E)
      → (register_branch branch base m).current_branch_id ≡ m.current_branch_id
  unfolding register_branch
  current-register_branch branch base m = ground arith

  pub stats-register_branch :
      (branch : String) (base : Option String) (m : Manager E)
      → (register_branch branch base m).stats ≡ m.stats
  unfolding register_branch
  stats-register_branch branch base m = ground arith

  pub extra-register_branch :
      (branch : String) (base : Option String) (m : Manager E)
      → (register_branch branch base m).extra ≡ m.extra
  unfolding register_branch
  extra-register_branch branch base m = ground arith

  -- A branch is registered afterwards.
  pub has-register_branch_self :
      (branch : String) (base : Option String) (m : Manager E)
      → has (register_branch branch base m).branches branch ≡ true
  unfolding register_branch
  has-register_branch_self branch base m =
      ground (arith, has-put m.branches branch branch (new_branch branch base), eq_refl branch)

  pub has-set_branch_position :
      (branch : String) (at : Option String) (m : Manager E) (id : String)
      → has (set_branch_position branch at m).branches id
        ≡ has (register_branch branch at m).branches id
  unfolding set_branch_position
  has-set_branch_position branch at m id =
      has-update_branch branch (position at) (register_branch branch at m) id

  pub extra-set_branch_position :
      (branch : String) (at : Option String) (m : Manager E)
      → (set_branch_position branch at m).extra ≡ m.extra
  unfolding set_branch_position update_branch
  extra-set_branch_position branch at m = extra-register_branch branch at m

  pub update_branch-IsSound :
      (branch : String) (f : BranchState → BranchState) (m : Manager E)
      → IsSound m
      → IsSound (update_branch branch f m)
  unfolding update_branch
  update_branch-IsSound branch f m s = record {
    main = rw has-update s.main;
    current = rw has-update s.current;
    numbered = s.numbered;
  }

  pub register_branch-IsSound :
      (branch : String) (base : Option String) (m : Manager E)
      → IsSound m
      → IsSound (register_branch branch base m)
  register_branch-IsSound branch base m s = record {
    main = has-register_branch branch base m _ s.main;
    current = rw current-register_branch (has-register_branch branch base m _ s.current);
    numbered = rw stats-register_branch s.numbered;
  }

  pub set_branch_position-IsSound :
      (branch : String) (at : Option String) (m : Manager E)
      → IsSound m
      → IsSound (set_branch_position branch at m)
  unfolding set_branch_position
  set_branch_position-IsSound branch at m s =
      update_branch-IsSound branch _ _ (register_branch-IsSound branch at m s)

  pub note-IsSound :
      (operation target : String) (elapsed : ℕ) (branch : String) (m : Manager E)
      → IsSound m
      → IsSound (note operation target elapsed branch m)
  unfolding note
  note-IsSound operation target elapsed branch m s = record {
    main = s.main;
    current = s.current;
    numbered = add_entry-IsNumbered operation target elapsed branch s.numbered;
  }

  pub record_snapshot_node-IsSound :
      (node : SnapshotNode) (m : Manager E) → IsSound m → IsSound (record_snapshot_node node m)
  unfolding record_snapshot_node
  record_snapshot_node-IsSound node m s = record {
    main = s.main;
    current = s.current;
    numbered = s.numbered;
  }

  pub IsStable-IsSound : IsStable (IsSound {E = E}) AnyNode
  IsStable-IsSound = record {
    noted = note-IsSound;
    updated = update_branch-IsSound;
    positioned = set_branch_position-IsSound;
    recorded = λ node m fit s. record_snapshot_node-IsSound node m s;
    fit_noted = λ node operation target elapsed branch m fit. tt;
    flagged = λ b m s. record { main = s.main; current = s.current; numbered = s.numbered };
  }

  -- A new manager is sound.
  pub IsSound-new_manager :
      (name : String) (decider : Option Decider) (extra : E)
      → IsSound (new_manager name decider extra)
  unfolding new_manager get
  IsSound-new_manager name decider extra = record {
    main = refl;
    current = refl;
    numbered = IsNumbered-new;
  }
