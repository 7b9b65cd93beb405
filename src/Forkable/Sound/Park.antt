-- ===== src/Forkable/Sound/Park.antt =====
-- The invariant and the parking of a branch.
use state_fork.Prelude.{
  ℕ, String, Option, some, none, false, ◌≡◌, refl, arith, ◌==◌, ◌||◌, not, inl, inr, Bool-cases,
  Option-cases,
}
use state_fork.Exec.{Result-cases, Result, ok, err, continue}
use state_fork.Exec.Keeps.{Keeps}
use state_fork.Dict.{get}
use state_fork.Manager.State.{default_branch_id}
use state_fork.Manager.Branches.{set_current_branch}
use state_fork.Forkable.State.{Forkable, ForkOp, ForkHooks, is_live}
use state_fork.Forkable.Park.{or_key_error, leave_branch, park_captured, park_active, park_branch}
use state_fork.Forkable.Sound.{
  IsForkSound, Contract, Untouched-IsForkSound, note-IsForkSound, record_snapshot_node-IsForkSound,
}
use state_fork.Forkable.Sound.Branches.{forget_branch-IsForkSound}
use state_fork.Manager.Snapshot.{note, physical_node}
use state_fork.Manager.Branches.{record_snapshot_node}

module _ {D B : Type 0} where
  -- Leaving a branch that is not `main` succeeds, and the branch is not current afterwards.
  leave_branch-ok :
      (id : String) (m : Forkable D B)
      → (id == default_branch_id) ≡ false
      → IsForkSound m
      → ((leave_branch id m).0 ≡ ok tt)
        × ((id == (leave_branch id m).1.current_branch_id) ≡ false)
        × IsForkSound (leave_branch id m).1
  unfolding leave_branch set_current_branch
  leave_branch-ok id m n s = elim (Bool-cases (id == m.current_branch_id)) [
    | inr e ↦ simp e (refl, refl, s)
    | inl e ↦
        simp (e, s.base.main)
          (
            refl,
            n,
            record {
              base = record {
                main = s.base.main;
                current = s.base.main;
                numbered = s.base.numbered;
              };
              live = s.live;
              filed = s.filed;
            },
          )
  ]

  park_captured-IsForkSound :
      (id : String) (parent : Option String) (r : Result (Option String × ℕ)) (m : Forkable D B)
      → (id == default_branch_id) ≡ false
      → IsForkSound m
      → IsForkSound (continue r (park_captured id parent) m).1
  unfolding park_captured
  park_captured-IsForkSound id parent (err e) m n s = s
  park_captured-IsForkSound id parent (ok (none, elapsed)) m n s = s
  park_captured-IsForkSound id parent (ok (some sid, elapsed)) m n s =
      let m₁ : Forkable D B =
        note "park" sid elapsed id (record_snapshot_node (physical_node sid parent) m) in
      let s₁ =
        note-IsForkSound "park" sid elapsed id _
          (record_snapshot_node-IsForkSound (physical_node sid parent) m s) in
      let (done, other, s₂) = leave_branch-ok id m₁ n s₁ in
      rw (done, park_captured) (forget_branch-IsForkSound id _ n other s₂)

  pub or_key_error-IsForkSound :
      {A : Type 0} (a : A) (op : ForkOp D B A)
      → Keeps IsForkSound op
      → Keeps IsForkSound (or_key_error a op)
  unfolding or_key_error
  or_key_error-IsForkSound a op kp = record {
    at = λ m s. elim (Result-cases (op m).0) [
      | inl (b, e) ↦ rw (e, or_key_error) (kp.at m s)
      | inr (x, e) ↦ rw (e, or_key_error) (kp.at m s)
    ];
  }

module _ {D B : Type 0} (h : ForkHooks D B) (k : Contract h) where
  pub park_branch-IsForkSound : (id : String) → Keeps IsForkSound (park_branch h id)
  unfolding park_branch park_active
  park_branch-IsForkSound id = record {
    at = λ m s. elim (Bool-cases (id == default_branch_id || not (is_live m id))) [
      | inl e ↦ simp e s
      | inr e ↦ elim (Option-cases (get m.branches id)) [
        | inl g ↦ simp e (rw (g, park_branch) s)
        | inr (st, g) ↦ elim (Bool-cases st.active) [
          | inr a ↦ simp e (rw (g, park_branch) (simp a s))
          | inl a ↦ simp e (
              rw (g, park_branch)
                (simp a (
                  park_captured-IsForkSound id st.last_snapshot_id _ _ (ground arith)
                    (Untouched-IsForkSound (k.core_park_branch id m) s))))
        ]
      ]
    ];
  }
