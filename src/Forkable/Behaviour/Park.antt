-- ===== src/Forkable/Behaviour/Park.antt =====
-- controller/forkable_env_manager.py: what `park_branch` does to the controller's records.
use state_fork.Prelude.{
  String, ℕ, true, false, Option, none, some, List, ◌≡◌, refl, inl, inr, arith, ◌==◌, ◌||◌, not,
  if◌then◌else◌, Option-cases, Bool-cases, eq_iff, ap,
}
use state_fork.Exec.{Result, ok, err, continue}
use state_fork.Dict.{get, has}
use state_fork.Dict.Laws.{has-pop}
use state_fork.Manager.State.{BranchState, default_branch_id}
use state_fork.Manager.Branches.{set_current_branch, record_snapshot_node, remove_branch}
use state_fork.Manager.Snapshot.{note, physical_node}
use state_fork.Manager.Replay.Graph.{get-record_snapshot_node}
use state_fork.Forkable.State.{Forkable, ForkHooks, is_live}
use state_fork.Forkable.Branches.{forget_branch}
use state_fork.Forkable.Park.{leave_branch, park_captured, park_active, park_branch}
use state_fork.Forkable.Sound.{IsForkSound, Contract, Untouched}
use state_fork.Forkable.Behaviour.Discard.{Untouched-refl}

module _ {D B : Type 0} where
  -- The branch is gone, its state is kept as a physical snapshot below the branch's last one, and
  -- `main` is the current branch where the parked one was.
  pub record Parked (id sid : String) (m m' : Forkable D B) : Type 0 where
    pub was_live : is_live m id ≡ true
    pub not_main : (id == default_branch_id) ≡ false
    pub state : BranchState
    pub stood : get m.branches id ≡ some state
    pub was_active : state.active ≡ true
    pub not_live : is_live m' id ≡ false
    pub not_registered : has m'.branches id ≡ false
    pub children : List String
    pub kept :
        get m'.snapshot_graph sid
        ≡ some (record (physical_node sid state.last_snapshot_id) { children = children })
    pub current :
        m'.current_branch_id
        ≡ (if id == m.current_branch_id then default_branch_id else m.current_branch_id)

  abbrev pub ParkOutcome : String → Forkable D B → Result (Option String) → Forkable D B → Type 0
  ParkOutcome id m (ok (some sid)) m' = Parked id sid m m'
  ParkOutcome id m (ok none) m' = Untouched m m'
  ParkOutcome id m (err e) m' = Untouched m m'

  leave_branch-result :
      (id : String) (m : Forkable D B)
      → has m.branches default_branch_id ≡ true
      → leave_branch id m ≡ (
        ok tt,
        record m {
          current_branch_id =
              if id == m.current_branch_id then default_branch_id else m.current_branch_id;
        },
      )
  unfolding leave_branch set_current_branch
  leave_branch-result id m s = elim (Bool-cases (id == m.current_branch_id)) [
    | inr e ↦ simp e refl
    | inl e ↦ simp (e, s) refl
  ]

  forget_branch-Parked :
      (id sid : String) (elapsed : ℕ) (st : BranchState) (m m₁ : Forkable D B)
      → is_live m id ≡ true
      → (id == default_branch_id) ≡ false
      → get m.branches id ≡ some st
      → st.active ≡ true
      → Untouched m m₁
      → Parked id sid m (
          forget_branch id
            (record (note "park" sid elapsed id
              (record_snapshot_node (physical_node sid st.last_snapshot_id) m₁)) {
                current_branch_id =
                    if id == m₁.current_branch_id then default_branch_id else m₁.current_branch_id;
              }))
  unfolding forget_branch remove_branch note physical_node
  forget_branch-Parked id sid elapsed st m m₁ l n g a u =
      let (children, kept) = get-record_snapshot_node (physical_node sid st.last_snapshot_id) m₁ in
      record {
        was_live = l;
        not_main = n;
        state = st;
        stood = g;
        was_active = a;
        not_live = rw has-pop (ground (arith, eq_iff id id));
        not_registered = rw has-pop (ground (arith, eq_iff id id));
        children = children;
        kept = kept;
        current = ap (λ c. if id == c then default_branch_id else c) u.current;
      }

  park_captured-outcome :
      (id : String) (st : BranchState) (r : Result (Option String × ℕ)) (m m₁ : Forkable D B)
      → IsForkSound m
      → is_live m id ≡ true
      → (id == default_branch_id) ≡ false
      → get m.branches id ≡ some st
      → st.active ≡ true
      → Untouched m m₁
      → ParkOutcome id m
          (continue r (park_captured id st.last_snapshot_id) m₁).0
          (continue r (park_captured id st.last_snapshot_id) m₁).1
  unfolding park_captured note record_snapshot_node
  park_captured-outcome id st (err e) m m₁ s l n g a u = u
  park_captured-outcome id st (ok (none, elapsed)) m m₁ s l n g a u = u
  park_captured-outcome id st (ok (some sid, elapsed)) m m₁ s l n g a u =
      let m₂ : Forkable D B =
        note "park" sid elapsed id
          (record_snapshot_node (physical_node sid st.last_snapshot_id) m₁) in
      let main : has m₂.branches default_branch_id ≡ true = simp u.branches s.base.main in
      rw (leave_branch-result id m₂ main, park_captured)
        (forget_branch-Parked id sid elapsed st m m₁ l n g a u)

module _ {D B : Type 0} (h : ForkHooks D B) (k : Contract h) where
  -- If parking a branch of a sound manager yields a snapshot, then the branch was live, active and
  -- not `main`, it is gone, the snapshot is in the graph below the branch's last snapshot, and
  -- `main` is the current branch where the parked one was. If it yields none or raises, the
  -- controller's records are as they were.
  pub park_branch-outcome :
      (id : String) (m : Forkable D B)
      → IsForkSound m
      → ParkOutcome id m (park_branch h id m).0 (park_branch h id m).1
  unfolding park_branch park_active
  park_branch-outcome id m s = elim (Bool-cases (id == default_branch_id || not (is_live m id))) [
    | inl e ↦ simp e (Untouched-refl m)
    | inr e ↦ elim (Option-cases (get m.branches id)) [
      | inl g ↦ simp e (rw (g, park_branch) (Untouched-refl m))
      | inr (st, g) ↦ elim (Bool-cases st.active) [
        | inr a ↦ simp e (rw (g, park_branch) (simp a (Untouched-refl m)))
        | inl a ↦ simp e (
            rw (g, park_branch)
              (simp a (
                park_captured-outcome id st _ m _ s (ground arith) (ground arith) g a
                  (k.core_park_branch id m))))
      ]
    ]
  ]
