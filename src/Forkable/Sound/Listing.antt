-- ===== src/Forkable/Sound/Listing.antt =====
-- The invariant and the refresh from the backend.
use state_fork.Prelude.{
  ◌∙◌, sym, subst, ap, String, Option, some, none, List, [], ◌∷◌, true, false, ◌≡◌, refl, arith,
  ◌==◌, ◌||◌, ◌&&◌, eq_iff, eq_refl, inl, inr, Bool-cases, contains, nonempty, map, not,
}
use state_fork.Exec.Keeps.{Keeps, keeps_rules, Keeps-bind}
use state_fork.Dict.{Dict, get, has, put, keys}
use state_fork.Dict.Laws.{has-put, has-pop, has-update, get-put}
use state_fork.Manager.State.{default_branch_id}
use state_fork.Manager.Branches.{register_branch, remove_branch}
use state_fork.Manager.Sound.{
  extra-set_branch_position, has-set_branch_position, has-register_branch_self, IsSound,
  has-register_branch,
}
use state_fork.Benchmark.Sequence.{IsNumbered}
use state_fork.Forkable.State.{Fork, Forkable, ForkHooks, EnvironmentBranch, is_live, set_live}
use state_fork.Forkable.Listing.{
  base_or_none, stands_at, index_from, refresh_branch, refresh_all, drop_stale, drop_all, adopt,
  list_refreshed, list_branches,
}
use state_fork.Forkable.Sound.{
  set_branch_position-IsSound, extra-register_branch, register_branch-IsSound, IsForkSound,
  Contract, Untouched-IsForkSound,
}

none-has : (D : Type 0) (id : String) → has {V = EnvironmentBranch D} [] id ≡ false
unfolding get
none-has D id = refl

module _ {D : Type 0} where
  abbrev pub ids : List (EnvironmentBranch D) → List String
  ids = map (λ branch. branch.id)

  -- The new index holds the refreshed branches and no other, each under its id.
  has-index_from :
      (live : Dict (EnvironmentBranch D)) (branches : List (EnvironmentBranch D)) (id : String)
      → has (index_from live branches) id ≡ (has live id || contains id (ids branches))
  unfolding index_from contains
  has-index_from live [] id = ground arith
  has-index_from live (b ∷ bs) id = ground (
    arith,
    has-index_from (put live b.id b) bs id,
    has-put live b.id id b,
    eq_iff b.id id,
    eq_iff id b.id,
  )

  none-filed :
      (id : String) (b : EnvironmentBranch D) → get {V = EnvironmentBranch D} [] id ≡ some b → ⊥
  unfolding get
  none-filed id b h = ground arith

  index_from-filed :
      (live : Dict (EnvironmentBranch D)) (branches : List (EnvironmentBranch D))
      → ((id : String) (b : EnvironmentBranch D) → get live id ≡ some b → b.id ≡ id)
      → (id : String) (b : EnvironmentBranch D) → get (index_from live branches) id ≡ some b
      → b.id ≡ id
  unfolding index_from
  index_from-filed live [] f id b h = f id b h
  index_from-filed live (c ∷ cs) f id b h =
      index_from-filed (put live c.id c) cs
        (λ i x g. ground (arith, get-put live c.id i c, eq_iff c.id i, f i x)) id b h

module _ {D B : Type 0} where
  -- A round of the refresh registers the branch, and unregisters none.
  record Refreshed (branch : EnvironmentBranch D) (m m' : Forkable D B) : Type 0 where
    sound : IsSound m → IsSound m'
    kept : (id : String) → has m.branches id ≡ true → has m'.branches id ≡ true
    here : has m'.branches branch.id ≡ true
    same_live : m'.extra ≡ m.extra

  refresh_branch-Refreshed :
      (branch : EnvironmentBranch D) (m : Forkable D B)
      → Refreshed branch m (refresh_branch branch m)
  unfolding refresh_branch
  refresh_branch-Refreshed branch m =
      elim (Bool-cases (
        nonempty branch.base_snapshot_id
        && not (stands_at branch.base_snapshot_id (get m₁.branches branch.id)))) [
          | inr e ↦ simp e (record {
            sound = register_branch-IsSound branch.id (base_or_none branch.base_snapshot_id) m;
            kept = has-register_branch branch.id (base_or_none branch.base_snapshot_id) m;
            here = has-register_branch_self branch.id (base_or_none branch.base_snapshot_id) m;
            same_live = extra-register_branch branch.id (base_or_none branch.base_snapshot_id) m;
          })
          | inl e ↦ simp e (record {
            sound = λ s.
                set_branch_position-IsSound branch.id at m₁
                  (register_branch-IsSound branch.id (base_or_none branch.base_snapshot_id) m s);
            kept = λ id h. rw has-set_branch_position (
                has-register_branch branch.id at m₁ id
                  (has-register_branch branch.id (base_or_none branch.base_snapshot_id) m id h));
            here = rw has-set_branch_position (has-register_branch_self branch.id at m₁);
            same_live =
                extra-set_branch_position branch.id at m₁
                ∙ extra-register_branch branch.id (base_or_none branch.base_snapshot_id) m;
          })
        ]
    where
      at : Option String
      at = some branch.base_snapshot_id

      m₁ : Forkable D B
      m₁ = register_branch branch.id (base_or_none branch.base_snapshot_id) m

  record RefreshedAll (branches : List (EnvironmentBranch D)) (m m' : Forkable D B) : Type 0 where
    sound : IsSound m → IsSound m'
    kept : (id : String) → has m.branches id ≡ true → has m'.branches id ≡ true
    here : (id : String) → contains id (ids branches) ≡ true → has m'.branches id ≡ true
    same_live : m'.extra ≡ m.extra

  refresh_all-RefreshedAll :
      (branches : List (EnvironmentBranch D)) (m : Forkable D B)
      → RefreshedAll branches m (refresh_all branches m)
  unfolding refresh_all contains
  refresh_all-RefreshedAll [] m = record {
    sound = λ s. s;
    kept = λ id h. h;
    here = λ id h. absurd (ground arith);
    same_live = refl;
  }
  refresh_all-RefreshedAll (b ∷ bs) m =
      let first = refresh_branch-Refreshed b m in
      let rest = refresh_all-RefreshedAll bs (refresh_branch b m) in
      record {
        sound = λ s. rest.sound (first.sound s);
        kept = λ id h. rest.kept id (first.kept id h);
        here = λ id h. ground (arith, eq_iff id b.id, rest.here id, rest.kept b.id first.here);
        same_live = rest.same_live ∙ first.same_live;
      }

  -- What is refreshed is not dropped, nor are `main` and the current branch.
  drop_stale-has :
      (refreshed : List String) (stale id : String) (m : Forkable D B)
      → has m.branches id ≡ true
      → (contains id refreshed || id == default_branch_id || id == m.current_branch_id) ≡ true
      → has (drop_stale refreshed stale m).branches id ≡ true
  unfolding drop_stale remove_branch
  drop_stale-has refreshed stale id m h keep =
      elim (Bool-cases
        (contains stale refreshed || stale == default_branch_id || stale == m.current_branch_id)) [
          | inl e ↦ simp e h
          | inr e ↦ simp e (rw has-pop (rw has-update (ground (arith, eq_iff stale id))))
        ]

  drop_stale-rest :
      (refreshed : List String) (stale : String) (m : Forkable D B)
      → ((drop_stale refreshed stale m).current_branch_id ≡ m.current_branch_id)
        × ((drop_stale refreshed stale m).stats ≡ m.stats)
        × ((drop_stale refreshed stale m).extra ≡ m.extra)
  unfolding drop_stale remove_branch
  drop_stale-rest refreshed stale m = ground arith

  record DroppedAll (refreshed : List String) (m m' : Forkable D B) : Type 0 where
    current : m'.current_branch_id ≡ m.current_branch_id
    stats : m'.stats ≡ m.stats
    extra : m'.extra ≡ m.extra
    kept :
        (id : String)
        → has m.branches id ≡ true
        → (contains id refreshed || id == default_branch_id || id == m.current_branch_id) ≡ true
        → has m'.branches id ≡ true

  drop_all-DroppedAll :
      (refreshed stale : List String) (m : Forkable D B)
      → DroppedAll refreshed m (drop_all refreshed stale m)
  unfolding drop_all
  drop_all-DroppedAll refreshed [] m = record {
    current = refl;
    stats = refl;
    extra = refl;
    kept = λ id h keep. h;
  }
  drop_all-DroppedAll refreshed (s ∷ ss) m =
      let (current, stats, extra) = drop_stale-rest refreshed s m in
      let rest = drop_all-DroppedAll refreshed ss (drop_stale refreshed s m) in
      record {
        current = rest.current ∙ current;
        stats = rest.stats ∙ stats;
        extra = rest.extra ∙ extra;
        kept =
            λ id h keep. rest.kept id (drop_stale-has refreshed s id m h keep) (simp current keep);
      }

  adopt-IsForkSound :
      (refreshed : List (EnvironmentBranch D)) (m : Forkable D B)
      → IsForkSound m
      → IsForkSound (adopt refreshed m)
  unfolding adopt
  adopt-IsForkSound refreshed m s = record {
    base = record {
      main = d.kept default_branch_id s₁.main (ground (arith, eq_refl default_branch_id));
      current =
          simp d.current
            (d.kept m₁.current_branch_id s₁.current (ground (arith, eq_refl m₁.current_branch_id)));
      numbered = subst IsNumbered (sym d.stats) s₁.numbered;
    };
    live = λ id h. d.kept id (r.here id (listed id h)) (ground (arith, listed id h));
    filed = λ id b h.
        index_from-filed [] refreshed (λ i x g. absurd (none-filed i x g)) id b
          (subst (λ l. get l id ≡ some b) same h);
  }
    where
      m₀ : Forkable D B
      m₀ = set_live (index_from [] refreshed) m

      m₁ : Forkable D B
      m₁ = refresh_all refreshed m₀

      r : RefreshedAll refreshed m₀ m₁
      r = refresh_all-RefreshedAll refreshed m₀

      s₁ : IsSound m₁
      s₁ =
          r.sound
            (record { main = s.base.main; current = s.base.current; numbered = s.base.numbered })

      d : DroppedAll (ids refreshed) m₁ (drop_all (ids refreshed) (keys m.extra.live_branches) m₁)
      d = drop_all-DroppedAll (ids refreshed) (keys m.extra.live_branches) m₁

      same :
          (drop_all (ids refreshed) (keys m.extra.live_branches) m₁).extra.live_branches
          ≡ index_from [] refreshed
      same = ap (λ (x : Fork D B). x.live_branches) (d.extra ∙ r.same_live)

      listed :
          (id : String)
          → is_live (drop_all (ids refreshed) (keys m.extra.live_branches) m₁) id ≡ true
          → contains id (ids refreshed) ≡ true
      listed id h = ground (
        arith,
        has-index_from [] refreshed id,
        none-has D id,
        subst (λ l. has l id ≡ true) same h,
      )

  pub list_refreshed-IsForkSound :
      (o : Option (List (EnvironmentBranch D))) → Keeps IsForkSound (list_refreshed {B = B} o)
  unfolding list_refreshed
  list_refreshed-IsForkSound none = search keeps_rules
  list_refreshed-IsForkSound (some refreshed) = search (keeps_rules, adopt-IsForkSound)

module _ {D B : Type 0} (h : ForkHooks D B) (k : Contract h) where
  pub list_branches-IsForkSound : Keeps IsForkSound (list_branches h)
  unfolding list_branches
  list_branches-IsForkSound =
      Keeps-bind h.core_list_branches list_refreshed
        (record { at = λ m s. Untouched-IsForkSound (k.core_list_branches m) s })
        list_refreshed-IsForkSound
