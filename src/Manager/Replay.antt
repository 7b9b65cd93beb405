-- ===== src/Manager/Replay.antt =====
-- Sequential backends seen from the outside: an environment with a state, which commands change and
-- snapshots store. A virtual snapshot
-- denotes the state that its commands lead to.
pub mod Executed
pub mod Graph
pub mod Tracks
pub mod Snapshots
pub mod Restores
pub mod History
pub mod Liveness
pub mod Attached
use state_fork.Prelude.{
  refl, ◌∙◌, ◌∙◌, ℕ, String, ◌≡◌, Bool, true, false, Option, none, some, List, [], ◌∷◌, ◌++◌, ◌<>◌,
}
use state_fork.Exec.{PyError, Result, ok, err}
use state_fork.Dict.{put}
use state_fork.Manager.State.{Manager, Op, Hooks, Command, ExecResult}

-- What a sequential backend does outside the manager: `E` is the outside, `S` the state of the
-- environment. `live` is its present state, `image` what is stored under a snapshot id, `issued`
-- the snapshot ids that were ever handed out, and `run` the effect of a command.
pub record Outside (E S : Type 0) : Type 0 where
  pub live : E → S
  pub image : E → String → Option S
  pub issued : E → String → Bool
  pub run : Command → S → S
  pub exec : Command → Option ℕ → String → E → Result ExecResult × E
  pub capture : String → E → Result (Option String × ℕ) × E
  pub reload : String → String → E → Result (Bool × ℕ) × E
  pub teardown : E → Result (Option Bool) × E
  pub copy : String → String → String → Bool → E → Result (Bool × String) × E
  pub coin : E → Bool × E
  pub uuid_hex : E → String × E
  pub time : E → ℕ × E

module _ {E S : Type 0} (o : Outside E S) where
  -- The stored images stay, and so do the issued ids.
  pub record Kept (e e' : E) : Type 0 where
    pub images : (id : String) → o.issued e id ≡ true → o.image e' id ≡ o.image e id
    pub issued : (id : String) → o.issued e id ≡ true → o.issued e' id ≡ true

  -- What the hooks document: commands act on the present state alone, a capture stores it under a
  -- new id and does not disturb it, and a reload that succeeds brings the stored state back. Ids
  -- are never issued twice. A reload that fails preserves the environment: the documentation asks
  -- this only where it is practical, so the theorems are about the backends where it is.
  pub record IsFaithful : Type 0 where
    pub exec_runs :
        (c : Command) (t : Option ℕ) (b : String) (e : E)
        → o.live (o.exec c t b e).1 ≡ o.run c (o.live e)
    pub exec_keeps : (c : Command) (t : Option ℕ) (b : String) (e : E) → Kept e (o.exec c t b e).1
    pub capture_live : (b : String) (e : E) → o.live (o.capture b e).1 ≡ o.live e
    pub capture_keeps : (b : String) (e : E) → Kept e (o.capture b e).1
    pub capture_stores :
        (b : String) (e : E) (id : String) (t : ℕ)
        → (o.capture b e).0 ≡ ok (some id, t)
        → (o.issued e id ≡ false)
          × (o.issued (o.capture b e).1 id ≡ true)
          × (o.image (o.capture b e).1 id ≡ some (o.live e))
    pub reload_keeps : (id b : String) (e : E) → Kept e (o.reload id b e).1
    pub reload_done :
        (id b : String) (e : E) (t : ℕ)
        → (o.reload id b e).0 ≡ ok (true, t)
        → o.image e id ≡ some (o.live (o.reload id b e).1)
    pub reload_refused :
        (id b : String) (e : E) (t : ℕ)
        → (o.reload id b e).0 ≡ ok (false, t)
        → o.live (o.reload id b e).1 ≡ o.live e
    pub reload_raised :
        (id b : String) (e : E) (exc : PyError)
        → (o.reload id b e).0 ≡ err exc
        → o.live (o.reload id b e).1 ≡ o.live e
    pub coin_live : (e : E) → o.live (o.coin e).1 ≡ o.live e
    pub coin_keeps : (e : E) → Kept e (o.coin e).1
    pub uuid_live : (e : E) → o.live (o.uuid_hex e).1 ≡ o.live e
    pub uuid_keeps : (e : E) → Kept e (o.uuid_hex e).1
    pub uuid_new : (e : E) → o.issued e ("v" <> (o.uuid_hex e).0) ≡ false
    pub uuid_issued : (e : E) → o.issued (o.uuid_hex e).1 ("v" <> (o.uuid_hex e).0) ≡ true
    pub time_live : (e : E) → o.live (o.time e).1 ≡ o.live e
    pub time_keeps : (e : E) → Kept e (o.time e).1

module _ {E : Type 0} where
  -- An action on the outside that leaves the manager's own fields alone.
  abbrev pub outside : {A : Type 0} → (E → Result A × E) → Op E A
  outside f m = let (r, e) = f m.extra in (r, record m { extra = e })

  -- A capture that succeeds registers its resource, as the contract of `_core_snapshot` asks.
  abbrev pub registered : Result (Option String × ℕ) → Manager E → Manager E
  registered (ok (some id, t)) m = record m { snapshots = put m.snapshots id id }
  registered (ok (none, t)) m = m
  registered (err exc) m = m

-- The hooks that such a backend gives the manager.
unfoldable pub sequential : {E S : Type 0} → Outside E S → Hooks E
sequential o = record {
  core_snapshot =
      λ b m. let (r, e) = o.capture b m.extra in (r, registered r (record m { extra = e }));
  core_restore = λ id b. outside (o.reload id b);
  core_cleanup = outside o.teardown;
  core_exec = λ c t b. outside (o.exec c t b);
  core_copy = λ b host env into. outside (o.copy b host env into);
  after_snapshot = λ b id m. m;
  coin = o.coin;
  uuid_hex = o.uuid_hex;
  time = o.time;
}

abbrev pub run_all : {E S : Type 0} → Outside E S → List Command → S → S
run_all o [] s = s
run_all o (c ∷ cs) s = run_all o cs (o.run c s)

pub run_all-append :
    {E S : Type 0} (o : Outside E S) (cs ds : List Command) (s : S)
    → run_all o (cs ++ ds) s ≡ run_all o ds (run_all o cs s)
run_all-append o [] ds s = refl
run_all-append o (c ∷ cs) ds s = run_all-append o cs ds (o.run c s)

module _ {E S : Type 0} (o : Outside E S) where
  pub Kept-refl : (e : E) → Kept o e e
  Kept-refl e = record { images = λ id h. refl; issued = λ id h. h }

  pub Kept-trans : {a b c : E} → Kept o a b → Kept o b c → Kept o a c
  Kept-trans x y = record {
    images = λ id h. y.images id (x.issued id h) ∙ x.images id h;
    issued = λ id h. y.issued id (x.issued id h);
  }
