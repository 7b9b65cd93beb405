-- ===== src/Manager/Replay/Tracks.antt =====
-- The invariant of a sequential manager: its bookkeeping tells the state of the environment.
use state_fork.Benchmark.{BenchmarkStats}
use state_fork.Prelude.{Option-cases, inl, inr, false, none, arith, ◌≡◌, ◌∙◌, String, true, some}
use state_fork.Dict.{Dict, get, has}
use state_fork.Manager.State.{Manager, BranchState}
use state_fork.Manager.Ancestry.Resolution.{KeysMatch}
use state_fork.Manager.Replay.{Outside, Kept, run_all}
use state_fork.Manager.Replay.Graph.{Denotes, Denotes-extends, Extends}

module _ {E S : Type 0} (o : Outside E S) where
  -- The snapshot `id` of the manager stands for the environment state `s`.
  abbrev pub Stands : Manager E → String → S → Type 0
  Stands m id s = Denotes o m.snapshot_graph (o.image m.extra) id s

  -- The present state of the environment is the state of the last snapshot of the current branch,
  -- followed by the commands of its log.
  pub record Tracks (m : Manager E) : Type 0 where
    pub state : BranchState
    pub at : get m.branches m.current_branch_id ≡ some state
    pub active : state.active ≡ true
    pub base : String
    pub last : state.last_snapshot_id ≡ some base
    pub start : S
    pub stands : Stands m base start
    pub live : o.live m.extra ≡ run_all o state.command_log start
    pub keys : KeysMatch m.snapshot_graph
    pub filed : (id : String) → has m.snapshot_graph id ≡ true → o.issued m.extra id ≡ true

  -- What every operation keeps: the invariant, and the state that each snapshot stands for.
  pub record Moved (m m' : Manager E) : Type 0 where
    pub tracks : Tracks m'
    pub persists : (id : String) (s : S) → Stands m id s → Stands m' id s

  pub Moved-refl : (m : Manager E) → Tracks m → Moved m m
  Moved-refl m t = record { tracks = t; persists = λ id s d. d }

  pub Moved-trans : {a b c : Manager E} → Moved a b → Moved b c → Moved a c
  Moved-trans x y = record {
    tracks = y.tracks;
    persists = λ id s d. y.persists id s (x.persists id s d);
  }

  Extends-refl : (m : Manager E) → Extends m.snapshot_graph m.snapshot_graph
  Extends-refl m id node g = (node.children, g)

  pub Stands-outside :
      (m : Manager E) (e' : E)
      → ((id : String) → has m.snapshot_graph id ≡ true → o.issued m.extra id ≡ true)
      → Kept o m.extra e'
      → (id : String) (s : S) → Stands m id s
      → Denotes o m.snapshot_graph (o.image e') id s
  Stands-outside m e' filed kept id s d =
      Denotes-extends o (Extends-refl m) (λ i h. kept.images i (filed i h)) d

  -- Something that happens outside and does not disturb the environment.
  pub Moved-outside :
      (m : Manager E) (e' : E)
      → Tracks m
      → Kept o m.extra e'
      → o.live e' ≡ o.live m.extra
      → Moved m (record m { extra = e' })
  Moved-outside m e' t kept live = record {
    tracks = record {
      state = t.state;
      at = t.at;
      active = t.active;
      base = t.base;
      last = t.last;
      start = t.start;
      stands = Stands-outside m e' t.filed kept t.base t.start t.stands;
      live = live ∙ t.live;
      keys = t.keys;
      filed = λ id h. kept.issued id (t.filed id h);
    };
    persists = Stands-outside m e' t.filed kept;
  }

  -- The registry of resources and the statistics have no part in the invariant.
  pub Moved-books :
      (m : Manager E) (resources : Dict String) (stats : BenchmarkStats)
      → Tracks m
      → Moved m (record m { snapshots = resources; stats = stats })
  Moved-books m resources stats t = record {
    tracks = record {
      state = t.state;
      at = t.at;
      active = t.active;
      base = t.base;
      last = t.last;
      start = t.start;
      stands = t.stands;
      live = t.live;
      keys = t.keys;
      filed = t.filed;
    };
    persists = λ id s d. d;
  }

  -- An id that was never issued is not in the graph.
  pub get_unissued :
      {m : Manager E} (id : String)
      → Tracks m
      → o.issued m.extra id ≡ false
      → get m.snapshot_graph id ≡ none
  get_unissued {m} id t new = elim (Option-cases (get m.snapshot_graph id)) [
    | inl e ↦ e
    | inr (n, e) ↦ absurd (ground (arith, t.filed id))
  ]
