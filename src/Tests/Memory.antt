-- ===== src/Tests/Memory.antt =====
-- A forkable backend in memory, after tests/test_forkable_env_manager.py: every primitive succeeds
-- and takes its ids from a counter.
use state_fork.Prelude.{ℕ, suc, refl, String, true, Option, none, some, List, [], ◌∷◌, ◌<>◌}
use state_fork.Exec.{ok}
use state_fork.Manager.Branches.{register_snapshot_resource}
use state_fork.Manager.State.{exited}
use state_fork.Forkable.State.{Forkable, ForkHooks, EnvironmentBranch}
use state_fork.Forkable.Sound.{IsForkSound, Contract}
use state_fork.Tests.Box.{name}

abbrev pub count : ℕ → Forkable (Unit {0}) ℕ → Forkable (Unit {0}) ℕ
count n m = record m { extra = record m.extra { backend = n } }

abbrev next_id : String → Forkable (Unit {0}) ℕ → String
next_id prefix m = prefix <> name m.extra.backend

-- A capture registers its image, as the contract of the hook asks.
abbrev stored : String → Forkable (Unit {0}) ℕ → Forkable (Unit {0}) ℕ
stored id m = register_snapshot_resource id id (count (suc m.extra.backend) m)

abbrev named_as : ℕ → Option String → String
named_as n none = "f" <> name n
named_as n (some id) = id

abbrev outcomes : String → ℕ → List (Option String) → List (EnvironmentBranch (Unit {0}) × ℕ)
outcomes base n [] = []
outcomes base n (o ∷ os) =
    (record { id = named_as n o; base_snapshot_id = base; status = "ready"; details = tt }, 1)
    ∷ outcomes base (suc n) os

abbrev after : ℕ → List (Option String) → ℕ
after n [] = n
after n (o ∷ os) = after (suc n) os

abbrev pub memory : ForkHooks (Unit {0}) ℕ
memory = record {
  core_snapshot = λ id m. (ok (some (next_id "s" m), 1), stored (next_id "s" m) m);
  core_cleanup = λ m. (ok (some true), m);
  core_exec = λ c t id m. (ok (record { returncode = exited 0; stdout = ""; stderr = "" }), m);
  core_copy = λ id host env into m. (ok (true, ""), m);
  core_fork = λ id os m. (ok (outcomes id m.extra.backend os), count (after m.extra.backend os) m);
  core_discard_branch = λ id m. (ok true, m);
  core_park_branch = λ id m. (ok (some (next_id "s" m), 1), stored (next_id "s" m) m);
  core_list_branches = λ m. (ok none, m);
  coin = λ b. (true, b);
  uuid_hex = λ b. (name b, suc b);
  time = λ b. (b, b);
}

stored-IsForkSound :
    (id : String) (m : Forkable (Unit {0}) ℕ) → IsForkSound m → IsForkSound (stored id m)
unfolding register_snapshot_resource
stored-IsForkSound id m s = record {
  base = record { main = s.base.main; current = s.base.current; numbered = s.base.numbered };
  live = s.live;
  filed = s.filed;
}

pub memory-Contract : Contract memory
unfolding register_snapshot_resource
memory-Contract = record {
  core_fork = λ id os m. record {
    branches = refl;
    current = refl;
    stats = refl;
    graph = refl;
    live_branches = refl;
  };
  core_discard_branch = λ id m. record {
    branches = refl;
    current = refl;
    stats = refl;
    graph = refl;
    live_branches = refl;
  };
  core_park_branch = λ id m. record {
    branches = refl;
    current = refl;
    stats = refl;
    graph = refl;
    live_branches = refl;
  };
  core_list_branches = λ m. record {
    branches = refl;
    current = refl;
    stats = refl;
    graph = refl;
    live_branches = refl;
  };
  core_snapshot = λ id. record { at = λ m. stored-IsForkSound (next_id "s" m) m };
  core_cleanup = record { at = λ m s. s };
  core_exec = λ c t id. record { at = λ m s. s };
  core_copy = λ id host env into. record { at = λ m s. s };
}
