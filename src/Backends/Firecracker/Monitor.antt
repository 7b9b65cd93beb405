-- ===== src/Backends/Firecracker/Monitor.antt =====
-- What the calls of a snapshot of a virtual machine do.
use state_fork.Backends.Firecracker.{change_state}
use state_fork.Prelude.{Bool, List, String, eq_iff, false, none, true, ◌==◌, ◌∙◌, ◌≡◌}
use state_fork.Exec.{Result, ok}
use state_fork.Text.{strip}
use state_fork.Manager.State.{Manager}
use state_fork.Backends.Platform.{Completed, Platform, Processes}
use state_fork.Backends.Host.{Host, call, reach, read}
use state_fork.Exec.Ensures.{Ensures, Ensures-bind, Ensures-pure}
use state_fork.Backends.Firecracker.{Fire, Machine, create_args, set_state, state_args, status_of}
use state_fork.Backends.Host.Calls.{Ensures-config, Ensures-read}

-- A virtual machine monitor as it is documented: after a change of the state that it answers with 204
-- the machine is in that state, and nothing else that a snapshot calls changes it.
pub record IsMonitor {W : Type 0} (p : Platform W) (s : Processes W) (v : Machine W) (c : Fire)
    (running : W → Bool) : Type 0 where
  pub pauses :
      (w : W) (done : Completed)
      → (p.subprocess_run (state_args c "Paused") none w).0 ≡ ok done
      → strip done.stdout ≡ "204"
      → running (p.subprocess_run (state_args c "Paused") none w).1 ≡ false
  pub resumes :
      (w : W) (done : Completed)
      → (p.subprocess_run (state_args c "Resumed") none w).0 ≡ ok done
      → strip done.stdout ≡ "204"
      → running (p.subprocess_run (state_args c "Resumed") none w).1 ≡ true
  pub creates :
      (snapshot_path mem_file_path : String) (w : W)
      → running (p.subprocess_run (create_args p s v c snapshot_path mem_file_path) none w).1
        ≡ running w
  pub resolves : (path : String) (w : W) → running (v.resolve path w).1 ≡ running w
  pub times : (w : W) → running (p.time w).1 ≡ running w

-- A monitor that pauses the machine and then refuses to write its snapshot.
pub record Refuses {W : Type 0} (p : Platform W) (s : Processes W) (v : Machine W) (c : Fire)
    : Type 0 where
  pub paused :
      (w : W)
      → (done : Completed) × ((p.subprocess_run (state_args c "Paused") none w).0 ≡ ok done)
        × (strip done.stdout ≡ "204")
  pub refused :
      (snapshot_path mem_file_path : String) (w : W)
      → (done : Completed) × ((p.subprocess_run
            (create_args p s v c snapshot_path mem_file_path)
            none
            w).0
          ≡ ok done)
        × (strip done.stdout ≡ "400")

module _ {W : Type 0} (p : Platform W) (s : Processes W) (v : Machine W) where
  -- The status of a call, and the world that it leaves.
  pub status_of-Ensures :
      {Pre : Manager (Host Fire W) → Type 0} {Post : String → Manager (Host Fire W) → Type 0}
      (words : List String)
      → ((m : Manager (Host Fire W)) (done : Completed)
          → Pre m
          → (p.subprocess_run words none m.extra.world).0 ≡ ok done
          → Post (strip done.stdout) (record m {
            extra = record m.extra { world = (p.subprocess_run words none m.extra.world).1 };
          }))
      → Ensures Pre (status_of p s v words) Post
  unfolding status_of call reach
  status_of-Ensures {Post} words h =
      Ensures-bind (λ done. Post (strip done.stdout)) _ _
        (record { at = λ m pre done e. h m done pre e })
        λ done. Ensures-pure (strip done.stdout) λ m post. post

module _ {W : Type 0} (c : Fire) where
  abbrev pub Same : Manager (Host Fire W) → Type 0
  Same m = m.extra.config ≡ c

  pub read-Same : {A : Type 0} (f : W → A × W) → Ensures Same (read f) (λ a. Same)
  read-Same f = Ensures-read f λ m same. same

  pub reach-Same : {A : Type 0} (f : W → Result A × W) → Ensures Same (reach f) (λ a. Same)
  unfolding reach
  reach-Same f = record { at = λ m same a e. same }

  module _ (running : W → Bool) where
    pub record At (b : Bool) (m : Manager (Host Fire W)) : Type 0 where
      pub same : m.extra.config ≡ c
      pub state : running m.extra.world ≡ b

    pub read-At :
        {A : Type 0} (b : Bool) (f : W → A × W)
        → ((w : W) → running (f w).1 ≡ running w)
        → Ensures (At b) (read f) (λ a. At b)
    read-At b f keeps =
        Ensures-read f λ m at. record { same = at.same; state = keeps m.extra.world ∙ at.state }

    pub record Changed (b : Bool) (obeyed : Bool) (m : Manager (Host Fire W)) : Type 0 where
      pub same : m.extra.config ≡ c
      pub state : obeyed ≡ true → running m.extra.world ≡ b

module _ {W : Type 0} (p : Platform W) (s : Processes W) (v : Machine W) (c : Fire)
    (running : W → Bool) where
  pub set_state-Changed :
      (state : String) (b : Bool)
      → ((w : W) (done : Completed)
          → (p.subprocess_run (state_args c state) none w).0 ≡ ok done
          → strip done.stdout ≡ "204"
          → running (p.subprocess_run (state_args c state) none w).1 ≡ b)
      → Ensures (Same c) (set_state p s v state) (Changed c running b)
  unfolding set_state change_state
  set_state-Changed state b law =
      Ensures-config c (change_state p s v state) (λ m same. same)
        (Ensures-bind (λ code. Changed c running b (code == "204")) _ _
          (status_of-Ensures p s v (state_args c state) λ m done same e. record {
            same = same;
            state = λ full. law m.extra.world done e ((eq_iff (strip done.stdout) "204").0 full);
          })
          λ code. Ensures-pure (code == "204") λ m changed. changed)
