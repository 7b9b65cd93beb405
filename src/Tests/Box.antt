-- ===== src/Tests/Box.antt =====
-- A sequential backend whose environment is the list of the commands that it has run.
use Prim.Native.String.append
use state_fork.Exec.{Result, ok, err, PyError}
use state_fork.Dict.{Dict, get, put}
use state_fork.Dict.Laws.{get-put}
use state_fork.Manager.Replay.Liveness.{Reloads}
use state_fork.Prelude.{
  eq_refl, subst, ℕ, zero, suc, ◌<◌, ◌≡◌, refl, ap, String, Bool, true, false, Option, none, some,
  List, [], ◌∷◌, ◌++◌, arith, ltb, eq_iff, ◌<>◌,
}
use state_fork.Manager.State.{Command, exited}
use state_fork.Manager.Replay.{Outside, IsFaithful, Kept}

pub record Box : Type 0 where
  pub state : List Command
  pub images : Dict (List Command)
  pub next : ℕ

unfoldable pub size : String → ℕ
size String.[] = 0
size (String.◌∷◌ c s) = suc (size s)

unfoldable pub name : ℕ → String
name zero = ""
name (suc n) = "a" <> name n

pub size-name : (n : ℕ) → size (name n) ≡ n
unfolding size name
size-name zero = refl
size-name (suc n) = rw append.cons (ap suc (rw append.nil (size-name n)))

size-v : (s : String) → size ("v" <> s) ≡ suc (size s)
unfolding size
size-v s = rw append.cons (rw append.nil refl)

abbrev reload_box : Option (List Command) → Box → Result (Bool × ℕ) × Box
reload_box none e = (ok (false, 0), e)
reload_box (some s) e = (ok (true, 2), record e { state = s })

abbrev pub box : Outside Box (List Command)
box = record {
  live = λ e. e.state;
  image = λ e id. get e.images id;
  issued = λ e id. ltb (size id) e.next;
  run = λ c s. s ++ c ∷ [];
  exec = λ c t b e. (
    ok (record { returncode = exited 0; stdout = ""; stderr = "" }),
    record e { state = e.state ++ c ∷ [] },
  );
  capture = λ b e. (
    ok (some (name e.next), 3),
    record e { images = put e.images (name e.next) e.state; next = suc e.next },
  );
  reload = λ id b e. reload_box (get e.images id) e;
  teardown = λ e. (ok none, e);
  copy = λ b host env into e. (ok (true, ""), e);
  coin = λ e. (true, e);
  uuid_hex = λ e. (name e.next, record e { next = suc (suc e.next) });
  time = λ e. (0, e);
}

Kept-same : (e : Box) (s : List Command) → Kept box e (record e { state = s })
Kept-same e s = record { images = λ id h. refl; issued = λ id h. h }

issued-lt : (id : String) (n : ℕ) → ltb (size id) n ≡ true → size id < n
issued-lt id n h = ground arith

-- A capture writes under a name that is longer than all that were issued.
capture-Kept : (b : String) (e : Box) → Kept box e (box.capture b e).1
capture-Kept b e = record {
  images = λ id h. ground (
    arith,
    get-put e.images (name e.next) id e.state,
    eq_iff (name e.next) id,
    size-name e.next,
    ap size,
  );
  issued = λ id h. ground arith;
}

Kept-refl_box : (e : Box) → Kept box e e
Kept-refl_box e = record { images = λ id h. refl; issued = λ id h. h }

Kept-later : (e : Box) → Kept box e (record e { next = suc (suc e.next) })
Kept-later e = record { images = λ id h. refl; issued = λ id h. ground arith }

reload_box-Kept : (o : Option (List Command)) (e : Box) → Kept box e (reload_box o e).1
reload_box-Kept none e = Kept-refl_box e
reload_box-Kept (some s) e = Kept-same e s

reload_box-done :
    (o : Option (List Command)) (e : Box) (t : ℕ)
    → (reload_box o e).0 ≡ ok (true, t)
    → o ≡ some (reload_box o e).1.state
reload_box-done none e t h = absurd (ground arith)
reload_box-done (some s) e t h = refl

reload_box-refused :
    (o : Option (List Command)) (e : Box) (t : ℕ)
    → (reload_box o e).0 ≡ ok (false, t)
    → (reload_box o e).1.state ≡ e.state
reload_box-refused none e t h = refl
reload_box-refused (some s) e t h = absurd (ground arith)

reload_box-raised :
    (o : Option (List Command)) (e : Box) (exc : PyError)
    → (reload_box o e).0 ≡ err exc
    → (reload_box o e).1.state ≡ e.state
reload_box-raised none e exc h = refl
reload_box-raised (some s) e exc h = absurd (ground arith)

capture-stores :
    (b : String) (e : Box) (id : String) (t : ℕ)
    → (box.capture b e).0 ≡ ok (some id, t)
    → (box.issued e id ≡ false)
      × (box.issued (box.capture b e).1 id ≡ true)
      × (box.image (box.capture b e).1 id ≡ some (box.live e))
capture-stores b e id t h =
    let same : name e.next ≡ id = ground arith in
    subst
      (λ i.
        (box.issued e i ≡ false)
        × (box.issued (box.capture b e).1 i ≡ true)
        × (box.image (box.capture b e).1 i ≡ some (box.live e)))
      same
      (
        ground (arith, size-name e.next),
        ground (arith, size-name e.next),
        ground (arith, get-put e.images (name e.next) (name e.next) e.state, eq_refl (name e.next)),
      )

pub box-IsFaithful : IsFaithful box
box-IsFaithful = record {
  exec_runs = λ c t b e. refl;
  exec_keeps = λ c t b e. Kept-same e (e.state ++ c ∷ []);
  capture_live = λ b e. refl;
  capture_keeps = capture-Kept;
  capture_stores = capture-stores;
  reload_keeps = λ id b e. reload_box-Kept (get e.images id) e;
  reload_done = λ id b e t h. reload_box-done (get e.images id) e t h;
  reload_refused = λ id b e t h. reload_box-refused (get e.images id) e t h;
  reload_raised = λ id b e exc h. reload_box-raised (get e.images id) e exc h;
  coin_live = λ e. refl;
  coin_keeps = Kept-refl_box;
  uuid_live = λ e. refl;
  uuid_keeps = Kept-later;
  uuid_new = λ e. ground (arith, size-name e.next, size-v (name e.next));
  uuid_issued = λ e. ground (arith, size-name e.next, size-v (name e.next));
  time_live = λ e. refl;
  time_keeps = Kept-refl_box;
}

pub box-Reloads : Reloads box
box-Reloads id b e s h = (2, rw h)
