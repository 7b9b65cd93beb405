-- ===== src/Exec/Recover/Rules.antt =====
-- What a `try` with an `except` clause keeps and ensures.
use state_fork.Exec.Recover.{on_process_error}
use state_fork.Prelude.{Option, arith, none, refl, some, subst, ◌≡◌}
use state_fork.Exec.{Exec, PyError, Result, err, ok}
use state_fork.Exec.Keeps.{Keeps, Keeps-attempt, Keeps-bind, Keeps-pure, Keeps-raise}
use state_fork.Exec.Recover.{answered, settle, recover}
use state_fork.Exec.Ensures.{Ensures, Ensures-pure, Ensures-raise}

module _ {S A : Type 0} {P : S → Type 0} where
  answered-Keeps : (e : PyError) (o : Option A) → Keeps P (answered e o)
  unfolding answered
  answered-Keeps e none = Keeps-raise e
  answered-Keeps e (some a) = Keeps-pure a

  settle-Keeps : (answer : PyError → Option A) (r : Result A) → Keeps P (settle answer r)
  unfolding settle
  settle-Keeps answer (ok a) = Keeps-pure a
  settle-Keeps answer (err e) = answered-Keeps e (answer e)

  pub recover-Keeps :
      (answer : PyError → Option A) (m : Exec S A) → Keeps P m → Keeps P (recover answer m)
  unfolding recover
  recover-Keeps answer m k = Keeps-bind _ _ (Keeps-attempt m k) (settle-Keeps answer)

module _ {S A : Type 0} {Post : A → S → Type 0} where
  answered-Ensures :
      (e : PyError) (o : Option A)
      → ((a : A) → o ≡ some a → (self : S) → Post a self)
      → Ensures (λ self. Unit) (answered e o) Post
  unfolding answered
  answered-Ensures e none h = Ensures-raise e
  answered-Ensures e (some a) h = Ensures-pure a λ self pre. h a refl self

  settle-Ensures :
      (answer : PyError → Option A) (r : Result A) (self : S)
      → ((a : A) → r ≡ ok a → Post a self)
      → ((e : PyError) (a : A) → answer e ≡ some a → (self : S) → Post a self)
      → (a : A) → (settle answer r self).0 ≡ ok a
      → Post a (settle answer r self).1
  unfolding settle
  settle-Ensures answer (ok a) self h handled v e =
      subst (λ u. Post u self) (ground (arith, e)) (h a refl)
  settle-Ensures answer (err exc) self h handled v e =
      (answered-Ensures exc (answer exc) (handled exc)).at self tt v e

  -- The handler's value has `Post` whatever the object is.
  pub recover-Ensures :
      {Pre : S → Type 0} (answer : PyError → Option A) (method : Exec S A)
      → Ensures Pre method Post
      → ((e : PyError) (a : A) → answer e ≡ some a → (self : S) → Post a self)
      → Ensures Pre (recover answer method) Post
  unfolding recover
  recover-Ensures answer method x handled = record {
    at = λ self pre. settle-Ensures answer (method self).0 (method self).1 (x.at self pre) handled;
  }

-- The handler of a `CalledProcessError` gives its value alone.
pub on_process_error-value :
    {A : Type 0} (value : A) (e : PyError) (a : A) → on_process_error value e ≡ some a → value ≡ a
unfolding on_process_error
on_process_error-value value e a h = ground (arith, h)
