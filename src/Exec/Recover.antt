-- ===== src/Exec/Recover.antt =====
-- `try` with an `except` clause.
pub mod Rules
use state_fork.Prelude.{Option, none, some}
use state_fork.Exec.{
  Exec, Result, ok, err, PyError, called_process_error, pure, raise, attempt, ◌>>=◌,
}

-- The value that a handler gives, or the exception again where it has none.
unfoldable pub answered : {S A : Type 0} → PyError → Option A → Exec S A
answered e none = raise e
answered e (some a) = pure a

-- `try: …` with an `except` clause: `answer` gives the value for the exceptions that it handles.
unfoldable pub settle : {S A : Type 0} → (PyError → Option A) → Result A → Exec S A
settle answer (ok a) = pure a
settle answer (err e) = answered e (answer e)

unfoldable pub recover : {S A : Type 0} → (PyError → Option A) → Exec S A → Exec S A
recover answer m = do outcome ← attempt m; settle answer outcome

-- except subprocess.CalledProcessError
unfoldable pub on_process_error : {A : Type 0} → A → PyError → Option A
on_process_error a e = elim e.kind [ called_process_error ↦ some a | _ ↦ none ]
