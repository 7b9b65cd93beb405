-- ===== src/Exec.antt =====
-- Python methods: they write to their object, and return or raise. A raise takes nothing back, so
-- every outcome comes with the object as it is then.
pub mod Keeps
pub mod Ends
pub mod Done
pub mod Recover
pub mod Ensures
use state_fork.Prelude.{refl, inr, inl, ◌⊎◌, ◌≡◌, Bool, true, false, String}

-- The exceptions that the controllers tell apart.
pub data ErrorKind : Type 0 where
  key_error value_error runtime_error called_process_error json_error no_such_process other_error :
      ErrorKind

-- `message` is `str(exc)`.
pub record PyError : Type 0 where
  pub kind : ErrorKind
  pub message : String

pub data Result {ℓ} (A : Type ℓ) : Type ℓ where
  ok : A → Result A
  err : PyError → Result A

-- A method on an object whose fields are a `State`.
abbrev pub Exec {ℓ} : Type ℓ → Type ℓ → Type ℓ
Exec State V = State → Result V × State

abbrev pub modify {ℓ} : {State : Type ℓ} → (State → State) → Exec State Unit
modify write self = (ok tt, write self)

module _ {ℓ} {State V : Type ℓ} where
  abbrev pub gets : (State → V) → Exec State V
  gets field self = (ok (field self), self)

  -- `try: …  except Exception as exc: …`: the outcome as a value.
  abbrev pub attempt : Exec State V → Exec State (Result V)
  attempt method self = let (outcome, later) = method self in (ok outcome, later)

  abbrev pub raise : PyError → Exec State V
  raise exc self = (err exc, self)

  abbrev pub pure : V → Exec State V
  pure v self = (ok v, self)

module _ {ℓ} {State V W : Type ℓ} where
  -- The rest of a method, unless an exception was raised.
  abbrev pub continue : Result V → (V → Exec State W) → Exec State W
  continue (err exc) next self = (err exc, self)
  continue (ok v) next self = next v self

  infixl 5 ◌>>=◌ ◌>>◌
  abbrev pub ◌>>=◌ : Exec State V → (V → Exec State W) → Exec State W
  (first >>= next) self = let (outcome, later) = first self in continue outcome next later

  abbrev pub ◌>>◌ : Exec State V → Exec State W → Exec State W
  first >> second = first >>= λ ignored. second

pub Result-cases {ℓ} :
    {A : Type ℓ} (r : Result A) → ((a : A) × (r ≡ ok a)) ⊎ ((e : PyError) × (r ≡ err e))
Result-cases (ok a) = inl (a, refl)
Result-cases (err e) = inr (e, refl)
