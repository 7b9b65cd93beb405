-- ===== src/Exec/Keeps.antt =====
-- Invariants of methods. A method keeps an invariant when the object has it afterwards, by whichever
-- way the method ends. `keeps_rules` goes through a `do` block step by step, by `search`.
use state_fork.Prelude.{◌≡◌, refl, Bool, true, false, if◌then◌else◌}
use state_fork.Exec.{
  Exec, Result, ok, err, PyError, pure, raise, gets, attempt, modify, continue, ◌>>=◌, ◌>>◌,
}

pub record Keeps {ℓ} {State V : Type ℓ} (Inv : State → Type ℓ) (method : Exec State V)
    : Type ℓ where
  pub at : (self : State) → Inv self → Inv (method self).1

-- Sequences: the second method starts where the first one returned.
module _ {ℓ} {State V W : Type ℓ} {Inv : State → Type ℓ} where
  after-continue :
      (next : V → Exec State W)
      → ((v : V) → Keeps Inv (next v))
      → (outcome : Result V) (self : State) → Inv self
      → Inv (continue outcome next self).1
  after-continue next each (err exc) self now = now
  after-continue next each (ok v) self now = (each v).at self now

  pub Keeps-bind :
      (first : Exec State V) (next : V → Exec State W)
      → Keeps Inv first
      → ((v : V) → Keeps Inv (next v))
      → Keeps Inv (first >>= next)
  Keeps-bind first next opening each = record {
    at = λ self now. after-continue next each (first self).0 (first self).1 (opening.at self now);
  }

  pub Keeps-then :
      (first : Exec State V) (second : Exec State W)
      → Keeps Inv first
      → Keeps Inv second
      → Keeps Inv (first >> second)
  Keeps-then first second opening rest = Keeps-bind first (λ _. second) opening (λ _. rest)

-- Branches, and the methods of one step.
module _ {ℓ} {State V : Type ℓ} {Inv : State → Type ℓ} where
  pub Keeps-if :
      (test : Bool) (taken other : Exec State V)
      → (test ≡ true → Keeps Inv taken)
      → (test ≡ false → Keeps Inv other)
      → Keeps Inv (if test then taken else other)
  Keeps-if false taken other on_true on_false = on_false refl
  Keeps-if true taken other on_true on_false = on_true refl

  pub Keeps-attempt : (method : Exec State V) → Keeps Inv method → Keeps Inv (attempt method)
  Keeps-attempt method kept = record { at = kept.at }

  pub Keeps-gets : (field : State → V) → Keeps Inv (gets field)
  Keeps-gets field = record { at = λ self now. now }

  pub Keeps-raise : (exc : PyError) → Keeps Inv (raise {V = V} exc)
  Keeps-raise exc = record { at = λ self now. now }

  pub Keeps-pure : (v : V) → Keeps Inv (pure v)
  Keeps-pure v = record { at = λ self now. now }

pub Keeps-modify {ℓ} :
    {State : Type ℓ} {Inv : State → Type ℓ} (write : State → State)
    → ((self : State) → Inv self → Inv (write self))
    → Keeps Inv (modify write)
Keeps-modify write kept = record { at = kept }

pub ruleset keeps_rules = (
  Keeps-bind, Keeps-then, Keeps-if, Keeps-attempt, Keeps-gets, Keeps-raise, Keeps-pure,
  Keeps-modify,
)
