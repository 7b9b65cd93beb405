-- ===== src/Exec/Ends.antt =====
-- What the result of an action can be, whatever state it starts from.
use state_fork.Exec.{Exec, Result, ok, err, PyError, continue, pure, ◌>>=◌}

-- Every result of `m` has `P`.
pub record Ends {ℓ} {S A : Type ℓ} (P : Result A → Type ℓ) (m : Exec S A) : Type ℓ where
  pub at : (s : S) → P (m s).0

module _ {ℓ} {S A B : Type ℓ} {P : Result B → Type ℓ} where
  Ends-continue :
      (r : Result A) (f : A → Exec S B) (s : S)
      → ((e : PyError) → P (err e))
      → ((a : A) → Ends P (f a))
      → P (continue r f s).0
  Ends-continue (ok a) f s pe pf = (pf a).at s
  Ends-continue (err e) f s pe pf = pe e

  pub Ends-bind :
      (m : Exec S A) (f : A → Exec S B)
      → ((e : PyError) → P (err e))
      → ((a : A) → Ends P (f a))
      → Ends P (m >>= f)
  Ends-bind m f pe pf = record { at = λ s. let (r, s') = m s in Ends-continue r f s' pe pf }

pub Ends-pure {ℓ} :
    {S A : Type ℓ} {P : Result A → Type ℓ} (a : A) → P (ok a) → Ends P (pure {State = S} a)
Ends-pure a p = record { at = λ s. p }

pub ruleset ends_rules = (Ends-bind, Ends-pure)
