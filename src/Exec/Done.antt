-- ===== src/Exec/Done.antt =====
-- What holds of the object when a method returns.
use state_fork.Prelude.{◌≡◌, refl, sym, subst, arith}
use state_fork.Exec.{Exec, Result, ok, err, continue, pure, ◌>>=◌}

-- The object has `P` whenever `method` returns a value.
pub record Done {ℓ} {State V : Type ℓ} (P : State → Type ℓ) (method : Exec State V) : Type ℓ where
  pub at : (self : State) (v : V) → (method self).0 ≡ ok v → P (method self).1

module _ {State V W : Type 0} {P : State → Type 0} where
  continue-done :
      (next : V → Exec State W)
      → ((v : V) → Done P (next v))
      → (outcome : Result V) (self : State) (w : W) → (continue outcome next self).0 ≡ ok w
      → P (continue outcome next self).1
  continue-done next each (ok v) self w returned = (each v).at self w returned
  continue-done next each (err exc) self w returned = absurd (ground arith)

  -- The last method decides.
  pub Done-bind :
      (first : Exec State V) (next : V → Exec State W)
      → ((v : V) → Done P (next v))
      → Done P (first >>= next)
  Done-bind first next each = record {
    at = λ self w returned. continue-done next each (first self).0 (first self).1 w returned;
  }

module _ {State V W : Type 0} where
  pub same_self :
      (f : V → W) (outcome : Result V) (self : State)
      → (continue outcome (λ v. pure (f v)) self).1 ≡ self
  same_self f (ok v) self = refl
  same_self f (err exc) self = refl

  pub returned_by :
      (f : V → W) (outcome : Result V) (self : State) (w : W)
      → (continue outcome (λ v. pure (f v)) self).0 ≡ ok w
      → (v : V) × (outcome ≡ ok v)
  returned_by f (ok v) self w returned = (v, refl)
  returned_by f (err exc) self w returned = absurd (ground arith)

  -- A value that is changed afterwards makes no difference.
  pub Done-map :
      {P : State → Type 0} (method : Exec State V) (f : V → W)
      → Done P method
      → Done P (method >>= λ v. pure (f v))
  Done-map {P} method f d = record {
    at = λ self w returned.
        let (v, h) = returned_by f (method self).0 (method self).1 w returned in
        subst P (sym (same_self f (method self).0 (method self).1)) (d.at self v h);
  }
