-- ===== src/Exec/Ensures.antt =====
-- What a method ensures when it returns: partial correctness, by one rule for each construct.
use state_fork.Prelude.{Bool, false, if◌then◌else◌, true}
use state_fork.Prelude.{arith, refl, subst, sym, ◌≡◌}
use state_fork.Exec.{PyError}
use state_fork.Exec.{Exec, Result, ok, err, continue, pure, raise, gets, modify, ◌>>=◌, ◌>>◌}

-- If the object has `Pre` and `method` returns a value, the value and the object have `Post`.
pub record Ensures {ℓ} {State V : Type ℓ} (Pre : State → Type ℓ) (method : Exec State V)
    (Post : V → State → Type ℓ) : Type ℓ where
  pub at : (self : State) → Pre self → (v : V) → (method self).0 ≡ ok v → Post v (method self).1

ok-inj {ℓ} : {A : Type ℓ} {a b : A} → ok a ≡ ok b → a ≡ b
ok-inj h = cc

module _ {ℓ} {State V W : Type ℓ} {Post : W → State → Type ℓ} where
  continue-Ensures :
      (Mid : V → State → Type ℓ) (next : V → Exec State W)
      → ((v : V) → Ensures (Mid v) (next v) Post)
      → (outcome : Result V) (self : State) → ((v : V) → outcome ≡ ok v → Mid v self)
      → (w : W) → (continue outcome next self).0 ≡ ok w
      → Post w (continue outcome next self).1
  continue-Ensures Mid next each (err exc) self mid w h = absurd (ground arith)
  continue-Ensures Mid next each (ok v) self mid w h = (each v).at self (mid v refl) w h

module _ {ℓ} {State V W : Type ℓ} {Pre : State → Type ℓ} {Post : W → State → Type ℓ} where
  pub Ensures-bind :
      (Mid : V → State → Type ℓ) (first : Exec State V) (next : V → Exec State W)
      → Ensures Pre first Mid
      → ((v : V) → Ensures (Mid v) (next v) Post)
      → Ensures Pre (first >>= next) Post
  Ensures-bind Mid first next opening each = record {
    at = λ self pre.
        continue-Ensures Mid next each (first self).0 (first self).1 (opening.at self pre);
  }

  pub Ensures-then :
      (Mid : State → Type ℓ) (first : Exec State V) (second : Exec State W)
      → Ensures Pre first (λ v. Mid)
      → Ensures Mid second Post
      → Ensures Pre (first >> second) Post
  Ensures-then Mid first second opening rest =
      Ensures-bind (λ v. Mid) first (λ v. second) opening (λ v. rest)

module _ {ℓ} {State V : Type ℓ} {Pre : State → Type ℓ} {Post : V → State → Type ℓ} where
  -- A method that returns whatever the object is.
  pub Ensures-total :
      (method : Exec State V) (value : State → V) (write : State → State)
      → ((self : State) → method self ≡ (ok (value self), write self))
      → ((self : State) → Pre self → Post (value self) (write self))
      → Ensures Pre method Post
  Ensures-total method value write total h = record {
    at = λ self pre v e.
        let same : value self ≡ v = cc (total self) in
        let left : (method self).1 ≡ write self = cc (total self) in
        subst (λ u. Post u (method self).1) same
          (subst (Post (value self)) (sym left) (h self pre));
  }

  pub Ensures-weaken :
      {Weak : State → Type ℓ} (method : Exec State V)
      → Ensures Weak method Post
      → ((self : State) → Pre self → Weak self)
      → Ensures Pre method Post
  Ensures-weaken method x h = record { at = λ self pre. x.at self (h self pre) }

  pub Ensures-if :
      (test : Bool) (taken other : Exec State V)
      → (test ≡ true → Ensures Pre taken Post)
      → (test ≡ false → Ensures Pre other Post)
      → Ensures Pre (if test then taken else other) Post
  Ensures-if true taken other on_true on_false = on_true refl
  Ensures-if false taken other on_true on_false = on_false refl

  pub Ensures-pure : (v : V) → ((self : State) → Pre self → Post v self) → Ensures Pre (pure v) Post
  Ensures-pure v h = Ensures-total (pure v) (λ self. v) (λ self. self) (λ self. refl) h

  pub Ensures-raise : (exc : PyError) → Ensures Pre (raise exc) Post
  Ensures-raise exc = record { at = λ self pre v e. absurd (ground arith) }

  pub Ensures-gets :
      (field : State → V)
      → ((self : State) → Pre self → Post (field self) self)
      → Ensures Pre (gets field) Post
  Ensures-gets field h = Ensures-total (gets field) field (λ self. self) (λ self. refl) h

pub Ensures-modify {ℓ} :
    {State : Type ℓ} {Pre : State → Type ℓ} {Post : Unit → State → Type ℓ} (write : State → State)
    → ((self : State) → Pre self → Post tt (write self))
    → Ensures Pre (modify write) Post
Ensures-modify write h = Ensures-total (modify write) (λ self. tt) write (λ self. refl) h

-- Nothing is claimed of the first step.
pub Ensures-after :
    {State V W : Type 0} {Pre : State → Type 0} {Post : W → State → Type 0} (first : Exec State V)
    (next : V → Exec State W)
    → ((v : V) → Ensures (λ self. Unit) (next v) Post)
    → Ensures Pre (first >>= next) Post
Ensures-after first next each =
    Ensures-bind (λ v self. Unit) first next (record { at = λ self pre v e. tt }) each
