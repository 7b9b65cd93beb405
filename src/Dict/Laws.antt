-- ===== src/Dict/Laws.antt =====
-- The laws of a dict, in `if` form.
use state_fork.Prelude.{All, Bool-cases, inl, inr, subst}
use mathlib.Core.Option
use state_fork.Prelude.{
  String, ◌≡◌, refl, true, false, none, some, [], ◌∷◌, arith, ◌==◌, eq_iff, if◌then◌else◌,
}
use state_fork.Dict.{Dict, get, has, put, pop, update}

module _ {ℓ} {V : Type ℓ} where
  pub get-put :
      (entries : Dict V) (key other : String) (value : V)
      → get (put entries key value) other ≡ (if key == other then some value else get entries other)
  unfolding get put
  get-put [] key other value = refl
  get-put ((here, w) ∷ entries) key other value =
      ground (
        arith,
        eq_iff key other,
        eq_iff here key,
        eq_iff here other,
        get-put entries key other value,
      )

  pub get-pop : (d : Dict V) (k j : String) → get (pop d k) j ≡ (if k == j then none else get d j)
  unfolding get pop
  get-pop [] k j = ground arith
  get-pop ((i, w) ∷ d) k j = ground (arith, eq_iff k j, eq_iff i k, eq_iff i j, get-pop d k j)

  pub get-update :
      (d : Dict V) (k j : String) (f : V → V)
      → get (update d k f) j ≡ (if k == j then Option.map f (get d j) else get d j)
  unfolding get update
  get-update [] k j f = ground arith
  get-update ((i, w) ∷ d) k j f =
      ground (arith, eq_iff k j, eq_iff i k, eq_iff i j, get-update d k j f)

pub ruleset dict_laws = (get-put, get-pop, get-update)

-- What a write does to `k in d`.
module _ {ℓ} {V : Type ℓ} where
  pub has-put :
      (d : Dict V) (k j : String) (v : V) → has (put d k v) j ≡ (if k == j then true else has d j)
  has-put d k j v = rw get-put (ground arith)

  pub has-pop : (d : Dict V) (k j : String) → has (pop d k) j ≡ (if k == j then false else has d j)
  has-pop d k j = rw get-pop (ground arith)

  pub has-update : (d : Dict V) (k j : String) (f : V → V) → has (update d k f) j ≡ has d j
  has-update d k j f = rw get-update (ground arith)

pub ruleset has_laws = (has-put, has-pop, has-update)

-- What holds of the keys of a dict, one by one, holds of any key that it has.
pub by_key {ℓ κ} :
    {V : Type ℓ} (P : String → Type κ) (entries : Dict V)
    → All (λ entry. P entry.0) entries
    → (key : String) → has entries key ≡ true
    → P key
unfolding get
by_key P [] all key h = absurd (ground (arith, h))
by_key P ((here, w) ∷ entries) all key h = elim (Bool-cases (here == key)) [
  | inl e ↦ subst P ((eq_iff here key).0 e) all.0
  | inr e ↦ by_key P entries all.1 key (rw e at h)
]
