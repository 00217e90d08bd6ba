-- ===== src/Base/Partial.antt =====
-- What holds of the value of a partial computation, where it has one.
use metagenda.Base.{◌≡◌, refl, subst, Option, none, some, Bool, true, false}
use metagenda.Base.Value.{◌>>=◌, ◌>>◌, require}

pub data Holds {ℓ κ} {A : Type ℓ} (P : A → Type κ) : Option A → Type (ℓ ⊔ κ) where
  absent : Holds P none
  present : {a : A} → P a → Holds P (some a)

module _ {ℓ κ} {A : Type ℓ} where
  pub Holds-bind :
      {B : Type ℓ} {P : B → Type κ} {m : Option A} {f : A → Option B}
      → ((a : A) → m ≡ some a → Holds P (f a))
      → Holds P (m >>= f)
  Holds-bind {m = none} h = absent
  Holds-bind {m = some a} h = h a refl

  pub Holds-require :
      {P : A → Type κ} {b : Bool} {k : Option A} → (b ≡ true → Holds P k) → Holds P (require b >> k)
  Holds-require {b = true} h = h refl
  Holds-require {b = false} h = absent

  present-value : {P : A → Type κ} {a : A} → Holds P (some a) → P a
  present-value (present p) = p

  pub Holds-some : {P : A → Type κ} {o : Option A} {a : A} → Holds P o → o ≡ some a → P a
  Holds-some {P} h e = present-value (subst (Holds P) e h)
