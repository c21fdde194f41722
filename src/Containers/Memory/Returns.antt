-- ===== src/Containers/Memory/Returns.antt =====
-- Total correctness of a run: no exception, no fault, enough fuel, and a postcondition.
use gss.Base.{◌≡◌, refl}
use gss.Containers.Memory.{Memory, Run, ok, Cmd, and_then}

pub data Returns {ℓ κ μ} {T : Type ℓ} {A : Type κ} (P : A → Memory T → Type μ)
    : Run T A → Type (ℓ ⊔ κ ⊔ μ) where
  returns : {a : A} {h : Memory T} → P a h → Returns P (ok a h)

module _ {ℓ κ μ} {T : Type ℓ} {A : Type κ} {P : A → Memory T → Type μ} where
  pub Returns-bind {ν ρ} :
      {B : Type ν} {Q : B → Memory T → Type ρ} {r : Run T A} {k : A → Cmd T B}
      → Returns P r
      → ((a : A) (h : Memory T) → P a h → Returns Q (k a h))
      → Returns Q (and_then r k)
  Returns-bind (returns {a} {h} p) next = next a h p

  pub Returns-mono {ν} :
      {Q : A → Memory T → Type ν} {r : Run T A}
      → Returns P r
      → ((a : A) (h : Memory T) → P a h → Q a h)
      → Returns Q r
  Returns-mono (returns {a} {h} p) weaken = returns (weaken a h p)

  -- The value, the memory and the equation of a run that returns.
  pub Returns-ok : {r : Run T A} → Returns P r → (a : A) × (h : Memory T) × (r ≡ ok a h) × P a h
  Returns-ok (returns {a} {h} p) = (a, h, refl, p)
