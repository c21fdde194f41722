-- ===== src/Base/Try.antt =====
-- Exceptions, and code that returns or throws.
use Prim.Native.String.{String}
use mathlib.Core.Path.{◌≡◌, refl}
use mathlib.Core.Logic.{◌⊎◌, inl, inr}
use mathlib.Core.Option.{Option, none, some}

-- Those of the standard library with their message, those of the libraries by what went wrong.
pub data Exception : Type 0 where
  out_of_range : String → Exception
  parse_error type_error bad_optional_access length_error : Exception

pub data Try {ℓ} (A : Type ℓ) : Type ℓ where
  returned : A → Try A
  raised : Exception → Try A

infixl 5 ◌>>=◌
abbrev pub ◌>>=◌ {ℓ κ} : {A : Type ℓ} {B : Type κ} → Try A → (A → Try B) → Try B
returned a >>= f = f a
raised e >>= f = raised e

-- A value that is missing throws `e`.
abbrev pub or_raise {ℓ} : {A : Type ℓ} → Exception → Option A → Try A
or_raise e none = raised e
or_raise e (some a) = returned a

-- A chain that returns has returned at its first step.
pub >>=-returned {ℓ κ} :
    {A : Type ℓ} {B : Type κ} (m : Try A) (f : A → Try B) {b : B}
    → (m >>= f) ≡ returned b
    → (a : A) × (m ≡ returned a) × (f a ≡ returned b)
>>=-returned (returned a) f e = (a, refl, e)
>>=-returned (raised x) f e = cc

pub or_raise-returned {ℓ} :
    {A : Type ℓ} (x : Exception) (o : Option A) {a : A} → or_raise x o ≡ returned a → o ≡ some a
or_raise-returned x none e = cc
or_raise-returned x (some a) e = cc e

pub Try-cases {ℓ} :
    {A : Type ℓ} (m : Try A) → ((x : Exception) × (m ≡ raised x)) ⊎ ((a : A) × (m ≡ returned a))
Try-cases (returned a) = inr (a, refl)
Try-cases (raised x) = inl (x, refl)
