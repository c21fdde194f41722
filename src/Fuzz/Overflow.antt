-- ===== src/Fuzz/Overflow.antt =====
-- When the sum of `sum_values` fits an `int`.
use gss.Base.{
  ℕ, ◌+◌, ◌*◌, ◌^◌, ◌<◌, ◌≤◌, ◌≡◌, refl, ◌∙◌, ◌⊎◌, inl, inr, List, [], ◌∷◌, Option, none, some,
  arith, length, ltb, true, false, if◌then◌else◌, ap,
}
use Prim.{Unit}
use gss.Fuzz.{scale, add_values, sum_values}

-- The sum of the bytes.
pub total : List ℕ → ℕ
total [] = 0
total (byte ∷ bytes) = byte + total bytes

-- Every number is a byte.
abbrev pub AreBytes : List ℕ → Type 0
AreBytes [] = Unit
AreBytes (byte ∷ bytes) = (byte < 256) × AreBytes bytes

pub checked : ℕ → Option ℕ
checked n = if ltb n (2 ^ 31) then some n else none

ltb-true : (a b : ℕ) → a < b → ltb a b ≡ true
ltb-true a b lt = ground arith

ltb-false : (a b : ℕ) → b ≤ a → ltb a b ≡ false
ltb-false a b le = ground arith

lt_cases : (a b : ℕ) → (a < b) ⊎ (b ≤ a)
lt_cases a b = ground arith

add_values-total :
    (bytes : List ℕ) (value : ℕ)
    → value < 2 ^ 31
    → add_values bytes value ≡ checked (value + total bytes * scale)
unfolding add_values total checked
add_values-total [] value fits =
    rw (ltb-true (value + 0 * scale) (2 ^ 31) (omega (arith, fits))) (ap some (omega arith))
add_values-total (byte ∷ bytes) value fits = elim (lt_cases (value + byte * scale) (2 ^ 31)) [
  | inl below ↦
      rw (add_values, ltb-true (value + byte * scale) (2 ^ 31) below)
        (add_values-total bytes (value + byte * scale) below ∙ ap checked (omega arith))
  | inr over ↦
      rw
        (
          add_values,
          ltb-false (value + byte * scale) (2 ^ 31) over,
          ltb-false (value + (byte + total bytes) * scale) (2 ^ 31) (omega (arith, over)),
        )
        refl
]

-- The loop gives the sum of the bytes times 1000 if that is below 2^31, and overflows otherwise.
pub sum_values-total :
    (bytes : List ℕ)
    → sum_values bytes
      ≡ (if ltb (total bytes * scale) (2 ^ 31) then some (total bytes * scale) else none)
unfolding sum_values checked
sum_values-total bytes = add_values-total bytes 0 (omega arith) ∙ ap checked (omega arith)

total-le : (bytes : List ℕ) → AreBytes bytes → total bytes ≤ 255 * length bytes
unfolding total
total-le [] small = omega arith
total-le (byte ∷ bytes) (below, small) = omega (arith, total-le bytes small, below)

-- On at most 8421 bytes the loop does not overflow and gives the sum of the bytes times 1000.
pub sum_values-fits :
    (bytes : List ℕ)
    → AreBytes bytes
    → length bytes ≤ 8421
    → sum_values bytes ≡ some (total bytes * scale)
sum_values-fits bytes small short =
    sum_values-total bytes
    ∙ rw (ltb-true (total bytes * scale) (2 ^ 31) (omega (arith, total-le bytes small, short))) refl
