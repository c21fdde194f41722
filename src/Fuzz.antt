-- ===== src/Fuzz.antt =====
-- fuzz_test/fuzz_tester.cpp: `sum_values`. A sum that does not fit an `int` is undefined behaviour,
-- which is `none` here; the bytes are below 256, so no sum is negative.
pub mod Overflow
use gss.Base.{ℕ, ◌+◌, ◌*◌, ◌^◌, List, [], ◌∷◌, Option, none, some, true, false, ltb}

abbrev pub scale : ℕ
scale = 1000

-- The loop, with the `value` of the earlier bytes.
unfoldable pub add_values : List ℕ → ℕ → Option ℕ
add_values [] value = some value
add_values (byte ∷ bytes) value =
    let rest = add_values bytes (value + byte * scale) in
    elim (ltb (value + byte * scale) (2 ^ 31)) [ false ↦ none | true ↦ rest ]

unfoldable pub sum_values : List ℕ → Option ℕ
unfolding add_values
sum_values bytes = add_values bytes 0
