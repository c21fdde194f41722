-- ===== src/Tests/Fuzz.antt =====
-- The sum of fuzz_test/fuzz_tester.cpp at concrete inputs.
use gss.Base.{ℕ, ◌^◌, ltb, if◌then◌else◌, none, ◌≡◌, List, [], ◌∷◌, some, ◌*◌}
use gss.Fuzz.{scale, sum_values}
use gss.Fuzz.Overflow.{total, sum_values-total}

abbrev bytes : List ℕ
bytes = 255 ∷ 1 ∷ []

sum_values-total_example :
    sum_values bytes
    ≡ (if ltb (total bytes * scale) (2 ^ 31) then some (total bytes * scale) else none)
sum_values-total_example = sum_values-total bytes
