-- ===== src/Server/Libraries.antt =====
-- What the server uses of nlohmann/json and of Boost's posix_time. Both are parameters of the
-- modules that use them; the laws are what their documentation says.
use gss.Base.{ℕ, ◌%◌, ◌^◌, ◌<◌, ◌≡◌, List, Option, some, [], ◌∷◌, false, if◌then◌else◌}
use gss.Base.Text.{Text, text_eq}
use gss.Base.Int.{ℤ, pos}

-- `boost::posix_time::time_duration`: `minutes()` of a duration is its minutes field, 0 to 59.
pub record PosixTime : Type 1 where
  pub Duration : Type 0
  pub of_minutes : ℤ → Duration
  pub minutes : Duration → ℤ
  pub seconds : Duration → ℤ
  pub minutes_lem : (n : ℕ) → n < 2 ^ 31 → minutes (of_minutes (pos n)) ≡ pos (n % 60)
  pub seconds_lem : (n : ℕ) → n < 2 ^ 31 → seconds (of_minutes (pos n)) ≡ pos 0

-- The first field of that name, or `missing`.
abbrev pub field {ℓ} : {J : Type ℓ} → Text → List (Text × J) → J → J
field key [] missing = missing
field key ((name, j) ∷ fields) missing = if text_eq name key then j else field key fields missing

-- `nlohmann::json`. `parse` and the conversions of a member to `std::string` and to `int` throw
-- where they give `none`.
pub record JsonLibrary : Type 1 where
  pub Json : Type 0
  pub parse : Text → Option Json
  pub dump : Json → Text
  pub null : Json
  pub string : Text → Json
  pub number : ℤ → Json
  pub array : List Json → Json
  pub object : List (Text × Json) → Json
  -- `j[key]` throws at a value that has no members, and is null for a member that is missing.
  pub at : Json → Text → Option Json
  -- `j[key] = v`
  pub put : Json → Text → Json → Json
  pub get_string : Json → Option Text
  pub get_int : Json → Option ℤ
  -- Every text in the value is UTF-8: `dump` writes no other.
  pub IsUtf8 : Json → Type 0
  pub parse-dump : (j : Json) → IsUtf8 j → parse (dump j) ≡ some j
  pub at-object :
      (key : Text) (fields : List (Text × Json))
      → at (object fields) key ≡ some (field key fields null)
  pub at-put :
      (key : Text) (v : Json) (fields : List (Text × Json))
      → at (put (object fields) key v) key ≡ some v
  pub at-put_other :
      (key other : Text) (v : Json) (fields : List (Text × Json))
      → text_eq key other ≡ false
      → at (put (object fields) key v) other ≡ some (field other fields null)
  pub get_string-string : (t : Text) → get_string (string t) ≡ some t
  -- The conversion to `int` keeps what fits.
  pub get_int-number : (n : ℕ) → n < 2 ^ 31 → get_int (number (pos n)) ≡ some (pos n)
