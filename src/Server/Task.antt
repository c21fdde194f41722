-- ===== src/Server/Task.antt =====
-- src/gss-server/Task.hpp and Task.cpp.
pub mod Json
use gss.Base.{ℕ, ◌%◌, ◌<◌, ◌≡◌, ◌≢◌, refl, List, [], ◌∷◌, arith}
use gss.Base.Text.{Text, codes}
use gss.Base.Int.{ℤ, pos}
use gss.Server.Libraries.{PosixTime, JsonLibrary}

pub record Task (time : PosixTime) : Type 0 where
  pub assignee : Text
  pub desc : Text
  pub duration : time.Duration

module _ {time : PosixTime} where
  -- The constructor: `duration` is a number of minutes.
  unfoldable pub new_task : Text → Text → ℤ → Task time
  new_task assignee desc duration = record {
    assignee = assignee;
    desc = desc;
    duration = time.of_minutes duration;
  }

  unfoldable pub serialize : (json : JsonLibrary) → Task time → json.Json
  serialize json t = json.object (
      (codes "name", json.string t.assignee)
      ∷ (codes "description", json.string t.desc)
      ∷ (codes "duration", json.number (time.minutes t.duration))
      ∷ [])
