-- ===== src/Server/Task/Json.antt =====
-- A task through JSON and back.
use gss.Base.{arith, ℕ, ◌%◌, ◌<◌, ◌^◌, ◌≡◌, some}
use gss.Base.Text.{Text, codes, text_eq}
use gss.Base.Int.{pos}
use gss.Base.Try.{Try, returned, or_raise, parse_error, type_error, ◌>>=◌}
use gss.Server.Libraries.{PosixTime, JsonLibrary}
use gss.Server.Task.{Task, new_task, serialize}

-- `std::string s = j[key]`
unfoldable pub string_member : (json : JsonLibrary) → json.Json → Text → Try Text
string_member json j key = do
  member ← or_raise type_error (json.at j key)
  or_raise type_error (json.get_string member)

-- `{p["name"], p["description"], p["duration"]}` of `json p = json::parse(body)`.
unfoldable pub task_of : {time : PosixTime} (json : JsonLibrary) → Text → Try (Task time)
unfolding new_task string_member
task_of json body = do
  p ← or_raise parse_error (json.parse body)
  name ← string_member json p (codes "name")
  desc ← string_member json p (codes "description")
  member ← or_raise type_error (json.at p (codes "duration"))
  duration ← or_raise type_error (json.get_int member)
  returned (new_task name desc duration)

pub at-serialize :
    {time : PosixTime} (json : JsonLibrary) (t : Task time)
    → json.at (serialize json t) (codes "name") ≡ some (json.string t.assignee)
unfolding serialize text_eq
at-serialize json t = json.at-object (codes "name") _

module _ (time : PosixTime) (json : JsonLibrary) (name desc : Text) (n : ℕ) where
  -- A task of `n` minutes, an `int`, whose texts are UTF-8, that is sent out as JSON and read back
  -- keeps its name and description, and has the minutes of `n` past the full hour.
  pub task_of-serialize :
      n < 2 ^ 31
      → json.IsUtf8 (serialize json (new_task {time = time} name desc (pos n)))
      → task_of {time = time} json
          (json.dump (serialize json (new_task {time = time} name desc (pos n))))
        ≡ returned (new_task name desc (pos (n % 60)))
  unfolding task_of serialize new_task text_eq
  task_of-serialize fits utf8 = simp (
    json.parse-dump _ utf8,
    json.at-object,
    json.get_string-string,
    json.get_int-number (n % 60) (omega arith),
    time.minutes_lem n fits,
  )
