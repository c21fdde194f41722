-- ===== src/Server/WebsocketSession.antt =====
-- src/gss-server/websocket_session.hpp and websocket_session.cpp. A handler returns the new session
-- and the calls that it makes, in order; asynchronous operations complete by a later handler call.
-- `run` only sets options of the library and starts the accept. An operation that is cancelled or
-- closed by the peer completes with an error that `fail` does not report.
pub mod Writes
pub mod Reads
use gss.Base.{
  Bool, true, false, List, [], ◌∷◌, ◌++◌, Option, none, some, length, ltb, if◌then◌else◌,
}
use gss.Base.Text.{Text, codes, text_eq}
use gss.Base.Try.{Try, returned, or_raise, parse_error, type_error, ◌>>=◌}
use gss.Server.Libraries.{JsonLibrary}
use gss.Server.Task.Json.{string_member}

pub data ErrorCode : Type 0 where
  success operation_aborted closed : ErrorCode
  failed : Text → ErrorCode

pub data Action : Type 0 where
  async_accept async_read join leave : Action
  async_write broadcast : Text → Action
  report : Text → Text → Action

pub record WebsocketSession : Type 0 where
  pub queue : List Text
  pub uid : Text

unfoldable pub new_session : WebsocketSession
new_session = record { queue = []; uid = [] }

-- `if (ec)`
abbrev pub is_error : ErrorCode → Bool
is_error success = false
is_error _ = true

unfoldable pub fail : ErrorCode → Text → List Action
fail success what = []
fail operation_aborted what = []
fail closed what = []
fail (failed message) what = report what message ∷ []

unfoldable pub run : List Action
run = async_accept ∷ []

unfoldable pub on_accept : ErrorCode → List Action
unfolding fail
on_accept ec = if is_error ec then fail ec (codes "accept") else join ∷ async_read ∷ []

-- The destructor.
unfoldable pub destroy : List Action
destroy = leave ∷ []

-- `async_write(*queue_.front())`
abbrev pub write_front : List Text → List Action
write_front [] = []
write_front (ss ∷ queue) = async_write ss ∷ []

-- `queue_.erase(queue_.begin())`
abbrev pub erase_front : List Text → List Text
erase_front [] = []
erase_front (ss ∷ queue) = queue

-- A write is started only when none is under way.
unfoldable pub on_send : Text → WebsocketSession → WebsocketSession × List Action
on_send ss s =
    let queue = s.queue ++ ss ∷ [] in
    let s' = record s { queue = queue } in
    if ltb 1 (length queue) then (s', []) else (s', write_front queue)

unfoldable pub on_write : ErrorCode → WebsocketSession → WebsocketSession × List Action
unfolding fail
on_write ec s =
    if is_error ec
    then (s, fail ec (codes "write"))
    else let queue = erase_front s.queue in (record s { queue = queue }, write_front queue)

-- Whether a JSON value equals a text.
abbrev pub is_text : Option Text → Text → Bool
is_text none t = false
is_text (some s) t = text_eq s t

-- `if (message["type"] == "hello") uid_ = message["name"];`
unfoldable pub greet : (json : JsonLibrary) → json.Json → WebsocketSession → Try WebsocketSession
greet json message s = do
  type ← or_raise type_error (json.at message (codes "type"))
  let name = string_member json message (codes "name")
  if is_text (json.get_string type) (codes "hello")
      then (name >>= λ uid. returned (record s { uid = uid }))
      else returned s

-- `buffer` is what was read; it is consumed before the next read.
unfoldable pub on_read :
    JsonLibrary → ErrorCode → Text → WebsocketSession → Try (WebsocketSession × List Action)
unfolding fail greet
on_read json ec buffer s = if is_error ec then returned (s, fail ec (codes "read")) else do
  message ← or_raise parse_error (json.parse buffer)
  s' ← greet json message s
  returned (s', broadcast buffer ∷ async_read ∷ [])
