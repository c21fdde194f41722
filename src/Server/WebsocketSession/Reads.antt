-- ===== src/Server/WebsocketSession/Reads.antt =====
-- What a session does with a message that it has read.
use gss.Base.{◌≡◌, false, [], ◌∷◌, some, none}
use gss.Base.Text.{Text, codes, text_eq}
use gss.Base.Try.{returned, raised, parse_error}
use gss.Server.Libraries.{JsonLibrary}
use gss.Server.Task.Json.{string_member}
use gss.Server.WebsocketSession.{success, WebsocketSession, async_read, broadcast, on_read, is_text}

module _ (json : JsonLibrary) where
  -- The message that names a session.
  abbrev pub hello : Text → json.Json
  hello name =
      json.object
        ((codes "type", json.string (codes "hello")) ∷ (codes "name", json.string name) ∷ [])

  -- A "hello" with a name in UTF-8 that is read without an error names the session, is passed on,
  -- byte by byte, to all sessions, and then the next read is started; the messages that wait to be
  -- written stay as they are.
  pub on_read-hello :
      (name : Text) (s : WebsocketSession)
      → json.IsUtf8 (hello name)
      → on_read json success (json.dump (hello name)) s
        ≡ returned (record s { uid = name }, broadcast (json.dump (hello name)) ∷ async_read ∷ [])
  unfolding on_read string_member text_eq
  on_read-hello name s utf8 = simp (json.parse-dump _ utf8, json.at-object, json.get_string-string)

  -- Any other object is passed on as it is and changes nothing in the session.
  pub on_read-other :
      (buffer : Text) (message : json.Json) (type : json.Json) (s : WebsocketSession)
      → json.parse buffer ≡ some message
      → json.at message (codes "type") ≡ some type
      → is_text (json.get_string type) (codes "hello") ≡ false
      → on_read json success buffer s ≡ returned (s, broadcast buffer ∷ async_read ∷ [])
  unfolding on_read
  on_read-other buffer message type s parsed typed other = rw (parsed, typed, other)

  -- A message that is not JSON raises an exception in the handler.
  pub on_read-malformed :
      (buffer : Text) (s : WebsocketSession)
      → json.parse buffer ≡ none
      → on_read json success buffer s ≡ raised parse_error
  unfolding on_read
  on_read-malformed buffer s bad = rw bad
