-- ===== src/Server/Main/Escape/Reads.antt =====
-- Which websocket messages end the server.
use gss.Base.{ℕ, ◌≡◌, ◌⊎◌, inl, inr, true, false, [], ◌∷◌, none, some, Option-cases, Bool-cases}
use gss.Base.Text.{Text, codes}
use gss.Base.Try.{Exception, parse_error, type_error}
use gss.Server.Libraries.{JsonLibrary}
use gss.Server.Task.Json.{string_member}
use gss.Server.WebsocketSession.{
  success, WebsocketSession, async_read, broadcast, is_text, greet, on_read,
}
use gss.Server.Main.Escape.{IoThread, goes_on, ended, escape, run_handler}

module _ (json : JsonLibrary) (buffer : Text) where
  -- A value with members; and when its type is "hello", its name is a text, the name of the
  -- session.
  pub data Understood (s : WebsocketSession) : WebsocketSession → Type 0 where
    no_hello :
        (message type : json.Json)
        → json.parse buffer ≡ some message
        → json.at message (codes "type") ≡ some type
        → is_text (json.get_string type) (codes "hello") ≡ false
        → Understood s s
    hello :
        (message type name : json.Json) (uid : Text)
        → json.parse buffer ≡ some message
        → json.at message (codes "type") ≡ some type
        → is_text (json.get_string type) (codes "hello") ≡ true
        → json.at message (codes "name") ≡ some name
        → json.get_string name ≡ some uid
        → Understood s (record s { uid = uid })

  unparsed : (s s' : WebsocketSession) → json.parse buffer ≡ none → ¬ Understood s s'
  unparsed s s' bad (no_hello m t p q o) = cc (bad, p)
  unparsed s s' bad (hello m t n uid p q h r u) = cc (bad, p)

  untyped :
      (s s' : WebsocketSession) (message : json.Json)
      → json.parse buffer ≡ some message
      → json.at message (codes "type") ≡ none
      → ¬ Understood s s'
  untyped s s' message parsed bad (no_hello m t p q o) = cc (parsed, bad, p, q)
  untyped s s' message parsed bad (hello m t n uid p q h r u) = cc (parsed, bad, p, q)

  unnamed :
      (s s' : WebsocketSession) (message type : json.Json)
      → json.parse buffer ≡ some message
      → json.at message (codes "type") ≡ some type
      → is_text (json.get_string type) (codes "hello") ≡ true
      → json.at message (codes "name") ≡ none
      → ¬ Understood s s'
  unnamed s s' message type parsed typed greets bad (no_hello m t p q o) =
      cc (parsed, typed, greets, p, q, o)
  unnamed s s' message type parsed typed greets bad (hello m t n uid p q h r u) =
      cc (parsed, bad, p, r)

  no_text :
      (s s' : WebsocketSession) (message type name : json.Json)
      → json.parse buffer ≡ some message
      → json.at message (codes "type") ≡ some type
      → is_text (json.get_string type) (codes "hello") ≡ true
      → json.at message (codes "name") ≡ some name
      → json.get_string name ≡ none
      → ¬ Understood s s'
  no_text s s' message type name parsed typed greets named bad (no_hello m t p q o) =
      cc (parsed, typed, greets, p, q, o)
  no_text s s' message type name parsed typed greets named bad (hello m t n uid p q h r u) =
      cc (parsed, named, bad, p, r, u)

  -- A message that is read without an error: either it is JSON with members, whose name is a text
  -- if its type is "hello", and then the session has that name, the message goes to all, byte by
  -- byte, and the next read is started; or it is not, and the exception ends the server, whichever
  -- I/O thread the handler runs on.
  pub on_read-ends_or_sends :
      (s : WebsocketSession) (started : ℕ) (thread : IoThread)
      → ((s' : WebsocketSession) × Understood s s'
          × (run_handler started thread (on_read json success buffer s)
              ≡ goes_on (s', broadcast buffer ∷ async_read ∷ [])))
        ⊎ (((s' : WebsocketSession) → ¬ Understood s s')
            × ((x : Exception) × (run_handler started thread (on_read json success buffer s)
                  ≡ ended (escape started thread x))))
  unfolding run_handler on_read greet string_member
  on_read-ends_or_sends s started thread = elim (Option-cases (json.parse buffer)) [
    | inl bad ↦ inr ((λ s' u. unparsed s s' bad u), (parse_error, rw bad))
    | inr (message, parsed) ↦ elim (Option-cases (json.at message (codes "type"))) [
      | inl bad ↦ inr ((λ s' u. untyped s s' message parsed bad u), (type_error, rw (parsed, bad)))
      | inr (type, typed) ↦ elim (Bool-cases (is_text (json.get_string type) (codes "hello"))) [
        | inr other ↦ inl (s, no_hello message type parsed typed other, rw (parsed, typed, other))
        | inl greets ↦ elim (Option-cases (json.at message (codes "name"))) [
          | inl bad ↦ inr (
            (λ s' u. unnamed s s' message type parsed typed greets bad u),
            (type_error, rw (parsed, typed, greets, bad)),
          )
          | inr (name, named) ↦ elim (Option-cases (json.get_string name)) [
            | inl bad ↦ inr (
              (λ s' u. no_text s s' message type name parsed typed greets named bad u),
              (type_error, rw (parsed, typed, greets, named, bad)),
            )
            | inr (uid, is) ↦ inl (
              _,
              hello message type name uid parsed typed greets named is,
              rw (parsed, typed, greets, named, is),
            )
          ]
        ]
      ]
    ]
  ]
