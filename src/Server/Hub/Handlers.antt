-- ===== src/Server/Hub/Handlers.antt =====
-- What the handlers of websocket_session.cpp call.
use gss.Base.{◌≡◌, ◌⊎◌, inl, inr, true, false, [], ◌∷◌, List, Bool, if◌then◌else◌, ap, ◌∙◌, sym}
use gss.Base.Text.{Text, codes}
use gss.Base.Try.{Try, returned, raised, or_raise, parse_error, type_error, >>=-returned, ◌>>=◌}
use gss.Server.Libraries.{JsonLibrary}
use gss.Server.Task.Json.{string_member}
use gss.Server.WebsocketSession.{
  ErrorCode, WebsocketSession, Action, async_read, broadcast, is_error, fail, greet, on_read,
}

returned-queue : {s s' : WebsocketSession} → returned s ≡ returned s' → s'.queue ≡ s.queue
returned-queue {s} {s'} e = ap (λ r. elim r [ returned q ↦ q.queue | raised x ↦ [] ]) (sym e)

name-queue :
    (b : Bool) (name : Try Text) (s : WebsocketSession) {s' : WebsocketSession}
    → (if b then (name >>= λ uid. returned (record s { uid = uid })) else returned s) ≡ returned s'
    → s'.queue ≡ s.queue
name-queue true name s e = let (uid, got, e') = >>=-returned name _ e in returned-queue e'
name-queue false name s e = returned-queue e

greet-queue :
    (json : JsonLibrary) (message : json.Json) (s : WebsocketSession) {s' : WebsocketSession}
    → greet json message s ≡ returned s'
    → s'.queue ≡ s.queue
unfolding greet
greet-queue json message s e =
    let (type, typed, e') =
      >>=-returned (or_raise type_error (json.at message (codes "type"))) _ e in
    name-queue _ (string_member json message (codes "name")) s e'

-- The new session and the calls of a handler.
abbrev Reaction : Type 0
Reaction = WebsocketSession × List Action

pair-parts :
    {s s' : WebsocketSession} {actions actions' : List Action}
    → ◌≡◌ {A = Try Reaction} (returned (s, actions)) (returned (s', actions'))
    → (s' ≡ s) × (actions' ≡ actions)
pair-parts e = (cc e, cc e)

-- A read that returns leaves the queue as it is; it ends with the error reported, or sends what it
-- has read to all and reads on.
pub on_read-cases :
    (json : JsonLibrary) (ec : ErrorCode) (buffer : Text) (s : WebsocketSession)
    {s' : WebsocketSession} {actions : List Action}
    → on_read json ec buffer s ≡ returned (s', actions)
    → (s'.queue ≡ s.queue)
      × ((actions ≡ fail ec (codes "read")) ⊎ (actions ≡ broadcast buffer ∷ async_read ∷ []))
unfolding on_read
on_read-cases json ec buffer s {s'} {actions} e = go (is_error ec) e
  where
    go :
        (b : Bool)
        → (if◌then◌else◌ {A = Try Reaction} b (returned (s, fail ec (codes "read"))) do
          message ← or_raise parse_error (json.parse buffer)
          s1 ← greet json message s
          returned (s1, broadcast buffer ∷ async_read ∷ []))
          ≡ returned (s', actions)
        → (s'.queue ≡ s.queue)
          × ((actions ≡ fail ec (codes "read")) ⊎ (actions ≡ broadcast buffer ∷ async_read ∷ []))
    go true e = let (same, quiet) = pair-parts e in (ap WebsocketSession.queue same, inl quiet)
    go false e =
        let (message, parsed, e1) = >>=-returned (or_raise parse_error (json.parse buffer)) _ e in
        let (s1, greeted, e2) = >>=-returned (greet json message s) _ e1 in
        let (same, spoken) = pair-parts e2 in
        (ap WebsocketSession.queue same ∙ greet-queue json message s greeted, inr spoken)
