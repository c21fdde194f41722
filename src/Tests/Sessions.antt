-- ===== src/Tests/Sessions.antt =====
-- Sessions, messages, connections and the ticker at a few sessions.
use gss.Base.{if◌then◌else◌, ◌≤◌, ◌≡◌, refl, true, false, ◌&&◌, List, [], ◌∷◌, ◌++◌, length, ◌⊎◌}
use gss.Base.Text.{Text, codes, text_eq}
use gss.Base.Try.{Exception}
use gss.Server.SharedState.{SessionId, SharedState, new_state, member, send_all, send_to}
use gss.Server.SharedState.Sessions.{
  Visit, joins, leaves, joined, visits, send_all-joined, send_to-joined,
}
use gss.Server.SharedState.Sessions.Members.{Distinct}
use gss.Server.WebsocketSession
use gss.Server.WebsocketSession.{WebsocketSession, new_session}
use gss.Server.WebsocketSession.Writes
use gss.Server.WebsocketSession.Writes.{new_link, sending, failing, writes-in_order}
use gss.Server.WebsocketSession.Writes.Silent.{broken-silent}
use gss.Server.Listener.{run, success, failed}
use gss.Server.Listener
use gss.Server.Listener.Accepting.{accepts, serve, before_error, serve-before_error}
use gss.Server.Ticker
use gss.Server.Ticker.{new_ticker}
use gss.Server.Ticker.Schedule.{waits, every, ticking, ticking-every}
use gss.Server.Main.Escape.{of_v, goes_on, ended, escape, run_handler}
use gss.Server.Main.Escape.Reads.{Understood, on_read-ends_or_sends}
use gss.Tests.Instances.{alive, json, plain_queue, root, fresh}

-- Sessions 1 and 2 join, 3 comes and goes; 2 is being closed.
abbrev history : List Visit
history = joins 1 ∷ joins 2 ∷ joins 3 ∷ leaves 3 ∷ []

abbrev name_of : SessionId → Text
name_of x = x ∷ []

abbrev state : SharedState plain_queue
state = visits plain_queue history (new_state plain_queue root)

send_all-joined_example :
    ((x : SessionId)
      → member x (send_all plain_queue alive state) ≡ (alive x && joined x history false))
    × Distinct (send_all plain_queue alive state)
send_all-joined_example = send_all-joined plain_queue root history alive

send_to-joined_example :
    (((y : SessionId) → (joined y history false && text_eq (name_of y) (name_of 1)) ≡ false)
      × (send_to plain_queue alive name_of (name_of 1) state ≡ []))
    ⊎ ((x : SessionId) × (joined x history false ≡ true)
        × (name_of x ≡ name_of 1)
        × (send_to plain_queue alive name_of (name_of 1) state ≡ (if alive x then x ∷ [] else [])))
send_to-joined_example = send_to-joined plain_queue root history alive name_of (name_of 1)

writes-in_order_example :
    (length (sending (codes "hi") new_link).in_flight ≤ 1)
    × ((sending (codes "hi") new_link).written ++ (sending (codes "hi") new_link).session.queue
        ≡ (sending (codes "hi") new_link).sent)
writes-in_order_example =
    writes-in_order (sending (codes "hi") new_link)
      (Writes.next Writes.here (Writes.send (codes "hi")))

abbrev broken : Writes.Link
unfolding failing sending new_link
broken = failing (WebsocketSession.failed (codes "reset")) [] (sending (codes "hi") new_link)

broken-silent_example :
    ((sending (codes "on") broken).written ≡ broken.written)
    × ((sending (codes "on") broken).in_flight ≡ [])
unfolding sending new_link WebsocketSession.on_send failing broken
broken-silent_example =
    broken-silent broken (sending (codes "on") broken)
      (Writes.next (Writes.next Writes.here (Writes.send (codes "hi")))
        (Writes.failed (WebsocketSession.failed (codes "reset")) (codes "hi") [] refl refl))
      refl (Writes.next Writes.here (Writes.send (codes "on")))

abbrev results : List Listener.ErrorCode
results = success ∷ failed (codes "too many open files") ∷ success ∷ []

serve-before_error_example : serve (accepts run) results ≡ before_error results
serve-before_error_example = serve-before_error results

ticking-every_example :
    waits (
      Ticker.run (new_ticker 100 5)
      ++ ticking plain_queue alive ((false, state) ∷ (true, fresh) ∷ []) (new_ticker 100 5))
    ≡ every 2 5 105
ticking-every_example = ticking-every plain_queue alive 100 5 ((false, state) ∷ (true, fresh) ∷ [])

-- The other order, and no third session.
abbrev reversed : List Visit
reversed = joins 2 ∷ joins 1 ∷ []

abbrev malformed : Text
malformed = codes "}"

on_read-ends_or_sends_example :
    ((s' : WebsocketSession) × Understood json malformed new_session s'
      × (run_handler 1 of_v
            (WebsocketSession.on_read json WebsocketSession.success malformed new_session)
          ≡ goes_on (s', WebsocketSession.broadcast malformed ∷ WebsocketSession.async_read ∷ [])))
    ⊎ (((s' : WebsocketSession) → ¬ Understood json malformed new_session s')
        × ((x : Exception) × (run_handler 1 of_v
                (WebsocketSession.on_read json WebsocketSession.success malformed new_session)
              ≡ ended (escape 1 of_v x))))
on_read-ends_or_sends_example = on_read-ends_or_sends json malformed new_session 1 of_v
