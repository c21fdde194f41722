-- ===== src/Server/Whole/Updates.antt =====
-- The way of the updates through the whole server: from the timer of a task to the websocket of a
-- session.
use gss.Base.{
  ℕ, suc, ◌≡◌, refl, sym, ap, ◌∙◌, true, List, [], ◌∷◌, ◌++◌, append-nil, append_assoc, ◌==◌,
}
use gss.Base.Text.{Text}
use gss.Containers.Queue.{Queue}
use gss.Server.Task.{Task}
use gss.Server.SharedState.{SessionId}
use gss.Server.HttpSession.Handler.{Environment}
use gss.Server.Scheduler.Posted.{Updates, posted-Updates}
use gss.Server.Hub.{Event, joined, left, said, told, posted, timer, is_alive}
use gss.Server.Hub.Log.{posts_to, said_to, from, for, when}
use gss.Server.Hub.Arrival.{texts}
use gss.Server.Hub.Delivery.{delivered_in_order}
use gss.Server.Whole.{Server, launch}
use gss.Server.Whole.Steps.{Reach}
use gss.Server.Whole.Forget.{forget}
use gss.Server.Whole.Loop.{system_of, Reach-system_of}
use gss.Server.Whole.Told.{tolds}
use gss.Server.Whole.Sessions.{Reach-forget}

for-append :
    (y : SessionId) (ps qs : List (SessionId × Text)) → for y (ps ++ qs) ≡ for y ps ++ for y qs
for-append y [] qs = refl
for-append y ((x, m) ∷ ps) qs =
    ap (λ l. when (x == y) m ++ l) (for-append y ps qs)
    ∙ sym (append_assoc (when (x == y) m) (for y ps) (for y qs))

-- What the timer sends to a session is what it is told.
said_to-timer : (y : SessionId) (log : List Event) → said_to timer y log ≡ for y (tolds log)
said_to-timer y [] = refl
said_to-timer y (joined x ∷ log) = said_to-timer y log
said_to-timer y (left x ∷ log) = said_to-timer y log
said_to-timer y (said x m ∷ log) = append-nil _ ∙ said_to-timer y log
said_to-timer y (told x m ∷ log) =
    ap (λ l. l ++ when (x == y) m) (said_to-timer y log)
    ∙ ap (λ l. for y (tolds log) ++ l) (sym (append-nil (when (x == y) m)))
    ∙ sym (for-append y (tolds log) ((x, m) ∷ []))
said_to-timer y (posted src x m ∷ log) = said_to-timer y log

module _ (env : Environment) (queue : Queue (Task env.time)) where
  -- However connections, sessions, timers and the task loop interleave, for a websocket session
  -- that has not been dropped: what the timer has posted to it, followed by what it has still to
  -- post to it, are, in order, those for it among the updates of the tasks that have finished, of
  -- which each sent its update, in the order in which they finished, to one session or to none.
  -- What the session has written, followed by its queue and by what waits to be queued, is what all
  -- posted to it.
  pub posts_to-Updates :
      (root : Text) (started : ℕ) (s : Server env queue) (y : SessionId)
      → Reach env queue started (launch env queue root) s
      → is_alive (s.hub.phase y) ≡ true
      → (updates : List (SessionId × Text)) × Updates env.json s.finished updates
        × (from timer (posts_to y s.hub.log) ++ for y (s.hub.outbox timer) ≡ for y updates)
        × ((s.hub.links y).written ++ ((s.hub.links y).session.queue ++ s.hub.inbox y)
            ≡ texts (posts_to y s.hub.log))
  posts_to-Updates root started s y r alive =
      let loop = Reach-system_of env queue started root s r in
      let (written, sent) =
        delivered_in_order queue env.json root (forget queue s.hub) y timer
          (Reach-forget env queue root started s r) alive in
      (
        tolds s.hub.log,
        posted-Updates root (suc started) (system_of env queue s) loop,
        sent ∙ said_to-timer y s.hub.log,
        written,
      )
