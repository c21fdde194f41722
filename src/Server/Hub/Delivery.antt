-- ===== src/Server/Hub/Delivery.antt =====
-- What each websocket session gets of what is sent by `send` of shared_state.cpp.
use gss.Base.{◌≡◌, true, ◌++◌, sym, ap, ◌∙◌, append_assoc}
use gss.Base.Text.{Text}
use gss.Containers.Queue.{Queue}
use gss.Server.Libraries.{PosixTime, JsonLibrary}
use gss.Server.Task.{Task}
use gss.Server.SharedState.{SessionId}
use gss.Server.WebsocketSession.Writes.{writes-in_order}
use gss.Server.Hub.{Hub, Source, Reach, new_hub, is_alive}
use gss.Server.Hub.Log.{posts_to, said_to, from, for}
use gss.Server.Hub.Members.{new_hub-Members}
use gss.Server.Hub.Arrival.{texts, Reach-AllGot, new_hub-AllGot}
use gss.Server.Hub.Order.{Reach-AllInOrder, new_hub-AllInOrder}

-- However the handlers of all sessions and of the timer take turns, for a session that has not been
-- dropped: what it has written, followed by its queue and by what waits to be queued, is what was
-- posted to it, in order. For each source, what the source has posted to it, followed by what it
-- has still to post to it, is what the source sent in order: each message to all that it sent while
-- the session was in the set, once, and from the timer those that were meant for it.
pub delivered_in_order :
    {time : PosixTime} (queue : Queue (Task time)) (json : JsonLibrary) (root : Text)
    (h : Hub queue) (y : SessionId) (src : Source)
    → Reach queue json (new_hub queue root) h
    → is_alive (h.phase y) ≡ true
    → ((h.links y).written ++ ((h.links y).session.queue ++ h.inbox y) ≡ texts (posts_to y h.log))
      × (from src (posts_to y h.log) ++ for y (h.outbox src) ≡ said_to src y h.log)
delivered_in_order queue json root h y src r alive =
    let got = Reach-AllGot queue json r (new_hub-AllGot queue root) y in
    let l = h.links y in
    (
      sym (append_assoc l.written l.session.queue (h.inbox y))
          ∙ ap (λ q. q ++ h.inbox y) (writes-in_order l got.link).1
          ∙ got.all,
      Reach-AllInOrder queue json r (new_hub-Members queue root) (new_hub-AllInOrder queue root) src
          y alive,
    )
