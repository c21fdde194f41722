-- ===== src/Tests/Hub.antt =====
-- Two sessions: the first says its name, which is posted to the second and run there.
use gss.Base.{length, ◌*◌, ◌+◌, ◌≤◌, ◌≡◌, ◌≢◌, ◌⊎◌, refl, true, false, List, [], ◌∷◌, ◌++◌}
use gss.Base.Text.{Text, codes}
use gss.Server.SharedState.{member}
use gss.Server.WebsocketSession.{
  Action, broadcast, async_read, success, new_session, WebsocketSession,
}
use gss.Server.WebsocketSession.Reads.{hello, on_read-hello}
use gss.Server.Hub.{
  Hub, session, destroyed, is_alive, new_hub, handle_accept, handle_read, handle_send, post, Reach,
  here, next, accepts, reads, posts, sends,
}
use gss.Server.Hub.Log.{posts_to, said_to, from, for}
use gss.Server.Hub.Arrival.{texts}
use gss.Server.Hub.Delivery.{delivered_in_order}
use gss.Server.Hub.Lifetime.{sessions-is_alive}
use gss.Server.Hub.Draining.{begin, further, queues, CanDeliver, Drains-delivered}
use gss.Tests.Instances.{json, plain_queue, root}

abbrev both_joined : Hub plain_queue
unfolding new_hub handle_accept
both_joined =
    handle_accept plain_queue 2 success
      (handle_accept plain_queue 1 success (new_hub plain_queue root))

abbrev greeting : Text
greeting = json.dump (hello json (codes "Ann"))

abbrev named : WebsocketSession
unfolding new_session
named = record new_session { uid = codes "Ann" }

abbrev calls : List Action
calls = broadcast greeting ∷ async_read ∷ []

abbrev greeted : Hub plain_queue
unfolding handle_read both_joined named
greeted = handle_read plain_queue 1 named calls both_joined

abbrev arrived : Hub plain_queue
unfolding post greeted
arrived = post plain_queue (session 1) 2 greeting ((1, greeting) ∷ []) greeted

abbrev writing : Hub plain_queue
unfolding handle_send arrived
writing = handle_send plain_queue 2 greeting [] arrived

path_greeted : Reach plain_queue json (new_hub plain_queue root) greeted
unfolding both_joined greeted
path_greeted =
    let joined_1 = next here (accepts 1 success refl) in
    let joined_2 = next joined_1 (accepts 2 success refl) in
    next joined_2 (
      reads 1 success greeting named calls refl refl
        (on_read-hello json (codes "Ann") new_session refl))

path_arrived : Reach plain_queue json (new_hub plain_queue root) arrived
unfolding both_joined greeted arrived
path_arrived = next path_greeted (posts (session 1) 2 greeting ((1, greeting) ∷ []) refl)

path : Reach plain_queue json (new_hub plain_queue root) writing
unfolding arrived writing
path = next path_arrived (sends 2 greeting [] refl refl)

delivered_in_order_example :
    ((writing.links 2).written ++ ((writing.links 2).session.queue ++ writing.inbox 2)
      ≡ texts (posts_to 2 writing.log))
    × (from (session 1) (posts_to 2 writing.log) ++ for 2 (writing.outbox (session 1))
        ≡ said_to (session 1) 2 writing.log)
unfolding writing
delivered_in_order_example =
    delivered_in_order plain_queue json root writing 2 (session 1) path refl

sessions-is_alive_example :
    ((member 2 writing.shared.sessions ≡ false) ⊎ (writing.phase 2 ≢ destroyed))
    × ((is_alive (writing.phase 2) ≡ true)
        ⊎ ((writing.inbox 2 ≡ [])
            × ((writing.links 2).in_flight ≡ [])
            × (writing.outbox (session 2) ≡ [])))
sessions-is_alive_example = sessions-is_alive plain_queue json root writing 2 path

-- What was posted to the second session is queued by one step.
Drains-delivered_example :
    (1 ≤ 2 * length (arrived.inbox 2) + length (arrived.links 2).session.queue)
    × (((writing.links 2).written ≡ texts (posts_to 2 arrived.log))
        ⊎ CanDeliver plain_queue json 2 writing)
unfolding arrived writing
Drains-delivered_example =
    Drains-delivered plain_queue json 2 root arrived 1 writing path_arrived refl refl
      (further begin (queues greeting [] refl refl))
