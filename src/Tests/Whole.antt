-- ===== src/Tests/Whole.antt =====
-- The whole server: Ann's browser upgrades a connection and says its name, another connection posts
-- a task for Ann, and its timer runs out.
mod Witnesses
use gss.Base.{ℕ, suc, ◌<◌, ◌≤◌, ◌≡◌, refl, true, false, List, [], ◌∷◌, ◌++◌, map, none, some, arith}
use gss.Base.Int.{pos}
use gss.Base.Text.{Text, codes, contains, text_eq}
use gss.Base.Try.{returned, raised}
use gss.Server.Task.{Task, new_task, serialize}
use gss.Server.Task.Json.{task_of}
use gss.Server.SharedState.{
  SharedState, push_task, take_task, must_wait, join, emplace, member, update_message, tasks,
}
use gss.Server.Listener
use gss.Server.WebsocketSession.{
  success, broadcast, async_read, new_session, WebsocketSession, Action,
}
use gss.Server.WebsocketSession.Reads.{hello, on_read-hello}
use gss.Server.HttpSession.Handler
use gss.Server.HttpSession.Handler.{
  Request, Response, get, handle_request, post_task, json_response, illegal_target,
}
use gss.Server.HttpSession.Connection
use gss.Server.Hub
use gss.Server.Hub.{
  post, posts, session, post, Hub, accepts, reads, posts, session, timer, handle_accept,
  handle_read,
}
use gss.Server.Whole.{
  Server, launch, handle_connection, handle_request_read, handle_timer, take, heard,
}
use gss.Server.Whole.Steps.{Reach, here, Step, next, connects, asks, visits, starts, fires}
use gss.Tests.Instances.{clock, json, environment, plain_queue, wash, root, fresh}

abbrev get_index : Request
get_index = record { method = get; target = codes "/"; version = 11; keep_alive = true; body = [] }

abbrev post_wash : Request
unfolding serialize
post_wash = record get_index {
  method = Handler.post;
  target = codes "/api/tasks";
  body = json.dump (serialize json wash);
}

-- What the body says: the minutes past the hour.
abbrev task : Task clock
unfolding new_task
task = new_task (codes "Ann") (codes "wash") (pos 15)

abbrev started : Server environment plain_queue
unfolding launch
started = launch environment plain_queue root

abbrev connected : Server environment plain_queue
unfolding handle_connection started
connected = handle_connection environment plain_queue 0 Listener.success started

abbrev upgraded : Server environment plain_queue
unfolding handle_request_read connected
upgraded =
    handle_request_read environment plain_queue 0 1 [] connected.hub.shared
      (Connection.upgrade get_index ∷ []) connected

abbrev accepted : Server environment plain_queue
unfolding handle_accept upgraded
accepted = record upgraded { hub = handle_accept plain_queue 1 success upgraded.hub }

abbrev greeting : Text
greeting = json.dump (hello json (codes "Ann"))

abbrev named : WebsocketSession
unfolding new_session
named = record new_session { uid = codes "Ann" }

abbrev calls : List Action
calls = broadcast greeting ∷ async_read ∷ []

abbrev greeted : Server environment plain_queue
unfolding handle_read accepted named
greeted = record accepted { hub = handle_read plain_queue 1 named calls accepted.hub }

abbrev echoed : Server environment plain_queue
unfolding post greeted
echoed = record greeted { hub = post plain_queue (session 1) 1 greeting [] greeted.hub }

abbrev second : Server environment plain_queue
unfolding handle_connection echoed
second = handle_connection environment plain_queue 1 Listener.success echoed

abbrev pushed : SharedState plain_queue
unfolding push_task second
pushed = push_task plain_queue task second.hub.shared

abbrev answer : Response
unfolding json_response
answer =
    json_response environment (json.object ((codes "name", json.string (codes "Ann")) ∷ []))
      post_wash

abbrev asked : Server environment plain_queue
unfolding handle_request_read second pushed
asked =
    handle_request_read environment plain_queue 1 2 ((1, post_wash) ∷ []) pushed
      (Connection.async_write answer ∷ []) second

abbrev emptied : SharedState plain_queue
unfolding asked
emptied = record asked.hub.shared { tasks_queue = []; curr = some task }

abbrev taken : Server environment plain_queue
unfolding take asked emptied
taken = take environment plain_queue task emptied asked

abbrev timed_out : Server environment plain_queue
unfolding handle_timer taken
timed_out = handle_timer environment plain_queue task taken

module _ {others : ℕ} where
  path_upgraded :
      Reach environment plain_queue others (launch environment plain_queue root) upgraded
  unfolding launch connected upgraded started Connection.on_read
  path_upgraded =
      next (next here (connects 0 Listener.success refl (omega arith) refl refl))
        (asks 0 Connection.success true get_index 1 _ _ refl (omega arith) refl refl refl)

  path_second : Reach environment plain_queue others (launch environment plain_queue root) second
  unfolding upgraded accepted greeted echoed second member
  path_second =
      let joined =
        next path_upgraded (visits _ (accepts 1 success refl) refl (refl, omega arith)) in
      let said = next joined (
        visits _
          (reads 1 success greeting named calls refl refl
            (on_read-hello json (codes "Ann") new_session refl))
          refl (omega arith)) in
      let heard_it =
        next said (visits _ (posts (session 1) 1 greeting [] refl) refl (omega arith)) in
      next heard_it (connects 1 Listener.success refl (omega arith) refl refl)

  path_asked : Reach environment plain_queue others (launch environment plain_queue root) asked
  unfolding second asked answer pushed Connection.on_read handle_request post_task task_of
      illegal_target contains serialize new_task text_eq member
  path_asked = next path_second (
      asks 1 Connection.success false post_wash 2 pushed (Connection.async_write answer ∷ []) refl
        (omega arith) refl refl refl)

  path_taken : Reach environment plain_queue others (launch environment plain_queue root) taken
  unfolding asked taken emptied must_wait take_task
  path_taken = next path_asked (starts task emptied refl refl refl refl)

  path_timed_out :
      Reach environment plain_queue others (launch environment plain_queue root) timed_out
  unfolding taken timed_out
  path_timed_out = next path_taken (fires task refl refl (omega arith))
