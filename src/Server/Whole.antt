-- ===== src/Server/Whole.antt =====
-- The server of src/gss-server after `main` has started it: the listener, all HTTP and websocket
-- sessions, the task loop and the I/O threads, around one shared state, which is that of `hub`.
-- A step runs one handler, or a part of it as in Hub and Scheduler, and carries out its calls. The
-- handler of an HTTP session is one step, so an order of requests is that of their effects. A
-- handler that raises ends the program, and so does a signal, when the I/O threads have returned.
-- `started` is the number of I/O threads besides `main`'s.
-- `finished`, `requests` and `answers` are histories, in order; no step reads them.
pub mod Winding
pub mod Steps
pub mod Posts
pub mod Queued
pub mod Still
pub mod Shutdown
pub mod Progress
pub mod Arrival
pub mod Threads
pub mod Answering
pub mod Ends
pub mod Connections
pub mod Updates
pub mod Calls
pub mod Timer
pub mod Sessions
pub mod Known
pub mod Forget
pub mod Loop
pub mod Told
use gss.Base.{
  ℕ, suc, ◌<◌, ◌≡◌, Bool, true, false, List, [], ◌∷◌, ◌++◌, Option, none, some, ◌==◌, if◌then◌else◌,
  not, ◌&&◌,
}
use gss.Base.Text.{Text}
use gss.Base.Try.{Exception, returned, raised}
use gss.Containers.Queue.{Queue}
use gss.Server.Libraries.{JsonLibrary}
use gss.Server.Task.{Task}
use gss.Server.SharedState.{SessionId, SharedState, member, must_wait, take_task}
use gss.Server.Scheduler.{Worker, on_consumer, timing, on_io, held}
use gss.Server.Listener
use gss.Server.WebsocketSession
use gss.Server.HttpSession.Handler.{Request, Response, Environment}
use gss.Server.HttpSession.Connection.{
  ErrorCode, success, Action, body_limit, expires_after, async_read, shutdown_send, upgrade,
  async_write, report, run, on_read, on_write,
}
use gss.Server.Hub
use gss.Server.Hub.{
  Hub, new_hub, accepting, timer, accepts, reads, posts, sends, wrote, failed, times_out, drops,
  destroys, tell, perform_all, session,
}
use gss.Server.Main.Escape.{IoThread, Ending, escape}

abbrev pub ConnectionId : Type 0
ConnectionId = ℕ

-- What an HTTP session waits for: it has not been started, or its handler is called when a read, or
-- the write of an answer, is complete, or nothing will call it.
pub data Stage : Type 0 where
  unused reading closed : Stage
  writing : Response → Stage

-- The program goes on; a signal has stopped the I/O context, and `main` waits for its threads; or
-- the program has come to its end.
pub data Status : Type 0 where
  going stopping : Status
  over : Ending → Status

abbrev pub set_stage : (ConnectionId → Stage) → ConnectionId → Stage → ConnectionId → Stage
set_stage f c v d = if c == d then v else f d

-- A handler that is given a request: one that was read without an error, and is no upgrade.
abbrev pub heard : ConnectionId → ErrorCode → Bool → Request → List (ConnectionId × Request)
heard c success is_upgrade req = if is_upgrade then [] else (c, req) ∷ []
heard c _ is_upgrade req = []

module _ (env : Environment) (queue : Queue (Task env.time)) where
  -- `upgraded` are the websocket sessions that were made, `is_accepting` says whether the listener
  -- has an accept under way.
  pub record Server : Type 0 where
    pub hub : Hub queue
    pub worker : Worker env.time
    pub is_accepting : Bool
    pub stages : ConnectionId → Stage
    pub upgraded : List SessionId
    pub status : Status
    pub finished : List (Task env.time)
    pub requests : List (ConnectionId × Request)
    pub answers : List (ConnectionId × Response)

  -- After `listener::run`.
  unfoldable pub launch : Text → Server
  unfolding new_hub
  launch doc_root = record {
    hub = new_hub queue doc_root;
    worker = on_consumer;
    is_accepting = true;
    stages = λ c. unused;
    upgraded = [];
    status = going;
    finished = [];
    requests = [];
    answers = [];
  }

  -- What a call in the handler of the connection `c` does; an upgrade makes and runs the websocket
  -- session `x`.
  unfoldable pub perform : ConnectionId → SessionId → Action → Server → Server
  unfolding perform_all WebsocketSession.run
  perform c x (body_limit n) s = s
  perform c x (expires_after n) s = s
  perform c x async_read s = record s { stages = set_stage s.stages c reading }
  perform c x shutdown_send s = s
  perform c x (upgrade req) s = record s {
    hub = perform_all queue x WebsocketSession.run s.hub;
    upgraded = x ∷ s.upgraded;
  }
  perform c x (async_write msg) s = record s {
    stages = set_stage s.stages c (writing msg);
    answers = s.answers ++ (c, msg) ∷ [];
  }
  perform c x (report what message) s = s

  unfoldable pub perform_each : ConnectionId → SessionId → List Action → Server → Server
  unfolding perform
  perform_each c x [] s = s
  perform_each c x (a ∷ actions) s = perform_each c x actions (perform c x a s)

  -- The listener's calls: `c` is the connection that was accepted.
  unfoldable pub listen : ConnectionId → List Listener.Action → Server → Server
  unfolding perform_each run
  listen c [] s = s
  listen c (Listener.async_accept ∷ actions) s = listen c actions (record s { is_accepting = true })
  listen c (Listener.start_session ∷ actions) s = listen c actions (perform_each c 0 run s)
  listen c (Listener.report what message ∷ actions) s = listen c actions s

  -- The handlers. The session that runs one is kept by the calls that it makes, if at all.
  unfoldable pub handle_connection : ConnectionId → Listener.ErrorCode → Server → Server
  unfolding listen Listener.on_accept
  handle_connection c ec s = listen c (Listener.on_accept ec) (record s { is_accepting = false })

  unfoldable pub handle_request_read :
      ConnectionId
      → SessionId
      → List (ConnectionId × Request)
      → SharedState queue
      → List Action
      → Server
      → Server
  unfolding perform_each
  handle_request_read c x new shared actions s = perform_each c x actions (record s {
    hub = record s.hub { shared = shared };
    stages = set_stage s.stages c closed;
    requests = s.requests ++ new;
  })

  unfoldable pub handle_response_written : ConnectionId → ErrorCode → Bool → Server → Server
  unfolding perform_each on_write
  handle_response_written c ec keep_alive s =
      perform_each c 0 (on_write ec keep_alive) (record s { stages = set_stage s.stages c closed })

  unfoldable pub handle_timer : Task env.time → Server → Server
  unfolding tell
  handle_timer t s = record s {
    hub = tell queue env.json t s.hub;
    worker = on_io;
    finished = s.finished ++ t ∷ [];
  }

  unfoldable pub take : Task env.time → SharedState queue → Server → Server
  take t shared s = record s { hub = record s.hub { shared = shared }; worker = timing t }
