-- ===== src/Server/Whole/Steps.antt =====
-- The steps of the whole server: which handler runs next, on which thread.
use gss.Base.{ℕ, suc, ◌<◌, ◌≡◌, Bool, true, false, List, []}
use gss.Base.Text.{Text}
use gss.Base.Try.{Exception, returned, raised}
use gss.Containers.Queue.{Queue}
use gss.Server.Task.{Task}
use gss.Server.SharedState.{SessionId, SharedState, member, must_wait, take_task}
use gss.Server.Scheduler.{Worker, on_consumer, timing, on_io, held}
use gss.Server.Listener
use gss.Server.WebsocketSession
use gss.Server.HttpSession.Handler.{Request, Response, Environment}
use gss.Server.HttpSession.Connection.{ErrorCode, Action, on_read}
use gss.Server.Hub
use gss.Server.Hub.{
  Hub, new_hub, accepting, timer, accepts, reads, posts, sends, wrote, failed, times_out, drops,
  destroys, tell, perform_all, session,
}
use gss.Server.Main.Escape.{exits, IoThread, escape}
use gss.Server.Whole.Winding.{Wind, IsDown}
use gss.Base.Int.{pos}
use gss.Server.Whole.{
  stopping, going, over, ConnectionId, unused, reading, writing, heard, Server, handle_connection,
  handle_request_read, handle_response_written, handle_timer, take,
}

module _ (env : Environment) (queue : Queue (Task env.time)) where
  -- Which steps of the websocket sessions the server has: a session accepts once it was made, the
  -- timer runs out in the task loop, and all run on a free I/O thread but the posts of the timer,
  -- which run on its own.
  abbrev pub Runs :
      List SessionId
      → ℕ
      → Worker env.time
      → {h g : Hub queue} → Hub.Step queue env.json h g
      → Type 0
  Runs upgraded started worker (accepts x ec e) =
      (member x upgraded ≡ true) × (held worker < suc started)
  Runs upgraded started worker (posts timer y m rest e) = Unit {0}
  Runs upgraded started worker (posts (session x) y m rest e) = held worker < suc started
  Runs upgraded started worker (times_out t e) = ⊥
  Runs upgraded started worker (reads x ec buffer s actions e done read) = held worker < suc started
  Runs upgraded started worker (sends x m rest e own) = held worker < suc started
  Runs upgraded started worker (wrote x m others e own) = held worker < suc started
  Runs upgraded started worker (failed x ec m others err e own) = held worker < suc started
  Runs upgraded started worker (drops x e empty flight done) = held worker < suc started
  Runs upgraded started worker (destroys x e) = held worker < suc started

  pub data Step (started : ℕ) (s : Server env queue) : Server env queue → Type 0 where
    connects :
        (c : ConnectionId) (ec : Listener.ErrorCode)
        → s.status ≡ going
        → held s.worker < suc started
        → s.is_accepting ≡ true
        → s.stages c ≡ unused
        → Step started s (handle_connection env queue c ec s)
    asks :
        (c : ConnectionId) (ec : ErrorCode) (is_upgrade : Bool) (req : Request) (x : SessionId)
        (shared : SharedState queue) (actions : List Action)
        → s.status ≡ going
        → held s.worker < suc started
        → s.stages c ≡ reading
        → member x s.upgraded ≡ false
        → on_read env queue ec is_upgrade req s.hub.shared ≡ returned (shared, actions)
        → Step started s
            (handle_request_read env queue c x (heard c ec is_upgrade req) shared actions s)
    ask_raises :
        (c : ConnectionId) (ec : ErrorCode) (is_upgrade : Bool) (req : Request) (thread : IoThread)
        (e : Exception)
        → s.status ≡ going
        → held s.worker < suc started
        → s.stages c ≡ reading
        → on_read env queue ec is_upgrade req s.hub.shared ≡ raised e
        → Step started s (record s { status = over (escape started thread e) })
    answers :
        (c : ConnectionId) (ec : ErrorCode) (res : Response)
        → s.status ≡ going
        → held s.worker < suc started
        → s.stages c ≡ writing res
        → Step started s (handle_response_written env queue c ec res.keep_alive s)
    visits :
        (g : Hub queue) (st : Hub.Step queue env.json s.hub g)
        → s.status ≡ going
        → Runs s.upgraded started s.worker st
        → Step started s (record s { hub = g })
    visit_raises :
        (x : SessionId) (ec : WebsocketSession.ErrorCode) (buffer : Text) (thread : IoThread)
        (e : Exception)
        → s.status ≡ going
        → held s.worker < suc started
        → s.hub.phase x ≡ Hub.reading
        → s.hub.outbox (session x) ≡ []
        → WebsocketSession.on_read env.json ec buffer (s.hub.links x).session ≡ raised e
        → Step started s (record s { status = over (escape started thread e) })
    starts :
        (t : Task env.time) (shared : SharedState queue)
        → s.status ≡ going
        → s.worker ≡ on_consumer
        → must_wait queue s.hub.shared ≡ false
        → take_task queue s.hub.shared ≡ returned (t, shared)
        → Step started s (take env queue t shared s)
    fires :
        (t : Task env.time)
        → s.status ≡ going
        → s.worker ≡ timing t
        → held s.worker < suc started
        → Step started s (handle_timer env queue t s)
    resumes :
        (t : Task env.time) (shared : SharedState queue)
        → s.status ≡ going
        → s.worker ≡ on_io
        → s.hub.outbox timer ≡ []
        → must_wait queue s.hub.shared ≡ false
        → take_task queue s.hub.shared ≡ returned (t, shared)
        → Step started s (take env queue t shared s)
    stops :
        s.status ≡ going
        → held s.worker < suc started
        → Step started s (record s { status = stopping })
    winds : (s' : Server env queue) → s.status ≡ stopping → Wind env queue s s' → Step started s s'
    returns :
        s.status ≡ stopping
        → IsDown env queue s
        → Step started s (record s { status = over (exits (pos 0)) })

  pub data Reach (started : ℕ) (s : Server env queue) : Server env queue → Type 0 where
    here : Reach started s s
    next : {u v : Server env queue} → Reach started s u → Step started u v → Reach started s v
