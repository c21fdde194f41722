-- ===== src/Server/Whole/Winding.antt =====
-- What goes on in the whole server after a signal: its handler in main.cpp stops the I/O context,
-- so that no handler is called any more, and `main` joins the I/O threads. A handler that has been
-- called goes on, and so does the thread that waits for the first task. A handler of an HTTP
-- session is one step of Steps and so has run to its end, or is not called.
use gss.Base.{◌≡◌, ◌≢◌, false, List, [], ◌∷◌}
use gss.Base.Text.{Text}
use gss.Base.Try.{returned}
use gss.Containers.Queue.{Queue}
use gss.Server.Task.{Task}
use gss.Server.SharedState.{SessionId, SharedState, take_task, must_wait}
use gss.Server.Scheduler.{on_consumer, on_io}
use gss.Server.HttpSession.Handler.{Environment}
use gss.Server.Hub.{Source, timer, post}
use gss.Server.Whole.{Server, take}

module _ (env : Environment) (queue : Queue (Task env.time)) where
  pub data Wind (s : Server env queue) : Server env queue → Type 0 where
    posts :
        (src : Source) (y : SessionId) (m : Text) (rest : List (SessionId × Text))
        → s.hub.outbox src ≡ (y, m) ∷ rest
        → Wind s (record s { hub = post queue src y m rest s.hub })
    starts :
        (t : Task env.time) (shared : SharedState queue)
        → s.worker ≡ on_consumer
        → must_wait queue s.hub.shared ≡ false
        → take_task queue s.hub.shared ≡ returned (t, shared)
        → Wind s (take env queue t shared s)
    resumes :
        (t : Task env.time) (shared : SharedState queue)
        → s.worker ≡ on_io
        → s.hub.outbox timer ≡ []
        → must_wait queue s.hub.shared ≡ false
        → take_task queue s.hub.shared ≡ returned (t, shared)
        → Wind s (take env queue t shared s)

  pub data Winds (s : Server env queue) : Server env queue → Type 0 where
    stopped : Winds s s
    more : {u v : Server env queue} → Winds s u → Wind u v → Winds s v

  -- The I/O threads have returned: no callback of a timer runs, and no handler has anything to
  -- post.
  abbrev pub IsDown : Server env queue → Type 0
  IsDown s = (s.worker ≢ on_io) × ((src : Source) → s.hub.outbox src ≡ [])
