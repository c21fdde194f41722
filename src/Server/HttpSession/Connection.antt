-- ===== src/Server/HttpSession/Connection.antt =====
-- The life of an HTTP connection in src/gss-server/http_session.cpp: `do_read`, `on_read` and
-- `on_write`. A handler returns the calls that it makes, in order; a read or a write completes by a
-- later call of its handler.
pub mod Lifetime
pub mod Serving
use gss.Base.{ℕ, Bool, true, false, List, [], ◌∷◌, if◌then◌else◌}
use gss.Base.Text.{Text, codes}
use gss.Base.Try.{Try, returned, ◌>>=◌}
use gss.Containers.Queue.{Queue}
use gss.Server.Task.{Task}
use gss.Server.SharedState.{SharedState}
use gss.Server.HttpSession.Handler.{Request, Response, Environment, handle_request}

pub data ErrorCode : Type 0 where
  success end_of_stream operation_aborted : ErrorCode
  failed : Text → ErrorCode

pub data Action : Type 0 where
  body_limit expires_after : ℕ → Action
  async_read shutdown_send : Action
  upgrade : Request → Action
  async_write : Response → Action
  report : Text → Text → Action

unfoldable pub fail : ErrorCode → Text → List Action
fail success what = []
fail end_of_stream what = report what (codes "end of stream") ∷ []
fail operation_aborted what = []
fail (failed message) what = report what message ∷ []

-- Bytes and seconds.
unfoldable pub do_read : List Action
do_read = body_limit 10000 ∷ expires_after 30 ∷ async_read ∷ []

unfoldable pub run : List Action
unfolding do_read
run = do_read

module _ (env : Environment) (queue : Queue (Task env.time)) where
  -- `websocket::is_upgrade` of the request is the argument `is_upgrade`.
  unfoldable pub on_read :
      ErrorCode → Bool → Request → SharedState queue → Try (SharedState queue × List Action)
  unfolding fail
  on_read end_of_stream is_upgrade req state = returned (state, shutdown_send ∷ [])
  on_read operation_aborted is_upgrade req state =
      returned (state, fail operation_aborted (codes "read"))
  on_read (failed message) is_upgrade req state =
      returned (state, fail (failed message) (codes "read"))
  on_read success is_upgrade req state =
      if is_upgrade
      then returned (state, upgrade req ∷ [])
      else (handle_request env queue state.doc_root req state >>= λ (state', msg).
          returned (state', async_write msg ∷ []))

-- `keep_alive` is that of the response that was written.
unfoldable pub on_write : ErrorCode → Bool → List Action
unfolding fail do_read
on_write success keep_alive = if keep_alive then do_read else shutdown_send ∷ []
on_write ec keep_alive = fail ec (codes "write")
