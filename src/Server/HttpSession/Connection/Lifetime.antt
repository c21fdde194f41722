-- ===== src/Server/HttpSession/Connection/Lifetime.antt =====
-- When a connection reads again.
use gss.Base.{◌≡◌, false, [], ◌∷◌, if◌then◌else◌}
use gss.Base.Try.{returned}
use gss.Containers.Queue.{Queue}
use gss.Server.Task.{Task}
use gss.Server.SharedState.{SharedState}
use gss.Server.HttpSession.Handler.{Request, Response, post, verb_eq, Environment}
use gss.Server.HttpSession.Requests.{handle_request-pure}
use gss.Server.HttpSession.Connection.{
  success, shutdown_send, async_write, on_read, on_write, do_read,
}

module _ (env : Environment) (queue : Queue (Task env.time)) where
  -- A request that is read without an error, and is neither a POST nor an upgrade, is answered by
  -- one write; when that is done without an error, the connection is read again if the request
  -- asked to keep it alive, and shut down otherwise.
  pub on_read-then_on_write :
      (req : Request) (s : SharedState queue)
      → verb_eq req.method post ≡ false
      → (msg : Response) × (on_read env queue success false req s
          ≡ returned (s, async_write msg ∷ []))
        × (on_write success msg.keep_alive
            ≡ (if req.keep_alive then do_read else shutdown_send ∷ []))
  unfolding on_read on_write do_read
  on_read-then_on_write req s not_post =
      let (msg, e, (version, keep, server)) =
        handle_request-pure env queue s.doc_root req s not_post in
      (msg, rw e, rw keep)
