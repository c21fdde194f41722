-- ===== src/Server/Whole/Forget.antt =====
-- A hub without the queue of tasks: the handlers of the websocket sessions do not read it.
use gss.Base.{◌≡◌, refl, subst, Bool-cases, inl, inr, List, [], ◌∷◌, Option, none, some}
use gss.Base.Text.{Text}
use gss.Containers.Queue.{Queue}
use gss.Server.Libraries.{PosixTime, JsonLibrary}
use gss.Server.Task.{Task}
use gss.Server.SharedState.{SessionId, SharedState, join, leave}
use gss.Server.WebsocketSession.{Action, on_accept, destroy}
use gss.Server.WebsocketSession
use gss.Server.Hub.{
  Hub, Step, accepts, reads, posts, sends, wrote, failed, times_out, drops, destroys, is_alive,
  post, perform, perform_all, tell, tell_to, handle_accept, handle_read, handle_send,
  handle_destroy, Source, set_phase, idle, destroyed,
}

module _ {time : PosixTime} (queue : Queue (Task time)) where
  abbrev pub without_tasks : SharedState queue → SharedState queue
  without_tasks s = record s { tasks_queue = queue.new_list; curr = none }

  abbrev pub forget : Hub queue → Hub queue
  forget h = record h { shared = without_tasks h.shared }

  pub perform_all-forget :
      (x : SessionId) (actions : List Action) (h : Hub queue)
      → perform_all queue x actions (forget h) ≡ forget (perform_all queue x actions h)
  unfolding perform_all perform join leave
  perform_all-forget x [] h = refl
  perform_all-forget x (WebsocketSession.async_accept ∷ actions) h = perform_all-forget x actions _
  perform_all-forget x (WebsocketSession.async_read ∷ actions) h = perform_all-forget x actions _
  perform_all-forget x (Action.join ∷ actions) h =
      perform_all-forget x actions (perform queue x Action.join h)
  perform_all-forget x (Action.leave ∷ actions) h =
      perform_all-forget x actions (perform queue x Action.leave h)
  perform_all-forget x (WebsocketSession.broadcast m ∷ actions) h =
      perform_all-forget x actions (perform queue x (WebsocketSession.broadcast m) h)
  perform_all-forget x (WebsocketSession.async_write m ∷ actions) h = perform_all-forget x actions h
  perform_all-forget x (WebsocketSession.report what message ∷ actions) h =
      perform_all-forget x actions h

  post-forget :
      (src : Source) (y : SessionId) (m : Text) (rest : List (SessionId × Text)) (h : Hub queue)
      → post queue src y m rest (forget h) ≡ forget (post queue src y m rest h)
  unfolding post
  post-forget src y m rest h = elim (Bool-cases (is_alive (h.phase y))) [
    | inl e ↦ rw e
    | inr e ↦ rw e
  ]

  tell_to-forget :
      (found : Option SessionId) (m : Text) (h : Hub queue)
      → tell_to queue found m (forget h) ≡ forget (tell_to queue found m h)
  unfolding tell_to
  tell_to-forget none m h = refl
  tell_to-forget (some y) m h = refl

  pub Step-forget :
      (json : JsonLibrary) (h : Hub queue) {g : Hub queue}
      → Step queue json h g
      → Step queue json (forget h) (forget g)
  unfolding handle_accept handle_read handle_send handle_destroy tell
  Step-forget json h (accepts x ec e) =
      subst (Step queue json (forget h))
        (perform_all-forget x (on_accept ec) (set_phase queue x idle h)) (accepts x ec e)
  Step-forget json h (reads x ec buffer s actions e done read) =
      subst (Step queue json (forget h)) (perform_all-forget x actions _)
        (reads x ec buffer s actions e done read)
  Step-forget json h (posts src y m rest e) =
      subst (Step queue json (forget h)) (post-forget src y m rest h) (posts src y m rest e)
  Step-forget json h (sends x m rest e own) = sends x m rest e own
  Step-forget json h (wrote x m others e own) = wrote x m others e own
  Step-forget json h (failed x ec m others err e own) = failed x ec m others err e own
  Step-forget json h (times_out t e) =
      subst (Step queue json (forget h)) (tell_to-forget _ _ h) (times_out t e)
  Step-forget json h (drops x e empty flight done) = drops x e empty flight done
  Step-forget json h (destroys x e) =
      subst (Step queue json (forget h))
        (perform_all-forget x destroy (set_phase queue x destroyed h)) (destroys x e)
