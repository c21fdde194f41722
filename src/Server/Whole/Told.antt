-- ===== src/Server/Whole/Told.antt =====
-- What the timer of the whole server has sent to sessions.
use gss.Base.{
  map, ℕ, ◌≡◌, refl, sym, Bool-cases, inl, inr, List, [], ◌∷◌, ◌++◌, append-nil, Option, none, some,
  true,
}
use gss.Base.Text.{Text}
use gss.Containers.Queue.{Queue}
use gss.Server.Libraries.{PosixTime, JsonLibrary}
use gss.Server.Task.{Task}
use gss.Server.SharedState.{SessionId, deliver, send_to, update_message, timer_sends}
use gss.Server.Scheduler.{Worker}
use gss.Server.WebsocketSession.{
  Action, async_accept, async_read, async_write, broadcast, report, on_accept, destroy,
}
use gss.Server.HttpSession.Handler.{Environment}
use gss.Server.Hub.{
  Hub, Event, told, Step, accepts, reads, posts, sends, wrote, failed, times_out, drops, destroys,
  is_alive, post, perform, perform_all, tell, tell_to, handle_accept, handle_read, handle_send,
  handle_destroy, Source, set_phase, destroyed, uid_in,
}
use gss.Server.Whole.Steps.{Runs}

-- The messages that the timer has sent to a session that it found, in order.
abbrev pub tolds : List Event → List (SessionId × Text)
tolds [] = []
tolds (told x m ∷ log) = tolds log ++ (x, m) ∷ []
tolds (_ ∷ log) = tolds log

module _ {time : PosixTime} (queue : Queue (Task time)) where
  perform_all-tolds :
      (x : SessionId) (actions : List Action) (h : Hub queue)
      → tolds (perform_all queue x actions h).log ≡ tolds h.log
  unfolding perform_all perform
  perform_all-tolds x [] h = refl
  perform_all-tolds x (async_accept ∷ actions) h = perform_all-tolds x actions _
  perform_all-tolds x (async_read ∷ actions) h = perform_all-tolds x actions _
  perform_all-tolds x (Action.join ∷ actions) h = perform_all-tolds x actions _
  perform_all-tolds x (Action.leave ∷ actions) h = perform_all-tolds x actions _
  perform_all-tolds x (broadcast m ∷ actions) h = perform_all-tolds x actions _
  perform_all-tolds x (async_write m ∷ actions) h = perform_all-tolds x actions _
  perform_all-tolds x (report what message ∷ actions) h = perform_all-tolds x actions _

  pub post-tolds :
      (src : Source) (y : SessionId) (m : Text) (rest : List (SessionId × Text)) (h : Hub queue)
      → tolds (post queue src y m rest h).log ≡ tolds h.log
  unfolding post
  post-tolds src y m rest h = elim (Bool-cases (is_alive (h.phase y))) [
    | inl e ↦ rw e
    | inr e ↦ rw e
  ]

  tell_to-tolds :
      (found : Option SessionId) (m : Text) (h : Hub queue)
      → tolds (tell_to queue found m h).log
        ≡ tolds h.log ++ map (λ x. (x, m)) (deliver (λ x. true) found)
  unfolding tell_to deliver
  tell_to-tolds none m h = sym (append-nil _)
  tell_to-tolds (some y) m h = refl

  -- What a timer that runs out adds is what it sends when all sessions are alive.
  pub tell-tolds :
      (json : JsonLibrary) (t : Task time) (h : Hub queue)
      → tolds (tell queue json t h).log
        ≡ tolds h.log ++ timer_sends queue json (λ x. true) (uid_in queue h) t h.shared
  unfolding tell timer_sends send_to
  tell-tolds json t h = tell_to-tolds _ (update_message json t) h

module _ (env : Environment) (queue : Queue (Task env.time)) where
  pub Step-tolds :
      (upgraded : List SessionId) (started : ℕ) (worker : Worker env.time) (h : Hub queue)
      {g : Hub queue} (st : Step queue env.json h g)
      → Runs env queue upgraded started worker st
      → tolds g.log ≡ tolds h.log
  unfolding handle_accept handle_read handle_send handle_destroy
  Step-tolds upgraded started worker h (accepts x ec e) ok =
      perform_all-tolds queue x (on_accept ec) _
  Step-tolds upgraded started worker h (reads x ec buffer s actions e done read) ok =
      perform_all-tolds queue x actions _
  Step-tolds upgraded started worker h (posts src y m rest e) ok = post-tolds queue src y m rest h
  Step-tolds upgraded started worker h (sends x m rest e own) ok = refl
  Step-tolds upgraded started worker h (wrote x m others e own) ok = refl
  Step-tolds upgraded started worker h (failed x ec m others err e own) ok = refl
  Step-tolds upgraded started worker h (times_out t e) ok = absurd ok
  Step-tolds upgraded started worker h (drops x e empty flight done) ok = refl
  Step-tolds upgraded started worker h (destroys x e) ok =
      perform_all-tolds queue x destroy (set_phase queue x destroyed h)
