-- ===== src/Server/Whole/Timer.antt =====
-- What the timer of the whole server has still to post.
use gss.Base.{
  ℕ, ◌≤◌, ◌≡◌, refl, sym, ◌∙◌, Bool-cases, inl, inr, List, [], ◌∷◌, length, arith, subst, Option,
  none, some,
}
use gss.Base.Text.{Text}
use gss.Containers.Queue.{Queue}
use gss.Server.Libraries.{PosixTime, JsonLibrary}
use gss.Server.Task.{Task}
use gss.Server.SharedState.{SessionId}
use gss.Server.Scheduler.{Worker, on_consumer, timing, on_io}
use gss.Server.WebsocketSession.{
  Action, async_accept, async_read, async_write, broadcast, report, on_accept, destroy,
}
use gss.Server.HttpSession.Handler.{Environment}
use gss.Server.Hub.{
  Source, Hub, Step, accepts, reads, posts, sends, wrote, failed, times_out, drops, destroys,
  is_alive, post, perform, perform_all, tell, tell_to, handle_accept, handle_read, handle_send,
  handle_destroy, set_phase, idle, destroyed, session, timer,
}
use gss.Server.Whole.Steps.{Runs}

-- Only the callback has something to post, and one message at most.
abbrev pub TimerFits : {time : PosixTime} → Worker time → List (SessionId × Text) → Type 0
TimerFits on_consumer outbox = outbox ≡ []
TimerFits (timing t) outbox = outbox ≡ []
TimerFits on_io outbox = length outbox ≤ 1

posted-TimerFits :
    {time : PosixTime} (worker : Worker time) (x : SessionId × Text)
    (rest : List (SessionId × Text))
    → TimerFits worker (x ∷ rest)
    → TimerFits worker rest
posted-TimerFits on_consumer x rest fits = cc fits
posted-TimerFits (timing t) x rest fits = cc fits
posted-TimerFits on_io x rest fits = omega (arith, fits)

module _ {time : PosixTime} (queue : Queue (Task time)) where
  perform-outbox :
      (x : SessionId) (a : Action) (h : Hub queue)
      → (perform queue x a h).outbox timer ≡ h.outbox timer
  unfolding perform
  perform-outbox x async_accept h = refl
  perform-outbox x async_read h = refl
  perform-outbox x Action.join h = refl
  perform-outbox x Action.leave h = refl
  perform-outbox x (broadcast m) h = refl
  perform-outbox x (async_write m) h = refl
  perform-outbox x (report what message) h = refl

  perform_all-outbox :
      (x : SessionId) (actions : List Action) (h : Hub queue)
      → (perform_all queue x actions h).outbox timer ≡ h.outbox timer
  unfolding perform_all
  perform_all-outbox x [] h = refl
  perform_all-outbox x (a ∷ actions) h =
      perform_all-outbox x actions (perform queue x a h) ∙ perform-outbox x a h

  post-outbox_session :
      (x y : SessionId) (m : Text) (rest : List (SessionId × Text)) (h : Hub queue)
      → (post queue (session x) y m rest h).outbox timer ≡ h.outbox timer
  unfolding post
  post-outbox_session x y m rest h = elim (Bool-cases (is_alive (h.phase y))) [
    | inl e ↦ rw e
    | inr e ↦ rw e
  ]

  pub post-outbox_timer :
      (y : SessionId) (m : Text) (rest : List (SessionId × Text)) (h : Hub queue)
      → (post queue timer y m rest h).outbox timer ≡ rest
  unfolding post
  post-outbox_timer y m rest h = elim (Bool-cases (is_alive (h.phase y))) [
    | inl e ↦ rw e
    | inr e ↦ rw e
  ]

  pub post-TimerFits :
      (worker : Worker time) (src : Source) (y : SessionId) (m : Text)
      (rest : List (SessionId × Text)) (h : Hub queue)
      → h.outbox src ≡ (y, m) ∷ rest
      → TimerFits worker (h.outbox timer)
      → TimerFits worker ((post queue src y m rest h).outbox timer)
  post-TimerFits worker (session x) y m rest h e fits =
      subst (TimerFits worker) (sym (post-outbox_session x y m rest h)) fits
  post-TimerFits worker timer y m rest h e fits =
      subst (TimerFits worker) (sym (post-outbox_timer y m rest h))
        (posted-TimerFits worker (y, m) rest (subst (TimerFits worker) e fits))

  tell_to-outbox :
      (found : Option SessionId) (m : Text) (h : Hub queue)
      → h.outbox timer ≡ []
      → length ((tell_to queue found m h).outbox timer) ≤ 1
  unfolding tell_to
  tell_to-outbox none m h quiet = rw quiet (omega arith)
  tell_to-outbox (some y) m h quiet = omega arith

  pub tell-outbox :
      (json : JsonLibrary) (t : Task time) (h : Hub queue)
      → h.outbox timer ≡ []
      → length ((tell queue json t h).outbox timer) ≤ 1
  unfolding tell
  tell-outbox json t h quiet = tell_to-outbox _ _ h quiet

module _ (env : Environment) (queue : Queue (Task env.time)) where
  pub Step-TimerFits :
      (upgraded : List SessionId) (started : ℕ) (worker : Worker env.time) (h : Hub queue)
      {g : Hub queue} (st : Step queue env.json h g)
      → Runs env queue upgraded started worker st
      → TimerFits worker (h.outbox timer)
      → TimerFits worker (g.outbox timer)
  unfolding handle_accept handle_read handle_send handle_destroy
  Step-TimerFits upgraded started worker h (accepts x ec e) ok fits =
      subst (TimerFits worker)
        (sym (perform_all-outbox queue x (on_accept ec) (set_phase queue x idle h))) fits
  Step-TimerFits upgraded started worker h (reads x ec buffer s actions e done read) ok fits =
      subst (TimerFits worker) (sym (perform_all-outbox queue x actions _)) fits
  Step-TimerFits upgraded started worker h (posts src y m rest e) ok fits =
      post-TimerFits queue worker src y m rest h e fits
  Step-TimerFits upgraded started worker h (sends x m rest e own) ok fits = fits
  Step-TimerFits upgraded started worker h (wrote x m others e own) ok fits = fits
  Step-TimerFits upgraded started worker h (failed x ec m others err e own) ok fits = fits
  Step-TimerFits upgraded started worker h (times_out t e) ok fits = absurd ok
  Step-TimerFits upgraded started worker h (drops x e empty flight done) ok fits = fits
  Step-TimerFits upgraded started worker h (destroys x e) ok fits =
      subst (TimerFits worker)
        (sym (perform_all-outbox queue x destroy (set_phase queue x destroyed h))) fits
