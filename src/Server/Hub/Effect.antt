-- ===== src/Server/Hub/Effect.antt =====
-- What the websocket sessions do to the task loop.
use gss.Base.{subst, ℕ, ◌<◌, ◌≡◌, refl, sym, ◌⊎◌, inl, inr, List, Option, none, some, Bool-cases}
use gss.Base.Text.{Text, codes}
use gss.Base.Try.{returned}
use gss.Containers.Queue.{Queue}
use gss.Server.Libraries.{PosixTime, JsonLibrary}
use gss.Server.Task.{Task}
use gss.Server.SharedState.{SessionId, SharedState, join, leave}
use gss.Server.Scheduler
use gss.Server.Scheduler.{System, held}
use gss.Server.WebsocketSession.{
  ErrorCode, WebsocketSession, Action, is_error, fail, on_accept, on_read, destroy,
}
use gss.Server.Hub.{
  Hub, Step, Reach, here, next, Source, accepts, reads, posts, sends, wrote, failed, times_out,
  drops, destroys, handle_accept, handle_read, handle_send, handle_destroy, post, tell, tell_to,
  perform, perform_all, is_alive,
}
use gss.Server.Hub.Handlers.{on_read-cases}

-- The shared state after a step: as it was, or a session has joined or left.
abbrev pub Visits :
    {time : PosixTime} (queue : Queue (Task time)) → SharedState queue → SharedState queue → Type 0
Visits queue s r = (r ≡ s) ⊎ ((x : SessionId) × ((r ≡ join queue x s) ⊎ (r ≡ leave queue x s)))

module _ {time : PosixTime} (queue : Queue (Task time)) where
  fail-shared :
      (x : SessionId) (ec : ErrorCode) (what : Text) (h : Hub queue)
      → (perform_all queue x (fail ec what) h).shared ≡ h.shared
  unfolding perform_all fail
  fail-shared x ErrorCode.success what h = refl
  fail-shared x ErrorCode.operation_aborted what h = refl
  fail-shared x ErrorCode.closed what h = refl
  fail-shared x (ErrorCode.failed message) what h = refl

  accept-Visits :
      (x : SessionId) (ec : ErrorCode) (h : Hub queue)
      → Visits queue h.shared (handle_accept queue x ec h).shared
  unfolding handle_accept on_accept
  accept-Visits x ec h = elim (Bool-cases (is_error ec)) [
    | inl bad ↦ inl (rw bad (fail-shared x ec (codes "accept") _))
    | inr good ↦ inr (x, inl (rw (good, perform_all, perform) refl))
  ]

  read-Visits :
      (json : JsonLibrary) (x : SessionId) (ec : ErrorCode) (buffer : Text) (s : WebsocketSession)
      (actions : List Action) (h : Hub queue)
      → on_read json ec buffer (h.links x).session ≡ returned (s, actions)
      → Visits queue h.shared (handle_read queue x s actions h).shared
  unfolding handle_read
  read-Visits json x ec buffer s actions h e =
      elim ((on_read-cases json ec buffer (h.links x).session e).1) [
        | inl quiet ↦ inl (rw quiet (fail-shared x ec (codes "read") _))
        | inr spoken ↦ inl (rw (spoken, perform_all, perform) refl)
      ]

  pub tell_to-shared :
      (found : Option SessionId) (m : Text) (h : Hub queue)
      → (tell_to queue found m h).shared ≡ h.shared
  unfolding tell_to
  tell_to-shared none m h = refl
  tell_to-shared (some y) m h = refl

  pub post-shared :
      (src : Source) (y : SessionId) (m : Text) (rest : List (SessionId × Text)) (h : Hub queue)
      → (post queue src y m rest h).shared ≡ h.shared
  unfolding post
  post-shared src y m rest h = elim (Bool-cases (is_alive (h.phase y))) [
    | inl e ↦ rw e
    | inr e ↦ rw e
  ]

  pub Step-Visits :
      (json : JsonLibrary) (h : Hub queue) {g : Hub queue}
      → Step queue json h g
      → Visits queue h.shared g.shared
  unfolding handle_send handle_destroy perform_all perform destroy tell
  Step-Visits json h (accepts x ec e) = accept-Visits x ec h
  Step-Visits json h (reads x ec buffer s actions e done read) =
      read-Visits json x ec buffer s actions h read
  Step-Visits json h (posts src y m rest e) = inl (post-shared src y m rest h)
  Step-Visits json h (sends x m rest e own) = inl refl
  Step-Visits json h (wrote x m others e own) = inl refl
  Step-Visits json h (failed x ec m others err e own) = inl refl
  Step-Visits json h (times_out t e) = inl (tell_to-shared _ _ h)
  Step-Visits json h (drops x e empty flight done) = inl refl
  Step-Visits json h (destroys x e) = inr (x, inr refl)

  pub Visits-Reach :
      (json : JsonLibrary) (threads : ℕ) (s k : System queue) (r : SharedState queue)
      → held k.worker < threads
      → Scheduler.Reach queue json threads s k
      → Visits queue k.shared r
      → Scheduler.Reach queue json threads s (record k { shared = r })
  Visits-Reach json threads s k r free path (inl e) =
      subst (λ q. Scheduler.Reach queue json threads s (record k { shared = q })) (sym e) path
  Visits-Reach json threads s k r free path (inr (x, inl e)) =
      subst (λ q. Scheduler.Reach queue json threads s (record k { shared = q })) (sym e)
        (Scheduler.next path (Scheduler.joins x free))
  Visits-Reach json threads s k r free path (inr (x, inr e)) =
      subst (λ q. Scheduler.Reach queue json threads s (record k { shared = q })) (sym e)
        (Scheduler.next path (Scheduler.leaves x free))

  -- Whatever the websocket sessions do, from a shared state that is that of the task loop: when an
  -- I/O thread is free, the task loop has steps to the shared state in which they leave it, and
  -- with its worker and its tasks as they were.
  pub Reach-System :
      (json : JsonLibrary) (threads : ℕ) (s : System queue) (h g : Hub queue)
      → held s.worker < threads
      → s.shared ≡ h.shared
      → Reach queue json h g
      → Scheduler.Reach queue json threads s (record s { shared = g.shared })
  Reach-System json threads s h g free same here =
      subst (λ q. Scheduler.Reach queue json threads s (record s { shared = q })) same
        Scheduler.here
  Reach-System json threads s h g free same (next {m = k} r st) =
      Visits-Reach json threads s (record s { shared = k.shared }) g.shared free
        (Reach-System json threads s h k free same r) (Step-Visits json k st)
