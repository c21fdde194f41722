-- ===== src/Server/Whole/Still.antt =====
-- What the task loop leaves of the websocket sessions as it is.
use gss.Base.{◌≡◌, refl, ◌∙◌, inl, inr, List, Bool-cases, Option, none, some}
use gss.Base.Text.{Text}
use gss.Containers.Queue.{Queue}
use gss.Server.Libraries.{PosixTime, JsonLibrary}
use gss.Server.Task.{Task}
use gss.Server.SharedState.{SessionId, SharedState}
use gss.Server.Hub.{Hub, session, timer, is_alive, post, tell, tell_to}

module _ {time : PosixTime} (queue : Queue (Task time)) where
  pub record Still (h g : Hub queue) : Type 0 where
    pub links : g.links ≡ h.links
    pub phase : g.phase ≡ h.phase
    pub sessions : g.shared.sessions ≡ h.shared.sessions
    pub outbox : (x : SessionId) → g.outbox (session x) ≡ h.outbox (session x)

  pub Still-refl : (h : Hub queue) → Still h h
  Still-refl h = record { links = refl; phase = refl; sessions = refl; outbox = λ x. refl }

  pub Still-trans : {h g k : Hub queue} → Still h g → Still g k → Still h k
  Still-trans a b = record {
    links = b.links ∙ a.links;
    phase = b.phase ∙ a.phase;
    sessions = b.sessions ∙ a.sessions;
    outbox = λ x. b.outbox x ∙ a.outbox x;
  }

  pub post-Still :
      (y : SessionId) (m : Text) (rest : List (SessionId × Text)) (h : Hub queue)
      → Still h (post queue timer y m rest h)
  unfolding post
  post-Still y m rest h = elim (Bool-cases (is_alive (h.phase y))) [
    | inl e ↦ record { links = rw e; phase = rw e; sessions = rw e; outbox = λ x. rw e }
    | inr e ↦ record { links = rw e; phase = rw e; sessions = rw e; outbox = λ x. rw e }
  ]

  tell_to-Still :
      (found : Option SessionId) (m : Text) (h : Hub queue) → Still h (tell_to queue found m h)
  unfolding tell_to
  tell_to-Still none m h = Still-refl h
  tell_to-Still (some y) m h = record {
    links = refl;
    phase = refl;
    sessions = refl;
    outbox = λ x. refl;
  }

  pub tell-Still :
      (json : JsonLibrary) (t : Task time) (h : Hub queue) → Still h (tell queue json t h)
  unfolding tell
  tell-Still json t h = tell_to-Still _ _ h

  pub shared-Still :
      (h : Hub queue) (r : SharedState queue)
      → r.sessions ≡ h.shared.sessions
      → Still h (record h { shared = r })
  shared-Still h r same = record { links = refl; phase = refl; sessions = same; outbox = λ x. refl }
