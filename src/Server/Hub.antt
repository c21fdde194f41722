-- ===== src/Server/Hub.antt =====
-- The sessions of websocket_session.cpp and the shared state of shared_state.cpp together, on all
-- threads: which handler runs next, and what its calls do to the others.
-- `send` of the shared state collects the receivers under the mutex and posts to them one by one
-- after that, so what is still to be posted is part of the state: of the session whose handler
-- called it, or of the timer. A session that has not been accepted yet counts as alive.
-- `log` is the history, the latest event first; no step reads it.
pub mod Log
pub mod Members
pub mod Handlers
pub mod Arrival
pub mod Order
pub mod Lifetime
pub mod Draining
pub mod Update
pub mod Effect
pub mod Delivery
use gss.Base.{
  ℕ, ◌≡◌, Bool, true, false, List, [], ◌∷◌, ◌++◌, Option, none, some, ◌==◌, if◌then◌else◌, map,
}
use gss.Base.Text.{Text}
use gss.Base.Try.{returned}
use gss.Containers.Queue.{Queue}
use gss.Server.Libraries.{PosixTime, JsonLibrary}
use gss.Server.Task.{Task}
use gss.Server.SharedState.{
  SessionId, SharedState, join, leave, find_session, update_message, new_state,
}
use gss.Server.WebsocketSession.{
  ErrorCode, WebsocketSession, Action, async_accept, async_read, async_write, broadcast, report,
  is_error, on_accept, on_read, destroy,
}
use gss.Server.WebsocketSession.Writes.{Link, new_link, sending, writing, failing}

-- What a session waits for besides its writes. A session is dropped when the last pointer that
-- owns it goes, and destroyed when its destructor has run.
pub data Phase : Type 0 where
  accepting reading idle dropped destroyed : Phase

-- Whether `weak_ptr::lock` succeeds.
abbrev pub is_alive : Phase → Bool
is_alive dropped = false
is_alive destroyed = false
is_alive _ = true

-- Who sends: the handler of a session, or that of the timer.
pub data Source : Type 0 where
  session : SessionId → Source
  timer : Source

abbrev pub same_source : Source → Source → Bool
same_source (session x) (session y) = x == y
same_source timer timer = true
same_source _ _ = false

pub data Event : Type 0 where
  joined left : SessionId → Event
  said : SessionId → Text → Event
  told : SessionId → Text → Event
  posted : Source → SessionId → Text → Event

abbrev pub set_at {ℓ} : {A : Type ℓ} → (SessionId → A) → SessionId → A → SessionId → A
set_at f x v y = if x == y then v else f y

abbrev pub set_source {ℓ} : {A : Type ℓ} → (Source → A) → Source → A → Source → A
set_source f x v y = if same_source x y then v else f y

-- The posts of one message to all of a list, in its order.
abbrev pub posts_of : Text → List SessionId → List (SessionId × Text)
posts_of m xs = map (λ y. (y, m)) xs

module _ {time : PosixTime} (queue : Queue (Task time)) where
  -- `inbox` is what was posted to the strand of a session and has not run, `outbox` what a handler
  -- has still to post.
  pub record Hub : Type 0 where
    pub shared : SharedState queue
    pub links : SessionId → Link
    pub phase : SessionId → Phase
    pub inbox : SessionId → List Text
    pub outbox : Source → List (SessionId × Text)
    pub log : List Event

  unfoldable pub new_hub : Text → Hub
  unfolding new_state new_link
  new_hub root = record {
    shared = new_state queue root;
    links = λ x. new_link;
    phase = λ x. accepting;
    inbox = λ x. [];
    outbox = λ src. [];
    log = [];
  }

  abbrev pub uid_in : Hub → SessionId → Text
  uid_in h x = (h.links x).session.uid

  abbrev pub set_phase : SessionId → Phase → Hub → Hub
  set_phase x p h = record h { phase = set_at h.phase x p }

  abbrev pub set_link : SessionId → Link → Hub → Hub
  set_link x l h = record h { links = set_at h.links x l }

  -- What a call in the handler of `x` does.
  unfoldable pub perform : SessionId → Action → Hub → Hub
  unfolding join leave
  perform x async_accept h = set_phase x accepting h
  perform x async_read h = set_phase x reading h
  perform x Action.join h = record h { shared = join queue x h.shared; log = joined x ∷ h.log }
  perform x Action.leave h = record h { shared = leave queue x h.shared; log = left x ∷ h.log }
  perform x (broadcast m) h = record h {
    outbox = set_source h.outbox (session x) (posts_of m h.shared.sessions);
    log = said x m ∷ h.log;
  }
  perform x (async_write m) h = h
  perform x (report what message) h = h

  unfoldable pub perform_all : SessionId → List Action → Hub → Hub
  unfolding perform
  perform_all x [] h = h
  perform_all x (a ∷ actions) h = perform_all x actions (perform x a h)

  -- `if (auto sp = wp.lock()) sp->send(ss);` for the first receiver that is left.
  unfoldable pub post : Source → SessionId → Text → List (SessionId × Text) → Hub → Hub
  post src y m rest h =
      let h' = record h { outbox = set_source h.outbox src rest } in
      if is_alive (h.phase y)
      then record h' {
        inbox = set_at h.inbox y (h.inbox y ++ m ∷ []);
        log = posted src y m ∷ h.log;
      }
      else h'

  -- `send(id, message)` of the timer up to the lock, with the session that was found.
  unfoldable pub tell_to : Option SessionId → Text → Hub → Hub
  tell_to none m h = h
  tell_to (some y) m h = record h {
    outbox = set_source h.outbox timer ((y, m) ∷ []);
    log = told y m ∷ h.log;
  }

  -- The timer of `t` runs out: `self->send(std::string(t.assignee()), update_msg.dump())`.
  unfoldable pub tell : JsonLibrary → Task time → Hub → Hub
  unfolding update_message find_session tell_to
  tell json t h =
      tell_to (find_session (λ x. (h.links x).session.uid) t.assignee h.shared.sessions none)
        (update_message json t) h

  -- The handlers. One that reads or waits is started by the call that completes, so it finds the
  -- session in that phase; it is at its end when all its posts are made, and the strand of the
  -- session calls no other before that.
  unfoldable pub handle_accept : SessionId → ErrorCode → Hub → Hub
  unfolding perform_all on_accept
  handle_accept x ec h = perform_all x (on_accept ec) (set_phase x idle h)

  unfoldable pub handle_read : SessionId → WebsocketSession → List Action → Hub → Hub
  unfolding perform_all
  handle_read x s actions h =
      perform_all x actions (set_link x (record (h.links x) { session = s }) (set_phase x idle h))

  unfoldable pub handle_send : SessionId → Text → List Text → Hub → Hub
  unfolding sending
  handle_send x m rest h =
      set_link x (sending m (h.links x)) (record h { inbox = set_at h.inbox x rest })

  unfoldable pub handle_destroy : SessionId → Hub → Hub
  unfolding perform_all destroy
  handle_destroy x h = perform_all x destroy (set_phase x destroyed h)

  pub data Step (json : JsonLibrary) (h : Hub) : Hub → Type 0 where
    accepts :
        (x : SessionId) (ec : ErrorCode)
        → h.phase x ≡ accepting
        → Step json h (handle_accept x ec h)
    reads :
        (x : SessionId) (ec : ErrorCode) (buffer : Text) (s : WebsocketSession)
        (actions : List Action)
        → h.phase x ≡ reading
        → h.outbox (session x) ≡ []
        → on_read json ec buffer (h.links x).session ≡ returned (s, actions)
        → Step json h (handle_read x s actions h)
    posts :
        (src : Source) (y : SessionId) (m : Text) (rest : List (SessionId × Text))
        → h.outbox src ≡ (y, m) ∷ rest
        → Step json h (post src y m rest h)
    sends :
        (x : SessionId) (m : Text) (rest : List Text)
        → h.inbox x ≡ m ∷ rest
        → h.outbox (session x) ≡ []
        → Step json h (handle_send x m rest h)
    wrote :
        (x : SessionId) (m : Text) (others : List Text)
        → (h.links x).in_flight ≡ m ∷ others
        → h.outbox (session x) ≡ []
        → Step json h (set_link x (writing m others (h.links x)) h)
    failed :
        (x : SessionId) (ec : ErrorCode) (m : Text) (others : List Text)
        → is_error ec ≡ true
        → (h.links x).in_flight ≡ m ∷ others
        → h.outbox (session x) ≡ []
        → Step json h (set_link x (failing ec others (h.links x)) h)
    times_out : (t : Task time) → h.outbox timer ≡ [] → Step json h (tell json t h)
    drops :
        (x : SessionId)
        → h.phase x ≡ idle
        → h.inbox x ≡ []
        → (h.links x).in_flight ≡ []
        → h.outbox (session x) ≡ []
        → Step json h (set_phase x dropped h)
    destroys : (x : SessionId) → h.phase x ≡ dropped → Step json h (handle_destroy x h)

  pub data Reach (json : JsonLibrary) (h : Hub) : Hub → Type 0 where
    here : Reach json h h
    next : {m n : Hub} → Reach json h m → Step json m n → Reach json h n
