-- ===== src/Server/Hub/Lifetime/Handlers.antt =====
-- The calls in a handler of a session that is alive, and what they leave of the others.
use gss.Base.{
  ◌≡◌, refl, sym, ap, ◌∙◌, true, false, List, [], ◌∷◌, ◌==◌, inl, inr, Bool-cases, ==_iff, arith,
}
use gss.Containers.Queue.{Queue}
use gss.Server.Libraries.{PosixTime}
use gss.Server.Task.{Task}
use gss.Server.SharedState.{SessionId, member, join, leave}
use gss.Server.SharedState.Sessions.Members.{member-emplace, member-erase}
use gss.Server.WebsocketSession.{Action, async_accept, async_read, async_write, broadcast, report}
use gss.Server.Hub.{
  Hub, Phase, accepting, reading, is_alive, session, perform, perform_all, set_phase,
}
use gss.Server.Hub.Lifetime.Gone.{Safe, Safe-alive}

module _ {time : PosixTime} (queue : Queue (Task time)) where
  abbrev pub SafeAt : SessionId → Hub queue → Type 0
  SafeAt y h =
      Safe (h.phase y) (member y h.shared.sessions) (h.inbox y) (h.links y).in_flight
        (h.outbox (session y))

  abbrev pub AllSafe : Hub queue → Type 0
  AllSafe h = (y : SessionId) → SafeAt y h

  -- The session `x` is alive after a change, and the others are as they were.
  pub AllSafe-change :
      (x : SessionId) (h : Hub queue)
      → is_alive (h.phase x) ≡ true
      → ((y : SessionId) → (x == y) ≡ false → SafeAt y h)
      → AllSafe h
  AllSafe-change x h alive others y = elim (Bool-cases (x == y)) [
    | inl e ↦
        let at : x ≡ y = (==_iff x y).0 e in
        Safe-alive (ap (λ z. is_alive (h.phase z)) (sym at) ∙ alive)
    | inr e ↦ others y e
  ]

  pub record Kept (x : SessionId) (h : Hub queue) : Type 0 where
    pub safe : AllSafe h
    pub alive : is_alive (h.phase x) ≡ true

  -- The session `x` is in one of the phases before it is dropped.
  pub set_phase-Kept :
      (x : SessionId) (p : Phase) (h : Hub queue)
      → is_alive p ≡ true
      → AllSafe h
      → Kept x (set_phase queue x p h)
  set_phase-Kept x p h lives safe =
      let e : (x == x) ≡ true = ground arith in
      let now : is_alive ((set_phase queue x p h).phase x) ≡ true = rw e lives in
      record {
        safe = AllSafe-change x (set_phase queue x p h) now λ y e. rw e (safe y);
        alive = now;
      }

  pub perform-Kept :
      (x : SessionId) (a : Action) (h : Hub queue) → Kept x h → Kept x (perform queue x a h)
  unfolding perform join leave
  perform-Kept x async_accept h k = set_phase-Kept x accepting h refl k.safe
  perform-Kept x async_read h k = set_phase-Kept x reading h refl k.safe
  perform-Kept x Action.join h k = record {
    safe =
        AllSafe-change x (perform queue x Action.join h) k.alive
          λ y e. rw (member-emplace, e) (k.safe y);
    alive = k.alive;
  }
  perform-Kept x Action.leave h k = record {
    safe =
        AllSafe-change x (perform queue x Action.leave h) k.alive
          λ y e. rw (member-erase, e) (k.safe y);
    alive = k.alive;
  }
  perform-Kept x (broadcast t) h k = record {
    safe = AllSafe-change x (perform queue x (broadcast t) h) k.alive λ y e. rw e (k.safe y);
    alive = k.alive;
  }
  perform-Kept x (async_write t) h k = k
  perform-Kept x (report what message) h k = k

  pub perform_all-Kept :
      (x : SessionId) (actions : List Action) (h : Hub queue)
      → Kept x h
      → Kept x (perform_all queue x actions h)
  unfolding perform_all
  perform_all-Kept x [] h k = k
  perform_all-Kept x (a ∷ actions) h k =
      perform_all-Kept x actions (perform queue x a h) (perform-Kept x a h k)
