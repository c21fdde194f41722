-- ===== src/Server/Whole/Sessions.antt =====
-- The whole server, seen as the websocket sessions of Hub.
use gss.Base.{ℕ, ◌≡◌, refl, sym, ap, subst₂, true, false, inl, inr, List, [], ◌++◌, subst}
use gss.Base.Text.{Text}
use gss.Base.Try.{returned}
use gss.Containers.Queue.{Queue}
use gss.Server.Task.{Task}
use gss.Server.SharedState.{SessionId, SharedState, member, take_task, new_state}
use gss.Server.SharedState.Sessions.Members.{Distinct}
use gss.Server.Hub.Members.{Reach-Members, new_hub-Members}
use gss.Server.Scheduler.{Worker, timing, on_consumer, System}
use gss.Server.HttpSession.Handler.{Request, Environment}
use gss.Server.HttpSession.Connection.{Action}
use gss.Server.Hub
use gss.Server.Hub.{Hub, accepting, new_hub, timer, tell, tell_to, times_out}
use gss.Server.Whole.{
  ConnectionId, Server, launch, perform_each, handle_request_read, handle_timer, take, set_stage,
  closed,
}
use gss.Server.Whole.Winding
use gss.Server.Whole.Winding.{Wind}
use gss.Server.Whole.Steps.{
  stops, winds, returns, Step, Reach, here, next, connects, asks, ask_raises, answers, visits,
  visit_raises, starts, fires, resumes,
}
use gss.Server.Whole.Posts.{Pushed, on_read-Pushed}
use gss.Server.Whole.Forget.{forget, without_tasks, Step-forget}
use gss.Server.Whole.Known.{post-Known, Known, HasKnown, Step-Known, tell-Known}
use gss.Server.Whole.Timer.{post-TimerFits, TimerFits, tell-outbox, Step-TimerFits}
use gss.Server.Whole.Calls.{
  perform_each-hub, perform_each-upgraded, Known-more, Same, connected-Same, written-Same,
  Pushed-sessions, Taken-sessions,
}
use gss.Server.Whole.Loop.{perform_each-system}

module _ (env : Environment) (queue : Queue (Task env.time)) where
  -- The websocket sessions from the start `h0`, up to now.
  pub record Visited (h0 : Hub queue) (upgraded : List SessionId) (worker : Worker env.time)
      (h : Hub queue) : Type 0 where
    pub path : Hub.Reach queue env.json h0 (forget queue h)
    pub known : HasKnown queue upgraded h
    pub fits : TimerFits worker (h.outbox timer)

  -- A change of the shared state that is none of its sessions.
  shared-Visited :
      {h0 : Hub queue} {upgraded : List SessionId} {worker : Worker env.time} (h : Hub queue)
      (r : SharedState queue)
      → (without_tasks queue r ≡ without_tasks queue h.shared) × (r.sessions ≡ h.shared.sessions)
      → Visited h0 upgraded worker h
      → Visited h0 upgraded worker (record h { shared = r })
  shared-Visited {h0} {upgraded} h r (same, same_sessions) v = record {
    path = subst (λ q. Hub.Reach queue env.json h0 (record h { shared = q })) (sym same) v.path;
    known = subst (Known upgraded h.phase) (sym same_sessions) v.known;
    fits = v.fits;
  }

  Same-Visited :
      {h0 : Hub queue} (s s' : Server env queue)
      → Same env queue s s'
      → Visited h0 s.upgraded s.worker s.hub
      → Visited h0 s'.upgraded s'.worker s'.hub
  Same-Visited {h0} s s' same v =
      subst (λ h. Visited h0 s'.upgraded s'.worker h) (sym same.hub)
        (subst₂ (λ up w. Visited h0 up w s.hub) (sym same.upgraded) (sym same.worker) v)

  taken-Visited :
      {h0 : Hub queue} (s : Server env queue) (t : Task env.time) (r : SharedState queue)
      → s.hub.outbox timer ≡ []
      → take_task queue s.hub.shared ≡ returned (t, r)
      → Visited h0 s.upgraded s.worker s.hub
      → Visited h0 s.upgraded (timing t) (record s.hub { shared = r })
  taken-Visited s t r quiet e v =
      let moved = shared-Visited s.hub r (Taken-sessions env queue s.hub.shared r t e) v in
      record { path = moved.path; known = moved.known; fits = quiet }

  module _ (h0 : Hub queue) (started : ℕ) where
    abbrev SoFar : Server env queue → Type 0
    SoFar s = Visited h0 s.upgraded s.worker s.hub

    asks-Visited :
        (c : ConnectionId) (x : SessionId) (new : List (ConnectionId × Request))
        (shared : SharedState queue) (actions : List Action) (s : Server env queue)
        → member x s.upgraded ≡ false
        → Pushed env queue new s.hub.shared shared
        → SoFar s
        → SoFar (handle_request_read env queue c x new shared actions s)
    unfolding handle_request_read
    asks-Visited c x new shared actions s fresh pushed v =
        let v' =
          shared-Visited s.hub shared (Pushed-sessions env queue new s.hub.shared shared pushed)
            v in
        let s' : Server env queue = record s {
          hub = record s.hub { shared = shared };
          stages = set_stage s.stages c closed;
          requests = s.requests ++ new;
        } in
        let is_new : s.hub.phase x ≡ accepting = elim (v.known x) [
          | inl (new, outside) ↦ new
          | inr old ↦ cc (old, fresh)
        ] in
        let hub = perform_each-hub env queue c x actions s' is_new in
        let worker = ap System.worker (perform_each-system env queue c x actions s') in
        let after : Visited h0 (perform_each env queue c x actions s').upgraded s.worker s'.hub =
          record {
            path = v'.path;
            known =
                Known-more env queue s.upgraded _ shared.sessions s.hub.phase
                  (λ y. perform_each-upgraded env queue c x y actions s') v'.known;
            fits = v'.fits;
          } in
        subst₂ (λ w h. Visited h0 (perform_each env queue c x actions s').upgraded w h) (sym worker)
          (sym hub) after

    Wind-Visited :
        (s : Server env queue) {s' : Server env queue} → Wind env queue s s' → SoFar s → SoFar s'
    unfolding take
    Wind-Visited s (Winding.posts src y m rest e) v = record {
      path = Hub.next v.path (Step-forget queue env.json s.hub (Hub.posts src y m rest e));
      known = post-Known queue s.upgraded src y m rest s.hub v.known;
      fits = post-TimerFits queue s.worker src y m rest s.hub e v.fits;
    }
    Wind-Visited s (Winding.starts t shared at go e) v =
        taken-Visited s t shared (subst (λ w. TimerFits w (s.hub.outbox timer)) at v.fits) e v
    Wind-Visited s (Winding.resumes t shared at quiet go e) v = taken-Visited s t shared quiet e v

    Step-Visited :
        (s : Server env queue) {s' : Server env queue}
        → Step env queue started s s'
        → SoFar s
        → SoFar s'
    unfolding handle_timer take
    Step-Visited s (connects c ec on free pending new) v =
        Same-Visited s _ (connected-Same env queue c ec s) v
    Step-Visited s (asks c ec is_upgrade req x shared actions on free at new e) v =
        asks-Visited c x _ shared actions s new
          (on_read-Pushed env queue c ec is_upgrade req s.hub.shared shared actions e) v
    Step-Visited s (ask_raises c ec is_upgrade req thread e on free at raises) v = v
    Step-Visited s (answers c ec res on free at) v =
        Same-Visited s _ (written-Same env queue c ec res.keep_alive s) v
    Step-Visited s (visits g st on ok) v = record {
      path = Hub.next v.path (Step-forget queue env.json s.hub st);
      known = Step-Known env queue s.upgraded started s.worker s.hub st ok v.known;
      fits = Step-TimerFits env queue s.upgraded started s.worker s.hub st ok v.fits;
    }
    Step-Visited s (visit_raises x ec buffer thread e on free at done raises) v = v
    Step-Visited s (starts t shared on at go e) v =
        taken-Visited s t shared (subst (λ w. TimerFits w (s.hub.outbox timer)) at v.fits) e v
    Step-Visited s (fires t on at free) v =
        let quiet = subst (λ w. TimerFits w (s.hub.outbox timer)) at v.fits in
        record {
          path = Hub.next v.path (Step-forget queue env.json s.hub (times_out t quiet));
          known = tell-Known queue env.json s.upgraded t s.hub v.known;
          fits = tell-outbox queue env.json t s.hub quiet;
        }
    Step-Visited s (resumes t shared on at quiet go e) v = taken-Visited s t shared quiet e v
    Step-Visited s (stops on free) v = v
    Step-Visited s (winds s' on w) v = Wind-Visited s w v
    Step-Visited s (returns on down) v = v

  launch-Visited : (root : Text) → Visited (new_hub queue root) [] on_consumer (new_hub queue root)
  unfolding new_hub new_state member
  launch-Visited root = record { path = Hub.here; known = λ y. inl (refl, refl); fits = refl }

  pub Reach-Visited :
      (root : Text) (started : ℕ) (s : Server env queue)
      → Reach env queue started (launch env queue root) s
      → Visited (new_hub queue root) s.upgraded s.worker s.hub
  unfolding launch
  Reach-Visited root started s here = launch-Visited root
  Reach-Visited root started s (next {u} r st) =
      Step-Visited (new_hub queue root) started u st (Reach-Visited root started u r)

  module _ (root : Text) (started : ℕ) (s : Server env queue)
      (r : Reach env queue started (launch env queue root) s) where
    -- Whatever the whole server does, what it does to the websocket sessions is a run of the steps
    -- of Hub from the start, up to the queue of tasks and the current one.
    pub Reach-forget : Hub.Reach queue env.json (new_hub queue root) (forget queue s.hub)
    Reach-forget = (Reach-Visited root started s r).path

    -- Each session in the set was made by an upgrade of an HTTP connection, and is in it once.
    pub sessions-upgraded :
        Distinct s.hub.shared.sessions
        × ((x : SessionId) → member x s.hub.shared.sessions ≡ true → member x s.upgraded ≡ true)
    sessions-upgraded = (
      (Reach-Members queue env.json Reach-forget (new_hub-Members queue root)).once,
      λ x inside. elim ((Reach-Visited root started s r).known x) [
        | inl (new, outside) ↦ cc (inside, outside)
        | inr old ↦ old
      ],
    )

    -- The timer never has more than one message to post, and only while its callback runs.
    pub outbox-TimerFits : TimerFits s.worker (s.hub.outbox timer)
    outbox-TimerFits = (Reach-Visited root started s r).fits
