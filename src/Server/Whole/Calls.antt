-- ===== src/Server/Whole/Calls.antt =====
-- What the handlers of the HTTP sessions and of the listener do to the websocket sessions.
use gss.Base.{
  ◌≡◌, refl, sym, ap, ◌∙◌, Bool, true, false, Bool-cases, inl, inr, List, [], ◌∷◌, ◌==◌, subst,
  ==_iff,
}
use mathlib.Core.Path.{fun_ext}
use gss.Containers.Queue.{Queue}
use gss.Server.Task.{Task}
use gss.Server.SharedState.{SessionId, SharedState, member, push_task, take_task}
use gss.Server.SharedState.Sessions.Members.{member-skip}
use gss.Server.Scheduler.Tasks.{take_task-Taken}
use gss.Server.Whole.Posts.{Pushed}
use gss.Base.Try.{returned}
use gss.Server.Listener
use gss.Server.HttpSession.Handler.{Request, Environment}
use gss.Server.HttpSession.Connection.{
  ErrorCode, success, end_of_stream, operation_aborted, failed, Action, body_limit, expires_after,
  async_read, shutdown_send, upgrade, async_write, report, run, do_read, fail, on_write,
}
use gss.Server.WebsocketSession
use gss.Server.Hub.{Hub, Phase, accepting, set_phase, perform_all}
use gss.Server.Whole.{
  ConnectionId, Server, perform, perform_each, listen, handle_connection, handle_response_written,
}
use gss.Server.Whole.Forget.{without_tasks}
use gss.Server.Whole.Known.{Known}

module _ (env : Environment) (queue : Queue (Task env.time)) where
  -- A session that is new is accepting already.
  set_phase-new :
      (x : SessionId) (h : Hub queue) → h.phase x ≡ accepting → set_phase queue x accepting h ≡ h
  set_phase-new x h new =
      ap (λ f. record h { phase = f })
        (fun_ext (λ y. elim (Bool-cases (x == y)) [
          | inl here ↦ rw here (sym (subst (λ z. h.phase z ≡ accepting) ((==_iff x y).0 here) new))
          | inr other ↦ rw other
        ]))

  perform-hub :
      (c : ConnectionId) (x : SessionId) (a : Action) (s : Server env queue)
      → s.hub.phase x ≡ accepting
      → (perform env queue c x a s).hub ≡ s.hub
  unfolding perform perform_all WebsocketSession.run
  perform-hub c x (body_limit n) s new = refl
  perform-hub c x (expires_after n) s new = refl
  perform-hub c x async_read s new = refl
  perform-hub c x shutdown_send s new = refl
  perform-hub c x (upgrade req) s new = set_phase-new x s.hub new
  perform-hub c x (async_write msg) s new = refl
  perform-hub c x (report what message) s new = refl

  -- The calls of a handler leave the websocket sessions as they are, when one that is made is new.
  pub perform_each-hub :
      (c : ConnectionId) (x : SessionId) (actions : List Action) (s : Server env queue)
      → s.hub.phase x ≡ accepting
      → (perform_each env queue c x actions s).hub ≡ s.hub
  unfolding perform_each
  perform_each-hub c x [] s new = refl
  perform_each-hub c x (a ∷ actions) s new =
      let same = perform-hub c x a s new in
      perform_each-hub c x actions (perform env queue c x a s) (ap (λ h. h.phase x) same ∙ new)
      ∙ same

  perform-upgraded :
      (c : ConnectionId) (x y : SessionId) (a : Action) (s : Server env queue)
      → member y s.upgraded ≡ true
      → member y (perform env queue c x a s).upgraded ≡ true
  unfolding perform
  perform-upgraded c x y (body_limit n) s old = old
  perform-upgraded c x y (expires_after n) s old = old
  perform-upgraded c x y async_read s old = old
  perform-upgraded c x y shutdown_send s old = old
  perform-upgraded c x y (upgrade req) s old = member-skip y x s.upgraded old
  perform-upgraded c x y (async_write msg) s old = old
  perform-upgraded c x y (report what message) s old = old

  -- No session that was made is forgotten.
  pub perform_each-upgraded :
      (c : ConnectionId) (x y : SessionId) (actions : List Action) (s : Server env queue)
      → member y s.upgraded ≡ true
      → member y (perform_each env queue c x actions s).upgraded ≡ true
  unfolding perform_each
  perform_each-upgraded c x y [] s old = old
  perform_each-upgraded c x y (a ∷ actions) s old =
      perform_each-upgraded c x y actions (perform env queue c x a s)
        (perform-upgraded c x y a s old)

  perform-status :
      (c : ConnectionId) (x : SessionId) (a : Action) (s : Server env queue)
      → (perform env queue c x a s).status ≡ s.status
  unfolding perform
  perform-status c x (body_limit n) s = refl
  perform-status c x (expires_after n) s = refl
  perform-status c x async_read s = refl
  perform-status c x shutdown_send s = refl
  perform-status c x (upgrade req) s = refl
  perform-status c x (async_write msg) s = refl
  perform-status c x (report what message) s = refl

  pub perform_each-status :
      (c : ConnectionId) (x : SessionId) (actions : List Action) (s : Server env queue)
      → (perform_each env queue c x actions s).status ≡ s.status
  unfolding perform_each
  perform_each-status c x [] s = refl
  perform_each-status c x (a ∷ actions) s =
      perform_each-status c x actions (perform env queue c x a s) ∙ perform-status c x a s

  pub Known-more :
      (upgraded more sessions : List SessionId) (phase : SessionId → Phase)
      → ((y : SessionId) → member y upgraded ≡ true → member y more ≡ true)
      → Known upgraded phase sessions
      → Known more phase sessions
  Known-more upgraded more sessions phase kept known y = elim (known y) [
    | inl new ↦ inl new
    | inr old ↦ inr (kept y old)
  ]

  -- What a handler that makes no session leaves as it is.
  pub record Same (s s' : Server env queue) : Type 0 where
    pub hub : s'.hub ≡ s.hub
    pub upgraded : s'.upgraded ≡ s.upgraded
    pub worker : s'.worker ≡ s.worker
    pub status : s'.status ≡ s.status

  pub connected-Same :
      (c : ConnectionId) (ec : Listener.ErrorCode) (s : Server env queue)
      → Same s (handle_connection env queue c ec s)
  unfolding handle_connection listen Listener.on_accept Listener.fail run do_read perform_each
      perform
  connected-Same c Listener.success s = record {
    hub = refl;
    upgraded = refl;
    worker = refl;
    status = refl;
  }
  connected-Same c Listener.operation_aborted s = record {
    hub = refl;
    upgraded = refl;
    worker = refl;
    status = refl;
  }
  connected-Same c (Listener.failed message) s = record {
    hub = refl;
    upgraded = refl;
    worker = refl;
    status = refl;
  }

  pub written-Same :
      (c : ConnectionId) (ec : ErrorCode) (keep_alive : Bool) (s : Server env queue)
      → Same s (handle_response_written env queue c ec keep_alive s)
  unfolding handle_response_written on_write fail do_read perform_each perform
  written-Same c success true s = record {
    hub = refl;
    upgraded = refl;
    worker = refl;
    status = refl;
  }
  written-Same c success false s = record {
    hub = refl;
    upgraded = refl;
    worker = refl;
    status = refl;
  }
  written-Same c end_of_stream keep_alive s = record {
    hub = refl;
    upgraded = refl;
    worker = refl;
    status = refl;
  }
  written-Same c operation_aborted keep_alive s = record {
    hub = refl;
    upgraded = refl;
    worker = refl;
    status = refl;
  }
  written-Same c (failed message) keep_alive s = record {
    hub = refl;
    upgraded = refl;
    worker = refl;
    status = refl;
  }

  -- A request leaves the sessions in the shared state as they are.
  pub Pushed-sessions :
      (reqs : List (ConnectionId × Request)) (s s' : SharedState queue)
      → Pushed env queue reqs s s'
      → (without_tasks queue s' ≡ without_tasks queue s) × (s'.sessions ≡ s.sessions)
  unfolding push_task
  Pushed-sessions reqs s s' (inl (same, nothing)) =
      (ap (without_tasks queue) same, ap SharedState.sessions same)
  Pushed-sessions reqs s s' (inr (t, same, one)) =
      (ap (without_tasks queue) same, ap SharedState.sessions same)

  pub Taken-sessions :
      (s s' : SharedState queue) (t : Task env.time)
      → take_task queue s ≡ returned (t, s')
      → (without_tasks queue s' ≡ without_tasks queue s) × (s'.sessions ≡ s.sessions)
  Taken-sessions s s' t e =
      let (ts, cons, taken) = take_task-Taken s t e in
      (rw (taken.same_sessions, taken.same_root), taken.same_sessions)
