-- ===== src/Server/Whole/Loop.antt =====
-- The whole server, seen as the task loop of Scheduler.
use gss.Base.{
  ℕ, suc, ◌<◌, ◌≡◌, refl, sym, ap₂, ◌∙◌, subst, ◌⊎◌, inl, inr, true, false, List, [], ◌∷◌, ◌++◌,
  append-nil,
}
use gss.Base.Text.{Text}
use gss.Containers.Queue.{Queue}
use gss.Server.Task.{Task}
use gss.Server.SharedState.{SessionId, SharedState, tasks}
use gss.Server.Scheduler
use gss.Server.Scheduler.{Worker, System, boot, held, running, pushing, firing, taking}
use gss.Server.Scheduler.Order.{tasks-fifo}
use gss.Server.Listener
use gss.Server.HttpSession.Handler.{Request, Environment}
use gss.Server.HttpSession.Connection.{
  Action, body_limit, expires_after, async_read, shutdown_send, upgrade, async_write, report, run,
  on_write,
}
use gss.Server.Hub
use gss.Server.Hub.{
  Hub, tell, accepts, reads, posts, sends, wrote, failed, times_out, drops, destroys, session,
  timer, uid_in,
}
use gss.Server.Hub.Effect.{Step-Visits, Visits-Reach, tell_to-shared, post-shared}
use gss.Server.Whole.{
  ConnectionId, Server, launch, perform, perform_each, listen, handle_connection,
  handle_request_read, handle_response_written, handle_timer, take,
}
use gss.Server.Whole.Winding
use gss.Server.Whole.Winding.{Wind}
use gss.Server.Whole.Steps.{
  stops, winds, returns, Runs, Step, Reach, here, next, connects, asks, ask_raises, answers, visits,
  visit_raises, starts, fires, resumes,
}
use gss.Server.Whole.Posts.{posted_tasks, posted_tasks-append, Pushed, on_read-Pushed}
use gss.Server.Whole.Told.{post-tolds, tolds, tell-tolds, Step-tolds}

module _ (env : Environment) (queue : Queue (Task env.time)) where
  -- Posted is here what the timer has sent, whether or not its session is still alive later.
  abbrev pub system_of : Server env queue → System queue
  system_of s = record {
    shared = s.hub.shared;
    worker = s.worker;
    pushed = posted_tasks env.json s.requests;
    finished = s.finished;
    posted = tolds s.hub.log;
  }

  perform-system :
      (c : ConnectionId) (x : SessionId) (a : Action) (s : Server env queue)
      → system_of (perform env queue c x a s) ≡ system_of s
  unfolding perform
  perform-system c x (body_limit n) s = refl
  perform-system c x (expires_after n) s = refl
  perform-system c x async_read s = refl
  perform-system c x shutdown_send s = refl
  perform-system c x (upgrade req) s = refl
  perform-system c x (async_write msg) s = refl
  perform-system c x (report what message) s = refl

  pub perform_each-system :
      (c : ConnectionId) (x : SessionId) (actions : List Action) (s : Server env queue)
      → system_of (perform_each env queue c x actions s) ≡ system_of s
  unfolding perform_each
  perform_each-system c x [] s = refl
  perform_each-system c x (a ∷ actions) s =
      perform_each-system c x actions (perform env queue c x a s) ∙ perform-system c x a s

  listen-system :
      (c : ConnectionId) (actions : List Listener.Action) (s : Server env queue)
      → system_of (listen env queue c actions s) ≡ system_of s
  unfolding listen
  listen-system c [] s = refl
  listen-system c (Listener.async_accept ∷ actions) s =
      listen-system c actions (record s { is_accepting = true })
  listen-system c (Listener.start_session ∷ actions) s =
      listen-system c actions (perform_each env queue c 0 run s) ∙ perform_each-system c 0 run s
  listen-system c (Listener.report what message ∷ actions) s = listen-system c actions s

  module _ (started : ℕ) where
    -- A step of the websocket sessions leaves the shared state, or an I/O thread is free.
    Runs-free :
        (upgraded : List SessionId) (worker : Worker env.time) (h : Hub queue) {g : Hub queue}
        (st : Hub.Step queue env.json h g)
        → Runs env queue upgraded started worker st
        → (g.shared ≡ h.shared) ⊎ (held worker < suc started)
    Runs-free upgraded worker h (accepts x ec e) ok = inr ok.1
    Runs-free upgraded worker h (reads x ec buffer s actions e done read) ok = inr ok
    Runs-free upgraded worker h (posts timer y m rest e) ok =
        inl (post-shared queue timer y m rest h)
    Runs-free upgraded worker h (posts (session x) y m rest e) ok = inr ok
    Runs-free upgraded worker h (sends x m rest e own) ok = inr ok
    Runs-free upgraded worker h (wrote x m others e own) ok = inr ok
    Runs-free upgraded worker h (failed x ec m others err e own) ok = inr ok
    Runs-free upgraded worker h (times_out t e) ok = absurd ok
    Runs-free upgraded worker h (drops x e empty flight done) ok = inr ok
    Runs-free upgraded worker h (destroys x e) ok = inr ok

    timer-system :
        (t : Task env.time) (s : Server env queue)
        → firing queue env.json (λ x. true) (uid_in queue s.hub) t (system_of s)
          ≡ system_of (handle_timer env queue t s)
    unfolding firing handle_timer tell
    timer-system t s =
        ap₂
          (λ q l. record (system_of s) {
            shared = q;
            worker = Scheduler.on_io;
            finished = s.finished ++ t ∷ [];
            posted = l;
          })
          (sym (tell_to-shared queue _ _ s.hub)) (sym (tell-tolds queue env.json t s.hub))

    module _ (p : System queue) where
      visits-Reach :
          (s : Server env queue) (g : Hub queue) (st : Hub.Step queue env.json s.hub g)
          → Runs env queue s.upgraded started s.worker st
          → Scheduler.Reach queue env.json (suc started) p (system_of s)
          → Scheduler.Reach queue env.json (suc started) p (system_of (record s { hub = g }))
      visits-Reach s g st ok path =
          let told = Step-tolds env queue s.upgraded started s.worker s.hub st ok in
          let shared-path : Scheduler.Reach queue env.json (suc started) p
              (record (system_of s) { shared = g.shared }) =
            elim (Runs-free s.upgraded s.worker s.hub st ok) [
              | inl same ↦
                  subst
                    (λ q.
                      Scheduler.Reach queue env.json (suc started) p
                        (record (system_of s) { shared = q }))
                    (sym same) path
              | inr free ↦
                  Visits-Reach queue env.json (suc started) p (system_of s) g.shared free path
                    (Step-Visits queue env.json s.hub st)
            ] in
          subst
            (λ l.
              Scheduler.Reach queue env.json (suc started) p
                (record (system_of s) { shared = g.shared; posted = l }))
            (sym told) shared-path

      asks-Reach :
          (s : Server env queue) (new : List (ConnectionId × Request)) (shared : SharedState queue)
          → held s.worker < suc started
          → Pushed env queue new s.hub.shared shared
          → Scheduler.Reach queue env.json (suc started) p (system_of s)
          → Scheduler.Reach queue env.json (suc started) p (record (system_of s) {
            shared = shared;
            pushed = posted_tasks env.json (s.requests ++ new);
          })
      unfolding pushing
      asks-Reach s new shared free (inl (same, nothing)) path =
          rw
            (
              posted_tasks-append {time = env.time} env.json s.requests new,
              nothing,
              same,
              append-nil,
            )
            path
      asks-Reach s new shared free (inr (t, same, one)) path =
          rw (posted_tasks-append {time = env.time} env.json s.requests new, one, same)
            (Scheduler.next path (Scheduler.push t free))

      Wind-System :
          (s : Server env queue) {s' : Server env queue}
          → Wind env queue s s'
          → Scheduler.Reach queue env.json (suc started) p (system_of s)
          → Scheduler.Reach queue env.json (suc started) p (system_of s')
      unfolding take taking
      Wind-System s (Winding.posts src y m rest e) path =
          subst (Scheduler.Reach queue env.json (suc started) p)
            (ap₂ (λ q l. record (system_of s) { shared = q; posted = l })
              (sym (post-shared queue src y m rest s.hub))
              (sym (post-tolds queue src y m rest s.hub)))
            path
      Wind-System s (Winding.starts t shared at go e) path =
          Scheduler.next path (Scheduler.start t shared at go e)
      Wind-System s (Winding.resumes t shared at quiet go e) path =
          Scheduler.next path (Scheduler.resume t shared at go e)

      Step-System :
          (s : Server env queue) {s' : Server env queue}
          → Step env queue started s s'
          → Scheduler.Reach queue env.json (suc started) p (system_of s)
          → Scheduler.Reach queue env.json (suc started) p (system_of s')
      unfolding handle_connection handle_request_read handle_response_written handle_timer take
          taking firing
      Step-System s (connects c ec on free pending new) path =
          subst (Scheduler.Reach queue env.json (suc started) p)
            (sym (listen-system c (Listener.on_accept ec) (record s { is_accepting = false }))) path
      Step-System s (asks c ec is_upgrade req x shared actions on free at new e) path =
          subst (Scheduler.Reach queue env.json (suc started) p)
            (sym (perform_each-system c x actions _))
            (asks-Reach s _ shared free
              (on_read-Pushed env queue c ec is_upgrade req s.hub.shared shared actions e) path)
      Step-System s (ask_raises c ec is_upgrade req thread e on free at raises) path = path
      Step-System s (answers c ec res on free at) path =
          subst (Scheduler.Reach queue env.json (suc started) p)
            (sym (perform_each-system c 0 (on_write ec res.keep_alive) _)) path
      Step-System s (visits g st on ok) path = visits-Reach s g st ok path
      Step-System s (visit_raises x ec buffer thread e on free at done raises) path = path
      Step-System s (starts t shared on at go e) path =
          Scheduler.next path (Scheduler.start t shared at go e)
      Step-System s (fires t on at free) path =
          subst (Scheduler.Reach queue env.json (suc started) p) (timer-system t s)
            (Scheduler.next path (Scheduler.fire (λ x. true) (uid_in queue s.hub) t at free))
      Step-System s (resumes t shared on at quiet go e) path =
          Scheduler.next path (Scheduler.resume t shared at go e)
      Step-System s (stops on free) path = path
      Step-System s (winds s' on w) path = Wind-System s w path
      Step-System s (returns on down) path = path

    -- Whatever the sessions, the listener, the timers and the task loop do, what they do to the
    -- task loop is a run of its steps from the start: with the tasks of the POSTs to /api/tasks
    -- that were answered pushed in their order, and with what the timers have sent to sessions
    -- posted.
    pub Reach-system_of :
        (root : Text) (s : Server env queue)
        → Reach env queue started (launch env queue root) s
        → Scheduler.Reach queue env.json (suc started) (boot queue root) (system_of s)
    unfolding launch boot
    Reach-system_of root s here = Scheduler.here
    Reach-system_of root s (next {u} r st) =
        Step-System (boot queue root) u st (Reach-system_of root u r)

    -- However connections, sessions, timers and the task loop interleave, the tasks whose timer has
    -- run out, then the one whose timer is set, then those in the queue, are the tasks in the
    -- bodies of the POSTs to /api/tasks, of all connections, in the order in which they were
    -- handled.
    pub tasks-posted :
        (root : Text) (s : Server env queue)
        → Reach env queue started (launch env queue root) s
        → s.finished ++ (running s.worker ++ tasks queue s.hub.shared)
          ≡ posted_tasks env.json s.requests
    tasks-posted root s r = tasks-fifo root (suc started) (system_of s) (Reach-system_of root s r)
