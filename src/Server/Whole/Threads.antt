-- ===== src/Server/Whole/Threads.antt =====
-- What the number of I/O threads decides for the whole server.
use gss.Base.{sym, ℕ, suc, ◌<◌, ◌≤◌, ◌≡◌, ap, ◌∙◌, [], subst, arith, length, length-zero}
use gss.Base.Text.{Text}
use gss.Containers.Queue.{Queue}
use gss.Server.Task.{Task}
use gss.Server.SharedState.{must_wait, tasks}
use gss.Server.Scheduler.{Worker, on_consumer, timing, on_io, held}
use gss.Server.HttpSession.Handler.{Environment}
use gss.Server.Hub
use gss.Server.Hub.{
  Hub, session, timer, accepts, reads, posts, sends, wrote, failed, times_out, drops, destroys,
}
use gss.Server.Hub.Effect.{post-shared}
use gss.Server.Whole.Timer.{TimerFits, post-outbox_timer}
use gss.Server.Whole.Sessions.{outbox-TimerFits}
use gss.Server.Whole.{stopping, take, handle_timer, going, handle_request_read, Server, launch}
use gss.Server.Whole.Winding
use gss.Server.Whole.Winding.{Wind}
use gss.Server.Whole.Calls.{connected-Same, written-Same, perform_each-status}
use gss.Server.Whole.Steps.{
  here, next, stops, winds, returns, Runs, Step, Reach, connects, asks, ask_raises, answers, visits,
  visit_raises, starts, fires, resumes,
}

module _ (env : Environment) (queue : Queue (Task env.time)) where
  -- Nothing can happen any more.
  abbrev pub IsFrozen : ℕ → Server env queue → Type 0
  IsFrozen started s = (s' : Server env queue) → ¬ Step env queue started s s'

  held_on_io : (worker : Worker env.time) → worker ≡ on_io → ¬ (held worker < suc 0)
  held_on_io worker at free = omega (arith, subst (λ w. held w < suc 0) at free)

  waits-IsFrozen :
      (s : Server env queue)
      → s.worker ≡ on_io
      → s.hub.outbox timer ≡ []
      → tasks queue s.hub.shared ≡ []
      → s.status ≡ going
      → IsFrozen 0 s
  unfolding must_wait tasks
  waits-IsFrozen s at quiet nil now s' (connects c ec on free pending new) =
      held_on_io s.worker at free
  waits-IsFrozen s at quiet nil now s' (asks c ec u req x shared actions on free waits new e) =
      held_on_io s.worker at free
  waits-IsFrozen s at quiet nil now s' (ask_raises c ec u req thread e on free waits raises) =
      held_on_io s.worker at free
  waits-IsFrozen s at quiet nil now s' (answers c ec res on free waits) =
      held_on_io s.worker at free
  waits-IsFrozen s at quiet nil now s' (visits g st on ok) = visit st ok
    where
      visit :
          {g : Hub queue} (st : Hub.Step queue env.json s.hub g)
          → ¬ Runs env queue s.upgraded 0 s.worker st
      visit (accepts x ec e) ok = held_on_io s.worker at ok.1
      visit (reads x ec buffer t actions e done read) ok = held_on_io s.worker at ok
      visit (posts (session x) y m rest e) ok = held_on_io s.worker at ok
      visit (posts timer y m rest e) ok = cc (e, quiet)
      visit (sends x m rest e own) ok = held_on_io s.worker at ok
      visit (wrote x m others e own) ok = held_on_io s.worker at ok
      visit (failed x ec m others err e own) ok = held_on_io s.worker at ok
      visit (times_out t e) ok = ok
      visit (drops x e empty flight done) ok = held_on_io s.worker at ok
      visit (destroys x e) ok = held_on_io s.worker at ok
  waits-IsFrozen s at quiet nil now s'
        (visit_raises x ec buffer thread e on free waits done raises) =
      held_on_io s.worker at free
  waits-IsFrozen s at quiet nil now s' (starts t shared on off go e) = cc (at, off)
  waits-IsFrozen s at quiet nil now s' (fires t on off free) = cc (at, off)
  waits-IsFrozen s at quiet nil now s' (resumes t shared on off left go e) =
      cc (go, queue.empty-nil s.hub.shared.tasks_queue nil)
  waits-IsFrozen s at quiet nil now s' (stops on free) = held_on_io s.worker at free
  waits-IsFrozen s at quiet nil now s' (winds u on w) = cc (now, on)
  waits-IsFrozen s at quiet nil now s' (returns on down) = cc (now, on)

  -- The handler of the signal has run on a thread that was free, and no callback has run since.
  Wind-free :
      (started : ℕ) (s : Server env queue) {s' : Server env queue}
      → Wind env queue s s'
      → held s.worker < suc started
      → held s'.worker < suc started
  unfolding take
  Wind-free started s (Winding.posts src y m rest e) free = free
  Wind-free started s (Winding.starts t shared at go e) free = omega arith
  Wind-free started s (Winding.resumes t shared at quiet go e) free = omega arith

  Step-free :
      (started : ℕ) (s : Server env queue) {s' : Server env queue}
      → Step env queue started s s'
      → (s.status ≡ stopping → held s.worker < suc started)
      → s'.status ≡ stopping
      → held s'.worker < suc started
  unfolding handle_timer take handle_request_read
  Step-free started s (connects c ec on free pending new) before stop =
      cc (on, stop, (connected-Same env queue c ec s).status)
  Step-free started s (asks c ec u req x shared actions on free waits new e) before stop =
      cc (on, sym stop ∙ perform_each-status env queue c x actions _)
  Step-free started s (ask_raises c ec u req thread e on free waits raises) before stop = cc stop
  Step-free started s (answers c ec res on free waits) before stop =
      cc (on, stop, (written-Same env queue c ec res.keep_alive s).status)
  Step-free started s (visits g st on ok) before stop = cc (on, stop)
  Step-free started s (visit_raises x ec buffer thread e on free waits done bad) before stop =
      cc stop
  Step-free started s (starts t shared on at go e) before stop = cc (on, stop)
  Step-free started s (fires t on at free) before stop = cc (on, stop)
  Step-free started s (resumes t shared on at quiet go e) before stop = cc (on, stop)
  Step-free started s (stops on free) before stop = free
  Step-free started s (winds u on w) before stop = Wind-free started s w (before on)
  Step-free started s (returns on down) before stop = cc stop

  Reach-free :
      (started : ℕ) (root : Text) (s : Server env queue)
      → Reach env queue started (launch env queue root) s
      → s.status ≡ stopping
      → held s.worker < suc started
  unfolding launch
  Reach-free started root s here stop = cc stop
  Reach-free started root s (next {u} r st) stop =
      Step-free started u st (Reach-free started root u r) stop

  -- The last step: the post of the timer's message.
  posted-IsFrozen :
      (s : Server env queue) (g : Hub queue) (st : Hub.Step queue env.json s.hub g)
      → s.worker ≡ on_io
      → length (s.hub.outbox timer) ≤ 1
      → tasks queue s.hub.shared ≡ []
      → s.status ≡ going
      → Runs env queue s.upgraded 0 s.worker st
      → IsFrozen 0 (record s { hub = g })
  posted-IsFrozen s g (accepts x ec e) at one nil now ok = absurd (held_on_io s.worker at ok.1)
  posted-IsFrozen s g (reads x ec buffer t actions e done read) at one nil now ok =
      absurd (held_on_io s.worker at ok)
  posted-IsFrozen s g (posts (session x) y m rest e) at one nil now ok =
      absurd (held_on_io s.worker at ok)
  posted-IsFrozen s g (posts timer y m rest e) at one nil now ok =
      let none_left : rest ≡ [] = length-zero rest (omega (arith, one, ap length e)) in
      waits-IsFrozen (record s { hub = g }) at (post-outbox_timer queue y m rest s.hub ∙ none_left)
        (ap (tasks queue) (post-shared queue timer y m rest s.hub) ∙ nil) now
  posted-IsFrozen s g (sends x m rest e own) at one nil now ok = absurd (held_on_io s.worker at ok)
  posted-IsFrozen s g (wrote x m others e own) at one nil now ok =
      absurd (held_on_io s.worker at ok)
  posted-IsFrozen s g (failed x ec m others err e own) at one nil now ok =
      absurd (held_on_io s.worker at ok)
  posted-IsFrozen s g (times_out t e) at one nil now ok = absurd ok
  posted-IsFrozen s g (drops x e empty flight done) at one nil now ok =
      absurd (held_on_io s.worker at ok)
  posted-IsFrozen s g (destroys x e) at one nil now ok = absurd (held_on_io s.worker at ok)

  -- With one I/O thread, in every state that the server can reach in which the callback of a timer
  -- waits and no task is in the queue, whatever step comes next, it is the last: no connection is
  -- accepted or served, nothing is read or written, and no task is pushed any more.
  pub callback-IsFrozen :
      (root : Text) (s s' : Server env queue)
      → Reach env queue 0 (launch env queue root) s
      → s.worker ≡ on_io
      → tasks queue s.hub.shared ≡ []
      → Step env queue 0 s s'
      → IsFrozen 0 s'
  unfolding must_wait tasks
  callback-IsFrozen root s s' r at nil (connects c ec on free pending new) =
      absurd (held_on_io s.worker at free)
  callback-IsFrozen root s s' r at nil (asks c ec u req x shared actions on free waits new e) =
      absurd (held_on_io s.worker at free)
  callback-IsFrozen root s s' r at nil (ask_raises c ec u req thread e on free waits raises) =
      absurd (held_on_io s.worker at free)
  callback-IsFrozen root s s' r at nil (answers c ec res on free waits) =
      absurd (held_on_io s.worker at free)
  callback-IsFrozen root s s' r at nil (visits g st on ok) =
      posted-IsFrozen s g st at
        (subst (λ w. TimerFits w (s.hub.outbox timer)) at (outbox-TimerFits env queue root 0 s r))
        nil on ok
  callback-IsFrozen root s s' r at nil (visit_raises x ec buffer thread e on free waits done bad) =
      absurd (held_on_io s.worker at free)
  callback-IsFrozen root s s' r at nil (starts t shared on off go e) = cc (at, off)
  callback-IsFrozen root s s' r at nil (fires t on off free) = cc (at, off)
  callback-IsFrozen root s s' r at nil (resumes t shared on off left go e) =
      cc (go, queue.empty-nil s.hub.shared.tasks_queue nil)
  callback-IsFrozen root s s' r at nil (stops on free) = absurd (held_on_io s.worker at free)
  callback-IsFrozen root s s' r at nil (winds u on w) =
      absurd (held_on_io s.worker at (Reach-free 0 root s r on))
  callback-IsFrozen root s s' r at nil (returns on down) = absurd (down.0 at)

  pub held-enough :
      (worker : Worker env.time) (started : ℕ) → 0 < started → held worker < suc started
  held-enough on_consumer started more = omega arith
  held-enough (timing t) started more = omega arith
  held-enough on_io started more = omega arith
