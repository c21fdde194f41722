-- ===== src/Server/Whole/Progress/Finishing.antt =====
-- The end of a run of the whole server without a further request: no task is left.
use gss.Base.{
  ℕ, zero, suc, ◌^◌, ◌<◌, ◌≡◌, refl, sym, ap, ◌∙◌, inl, inr, [], ◌∷◌, ◌++◌, append-nil, subst,
  arith, length, List-cases,
}
use gss.Base.Text.{Text}
use gss.Containers.Queue.{Queue}
use gss.Server.Task.{Task}
use gss.Server.SharedState.{tasks}
use gss.Server.Scheduler.{Worker, held, running}
use gss.Server.HttpSession.Handler.{Environment}
use gss.Server.Hub.{tell, timer}
use gss.Server.Hub.Effect.{tell_to-shared}
use gss.Server.Whole.{going, Server, launch, handle_timer}
use gss.Server.Whole.Steps.{Reach, here, next, fires}
use gss.Server.Whole.Posts.{posted_tasks}
use gss.Server.Whole.Loop.{tasks-posted}
use gss.Server.Whole.Timer.{TimerFits, tell-outbox}
use gss.Server.Whole.Sessions.{outbox-TimerFits}
use gss.Server.Whole.Arrival.{Reach-trans}
use gss.Server.Whole.Progress.{Waits, Waits-cases, waiting-Quiet, works}

module _ (env : Environment) (queue : Queue (Task env.time)) (started : ℕ) where
  -- The server goes on from `s` to `s'` without a further request, and no task is left.
  pub record Done (s s' : Server env queue) : Type 0 where
    pub path : Reach env queue started s s'
    pub waits : Waits s'.worker
    pub empty : tasks queue s'.hub.shared ≡ []
    pub requests : s'.requests ≡ s.requests

  Done-later :
      {s u s' : Server env queue}
      → Reach env queue started s u
      → u.requests ≡ s.requests
      → Done u s'
      → Done s s'
  Done-later r same d = record {
    path = Reach-trans env queue r d.path;
    waits = d.waits;
    empty = d.empty;
    requests = d.requests ∙ same;
  }

  drain :
      (n : ℕ) (s : Server env queue)
      → s.status ≡ going
      → Waits s.worker
      → TimerFits s.worker (s.hub.outbox timer)
      → length (tasks queue s.hub.shared) ≡ n
      → n < 2 ^ 64
      → (s' : Server env queue) × Done s s'
  drain zero s on waits fits size few = elim (List-cases (tasks queue s.hub.shared)) [
    | inl nil ↦ (s, record { path = here; waits = waits; empty = nil; requests = refl })
    | inr (t, ts, cons) ↦ absurd (omega (arith, size, ap length cons))
  ]
  drain (suc n) s on waits fits size few = elim (List-cases (tasks queue s.hub.shared)) [
    | inl nil ↦ absurd (omega (arith, size, ap length nil))
    | inr (t, ts, cons) ↦
        let (u, q) = waiting-Quiet env queue started s on waits fits in
        let here_too : tasks queue u.hub.shared ≡ t ∷ ts = ap (tasks queue) q.shared ∙ cons in
        let (v, w) =
          works env queue started u t ts (q.status ∙ on) (subst Waits (sym q.worker) waits) q.quiet
            here_too (omega (arith, ap length here_too, size, ap length cons)) in
        let (s', d) =
          drain n v w.status (inr w.worker)
            (subst (λ k. TimerFits k (v.hub.outbox timer)) (sym w.worker) w.fits)
            (omega (arith, ap length w.left, size, ap length cons)) (omega (arith, few)) in
        (s', Done-later q.path q.requests (Done-later w.path w.requests d))
  ]

  gets-Done :
      (s : Server env queue)
      → s.status ≡ going
      → TimerFits s.worker (s.hub.outbox timer)
      → length (tasks queue s.hub.shared) < 2 ^ 64
      → (s' : Server env queue) × Done s s'
  unfolding handle_timer tell
  gets-Done s on fits few = elim (Waits-cases env queue started s.worker) [
    | inl waits ↦ drain _ s on waits fits refl few
    | inr (t, at) ↦
        let quiet = subst (λ w. TimerFits w (s.hub.outbox timer)) at fits in
        let same = ap (tasks queue) (tell_to-shared queue _ _ s.hub) in
        let (s', d) =
          drain _ (handle_timer env queue t s) on (inr refl)
            (tell-outbox queue env.json t s.hub quiet) (ap length same) few in
        let free : held s.worker < suc started = rw at (omega arith) in
        (s', Done-later (next here (fires t on at free)) refl d)
  ]

  running-nil : (worker : Worker env.time) → Waits worker → running worker ≡ []
  running-nil worker (inl at) = ap running at
  running-nil worker (inr at) = ap running at

  -- Whatever the number of I/O threads is: from every state that the whole server can reach while
  -- it goes on, with fewer than 2^64 tasks in the queue, steps without a further request are
  -- possible after which the tasks that have finished are the tasks in the bodies of all POSTs to
  -- /api/tasks, in the order in which they were handled.
  pub finished-posted :
      (root : Text) (s : Server env queue)
      → Reach env queue started (launch env queue root) s
      → s.status ≡ going
      → length (tasks queue s.hub.shared) < 2 ^ 64
      → (s' : Server env queue) × Reach env queue started s s'
        × (s'.requests ≡ s.requests)
        × (s'.finished ≡ posted_tasks env.json s.requests)
  finished-posted root s r on few =
      let (s', d) = gets-Done s on (outbox-TimerFits env queue root started s r) few in
      let all = tasks-posted env queue started root s' (Reach-trans env queue r d.path) in
      (
        s',
        d.path,
        d.requests,
        sym (append-nil s'.finished)
            ∙ ap (λ l. s'.finished ++ l)
                (sym (
                  ap (λ l. l ++ tasks queue s'.hub.shared) (running-nil s'.worker d.waits)
                  ∙ d.empty))
            ∙ all
            ∙ ap (posted_tasks env.json) d.requests,
      )
